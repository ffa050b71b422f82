-- ===== src/Deliver/Examples.antt =====
-- The theorems on deliver/ at concrete inputs.
use harness_transport.Deliver.Claude.Guard.{deliver_writes, appended, sent_frame}
use harness_transport.Deliver.Claude
use harness_transport.Deliver.Codex.Honesty.{Echoed, deliver_stored, deliver_echoed}
use harness_transport.Deliver.Codex.Latch.{ids_seen, adopt_all, all_are, latched, adopt_all-latched}
use harness_transport.Deliver.Codex.Race.{dropped, outcome_of, deliver_raced}
use harness_transport.Deliver.Codex.Floor.{fits_floor}
use harness_transport.Deliver.Codex.OneThread.{deliver-agreed, deliver_two_threads}
use harness_transport.Deliver.Codex.Receipts.{QueuesOnly}
use harness_transport.Deliver.Codex.{
  send, connect, queue, receipt, first_text, adopt, queued, max_intact_bytes, fits, Backend,
  new_codex, World, deliver, available, two_threads, cannot_deliver,
}
use harness_transport.Deliver.Trailer.{read_trailer, read_trailer-compose}
use harness_transport.Deliver.{
  observed_stored, observed_nothing, Delivery, compose, lead, anchor, mark, Meta, string,
  id_of_value, thread_id_from_meta,
}
use harness_transport.Go.Space.{trim_space}
use harness_transport.Go.Utf8.{runes_from}
use harness_transport.Prelude.Find.{cut_suffix, span}
use harness_transport.Prelude.{
  ◌^◌, ◌-◌, ◌≡◌, refl, true, false, Bytes, List, [], ◌∷◌, ◌++◌, none, some, codes, is_empty, str_eq,
  All, ok, err, arith,
}
use harness_transport.Udsmsg.Client.{Conn, dial, authenticate_to, auth_frame, is_msg_id, hex_groups}
use harness_transport.Udsmsg.Frame.Encode.{
  marshal_frame, encode_frame, version_member, text_member, message_member,
}
use harness_transport.Udsmsg.Client
use harness_transport.Udsmsg.Addr.{pid_from_socket_name, valid_socket_name, has_dots, is_dial_name}
use harness_transport.Go.Strconv.{atoi}
use harness_transport.Go.Json.{object, quote}

abbrev meta_of : Bytes → Meta
meta_of id = some (λ _. some (string id))

abbrev one_thread : List Meta
one_thread = none ∷ meta_of (codes "a") ∷ some (λ _. none) ∷ meta_of (codes "a") ∷ []

abbrev mixed_threads : List Meta
mixed_threads = meta_of (codes "a") ∷ meta_of (codes "b") ∷ meta_of (codes "a") ∷ []

abbrev hello : Delivery
hello = record { cursor = codes "7"; body = codes "see [cursor: 3]"; more = true }

-- A daemon that echoes what it is sent.
abbrev world : World
world = record {
  socket_found = true;
  dial = some 4;
  initialize = λ _ _. true;
  queue_message = λ _ _ text. some (text ∷ []);
  sha256 = λ s. s;
  before_thread = λ c. c;
  while_dialling = λ c. c;
  while_queueing = λ c. c;
}

abbrev ready : Backend
ready = record { thread = codes "a"; disabled = false; client = some 2; name = codes "me" }

adopt_all-latched_example :
    adopt_all (new_codex (codes "mcp") (codes "me")) mixed_threads
    ≡ latched (new_codex (codes "mcp") (codes "me")) (ids_seen mixed_threads)
adopt_all-latched_example = adopt_all-latched (codes "mcp") (codes "me") mixed_threads

one_thread_ids : ids_seen one_thread ≡ codes "a" ∷ codes "a" ∷ []
unfolding ids_seen thread_id_from_meta id_of_value trim_space runes_from is_empty
one_thread_ids = refl

mixed_threads_ids : ids_seen mixed_threads ≡ codes "a" ∷ codes "b" ∷ codes "a" ∷ []
unfolding ids_seen thread_id_from_meta id_of_value trim_space runes_from is_empty
mixed_threads_ids = refl

deliver-agreed_example :
    All
      (QueuesOnly (codes "a") (compose hello))
      (deliver world (adopt_all (new_codex [] (codes "me")) one_thread) hello).1
unfolding all_are str_eq
deliver-agreed_example =
    deliver-agreed world [] (codes "me") one_thread hello one_thread_ids refl (λ c. refl)

deliver_two_threads_example :
    deliver world (adopt_all (new_codex [] (codes "me")) mixed_threads) hello
    ≡ (adopt_all (new_codex [] (codes "me")) mixed_threads, [], err (cannot_deliver two_threads))
unfolding all_are str_eq
deliver_two_threads_example =
    deliver_two_threads world [] (codes "me") mixed_threads hello mixed_threads_ids refl

deliver_echoed_example : (deliver world ready hello).2 ≡ ok observed_stored
unfolding compose lead anchor mark runes_from available is_empty
deliver_echoed_example = deliver_echoed world ready hello 2 [] refl (omega arith) refl refl

hello_stored : (deliver world ready hello).2 ≡ ok observed_stored
unfolding deliver available compose lead anchor mark runes_from send connect queue receipt
    first_text is_empty str_eq
hello_stored = refl

deliver_stored_example : Echoed world (codes "a") (compose hello)
deliver_stored_example = deliver_stored world ready hello hello_stored

read_trailer-compose_example : read_trailer (compose hello) ≡ some (codes "7", true)
unfolding anchor cut_suffix str_eq is_empty
read_trailer-compose_example = read_trailer-compose hello refl refl

abbrev claude : Claude.Backend
claude = record {
  socket = codes "/x.sock";
  token = codes "t";
  reply_to = [];
  mode = codes "prompting";
  name = codes "me";
}

abbrev idle : Conn
idle = record { output = []; accepts = λ _. true }

abbrev host : Claude.System
host = record {
  is_socket = λ _. true;
  base = λ _. codes "x.sock";
  proc_start = λ _. none;
  alive = λ _ _. true;
  connect = λ _. some idle;
}

abbrev id : Bytes
id = codes "01234567-89ab-cdef-0123-456789abcdef"

-- The connection behind the auth frame.
abbrev authed : Conn
authed = appended idle (marshal_frame (auth_frame (codes "t")) ++ b'\n' ∷ [])

host_dialled : dial host.alive host.connect (Claude.target_of host claude) ≡ ok authed
unfolding Claude.target_of pid_from_socket_name valid_socket_name has_dots is_dial_name atoi span
    cut_suffix dial authenticate_to Client.send encode_frame marshal_frame version_member
    text_member message_member object quote runes_from is_empty str_eq
host_dialled = refl

deliver_writes_example : Claude.deliver id host claude hello ≡ (
  some (appended authed (marshal_frame (sent_frame id claude (compose hello)) ++ b'\n' ∷ [])),
  ok observed_nothing,
)
unfolding Claude.available compose lead anchor mark is_msg_id hex_groups is_empty
deliver_writes_example =
    deliver_writes id host claude hello authed refl (omega arith) host_dialled refl refl refl
      (omega arith) (omega arith)

-- A second thread's request between the check and the reading of the thread.
abbrev racing : World
racing = record world { before_thread = λ c. (adopt c (meta_of (codes "b"))).0 }

b_named : thread_id_from_meta (meta_of (codes "b")) ≡ ok (codes "b")
b_named = unfold thread_id_from_meta id_of_value trim_space runes_from is_empty in refl

deliver_raced_example :
    let c = (adopt ready (meta_of (codes "b"))).0 in
    (c.disabled ≡ true)
    × ((deliver racing ready hello).1
        ≡ queued 2 [] (compose hello) ∷ dropped racing c 2 [] (compose hello))
    × ((deliver racing ready hello).2 ≡ outcome_of racing 2 [] (compose hello))
unfolding compose lead anchor mark runes_from available is_empty str_eq
deliver_raced_example =
    deliver_raced racing ready hello (meta_of (codes "b")) 2 refl (omega arith) b_named refl refl
      refl

fits_floor_example : (fits hello).0 ≡ true
unfolding max_intact_bytes available is_empty
fits_floor_example =
    fits_floor true ready hello {n = 2 ^ 20 - 4096} refl (omega arith) (omega arith)
