-- ===== src/ClaudeSend/Examples.antt =====
-- The theorems on cmd/claude-send/main.go at concrete inputs, and tests of its functions.
use harness_transport.Disk.Memory.{memory_disk, empty_disk}
use harness_transport.Udsmsg.KeyFile
use harness_transport.Udsmsg.Listen.{Machine}
use harness_transport.Udsmsg.Session.{Process}
use harness_transport.ClaudeSend.Accept.{accepter, hear, wanted_pid}
use harness_transport.ClaudeSend.Answers.{output, wanted_output, has_answer, await-answers}
use harness_transport.ClaudeSend.Await.{await}
use harness_transport.ClaudeSend.Exits.{EndsAs, run-EndsAs}
use harness_transport.ClaudeSend.Message.{World}
use harness_transport.ClaudeSend.Run.{text_of, run}
use harness_transport.ClaudeSend.Senders.{Arrival, IsHanded, handed, sent_by, hear-sent_by}
use harness_transport.ClaudeSend.{Options, exit_ok, exit_error, exit_timeout}
use harness_transport.Prelude.Int.{pos}
use harness_transport.Prelude.Find.{span}
use harness_transport.Prelude.{
  ℕ, ◌≡◌, ◌==◌, is_empty, ◌⊎◌, refl, true, false, Bytes, List, [], ◌∷◌, Option, none, some, map,
  codes, str_eq, if◌then◌else◌, err,
}
use harness_transport.Udsmsg.Client.{Target}
use harness_transport.Udsmsg.Frame.{Frame, type_user}
use harness_transport.Udsmsg.KeyFile.{Key}
use harness_transport.Udsmsg.Proc.{no_parent}
use harness_transport.Udsmsg.Server.{
  Server, Peer, at_eof, handle_conn, dispatch, conn_loop, on_line, last_line,
}
use harness_transport.Udsmsg.Server.ReadLine.{read_line}
use mathlib.Core.List.{mem-cons_self, mem-cons_of_mem}

abbrev said : Bytes → Frame
said content = record {
  msg_v = pos 1;
  type = type_user;
  msg_id = [];
  from = [];
  from_mode = [];
  priority = [];
  token = [];
  message = some (record { role = codes "user"; content = content });
  raw = codes "hi";
}

abbrev waiting : Bytes → Options
waiting how = record {
  to = 7;
  to_socket = [];
  wait = how;
  timeout = codes "5m0s";
  no_auth = false;
  no_hint = false;
  json_out = false;
  quiet = false;
  any_sender = false;
  name = [];
  announce = [];
  publish_key = false;
}

abbrev inbox : Server
inbox = record {
  unmarshal = λ _. some (said (codes "yes"));
  token = codes "t";
  path = codes "/s";
  require_auth = false;
  allow_unidentified = true;
  has_user = true;
  has_unknown = false;
}

abbrev peer_with : ℕ → Peer
peer_with pid = record {
  pid = pid;
  uid = 0;
  gid = 0;
  proc_start = [];
  authed = false;
  addr = codes "/s";
  identified = true;
}

abbrev arrival_from : ℕ → Arrival
arrival_from pid = record {
  sender = some (record { pid = pid; uid = 0; gid = 0 });
  input = codes "hi\n";
  end = at_eof;
  peer = peer_with pid;
  frame = said (codes "yes");
}

arrival_from-IsHanded : (pid : ℕ) → IsHanded inbox (λ _. none) (arrival_from pid)
unfolding handle_conn conn_loop dispatch on_line last_line str_eq is_empty read_line span
arrival_from-IsHanded pid = mem-cons_of_mem _ (mem-cons_of_mem _ mem-cons_self)

abbrev arrival_unnamed : Arrival
arrival_unnamed = record {
  sender = none;
  input = codes "hi\n";
  end = at_eof;
  peer = record (peer_with 0) { identified = false };
  frame = said (codes "yes");
}

arrival_unnamed-IsHanded : IsHanded inbox (λ _. none) arrival_unnamed
unfolding handle_conn conn_loop dispatch on_line last_line str_eq is_empty read_line span
arrival_unnamed-IsHanded = mem-cons_of_mem _ (mem-cons_of_mem _ (mem-cons_of_mem _ mem-cons_self))

abbrev session : Target
session = record {
  pid = 7;
  proc_start = [];
  socket_path = codes "/tmp/7.sock";
  token = codes "t";
  unauthenticated = false;
}

abbrev three_arrivals : List Arrival
three_arrivals = arrival_from 8 ∷ arrival_unnamed ∷ arrival_from 7 ∷ []

hear-sent_by_example :
    (hear (accepter (λ p. p) session false).0 false (map handed three_arrivals)).0
    ≡ sent_by (wanted_pid (λ p. p) session) three_arrivals
unfolding wanted_pid
hear-sent_by_example =
    hear-sent_by inbox (λ _. none) (λ p. p) session three_arrivals known
      (arrival_from-IsHanded 8, (arrival_unnamed-IsHanded, (arrival_from-IsHanded 7, tt)))
  where
    known : (wanted_pid (λ p. p) session == 0) ≡ false
    known = refl

abbrev frames : List Frame
frames = said (codes "yes") ∷ said (codes "also") ∷ []

await-answers_example :
    (output (await (waiting (codes "replies")) 0 frames).0
      ≡ wanted_output (waiting (codes "replies")) frames)
    × ((await (waiting (codes "replies")) 0 frames).1
        ≡ (if has_answer frames then exit_ok else exit_timeout))
await-answers_example = await-answers (waiting (codes "replies")) frames

abbrev machine : Machine
machine = record {
  join = λ _ name. name;
  dir_of = λ _. codes "/d";
  dir_info = λ _. some (record { is_dir = true; perm = 448; owner = some 0 });
  made_info = λ _. none;
  makes_dir = λ _. true;
  secures_dir = λ _. true;
  is_socket = λ _. false;
  resolves = λ _. true;
  binds = λ _. true;
  secures = λ _. true;
  uid = 1;
  pid = 9;
  random_name = some (1 ∷ 2 ∷ 3 ∷ 4 ∷ []);
  random_token = 1 ∷ [];
  random_suffix = some (2 ∷ []);
  mode = err no_parent;
  started = none;
  domain = none;
}

abbrev key_host : KeyFile.Host
key_host = record {
  eval_symlinks = λ _. none;
  clean = λ p. p;
  abs = λ p. some p;
  sha256 = λ _. 171 ∷ [];
  in_sessions = λ n. n;
}

abbrev process : Process
process = record {
  pid = 9;
  uuid = codes "u";
  cwd = codes "/w";
  now = pos 1700000000000;
  started = some (codes "9");
  domain = none;
}

-- A session with an inbox, which answers.
abbrev world : World memory_disk
world = record {
  stdin = none;
  is_terminal = true;
  base = λ p. p;
  host = record {
    usable = λ _. true;
    has_file = λ _. true;
    join = λ _ name. name;
    read_key = λ _ _. ok_key;
    env_socket = [];
    env_token = [];
  };
  socket_dirs = codes "/tmp" ∷ [];
  system = record { read_file = λ _. none; read_link = λ _. none; base = λ p. p; env_socket = [] };
  machine = machine;
  key_host = key_host;
  disk = empty_disk;
  process = process;
  in_sessions = λ n. n;
  random_suffix = some (2 ∷ []);
  cwd = some (codes "src");
  quoted = λ s. s;
  connect = λ _. some (record { output = []; accepts = λ _. true });
  fresh_id = codes "00000000-0000-4000-8000-000000000000";
  arrivals = map handed (arrival_from 7 ∷ []);
}
  where
    ok_key : Option (Option Key)
    ok_key = some (some (record { peer_token = codes "t"; proc_start = []; pid_domain = [] }))

abbrev announcing : Options
announcing = record (waiting (codes "reply")) { announce = codes "me" }

run-EndsAs_example :
    ((run world (waiting (codes "reply")) (codes "hello" ∷ [])).1 ≡ exit_error)
    ⊎ ((body : Bytes) × (text_of world (codes "hello" ∷ []) ≡ some body)
        × EndsAs world
            (waiting (codes "reply"))
            body
            (run world (waiting (codes "reply")) (codes "hello" ∷ [])).1)
run-EndsAs_example = run-EndsAs world (waiting (codes "reply")) (codes "hello" ∷ [])
