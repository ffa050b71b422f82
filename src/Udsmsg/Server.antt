-- ===== src/Udsmsg/Server.antt =====
-- udsmsg/server.go and peer.go: one connection of an inbox, from the first byte to the last.
-- What the server does is a list of events: the calls of its handlers, its log lines, and the
-- changes of the read deadline.
pub mod ReadLine
pub mod Auth
pub mod Lines
pub mod Credentials
pub mod Accepting
mod Examples
use ReadLine.{Line, complete, partial, too_long, read_line}
use harness_transport.Udsmsg.Frame.{Frame, decode_frame, is_auth, type_user, max_line_bytes}
use harness_transport.Prelude.{
  ℕ, zero, suc, Bool, true, false, not, ◌&&◌, Bytes, List, [], ◌∷◌, ◌++◌, Option, none, some,
  str_eq, is_empty, if◌then◌else◌, length,
}

-- Who is connected: the kernel's answer, and whether a valid token came.
pub record Peer : Type 0 where
  pub pid : ℕ
  pub uid : ℕ
  pub gid : ℕ
  pub proc_start : Bytes
  pub authed : Bool
  pub addr : Bytes
  pub identified : Bool

abbrev no_peer : Peer
no_peer = record {
  pid = 0;
  uid = 0;
  gid = 0;
  proc_start = [];
  authed = false;
  addr = [];
  identified = false;
}

-- The parts of `Config` and `Server` that a connection uses. `unmarshal` is `json.Unmarshal`.
pub record Server : Type 0 where
  pub unmarshal : Bytes → Option Frame
  pub token : Bytes
  pub path : Bytes
  pub require_auth : Bool
  pub allow_unidentified : Bool
  pub has_user : Bool
  pub has_unknown : Bool

pub data Reason : Type 0 where
  unparsable no_type invalid_token_closing invalid_token_continuing unauthenticated : Reason
  line_too_long : Reason

pub data Problem : Type 0 where
  refused_unidentified accepted_unidentified read_failed : Problem

-- `dropped` and `reported` stand for `OnDrop` and `OnError`, or the log line in their place.
pub data Event : Type 0 where
  user unknown : Peer → Frame → Event
  dropped : Peer → Bytes → Reason → Event
  reported : Problem → Event
  deadline_set deadline_cleared : Event

-- What one dispatch leaves: the peer, whether the connection goes on, and what happened.
pub record Outcome : Type 0 where
  pub peer : Peer
  pub goes_on : Bool
  pub events : List Event

drop_line : Peer → Bytes → Reason → Bool → Outcome
drop_line p line why goes_on = record {
  peer = p;
  goes_on = goes_on;
  events = dropped p line why ∷ [];
}

-- `case` of the auth frame: the token compared, and what a wrong one costs.
authenticate : Server → Peer → Bytes → Frame → Outcome
unfolding drop_line
authenticate s p line f =
    if str_eq f.token s.token
    then record { peer = record p { authed = true }; goes_on = true; events = [] }
    else if s.require_auth
    then drop_line p line invalid_token_closing false
    else drop_line p line invalid_token_continuing true

-- `call`: the handler, or the fallback, or neither.
call : Bool → Bool → Event → Event → List Event
call has_fn has_fallback e fallback =
    if has_fn then e ∷ [] else if has_fallback then fallback ∷ [] else []

hand_on : Server → Peer → Frame → List Event
unfolding call
hand_on s p f =
    if str_eq f.type type_user
    then call s.has_user s.has_unknown (user p f) (unknown p f)
    else call false s.has_unknown (user p f) (unknown p f)

accept_frame : Server → Peer → Bytes → Bool → Frame → Outcome
unfolding drop_line authenticate hand_on is_auth
accept_frame s p line is_first f =
    if is_empty f.type
    then drop_line p line no_type true
    else if is_first && is_auth f
    then authenticate s p line f
    else if s.require_auth && not p.authed
    then drop_line p line unauthenticated false
    else record { peer = p; goes_on = true; events = hand_on s p f }

unfoldable pub dispatch : Server → Peer → Bytes → Bool → Outcome
unfolding accept_frame drop_line decode_frame
dispatch s p line is_first = elim (decode_frame s.unmarshal line) [
  | none ↦ drop_line p line unparsable true
  | some f ↦ accept_frame s p line is_first f
]

-- How the stream ends: `io.EOF`, a connection closed here, or another error such as the deadline.
pub data Ending : Type 0 where
  at_eof at_closed at_error : Ending

-- A non-empty line in the loop of `handleConn`.
unfoldable pub on_line : Server → Peer → Bytes → Bool → Outcome
on_line s p line first =
    let o = dispatch s p line first in
    if is_empty line
    then record { peer = p; goes_on = true; events = [] }
    else if first
    then record o { events = deadline_cleared ∷ o.events }
    else o

-- `first` after a line: an empty one does not count.
abbrev pub still_first : Bool → Bytes → Bool
still_first first line = first && is_empty line

-- The last line, which came with no newline, and what ended the stream.
unfoldable pub last_line : Server → Ending → Peer → Bytes → Bool → List Event
last_line s end p line first =
    let o = on_line s p line first in
    o.events
    ++ (if o.goes_on then elim end [ at_error ↦ reported read_failed ∷ [] | _ ↦ [] ] else [])

-- The loop; every round but the last takes a newline, so the input's length bounds the rounds.
unfoldable pub conn_loop : Server → Ending → ℕ → Peer → Bool → Bytes → List Event
conn_loop s end zero p first input = []
conn_loop s end (suc fuel) p first input = elim (read_line max_line_bytes input) [
  | too_long ↦ dropped p [] line_too_long ∷ []
  | partial line ↦ last_line s end p line first
  | complete line rest ↦
      let o = on_line s p line first in
      let later = conn_loop s end fuel o.peer (still_first first line) rest in
      o.events ++ (if o.goes_on then later else [])
]

abbrev pub serve_peer : Server → Ending → Peer → Bytes → List Event
serve_peer s end p input =
    deadline_set ∷ conn_loop s end (suc (length input)) (record p { addr = s.path }) true input

-- What SO_PEERCRED answers.
pub record Ucred : Type 0 where
  pub pid : ℕ
  pub uid : ℕ
  pub gid : ℕ

-- `peerCred` on Linux: `start` is `ProcStart`, whose failure leaves the start time empty.
unfoldable pub peer_of : (ℕ → Option Bytes) → Ucred → Peer
peer_of start cred = record {
  pid = cred.pid;
  uid = cred.uid;
  gid = cred.gid;
  proc_start = elim (start cred.pid) [ some t ↦ t | none ↦ [] ];
  authed = false;
  addr = [];
  identified = true;
}

-- `handleConn`: `cred` is what the kernel answers, and `input` what the peer sends before `end`.
unfoldable pub handle_conn :
    Server → (ℕ → Option Bytes) → Option Ucred → Bytes → Ending → List Event
unfolding peer_of
handle_conn s start cred input end = elim cred [
  | some c ↦ serve_peer s end (peer_of start c) input
  | none ↦
      if s.allow_unidentified
      then reported accepted_unidentified ∷ serve_peer s end no_peer input
      else reported refused_unidentified ∷ []
]
