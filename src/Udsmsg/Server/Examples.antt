-- ===== src/Udsmsg/Server/Examples.antt =====
-- The theorems on udsmsg/server.go at concrete inputs, and tests of its functions.
use harness_transport.Udsmsg.Server.ReadLine.{newline, complete, partial, read_line}
use harness_transport.Udsmsg.Server.ReadLine.ByByte.{read_line_cases}
use harness_transport.Udsmsg.Server.Auth.{
  NotDelivered, authenticates, first_line, handle_conn-NotDelivered,
}
use harness_transport.Udsmsg.Server.Lines.{
  unlines, run_lines, callbacks, Sends, serve_peer-run_lines, serve_peer-callbacks,
}
use harness_transport.Udsmsg.Server.{
  Server, Peer, user, dropped, deadline_set, deadline_cleared, invalid_token_continuing, Ucred,
  at_eof, dispatch, serve_peer, conn_loop, on_line, last_line, handle_conn,
}
use harness_transport.Udsmsg.Frame.{Frame, type_auth, type_user}
use harness_transport.Prelude.Int.{pos}
use harness_transport.Prelude.Find.{span}
use harness_transport.Prelude.{
  ◌≡◌, refl, Bool, true, false, Bytes, [], ◌∷◌, ◌++◌, Option, none, some, str_eq, is_empty,
  if◌then◌else◌, All, arith, codes,
}

abbrev blank : Frame
blank = record {
  msg_v = pos 0;
  type = [];
  msg_id = [];
  from = [];
  from_mode = [];
  priority = [];
  token = [];
  message = none;
  raw = [];
}

abbrev auth_with : Bytes → Frame
auth_with t = record blank { type = type_auth; token = t }

abbrev user_frame : Frame
user_frame = record blank { type = type_user }

-- A decoder that knows three lines.
abbrev unmarshal : Bytes → Option Frame
unmarshal line =
    if str_eq line (codes "good")
    then some (auth_with (codes "t"))
    else if str_eq line (codes "bad")
    then some (auth_with (codes "x"))
    else if str_eq line (codes "hi")
    then some user_frame
    else none

abbrev inbox : Bool → Server
inbox require = record {
  unmarshal = unmarshal;
  token = codes "t";
  path = codes "/s";
  require_auth = require;
  allow_unidentified = false;
  has_user = true;
  has_unknown = true;
}

abbrev ucred : Ucred
ucred = record { pid = 7; uid = 0; gid = 0 }

abbrev peer : Peer
peer = record {
  pid = 7;
  uid = 0;
  gid = 0;
  proc_start = [];
  authed = false;
  addr = codes "/s";
  identified = true;
}

-- A right token, and then a prompt.
authed_run :
    handle_conn (inbox true) (λ _. none) (some ucred) (codes "\ngood\nhi\n") at_eof
    ≡ deadline_set
      ∷ deadline_cleared
      ∷ user (record peer { authed = true }) (record user_frame { raw = codes "hi" })
      ∷ []
unfolding handle_conn conn_loop on_line last_line read_line dispatch str_eq is_empty
authed_run = refl

-- A wrong token where authentication is optional.
optional_run :
    handle_conn (inbox false) (λ _. none) (some ucred) (codes "bad\nhi") at_eof
    ≡ deadline_set
      ∷ deadline_cleared
      ∷ dropped peer (codes "bad") invalid_token_continuing
      ∷ user peer (record user_frame { raw = codes "hi" })
      ∷ []
unfolding handle_conn conn_loop on_line last_line read_line dispatch str_eq is_empty
optional_run = refl

read_line_cases_example :
    (read_line 5 (codes "word" ++ newline ∷ codes "x") ≡ complete (codes "word") (codes "x"))
    × (read_line 5 (codes "word") ≡ partial (codes "word"))
read_line_cases_example = read_line_cases 5 (codes "word") (codes "x") refl

handle_conn-NotDelivered_example :
    All NotDelivered
      (handle_conn (inbox true) (λ _. none) (some ucred) (codes "\nhi\ngood\nhi\n") at_eof)
unfolding authenticates first_line span str_eq
handle_conn-NotDelivered_example =
    handle_conn-NotDelivered (inbox true) (λ _. none) (some ucred) (codes "\nhi\ngood\nhi\n") at_eof
      refl refl

serve_peer-run_lines_example :
    serve_peer (inbox true) at_eof peer (unlines (codes "good" ∷ []) (codes "hi"))
    ≡ deadline_set ∷ run_lines (inbox true) at_eof peer true (codes "good" ∷ []) (codes "hi")
serve_peer-run_lines_example =
    serve_peer-run_lines (inbox true) at_eof peer (codes "good" ∷ []) (codes "hi") (refl, tt) refl

hi-Sends : Sends (inbox false) (codes "hi") user_frame
unfolding str_eq is_empty
hi-Sends = record {
  decoded = refl;
  is_user = refl;
  fits = omega arith;
  one_line = refl;
  not_empty = refl;
}

serve_peer-callbacks_example :
    serve_peer (inbox false) at_eof peer (codes "hi\nhi\n")
    ≡ deadline_set
      ∷ deadline_cleared
      ∷ callbacks peer ((codes "hi", user_frame) ∷ (codes "hi", user_frame) ∷ [])
serve_peer-callbacks_example =
    serve_peer-callbacks (inbox false) at_eof peer (codes "hi") user_frame
      ((codes "hi", user_frame) ∷ []) refl refl (λ e. cc) (hi-Sends, (hi-Sends, tt))
