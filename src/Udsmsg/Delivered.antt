-- ===== src/Udsmsg/Delivered.antt =====
-- udsmsg/client.go and udsmsg/server.go together: a message from `Dial` and `SendUser` to the handler of
-- the inbox that was dialled.
pub mod Decoded
mod Examples
use harness_transport.Go.Json.{object}
use harness_transport.Prelude.{
  ℕ, ◌+◌, ◌≤◌, ◌≡◌, refl, ◌∙◌, ap, Bool, true, false, not, ◌&&◌, Bytes, List, [], ◌∷◌, ◌++◌,
  append_assoc, append-nil, Option, none, some, le→leb, length, is_empty, if◌then◌else◌, Result, ok,
  err, arith, inr, str_eq, str_eq_self,
}
use harness_transport.Udsmsg.Attrib.{CrossSession, asserted, unwrap, wrap}
use harness_transport.Udsmsg.Attrib.RoundTrip.{unwrap-wrap}
use harness_transport.Udsmsg.Client.{
  User, UserError, Conn, Target, DialError, completed, content_of, frame_of, build_user_frame, send,
  send_user, auth_frame, authenticate_to, dial,
}
use harness_transport.Udsmsg.Frame.{
  Frame, is_auth, text, type_auth, type_user, max_line_bytes, decode_frame,
}
use harness_transport.Udsmsg.Frame.Encode.{marshal_frame, encode_frame}
use harness_transport.Udsmsg.Frame.Encode.Wire.{marshal_frame-IsOneLine, encode_frame_ok}
use harness_transport.Udsmsg.Server.Lines.{
  unlines, run_lines, Sends, run_lines_users, callbacks, serve_peer-run_lines,
}
use harness_transport.Udsmsg.Server.ReadLine.{newline}
use harness_transport.Udsmsg.Server.{
  Server, Peer, Event, user, deadline_set, deadline_cleared, Ending, at_eof, dispatch, on_line,
  serve_peer, handle_conn, peer_of, Ucred,
}

-- A line that was written: the frame's JSON and a newline, within the cap.
abbrev IsWritten : Conn → Frame → Conn → Type 0
IsWritten c f c' =
    (c'.output ≡ c.output ++ (marshal_frame f ++ newline ∷ []))
    × (length (marshal_frame f) + 1 ≤ max_line_bytes)

send-IsWritten : (c : Conn) (f : Frame) {c' : Conn} → send c f ≡ (c', none) → IsWritten c f c'
unfolding send encode_frame
send-IsWritten c f e = ground arith

-- The frame that `SendUser` sends.
abbrev pub sent_frame : Bytes → User → Frame
sent_frame fresh u = frame_of (completed fresh u)

send_user-IsWritten :
    (fresh : Bytes) (c : Conn) (u : User) {c' : Conn} {id : Bytes}
    → send_user fresh c u ≡ (c', ok id)
    → IsWritten c (sent_frame fresh u) c'
unfolding send_user build_user_frame send encode_frame
send_user-IsWritten fresh c u e = ground arith

-- A connection on which nothing was written.
abbrev pub new_conn : Conn
new_conn = record { output = []; accepts = λ _. true }

dial-IsWritten :
    (alive : ℕ → Bytes → Bool) (t : Target) {c : Conn}
    → is_empty t.token ≡ false
    → dial alive (λ _. some new_conn) t ≡ ok c
    → IsWritten new_conn (auth_frame t.token) c
unfolding dial authenticate_to send encode_frame
dial-IsWritten alive t n e = ground arith

marshal_frame-ne : (f : Frame) → is_empty (marshal_frame f) ≡ false
unfolding marshal_frame object is_empty
marshal_frame-ne f = refl

-- An auth frame with the inbox's token, as the first line.
on_line-auth :
    (s : Server) (p : Peer) (line : Bytes)
    → is_empty line ≡ false
    → s.unmarshal line ≡ some (auth_frame s.token)
    → on_line s p line true
      ≡ record { peer = record p { authed = true }; goes_on = true; events = deadline_cleared ∷ [] }
unfolding on_line dispatch str_eq is_empty
on_line-auth s p line n d = ground (arith, str_eq_self s.token)

-- The two lines of a connection that authenticates and sends one user frame.
run_lines-auth :
    (s : Server) (p : Peer) (a line : Bytes) (f : Frame)
    → s.has_user ≡ true
    → length a + 1 ≤ max_line_bytes
    → is_empty a ≡ false
    → s.unmarshal a ≡ some (auth_frame s.token)
    → Sends s line f
    → run_lines s at_eof p true (a ∷ line ∷ []) []
      ≡ deadline_cleared ∷ callbacks (record p { authed = true }) ((line, f) ∷ [])
unfolding run_lines
run_lines-auth s p a line f hu fits n d sends =
    let p' = record p { authed = true } in
    rw (le→leb (length a + 1) max_line_bytes fits, on_line-auth s p a n d, n)
      (ap (◌∷◌ deadline_cleared)
        (run_lines_users s at_eof p' ((line, f) ∷ []) hu (inr refl) (λ e. cc) (sends, tt)))

sent_frame-user : (fresh : Bytes) (u : User) → (sent_frame fresh u).type ≡ type_user
unfolding frame_of
sent_frame-user fresh u = refl

text-sent_frame :
    (fresh : Bytes) (u : User) {cs : CrossSession}
    → u.attribution ≡ some cs
    → unwrap (text (sent_frame fresh u)) ≡ (asserted cs, u.text, true)
unfolding text frame_of completed content_of
text-sent_frame fresh u {cs} a = rw a (unwrap-wrap cs u.text)

-- A message from one session to another: where the target's token is the inbox's, and decoding gives
-- back the two frames that are written, the bytes that `Dial` and `SendUser` write make the inbox
-- call its handler once, with the kernel's account of the sender, now authenticated, and the frame
-- that was built, with its line in `Raw`, and do nothing else but set and clear the deadline; and
-- `Unwrap` finds in that frame the sender's text whole, and of its attribution what `Wrap` asserts.
pub handle_conn-send_user :
    (s : Server) (start : ℕ → Option Bytes) (c : Ucred) (alive : ℕ → Bytes → Bool) (fresh : Bytes)
    (t : Target) (u : User) {cs : CrossSession} {conn conn' : Conn} {id : Bytes}
    → s.has_user ≡ true
    → is_empty t.token ≡ false
    → t.token ≡ s.token
    → u.attribution ≡ some cs
    → dial alive (λ _. some new_conn) t ≡ ok conn
    → send_user fresh conn u ≡ (conn', ok id)
    → s.unmarshal (marshal_frame (auth_frame s.token)) ≡ some (auth_frame s.token)
    → s.unmarshal (marshal_frame (sent_frame fresh u)) ≡ some (sent_frame fresh u)
    → let f = sent_frame fresh u in
      (handle_conn s start (some c) conn'.output at_eof
        ≡ deadline_set
          ∷ deadline_cleared
          ∷ user
              (record (peer_of start c) { addr = s.path; authed = true })
              (record f { raw = marshal_frame f })
          ∷ [])
      × (unwrap (text f) ≡ (asserted cs, u.text, true))
unfolding handle_conn
handle_conn-send_user s start c alive fresh t u {cs} {conn} {conn'} hu n same a dialled sent ha hf =
    let p = peer_of start c in
    let auth = marshal_frame (auth_frame s.token) in
    let f = sent_frame fresh u in
    let line = marshal_frame f in
    let (first, fits) = rw same at (dial-IsWritten alive t n dialled) in
    let (second, fits') = send_user-IsWritten fresh conn u sent in
    let output : conn'.output ≡ unlines (auth ∷ line ∷ []) [] =
      second
      ∙ ap (λ o. o ++ (line ++ newline ∷ [])) first
      ∙ append_assoc auth (newline ∷ []) (line ++ newline ∷ []) in
    let sends : Sends s line f = record {
      decoded = hf;
      is_user = sent_frame-user fresh u;
      fits = fits';
      one_line = marshal_frame-IsOneLine f;
      not_empty = marshal_frame-ne f;
    } in
    (
      rw output (
          serve_peer-run_lines s at_eof p (auth ∷ line ∷ []) []
            (marshal_frame-IsOneLine (auth_frame s.token), (marshal_frame-IsOneLine f, tt)) refl
          ∙ ap (◌∷◌ deadline_set) (
              run_lines-auth s (record p { addr = s.path }) auth line f hu fits
                (marshal_frame-ne (auth_frame s.token)) ha sends)),
      text-sent_frame fresh u a,
    )
