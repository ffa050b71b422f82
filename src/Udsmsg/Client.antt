-- ===== src/Udsmsg/Client.antt =====
-- udsmsg/client.go, and the message ids of udsmsg/frame.go: a user frame as it is built, measured
-- and sent, and the connection to a target.
use harness_transport.Prelude.Int.{pos}
use harness_transport.Prelude.{
  ℕ, ◌+◌, Bool, true, false, not, ◌&&◌, ◌||◌, Bytes, List, [], ◌∷◌, ◌++◌, Option, none, some, leb,
  ◌==◌, within, if◌then◌else◌, length, codes, is_empty, Result, ok, err,
}
use harness_transport.Udsmsg.Addr.{valid_address}
use harness_transport.Udsmsg.Attrib.{CrossSession, wrap}
use harness_transport.Udsmsg.Frame.{Frame, type_auth, type_user, max_line_bytes}
use harness_transport.Udsmsg.Frame.Encode.{marshal_frame, encode_frame}
use harness_transport.Prelude.Int.{ℤ}

-- `User`
pub record User : Type 0 where
  pub text : Bytes
  pub from : Bytes
  pub from_mode : Bytes
  pub msg_id : Bytes
  pub attribution : Option CrossSession
  pub priority : Bytes

abbrev pub msg_version : ℤ
msg_version = pos 1

abbrev pub priority_next : Bytes
priority_next = codes "next"

-- `[0-9a-f]`
abbrev pub is_hex_char : ℕ → Bool
is_hex_char c = within b'0' b'9' c || within b'a' b'f' c

-- Groups of hexadecimal digits of these sizes, with dashes between them.
unfoldable pub hex_groups : ℕ → List ℕ → Bytes → Bool
hex_groups ℕ.zero [] [] = true
hex_groups ℕ.zero (n ∷ ns) (c ∷ s) = let rest = hex_groups n ns s in c == b'-' && rest
hex_groups (ℕ.suc k) ns (c ∷ s) = let rest = hex_groups k ns s in is_hex_char c && rest
hex_groups _ _ _ = false

-- `msgIDPattern`
unfoldable pub is_msg_id : Bytes → Bool
is_msg_id s = hex_groups 8 (4 ∷ 4 ∷ 4 ∷ 12 ∷ []) s

pub data UserError : Type 0 where
  bad_msg_id bad_address write_failed : UserError
  frame_too_large : ℕ → UserError

-- The `User` completed in place: `fresh` is what `newMsgID` returns.
unfoldable pub completed : Bytes → User → User
completed fresh u = record u {
  msg_id = if is_empty u.msg_id then fresh else u.msg_id;
  priority = if is_empty u.priority then priority_next else u.priority;
}

unfoldable pub content_of : User → Bytes
content_of u = elim u.attribution [ none ↦ u.text | some cs ↦ wrap cs u.text ]

-- The frame of a completed `User`.
unfoldable pub frame_of : User → Frame
unfolding content_of
frame_of u = record {
  msg_v = msg_version;
  type = type_user;
  msg_id = u.msg_id;
  from = u.from;
  from_mode = u.from_mode;
  priority = u.priority;
  token = [];
  message = some (record { role = codes "user"; content = content_of u });
  raw = [];
}

-- `BuildUserFrame`
unfoldable pub build_user_frame : Bytes → User → Result UserError (User × Frame)
build_user_frame fresh u =
    let u' = completed fresh u in
    if not (is_msg_id u'.msg_id)
    then err bad_msg_id
    else if not (is_empty u.from) && not (valid_address u.from)
    then err bad_address
    else ok (u', frame_of u')

-- `EncodedUserSize`
unfoldable pub encoded_user_size : Bytes → User → Result UserError (ℕ × Bool)
encoded_user_size fresh u = elim (build_user_frame fresh u) [
  | err e ↦ err e
  | ok (u', f) ↦ let size = length (marshal_frame f) + 1 in ok (size, leb size max_line_bytes)
]

-- A connection: what was written, and which writes on it pass.
pub record Conn : Type 0 where
  pub output : Bytes
  pub accepts : Bytes → Bool

-- `Send`
unfoldable pub send : Conn → Frame → Conn × Option UserError
send c f = elim (encode_frame f) [
  | err size ↦ (c, some (frame_too_large size))
  | ok line ↦
      if c.accepts line
      then (record c { output = c.output ++ line }, none)
      else (c, some write_failed)
]

-- `SendUser`
unfoldable pub send_user : Bytes → Conn → User → Conn × Result UserError Bytes
send_user fresh c u = elim (build_user_frame fresh u) [
  | err e ↦ (c, err e)
  | ok (u', f) ↦
      let (c', failed) = send c f in (c', elim failed [ some e ↦ err e | none ↦ ok u'.msg_id ])
]

-- `Target` of udsmsg/discover.go.
pub record Target : Type 0 where
  pub pid : ℕ
  pub proc_start : Bytes
  pub socket_path : Bytes
  pub token : Bytes
  pub unauthenticated : Bool

pub data DialError : Type 0 where
  recycled_pid no_token no_connection : DialError
  no_auth : UserError → DialError

abbrev pub auth_frame : Bytes → Frame
auth_frame token = record {
  msg_v = pos 0;
  type = type_auth;
  msg_id = [];
  from = [];
  from_mode = [];
  priority = [];
  token = token;
  message = none;
  raw = [];
}

-- The auth frame in front, where there is a token.
unfoldable pub authenticate_to : Target → Conn → Result DialError Conn
authenticate_to t conn =
    let (conn', failed) = send conn (auth_frame t.token) in
    if is_empty t.token then ok conn else elim failed [ some e ↦ err (no_auth e) | none ↦ ok conn' ]

-- `Dial`: `alive` is `Alive`, and `connect` the connection to a socket path.
unfoldable pub dial : (ℕ → Bytes → Bool) → (Bytes → Option Conn) → Target → Result DialError Conn
dial alive connect t =
    if not (t.pid == 0) && not (is_empty t.proc_start) && not (alive t.pid t.proc_start)
    then err recycled_pid
    else if is_empty t.token && not t.unauthenticated
    then err no_token
    else elim (connect t.socket_path) [
      | none ↦ err no_connection
      | some conn ↦ authenticate_to t conn
    ]
