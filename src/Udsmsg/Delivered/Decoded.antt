-- ===== src/Udsmsg/Delivered/Decoded.antt =====
-- A message between sessions through `encoding/json`, written and read.
use harness_transport.Prelude.{
  List, ltb, all, zero, suc, ℕ, ◌≡◌, refl, true, false, Bool, Bytes, Option, [], ◌∷◌, some,
  is_empty, ok, arith,
}
use harness_transport.Go.Utf8.Valid.{are_valid}
use harness_transport.Go.Utf8.{runes_from}
use harness_transport.Udsmsg.Attrib.{CrossSession, asserted, unwrap}
use harness_transport.Udsmsg.Client.{
  User, Conn, Target, completed, content_of, frame_of, send_user, build_user_frame, is_msg_id,
  hex_groups, auth_frame, dial,
}
use harness_transport.Udsmsg.Delivered.{sent_frame, new_conn, handle_conn-send_user}
use harness_transport.Udsmsg.Frame.{text}
use harness_transport.Udsmsg.Frame.Decode.{unmarshal_frame}
use harness_transport.Go.Json.Store.Laws.{IsText, ascii-IsText}
use harness_transport.Udsmsg.Frame.Decode.Fields.{IsSound}
use harness_transport.Udsmsg.Frame.Decode.RoundTrip.{unmarshal_frame-marshal_frame}
use harness_transport.Udsmsg.Frame.Encode.{marshal_frame}
use harness_transport.Udsmsg.Server.{
  Server, user, deadline_set, deadline_cleared, at_eof, handle_conn, peer_of, Ucred,
}

-- A server that decodes with `encoding/json`.
abbrev pub decoding : Server → Server
decoding s = record s { unmarshal = unmarshal_frame }

-- What a message says is UTF-8; its id is checked to be ASCII.
pub record AreTexts (u : User) : Type 0 where
  pub from : IsText u.from
  pub from_mode : IsText u.from_mode
  pub priority : IsText u.priority
  pub content : IsText (content_of u)

auth_frame-IsSound : (token : Bytes) → IsText token → IsSound (auth_frame token)
unfolding runes_from are_valid
auth_frame-IsSound token h = record {
  version = omega arith;
  type = refl;
  msg_id = refl;
  from = refl;
  from_mode = refl;
  priority = refl;
  token = h;
  message = tt;
}

hex_groups-ascii :
    (k : ℕ) (ns : List ℕ) (s : Bytes) → hex_groups k ns s ≡ true → all (λ c. ltb c 0x80) s ≡ true
unfolding hex_groups
hex_groups-ascii k ns [] h = refl
hex_groups-ascii zero [] (c ∷ s) h = absurd (cc)
hex_groups-ascii zero (n ∷ ns) (c ∷ s) h = ground (arith, hex_groups-ascii n ns s)
hex_groups-ascii (suc k) ns (c ∷ s) h = ground (arith, hex_groups-ascii k ns s)

msg_id-IsText : (s : Bytes) → is_msg_id s ≡ true → IsText s
unfolding is_msg_id
msg_id-IsText s h = ascii-IsText s (hex_groups-ascii _ _ s h)

-- A message that was sent has an id of the right shape.
send_user-is_msg_id :
    (fresh : Bytes) (c : Conn) (u : User) {c' : Conn} {id : Bytes}
    → send_user fresh c u ≡ (c', ok id)
    → is_msg_id (completed fresh u).msg_id ≡ true
unfolding send_user build_user_frame
send_user-is_msg_id fresh c u e = ground arith

frame_of-IsSound : (u : User) → is_msg_id u.msg_id ≡ true → AreTexts u → IsSound (frame_of u)
unfolding frame_of runes_from are_valid
frame_of-IsSound u shape h = record {
  version = omega arith;
  type = refl;
  msg_id = msg_id-IsText u.msg_id shape;
  from = h.from;
  from_mode = h.from_mode;
  priority = h.priority;
  token = refl;
  message = (refl, h.content);
}

auth_decoded :
    (token : Bytes)
    → IsText token
    → unmarshal_frame (marshal_frame (auth_frame token)) ≡ some (auth_frame token)
auth_decoded token h = unmarshal_frame-marshal_frame (auth_frame token) (auth_frame-IsSound token h)

user_decoded :
    (u : User)
    → is_msg_id u.msg_id ≡ true
    → AreTexts u
    → unmarshal_frame (marshal_frame (frame_of u)) ≡ some (frame_of u)
unfolding frame_of
user_decoded u shape h = unmarshal_frame-marshal_frame (frame_of u) (frame_of-IsSound u shape h)

-- A message from one session to another: where the target's token is the inbox's, and the token, the
-- sender's address and posture, the priority and the text with its attribution are UTF-8, the bytes
-- that `Dial` and `SendUser` write make the inbox call its handler once, with the kernel's account
-- of the sender, now authenticated, and the frame that was built, with its line in `Raw`, and do
-- nothing else but set and clear the deadline; and `Unwrap` finds in that frame the sender's text
-- whole, and of its attribution what `Wrap` asserts.
pub handle_conn-send_user_decoded :
    (s : Server) (start : ℕ → Option Bytes) (c : Ucred) (alive : ℕ → Bytes → Bool) (fresh : Bytes)
    (t : Target) (u : User) {cs : CrossSession} {conn conn' : Conn} {id : Bytes}
    → s.has_user ≡ true
    → is_empty t.token ≡ false
    → t.token ≡ s.token
    → u.attribution ≡ some cs
    → dial alive (λ _. some new_conn) t ≡ ok conn
    → send_user fresh conn u ≡ (conn', ok id)
    → IsText s.token
    → AreTexts (completed fresh u)
    → let f = sent_frame fresh u in
      (handle_conn (decoding s) start (some c) conn'.output at_eof
        ≡ deadline_set
          ∷ deadline_cleared
          ∷ user
              (record (peer_of start c) { addr = s.path; authed = true })
              (record f { raw = marshal_frame f })
          ∷ [])
      × (unwrap (text f) ≡ (asserted cs, u.text, true))
handle_conn-send_user_decoded s start c alive fresh t u {conn = conn} hu n same a dialled sent
      token_text texts =
    handle_conn-send_user (decoding s) start c alive fresh t u hu n same a dialled sent
      (auth_decoded s.token token_text)
      (user_decoded (completed fresh u) (send_user-is_msg_id fresh conn u sent) texts)
