-- ===== src/Deliver/Claude/Guard.antt =====
-- What passes the guard of `Deliver` is written as one line.
use harness_transport.Deliver.{observed_nothing, Delivery, compose}
use harness_transport.Deliver.Claude.{
  Backend, System, max_intact_bytes, available, target_of, attributed, written, deliver,
}
use harness_transport.Prelude.{
  ℕ, zero, suc, ◌+◌, ◌≤◌, ◌≡◌, refl, true, false, not, ◌&&◌, Bytes, List, [], ◌∷◌, ◌++◌, none, some,
  length, is_empty, codes, le→ltb_false, ok, arith,
}
use harness_transport.Udsmsg.Addr.{valid_address}
use harness_transport.Udsmsg.Attrib.{wrap, CrossSession}
use harness_transport.Udsmsg.Attrib.Size.{length-wrap}
use harness_transport.Udsmsg.Client.{
  Conn, hex_groups, is_msg_id, completed, content_of, frame_of, build_user_frame, send, send_user,
  dial,
}
use harness_transport.Udsmsg.Frame.{Frame, max_line_bytes}
use harness_transport.Udsmsg.Frame.Encode.{marshal_frame, encode_frame}
use harness_transport.Udsmsg.Frame.Encode.Size.{length-marshal_frame}

-- The length of groups of digits, with a dash in front of each but the first.
abbrev groups_length : ℕ → List ℕ → ℕ
groups_length k [] = k
groups_length k (n ∷ ns) = k + suc (groups_length n ns)

length-hex_groups :
    (k : ℕ) (ns : List ℕ) (s : Bytes) → hex_groups k ns s ≡ true → length s ≡ groups_length k ns
unfolding hex_groups
length-hex_groups zero [] [] h = refl
length-hex_groups zero [] (c ∷ s) h = cc
length-hex_groups zero (n ∷ ns) [] h = cc
length-hex_groups zero (n ∷ ns) (c ∷ s) h = ground (arith, length-hex_groups n ns s)
length-hex_groups (suc k) ns [] h = cc
length-hex_groups (suc k) [] (c ∷ s) h = ground (arith, length-hex_groups k [] s)
length-hex_groups (suc k) (n ∷ ns) (c ∷ s) h = ground (arith, length-hex_groups k (n ∷ ns) s)

length-is_msg_id : (s : Bytes) → is_msg_id s ≡ true → length s ≡ 36
unfolding is_msg_id
length-is_msg_id s h = length-hex_groups 8 (4 ∷ 4 ∷ 4 ∷ 12 ∷ []) s h

-- The frame that `Deliver` sends, under the id `fresh`.
abbrev pub sent_frame : Bytes → Backend → Bytes → Frame
sent_frame fresh c text = frame_of (completed fresh (attributed c text c.mode))

completed_id :
    (fresh : Bytes) (c : Backend) (text : Bytes)
    → (completed fresh (attributed c text c.mode)).msg_id ≡ fresh
unfolding completed attributed is_empty
completed_id fresh c text = refl

-- The frame fits in a line.
sent_frame_fits :
    (fresh : Bytes) (c : Backend) (text : Bytes)
    → length text ≤ max_intact_bytes
    → length fresh ≡ 36
    → length c.mode ≤ 9
    → length c.reply_to + length c.name ≤ 300
    → length (marshal_frame (sent_frame fresh c text)) + 1 ≤ max_line_bytes
unfolding frame_of completed attributed content_of is_empty
sent_frame_fits fresh c text fit id_length mode_length names =
    let cs : CrossSession = record { from = c.reply_to; name = c.name; mode = c.mode } in
    omega (
      arith,
      length-marshal_frame (sent_frame fresh c text) (codes "user") (wrap cs text) refl refl,
      length-wrap cs text,
    )

encode_frame_fits :
    (f : Frame)
    → length (marshal_frame f) + 1 ≤ max_line_bytes
    → encode_frame f ≡ ok (marshal_frame f ++ b'\n' ∷ [])
unfolding encode_frame
encode_frame_fits f h = rw (le→ltb_false max_line_bytes (length (marshal_frame f) + 1) h) refl

abbrev pub appended : Conn → Bytes → Conn
appended conn line = record conn { output = conn.output ++ line }

send_user_writes :
    (fresh : Bytes) (conn : Conn) (c : Backend) (text : Bytes)
    → conn.accepts (marshal_frame (sent_frame fresh c text) ++ b'\n' ∷ []) ≡ true
    → is_msg_id fresh ≡ true
    → (not (is_empty c.reply_to) && not (valid_address c.reply_to)) ≡ false
    → length (marshal_frame (sent_frame fresh c text)) + 1 ≤ max_line_bytes
    → send_user fresh conn (attributed c text c.mode)
      ≡ (appended conn (marshal_frame (sent_frame fresh c text) ++ b'\n' ∷ []), ok fresh)
unfolding send_user build_user_frame send attributed completed is_empty
send_user_writes fresh conn c text live id_ok address fits =
    rw
      (
        id_ok,
        address,
        build_user_frame,
        send_user,
        encode_frame_fits (sent_frame fresh c text) fits,
        send,
        live,
      )
      refl

-- A delivery that passes the guard on its length, over a connection that was dialled and takes the
-- write, is written whole, as the one line of its frame, and the receipt claims no arrival: where
-- the generated id has the shape that is checked, the reply address is empty or valid, the posture
-- has nine bytes at most, and the address and the sender's name together have at most 300.
pub deliver_writes :
    (fresh : Bytes) (s : System) (c : Backend) (d : Delivery) (conn : Conn)
    → available s c ≡ none
    → length (compose d) ≤ max_intact_bytes
    → dial s.alive s.connect (target_of s c) ≡ ok conn
    → conn.accepts (marshal_frame (sent_frame fresh c (compose d)) ++ b'\n' ∷ []) ≡ true
    → is_msg_id fresh ≡ true
    → (not (is_empty c.reply_to) && not (valid_address c.reply_to)) ≡ false
    → length c.mode ≤ 9
    → length c.reply_to + length c.name ≤ 300
    → deliver fresh s c d ≡ (
      some (appended conn (marshal_frame (sent_frame fresh c (compose d)) ++ b'\n' ∷ [])),
      ok observed_nothing,
    )
unfolding deliver
deliver_writes fresh s c d conn free fit dialled live id_ok address mode_length names =
    let text = compose d in
    let fits = sent_frame_fits fresh c text fit (length-is_msg_id fresh id_ok) mode_length names in
    rw
      (
        free,
        deliver,
        le→ltb_false max_intact_bytes (length text) fit,
        dialled,
        send_user_writes fresh conn c text live id_ok address fits,
      )
      (unfold written in refl)
