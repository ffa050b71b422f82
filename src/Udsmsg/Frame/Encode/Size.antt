-- ===== src/Udsmsg/Frame/Encode/Size.antt =====
-- How large a frame can get.
use harness_transport.Go.Json.{quote, number, length-quote, length-object, sizes}
use harness_transport.Go.Strconv.{itoa}
use harness_transport.Prelude.{
  ℕ, ◌+◌, ◌*◌, ◌≤◌, ◌≡◌, Bytes, List, [], ◌∷◌, ◌++◌, some, length, codes, arith,
}
use harness_transport.Prelude.Int.{pos}
use harness_transport.Udsmsg.Frame.{Frame}
use harness_transport.Udsmsg.Frame.Encode.{
  text_member, version_member, marshal_message, message_member, marshal_frame,
}

sizes-append : (a b : List (Bytes × Bytes)) → sizes (a ++ b) ≡ sizes a + sizes b
sizes-append [] b = omega arith
sizes-append ((k, v) ∷ a) b = omega (arith, sizes-append a b)

sizes-text_member : (k v : Bytes) → sizes (text_member k v) ≤ 6 * length k + 6 * length v + 6
unfolding text_member
sizes-text_member k v = ground (arith, length-quote k, length-quote v)

-- The size of a user frame of version 1, whose texts have these lengths.
abbrev pub budget : Frame → ℕ → ℕ
budget f content =
    6
    * (length f.type
        + length f.msg_id
        + length f.from
        + length f.from_mode
        + length f.priority
        + length f.token
        + content)

length-message :
    (role content : Bytes)
    → sizes (message_member (some (record { role = role; content = content })))
      ≤ 6 * length role + 6 * length content + 140
unfolding message_member marshal_message
length-message role content = omega (
  arith,
  length-object
      ((quote (codes "role"), quote role) ∷ (quote (codes "content"), quote content) ∷ []),
  length-quote (codes "message"),
  length-quote (codes "role"),
  length-quote (codes "content"),
  length-quote role,
  length-quote content,
)

version_size : (f : Frame) → f.msg_v ≡ pos 1 → sizes (version_member f.msg_v) ≤ 29
unfolding version_member number itoa
version_size f h = rw h (omega (arith, length-quote (codes "msgV")))

message_size :
    (f : Frame) (role content : Bytes)
    → f.message ≡ some (record { role = role; content = content })
    → sizes (message_member f.message) ≤ 6 * length role + 6 * length content + 140
message_size f role content h = rw h (length-message role content)

-- JSON inflates the texts of a frame at most sixfold, and adds at most 480 bytes of its own.
pub length-marshal_frame :
    (f : Frame) (role content : Bytes)
    → f.msg_v ≡ pos 1
    → f.message ≡ some (record { role = role; content = content })
    → length (marshal_frame f) ≤ budget f (length role + length content) + 480
unfolding marshal_frame
length-marshal_frame f role content hv hm =
    let inner = message_member f.message in
    let t5 = text_member (codes "token") f.token in
    let t4 = text_member (codes "priority") f.priority in
    let t3 = text_member (codes "from_mode") f.from_mode in
    let t2 = text_member (codes "from") f.from in
    let t1 = text_member (codes "msg_id") f.msg_id in
    let own : Bytes × Bytes = (quote (codes "type"), quote f.type) in
    let v = version_member f.msg_v in
    omega (
      arith,
      length-object (v ++ (own ∷ (t1 ++ (t2 ++ (t3 ++ (t4 ++ (t5 ++ inner))))))),
      sizes-append v (own ∷ (t1 ++ (t2 ++ (t3 ++ (t4 ++ (t5 ++ inner)))))),
      sizes-append t1 (t2 ++ (t3 ++ (t4 ++ (t5 ++ inner)))),
      sizes-append t2 (t3 ++ (t4 ++ (t5 ++ inner))),
      sizes-append t3 (t4 ++ (t5 ++ inner)),
      sizes-append t4 (t5 ++ inner),
      sizes-append t5 inner,
      sizes-text_member (codes "token") f.token,
      sizes-text_member (codes "priority") f.priority,
      sizes-text_member (codes "from_mode") f.from_mode,
      sizes-text_member (codes "from") f.from,
      sizes-text_member (codes "msg_id") f.msg_id,
      length-quote (codes "type"),
      length-quote f.type,
      version_size f hv,
      message_size f role content hm,
    )
