-- ===== src/Udsmsg/Frame/Encode/Wire.antt =====
-- A frame that `encodeFrame` accepts, on the way to the other side's `readLine`.
use harness_transport.Go.Json.{
  IsOneLine, AreOneLine, quote-IsOneLine, object-IsOneLine, number-IsOneLine,
}
use harness_transport.Prelude.{
  zero, suc, ◌+◌, ◌≤◌, ◌≡◌, Bytes, List, [], ◌∷◌, ◌++◌, Option, none, some, le→leb, length, ok,
  arith, All-append, append_assoc,
}
use harness_transport.Prelude.Int.{ℤ, pos, negsuc}
use harness_transport.Udsmsg.Frame.{Frame, UserMessage, max_line_bytes}
use harness_transport.Udsmsg.Frame.Encode.{
  text_member, version_member, marshal_message, message_member, marshal_frame, encode_frame,
}
use harness_transport.Udsmsg.Server.ReadLine.{newline, complete, read_line}
use harness_transport.Udsmsg.Server.ReadLine.ByByte.{read_line_cases}

text_member-AreOneLine : (k v : Bytes) → AreOneLine (text_member k v)
unfolding text_member
text_member-AreOneLine k v = ground (arith, quote-IsOneLine k, quote-IsOneLine v)

version_member-AreOneLine : (v : ℤ) → AreOneLine (version_member v)
unfolding version_member
version_member-AreOneLine (pos zero) = tt
version_member-AreOneLine (pos (suc n)) = ((quote-IsOneLine _, number-IsOneLine (pos (suc n))), tt)
version_member-AreOneLine (negsuc n) = ((quote-IsOneLine _, number-IsOneLine (negsuc n)), tt)

message_member-AreOneLine : (m : Option UserMessage) → AreOneLine (message_member m)
unfolding message_member marshal_message
message_member-AreOneLine none = tt
message_member-AreOneLine (some m) = (
  (
    quote-IsOneLine _,
    object-IsOneLine _ (
      (quote-IsOneLine _, quote-IsOneLine m.role),
      ((quote-IsOneLine _, quote-IsOneLine m.content), tt),
    ),
  ),
  tt,
)

both : (a b : List (Bytes × Bytes)) → AreOneLine a → AreOneLine b → AreOneLine (a ++ b)
both a b h k = All-append (λ m. IsOneLine m.0 × IsOneLine m.1) a b h k

pub marshal_frame-IsOneLine : (f : Frame) → IsOneLine (marshal_frame f)
unfolding marshal_frame
marshal_frame-IsOneLine f = object-IsOneLine _ (
    both _ _ (version_member-AreOneLine f.msg_v) (
      (quote-IsOneLine _, quote-IsOneLine f.type),
      both _ _ (text_member-AreOneLine _ f.msg_id) (
          both _ _ (text_member-AreOneLine _ f.from) (
            both _ _ (text_member-AreOneLine _ f.from_mode) (
              both _ _ (text_member-AreOneLine _ f.priority) (
                both _ _ (text_member-AreOneLine _ f.token)
                  (message_member-AreOneLine f.message))))),
    ))

-- A line that `encodeFrame` returns is the frame's JSON and one newline, within the cap.
pub encode_frame_ok :
    (f : Frame) {line : Bytes}
    → encode_frame f ≡ ok line
    → (line ≡ marshal_frame f ++ newline ∷ []) × (length (marshal_frame f) + 1 ≤ max_line_bytes)
unfolding encode_frame
encode_frame_ok f e = ground arith

-- Whatever a frame holds, a line that `encodeFrame` returns for it is read by the other side's
-- `readLine` as one complete line, the frame's JSON, with what follows left for the next call.
pub read_line-encode_frame :
    (f : Frame) {line : Bytes} (rest : Bytes)
    → encode_frame f ≡ ok line
    → read_line max_line_bytes (line ++ rest) ≡ complete (marshal_frame f) rest
read_line-encode_frame f {line} rest e =
    let (same, fits) = encode_frame_ok f e in
    let b = marshal_frame f in
    let (r, _) = read_line_cases max_line_bytes b rest (marshal_frame-IsOneLine f) in
    rw (same, append_assoc b (newline ∷ []) rest, r, le→leb (length b + 1) max_line_bytes fits)
