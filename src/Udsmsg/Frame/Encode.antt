-- ===== src/Udsmsg/Frame/Encode.antt =====
-- `encodeFrame`: a frame as `json.Marshal` renders it, and a newline, within the cap.
pub mod Wire
pub mod Size
use harness_transport.Go.Json.{quote, number, object}
use harness_transport.Go.Strconv.{itoa}
use harness_transport.Prelude.{
  ℕ, zero, suc, ◌+◌, ◌≤◌, ◌≡◌, refl, Bool, true, false, Bytes, List, [], ◌∷◌, ◌++◌, Option, none,
  some, ltb, leb, is_empty, if◌then◌else◌, length, length-append, codes, Result, ok, err, arith,
}
use harness_transport.Prelude.Int.{ℤ, pos, negsuc}
use harness_transport.Udsmsg.Frame.{Frame, UserMessage, max_line_bytes}

-- A text member, left out where it is empty (`omitempty`).
unfoldable pub text_member : Bytes → Bytes → List (Bytes × Bytes)
text_member k v = if is_empty v then [] else (quote k, quote v) ∷ []

unfoldable pub version_member : ℤ → List (Bytes × Bytes)
version_member (pos zero) = []
version_member v = (quote (codes "msgV"), number v) ∷ []

unfoldable pub marshal_message : UserMessage → Bytes
marshal_message m =
    object ((quote (codes "role"), quote m.role) ∷ (quote (codes "content"), quote m.content) ∷ [])

unfoldable pub message_member : Option UserMessage → List (Bytes × Bytes)
message_member none = []
message_member (some m) = (quote (codes "message"), marshal_message m) ∷ []

-- `json.Marshal` of a frame: the fields in their order, `Raw` left out.
unfoldable pub marshal_frame : Frame → Bytes
marshal_frame f = object (
    version_member f.msg_v
    ++ ((quote (codes "type"), quote f.type)
        ∷ (text_member (codes "msg_id") f.msg_id
            ++ (text_member (codes "from") f.from
                ++ (text_member (codes "from_mode") f.from_mode
                    ++ (text_member (codes "priority") f.priority
                        ++ (text_member (codes "token") f.token ++ message_member f.message)))))))

-- The error carries the size.
unfoldable pub encode_frame : Frame → Result ℕ Bytes
encode_frame f =
    let b = marshal_frame f in
    if ltb max_line_bytes (length b + 1) then err (length b + 1) else ok (b ++ b'\n' ∷ [])
