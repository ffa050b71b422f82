-- ===== src/Udsmsg/Frame/Decode/RoundTrip.antt =====
-- A frame that `encodeFrame` writes is decoded to itself.
use harness_transport.Go.Json.Store.Laws.{IsInt, int_of-number}
use harness_transport.Go.Json.Store.{
  exact_name, name_of, store_text, store_int, store_member, store_members,
}
use harness_transport.Udsmsg.Frame.Decode.Fields.{
  IsSound, text_field, version_field, message_fields, message_field, fields, parse-marshal_frame,
}
use harness_transport.Go.Json.Read.Objects.{Field, tree}
use harness_transport.Go.Json.Value.{text, object_of, ◌>>=◌}
use harness_transport.Prelude.Int.{ℤ, pos, negsuc}
use harness_transport.Prelude.{
  zero, suc, ◌≡◌, refl, sym, ap, ◌∙◌, Bytes, List, [], ◌∷◌, ◌++◌, Option, none, some, codes, ok,
  is_empty, str_eq,
}
use harness_transport.Udsmsg.Frame.Decode.{
  store_message, message_member, frame_member, frame_names, empty_frame, store_frame,
  unmarshal_frame,
}
use harness_transport.Udsmsg.Frame.Encode.{marshal_frame, encode_frame}
use harness_transport.Udsmsg.Frame.Encode.Wire.{read_line-encode_frame}
use harness_transport.Udsmsg.Server.ReadLine.{complete, read_line}
use harness_transport.Udsmsg.Frame.{Frame, UserMessage, max_line_bytes, decode_frame}

-- Members stored one after another.
abbrev stored : List Field → Frame → Option Frame
stored fs f = store_members (store_member frame_names frame_member) (tree fs) f

-- A text member, which is left out where the field is empty anyway.
stored_text :
    (k v : Bytes) (rest : List Field) (f g : Frame)
    → store_member frame_names frame_member k (text v) f ≡ some g
    → (v ≡ [] → f ≡ g)
    → stored (text_field k v ++ rest) f ≡ stored rest g
unfolding text_field store_members is_empty
stored_text k [] rest f g e h = ap (stored rest) (h refl)
stored_text k (c ∷ v) rest f g e h = rw e refl

stored_version :
    (z : ℤ) (rest : List Field)
    → IsInt z
    → stored (version_field z ++ rest) empty_frame ≡ stored rest (record empty_frame { msg_v = z })
unfolding version_field store_members store_member name_of exact_name frame_member store_int str_eq
stored_version (pos zero) rest h = refl
stored_version (pos (suc n)) rest h = rw (int_of-number (pos (suc n)) h) refl
stored_version (negsuc n) rest h = rw (int_of-number (negsuc n) h) refl

stored_message :
    (m : Option UserMessage) (f : Frame)
    → stored (message_field m) (record f { message = none }) ≡ some (record f { message = m })
unfolding message_field message_fields store_members store_member name_of exact_name frame_member
    store_message message_member store_text str_eq
stored_message none f = refl
stored_message (some m) f = refl

store_frame-fields :
    (f : Frame)
    → IsSound f
    → store_frame (object_of (tree (fields f))) ≡ some (record f { raw = [] })
unfolding store_frame fields store_members store_member name_of exact_name frame_member store_text
    str_eq
store_frame-fields f h =
    let v = record empty_frame { msg_v = f.msg_v } in
    let t = record v { type = f.type } in
    let i = record t { msg_id = f.msg_id } in
    let r = record i { from = f.from } in
    let m = record r { from_mode = f.from_mode } in
    let p = record m { priority = f.priority } in
    let k = record p { token = f.token } in
    stored_version f.msg_v _ h.version
    ∙ stored_text (codes "msg_id") f.msg_id _ t i refl
        (λ e. ap (λ x. record t { msg_id = x }) (sym e))
    ∙ stored_text (codes "from") f.from _ i r refl (λ e. ap (λ x. record i { from = x }) (sym e))
    ∙ stored_text (codes "from_mode") f.from_mode _ r m refl
        (λ e. ap (λ x. record r { from_mode = x }) (sym e))
    ∙ stored_text (codes "priority") f.priority _ m p refl
        (λ e. ap (λ x. record m { priority = x }) (sym e))
    ∙ stored_text (codes "token") f.token _ p k refl (λ e. ap (λ x. record p { token = x }) (sym e))
    ∙ stored_message f.message k

-- The JSON of a frame whose texts are UTF-8 and whose number is an `int` is decoded to the frame,
-- every field as it was, with nothing in `Raw`.
pub unmarshal_frame-marshal_frame :
    (f : Frame) → IsSound f → unmarshal_frame (marshal_frame f) ≡ some (record f { raw = [] })
unfolding unmarshal_frame
unmarshal_frame-marshal_frame f h =
    ap (λ o. o >>= store_frame) (parse-marshal_frame f h) ∙ store_frame-fields f h

-- A line that `encodeFrame` returns for a frame whose texts are UTF-8 and whose number is an `int` is
-- read by the other side's `readLine` as one line, with what follows left for the next call, and
-- `decodeFrame` makes of this line the frame, every field as it was, with the line in `Raw`.
pub decode_frame-encode_frame :
    (f : Frame) {line : Bytes} (rest : Bytes)
    → IsSound f
    → encode_frame f ≡ ok line
    → (read_line max_line_bytes (line ++ rest) ≡ complete (marshal_frame f) rest)
      × (decode_frame unmarshal_frame (marshal_frame f) ≡ some (record f { raw = marshal_frame f }))
unfolding decode_frame
decode_frame-encode_frame f rest h e =
    (read_line-encode_frame f rest e, rw (unmarshal_frame-marshal_frame f h, decode_frame) refl)
