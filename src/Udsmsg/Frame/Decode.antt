-- ===== src/Udsmsg/Frame/Decode.antt =====
-- `decodeFrame` with `encoding/json` itself: the members of an object are stored, one after another,
-- in the fields of a frame whose tags they name.
pub mod Fields
pub mod RoundTrip
mod Examples
use harness_transport.Go.Json.Store.{
  fold_rune, exact_name, folded_name, name_of, int_of, store_text, store_int, store_member,
  store_members,
}
use harness_transport.Go.Json.Value.{
  Json, null, boolean, numeral, text, array_of, object_of, Members, no_members, member, parse,
  ◌>>=◌,
}
use harness_transport.Go.Strconv.{is_digit, digits_value}
use harness_transport.Go.Utf8.{runes}
use harness_transport.Prelude.Int.{ℤ, pos, negsuc}
use harness_transport.Prelude.{
  ℕ, zero, suc, ◌-◌, ◌^◌, Bool, true, false, Bytes, List, [], ◌∷◌, map, Option, none, some, codes,
  ◌==◌, leb, ltb, within, if◌then◌else◌, is_empty, str_eq, all,
}
use harness_transport.Udsmsg.Frame.{Frame, UserMessage, decode_frame}

abbrev pub message_names : List Bytes
message_names = codes "role" ∷ codes "content" ∷ []

abbrev pub frame_names : List Bytes
frame_names =
    codes "msgV"
    ∷ codes "type"
    ∷ codes "msg_id"
    ∷ codes "from"
    ∷ codes "from_mode"
    ∷ codes "priority"
    ∷ codes "token"
    ∷ codes "message"
    ∷ []

-- A value into the field of a user message that has the name.
unfoldable pub message_member : Bytes → Json → UserMessage → Option UserMessage
unfolding store_text
message_member n j m =
    if str_eq n (codes "role")
    then (store_text j m.role >>= λ s. some (record m { role = s }))
    else (store_text j m.content >>= λ s. some (record m { content = s }))

abbrev pub empty_message : UserMessage
empty_message = record { role = []; content = [] }

-- An object into what the pointer holds, or into a new message; `null` is no message.
unfoldable pub store_message : Json → Option UserMessage → Option (Option UserMessage)
unfolding message_member store_member store_members
store_message null old = some none
store_message (object_of ms) old =
    store_members (store_member message_names message_member) ms
      (elim old [ none ↦ empty_message | some m ↦ m ])
    >>= λ m. some (some m)
store_message _ old = none

unfoldable pub frame_member : Bytes → Json → Frame → Option Frame
unfolding store_text store_int store_message
frame_member n j f =
    if str_eq n (codes "msgV")
    then (store_int j f.msg_v >>= λ v. some (record f { msg_v = v }))
    else if str_eq n (codes "type")
    then (store_text j f.type >>= λ s. some (record f { type = s }))
    else if str_eq n (codes "msg_id")
    then (store_text j f.msg_id >>= λ s. some (record f { msg_id = s }))
    else if str_eq n (codes "from")
    then (store_text j f.from >>= λ s. some (record f { from = s }))
    else if str_eq n (codes "from_mode")
    then (store_text j f.from_mode >>= λ s. some (record f { from_mode = s }))
    else if str_eq n (codes "priority")
    then (store_text j f.priority >>= λ s. some (record f { priority = s }))
    else if str_eq n (codes "token")
    then (store_text j f.token >>= λ s. some (record f { token = s }))
    else (store_message j f.message >>= λ m. some (record f { message = m }))

abbrev pub empty_frame : Frame
empty_frame = record {
  msg_v = pos 0;
  type = [];
  msg_id = [];
  from = [];
  from_mode = [];
  priority = [];
  token = [];
  message = none;
  raw = [];
}

unfoldable pub store_frame : Json → Option Frame
unfolding frame_member store_member store_members
store_frame null = some empty_frame
store_frame (object_of ms) = store_members (store_member frame_names frame_member) ms empty_frame
store_frame _ = none

-- `json.Unmarshal` into a frame.
unfoldable pub unmarshal_frame : Bytes → Option Frame
unfolding store_frame
unmarshal_frame line = parse line >>= store_frame
