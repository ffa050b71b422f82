-- ===== src/Udsmsg/Frame/Decode/Fields.antt =====
-- The members of a frame, as they are written and as they are parsed.
use harness_transport.Go.Json.Store.Laws.{IsInt, IsText}
use harness_transport.Go.Json.Read.Objects.{
  Field, printed, tree, IsField, object-Reads, object-Reads_some,
}
use harness_transport.Go.Json.Read.{quote-Reads, number-Reads, parse-whole}
use harness_transport.Go.Json.Value.{numeral, text, object_of, read_value, max_nesting, parse}
use harness_transport.Go.Json.{quote, number, object}
use harness_transport.Go.Utf8.{runes_from}
use harness_transport.Go.Utf8.Valid.{are_valid}
use harness_transport.Prelude.Int.{ℤ, pos, negsuc}
use harness_transport.Prelude.{
  ℕ, zero, suc, ◌<◌, ◌≡◌, refl, sym, ap, ◌∙◌, Bytes, List, [], ◌∷◌, ◌++◌, Option, none, some,
  length, length-append, codes, arith, All, All-append, Bool-cases, inl, inr, is_empty,
  if◌then◌else◌,
}
use harness_transport.Udsmsg.Frame.Encode
use harness_transport.Udsmsg.Frame.Encode.{
  text_member, version_member, marshal_message, marshal_frame,
}
use harness_transport.Udsmsg.Frame.{Frame, UserMessage}

abbrev pub IsMessageText : Option UserMessage → Type 0
IsMessageText none = Unit
IsMessageText (some m) = IsText m.role × IsText m.content

-- What a frame's fields hold is UTF-8, and its number an `int`.
pub record IsSound (f : Frame) : Type 0 where
  pub version : IsInt f.msg_v
  pub type : IsText f.type
  pub msg_id : IsText f.msg_id
  pub from : IsText f.from
  pub from_mode : IsText f.from_mode
  pub priority : IsText f.priority
  pub token : IsText f.token
  pub message : IsMessageText f.message

-- The members of a frame, in their order.
unfoldable pub text_field : Bytes → Bytes → List Field
text_field k v = if is_empty v then [] else (k, quote v, text v) ∷ []

unfoldable pub version_field : ℤ → List Field
version_field (pos zero) = []
version_field z = (codes "msgV", number z, numeral (number z)) ∷ []

unfoldable pub message_fields : UserMessage → List Field
message_fields m =
    (codes "role", quote m.role, text m.role)
    ∷ (codes "content", quote m.content, text m.content)
    ∷ []

unfoldable pub message_field : Option UserMessage → List Field
message_field none = []
message_field (some m) =
    (codes "message", marshal_message m, object_of (tree (message_fields m))) ∷ []

unfoldable pub fields : Frame → List Field
fields f =
    version_field f.msg_v
    ++ ((codes "type", quote f.type, text f.type)
        ∷ (text_field (codes "msg_id") f.msg_id
            ++ (text_field (codes "from") f.from
                ++ (text_field (codes "from_mode") f.from_mode
                    ++ (text_field (codes "priority") f.priority
                        ++ (text_field (codes "token") f.token ++ message_field f.message))))))

printed-append : (a b : List Field) → printed (a ++ b) ≡ printed a ++ printed b
printed-append [] b = refl
printed-append (m ∷ a) b = ap (◌∷◌ (quote m.0, m.1)) (printed-append a b)

printed-text_field : (k v : Bytes) → printed (text_field k v) ≡ text_member k v
unfolding text_field text_member
printed-text_field k v = ground arith

printed-version_field : (z : ℤ) → printed (version_field z) ≡ version_member z
unfolding version_field version_member
printed-version_field (pos zero) = refl
printed-version_field (pos (suc n)) = refl
printed-version_field (negsuc n) = refl

printed-message_field :
    (m : Option UserMessage) → printed (message_field m) ≡ Encode.message_member m
unfolding message_field Encode.message_member
printed-message_field none = refl
printed-message_field (some m) = refl

-- The fields print as the frame's JSON.
text_then :
    (k v : Bytes) (rest : List Field) {ms : List (Bytes × Bytes)}
    → printed rest ≡ ms
    → printed (text_field k v ++ rest) ≡ text_member k v ++ ms
text_then k v rest e = printed-append (text_field k v) rest ∙ rw (printed-text_field k v, e) refl

object-fields : (f : Frame) → object (printed (fields f)) ≡ marshal_frame f
unfolding fields marshal_frame
object-fields f = ap object (
    printed-append (version_field f.msg_v) _
    ∙ rw
        (
          printed-version_field f.msg_v,
          text_then (codes "msg_id") f.msg_id _ (
              text_then (codes "from") f.from _ (
                text_then (codes "from_mode") f.from_mode _ (
                  text_then (codes "priority") f.priority _
                    (text_then (codes "token") f.token _ (printed-message_field f.message))))),
        )
        refl)

-- Every field is read.
text_field-IsField :
    (d : ℕ) (k v : Bytes) → IsText k → IsText v → All (IsField (read_value d)) (text_field k v)
unfolding text_field
text_field-IsField d k v hk hv = elim (Bool-cases (is_empty v)) [
  | inl e ↦ rw e tt
  | inr e ↦ rw e ((hk, quote-Reads d v hv), tt)
]

names_valid :
    IsText (codes "msgV")
    × IsText (codes "type")
    × IsText (codes "msg_id")
    × IsText (codes "from")
    × IsText (codes "from_mode")
    × IsText (codes "priority")
    × IsText (codes "message")
    × IsText (codes "token")
    × IsText (codes "role")
    × IsText (codes "content")
unfolding runes_from are_valid
names_valid = (refl, refl, refl, refl, refl, refl, refl, refl, refl, refl)

version_field-IsField : (d : ℕ) (z : ℤ) → All (IsField (read_value d)) (version_field z)
unfolding version_field
version_field-IsField d (pos zero) = tt
version_field-IsField d (pos (suc n)) = ((names_valid.0, number-Reads d (pos (suc n))), tt)
version_field-IsField d (negsuc n) = ((names_valid.0, number-Reads d (negsuc n)), tt)

message_field-IsField :
    (d : ℕ) (m : Option UserMessage)
    → IsMessageText m
    → All (IsField (read_value (suc d))) (message_field m)
unfolding message_field marshal_message message_fields
message_field-IsField d none h = tt
message_field-IsField d (some m) h = (
  (
    names_valid.6,
    λ rest e.
        object-Reads d (codes "role", quote m.role, text m.role)
          ((codes "content", quote m.content, text m.content) ∷ []) rest
          (
            (names_valid.8, quote-Reads d m.role h.0),
            ((names_valid.9, quote-Reads d m.content h.1), tt),
          ),
  ),
  tt,
)

both :
    (d : ℕ) (a b : List Field)
    → All (IsField (read_value d)) a
    → All (IsField (read_value d)) b
    → All (IsField (read_value d)) (a ++ b)
both d a b = All-append (IsField (read_value d)) a b

fields-IsField : (d : ℕ) (f : Frame) → IsSound f → All (IsField (read_value (suc d))) (fields f)
unfolding fields
fields-IsField d f h =
    both (suc d) (version_field f.msg_v) _ (version_field-IsField (suc d) f.msg_v) (
      (names_valid.1, quote-Reads (suc d) f.type h.type),
      both (suc d) (text_field (codes "msg_id") f.msg_id) _
          (text_field-IsField (suc d) _ f.msg_id names_valid.2 h.msg_id)
          (both (suc d) (text_field (codes "from") f.from) _
            (text_field-IsField (suc d) _ f.from names_valid.3 h.from)
            (both (suc d) (text_field (codes "from_mode") f.from_mode) _
              (text_field-IsField (suc d) _ f.from_mode names_valid.4 h.from_mode)
              (both (suc d) (text_field (codes "priority") f.priority) _
                (text_field-IsField (suc d) _ f.priority names_valid.5 h.priority)
                (both (suc d) (text_field (codes "token") f.token) (message_field f.message)
                  (text_field-IsField (suc d) _ f.token names_valid.7 h.token)
                  (message_field-IsField d f.message h.message))))),
    )

a_field : (a : List Field) (m : Field) (b : List Field) → 0 < length (a ++ m ∷ b)
a_field a m b = omega (arith, length-append a (m ∷ b))

-- A frame's JSON is parsed as its members.
pub parse-marshal_frame :
    (f : Frame) → IsSound f → parse (marshal_frame f) ≡ some (object_of (tree (fields f)))
parse-marshal_frame f h =
    let some_fields : 0 < length (fields f) =
      unfold fields in a_field (version_field f.msg_v) _ _ in
    parse-whole (marshal_frame f) (
      ap (λ s. read_value max_nesting (s ++ [])) (sym (object-fields f))
      ∙ object-Reads_some 9999 (fields f) [] some_fields (fields-IsField 9998 f h))
