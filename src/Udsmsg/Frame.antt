-- ===== src/Udsmsg/Frame.antt =====
-- udsmsg/frame.go: the wire types. `encodeFrame` is in the child `Encode`.
pub mod Encode
pub mod Decode
use harness_transport.Prelude.{Bool, Bytes, [], Option, none, some, str_eq, codes, ℕ, ◌*◌, ◌^◌}
use harness_transport.Prelude.Int.{ℤ}

-- The cap on a line, its newline included.
abbrev pub max_line_bytes : ℕ
max_line_bytes = 1 * 2 ^ 20

abbrev pub type_auth : Bytes
type_auth = codes "auth"

abbrev pub type_user : Bytes
type_user = codes "user"

abbrev pub mode_prompting : Bytes
mode_prompting = codes "prompting"

pub record UserMessage : Type 0 where
  pub role : Bytes
  pub content : Bytes

pub record Frame : Type 0 where
  pub msg_v : ℤ
  pub type : Bytes
  pub msg_id : Bytes
  pub from : Bytes
  pub from_mode : Bytes
  pub priority : Bytes
  pub token : Bytes
  pub message : Option UserMessage
  pub raw : Bytes

unfoldable pub is_auth : Frame → Bool
is_auth f = str_eq f.type type_auth

-- `(*Frame).Text`
unfoldable pub text : Frame → Bytes
text f = elim f.message [ none ↦ [] | some m ↦ m.content ]

-- `decodeFrame`, over what `json.Unmarshal` makes of a line (which leaves `Raw` alone).
unfoldable pub decode_frame : (Bytes → Option Frame) → Bytes → Option Frame
decode_frame unmarshal line = elim (unmarshal line) [
  | none ↦ none
  | some f ↦ some (record f { raw = line })
]
