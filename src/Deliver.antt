-- ===== src/Deliver.antt =====
-- deliver/deliver.go: the message that is pushed, its text with the trailer, and the id in a
-- request's metadata.
pub mod Trailer
pub mod Codex
pub mod Claude
pub mod Open
pub mod Unavailable
mod Examples
use harness_transport.Go.Space.{trim_space}
use harness_transport.Prelude.{
  Bool, true, false, Bytes, [], ◌∷◌, ◌++◌, Option, none, some, if◌then◌else◌, codes, is_empty,
  Result, ok, err,
}

-- What a backend saw of a delivery, from the weakest to the strongest.
pub data Observation : Type 0 where
  observed_nothing observed_accepted observed_stored : Observation

-- `String` of an observation.
unfoldable pub observation_text : Observation → Bytes
observation_text observed_nothing = codes "nothing"
observation_text observed_accepted = codes "accepted"
observation_text observed_stored = codes "stored"

pub record Delivery : Type 0 where
  pub cursor : Bytes
  pub body : Bytes
  pub more : Bool

abbrev pub no_cursor : Bytes
no_cursor = codes "no cursor: this message cannot be re-fetched"

abbrev pub cursor_label : Bytes
cursor_label = codes "cursor: "

-- A space, the middle dot in UTF-8, and the rest of the mark.
abbrev pub more_mark : Bytes
more_mark = codes " " ++ (0xC2 ∷ 0xB7 ∷ codes " more is waiting than this message carries")

-- What stands in front of the trailer: the body and an empty line, or nothing for an empty body.
unfoldable pub lead : Bytes → Bytes
lead body = if is_empty body then [] else body ++ codes "\n\n"

unfoldable pub anchor : Bytes → Bytes
anchor cursor = if is_empty cursor then no_cursor else cursor_label ++ cursor

unfoldable pub mark : Bool → Bytes
mark more = if more then more_mark else []

-- `compose`
unfoldable pub compose : Delivery → Bytes
unfolding lead anchor mark
compose d = lead d.body ++ (codes "[" ++ (anchor d.cursor ++ (mark d.more ++ codes "]")))

-- A value in a request's `_meta`, as JSON gives it: a string, or anything else.
pub data Value : Type 0 where
  string : Bytes → Value
  other : Value

-- The metadata: a nil map, or what it holds under a key.
abbrev pub Meta : Type 0
Meta = Option (Bytes → Option Value)

pub data MetaError : Type 0 where
  no_meta not_a_thread_id : MetaError

abbrev pub meta_thread_id : Bytes
meta_thread_id = codes "threadId"

unfoldable pub id_of_value : Value → Result MetaError Bytes
id_of_value other = err not_a_thread_id
id_of_value (string s) = if is_empty (trim_space s) then err not_a_thread_id else ok s

-- `threadIDFromMeta`
unfoldable pub thread_id_from_meta : Meta → Result MetaError Bytes
thread_id_from_meta none = err no_meta
thread_id_from_meta (some m) = elim (m meta_thread_id) [
  | none ↦ err no_meta
  | some v ↦ id_of_value v
]
