-- ===== src/Go/Json/Store.antt =====
-- `encoding/json`'s storing of an object's members in the fields of a struct: the names of tags, and
-- texts and integers.
pub mod Laws
use harness_transport.Go.Json.Value.{
  Json, null, boolean, numeral, text, array_of, object_of, Members, no_members, member, parse,
  ◌>>=◌,
}
use harness_transport.Go.Strconv.{is_digit, digits_value}
use harness_transport.Go.Utf8.{runes}
use harness_transport.Prelude.Int.{ℤ, pos, negsuc}
use harness_transport.Prelude.{
  ℕ, zero, suc, ◌-◌, ◌^◌, Bool, true, false, Bytes, List, [], ◌∷◌, map, Option, none, some, codes,
  ◌==◌, leb, ltb, within, if◌then◌else◌, is_empty, str_eq, all,
}

-- `foldName`, for names that are compared with ASCII ones: a long s and a Kelvin sign fold to ASCII
-- letters, and no other rune past ASCII does.
unfoldable pub fold_rune : ℕ → ℕ
fold_rune r =
    if within b'a' b'z' r
    then r - 32
    else if r == 0x17F
    then b'S'
    else if r == 0x212A
    then b'K'
    else r

abbrev pub fold_name : Bytes → List ℕ
fold_name k = map (λ r. fold_rune r.0) (runes k)

-- The first of the names that a key is, or else the first that it is but for case.
unfoldable pub exact_name : List Bytes → Bytes → Option Bytes
exact_name [] k = none
exact_name (n ∷ ns) k = let later = exact_name ns k in if str_eq n k then some n else later

unfoldable pub folded_name : List Bytes → List ℕ → Option Bytes
folded_name [] k = none
folded_name (n ∷ ns) k =
    let later = folded_name ns k in if str_eq (fold_name n) k then some n else later

unfoldable pub name_of : List Bytes → Bytes → Option Bytes
unfolding exact_name folded_name
name_of names k = elim (exact_name names k) [
  | some n ↦ some n
  | none ↦ folded_name names (fold_name k)
]

abbrev negative : ℕ → Option ℤ
negative n = elim n [
  | zero ↦ some (pos 0)
  | suc k ↦ if leb (suc k) (2 ^ 63) then some (negsuc k) else none
]

-- An integer literal that fits an `int`.
unfoldable pub int_of : Bytes → Option ℤ
int_of [] = none
int_of (c ∷ s) =
    if c == b'-'
    then (if all is_digit s then negative (digits_value 0 s) else none)
    else if all is_digit (c ∷ s)
    then (if ltb (digits_value 0 (c ∷ s)) (2 ^ 63)
        then some (pos (digits_value 0 (c ∷ s)))
        else none)
    else none

-- A string into a field; `null` leaves it alone.
unfoldable pub store_text : Json → Bytes → Option Bytes
store_text (text s) old = some s
store_text null old = some old
store_text _ old = none

unfoldable pub store_int : Json → ℤ → Option ℤ
unfolding int_of
store_int (numeral n) old = int_of n
store_int null old = some old
store_int _ old = none

unfoldable pub store_member {ℓ} :
    {A : Type ℓ} → List Bytes → (Bytes → Json → A → Option A) → Bytes → Json → A → Option A
unfolding name_of
store_member names store k j a = elim (name_of names k) [ none ↦ some a | some n ↦ store n j a ]

unfoldable pub store_members {ℓ} :
    {A : Type ℓ} → (Bytes → Json → A → Option A) → Members → A → Option A
store_members store no_members a = some a
store_members store (member k j ms) a = store k j a >>= store_members store ms
