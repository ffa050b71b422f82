-- ===== src/Go/Json/Value.antt =====
-- `encoding/json`'s reading of a value: white space, literals, numbers, strings, arrays and objects,
-- nested ten thousand deep at most.
use harness_transport.Go.Json.Text.{string_body}
use harness_transport.Go.Strconv.Leading.{leads}
use harness_transport.Go.Strconv.{is_digit}
use harness_transport.Prelude.Find.{cut_prefix, span}
use harness_transport.Prelude.{
  ℕ, zero, suc, Bool, true, false, ◌||◌, Bytes, [], ◌∷◌, ◌++◌, Option, none, some, ◌==◌,
  if◌then◌else◌, is_empty, length, codes,
}

mutual
  pub data Json : Type 0 where
    null : Json
    boolean : Bool → Json
    numeral : Bytes → Json
    text : Bytes → Json
    array_of : Items → Json
    object_of : Members → Json

  pub data Items : Type 0 where
    no_items : Items
    item : Json → Items → Items

  pub data Members : Type 0 where
    no_members : Members
    member : Bytes → Json → Members → Members

infixl 5 ◌>>=◌
abbrev pub ◌>>=◌ {ℓ κ} : {A : Type ℓ} {B : Type κ} → Option A → (A → Option B) → Option B
none >>= f = none
some a >>= f = f a

unfoldable pub is_white : ℕ → Bool
is_white c = c == b' ' || c == 0x09 || c == 0x0D || c == 0x0A

unfoldable pub skip_white : Bytes → Bytes
unfolding is_white
skip_white [] = []
skip_white (c ∷ s) = let rest = skip_white s in if is_white c then rest else c ∷ s

-- The next byte that is no white space must be `c`.
unfoldable pub expect : ℕ → Bytes → Option Bytes
expect c s = elim (skip_white s) [ [] ↦ none | x ∷ t ↦ if x == c then some t else none ]

unfoldable pub quoted : Bytes → Option (Bytes × Bytes)
unfolding expect string_body
quoted s = expect b'"' s >>= string_body 0

-- One digit at least, behind what was read.
unfoldable pub some_digits : Bytes → Bytes → Option (Bytes × Bytes)
some_digits before s =
    let (ds, rest) = span is_digit s in if is_empty ds then none else some (before ++ ds, rest)

unfoldable pub integer_part : Bytes → Bytes → Option (Bytes × Bytes)
unfolding leads
integer_part sign s =
    let (ds, rest) = span is_digit s in
    if is_empty ds then none else if leads ds then some (sign ++ ds, rest) else none

unfoldable pub fraction : Bytes × Bytes → Option (Bytes × Bytes)
unfolding some_digits
fraction (n, []) = some (n, [])
fraction (n, c ∷ s) = if c == b'.' then some_digits (n ++ c ∷ []) s else some (n, c ∷ s)

unfoldable pub signed_digits : Bytes → Bytes → Option (Bytes × Bytes)
unfolding some_digits
signed_digits n [] = none
signed_digits n (c ∷ s) =
    if c == b'+' || c == b'-' then some_digits (n ++ c ∷ []) s else some_digits n (c ∷ s)

unfoldable pub exponent : Bytes × Bytes → Option (Bytes × Bytes)
unfolding signed_digits
exponent (n, []) = some (n, [])
exponent (n, c ∷ s) =
    if c == b'e' || c == b'E' then signed_digits (n ++ c ∷ []) s else some (n, c ∷ s)

-- A number as it is spelled, and what follows.
unfoldable pub read_number : Bytes → Option (Bytes × Bytes)
unfolding integer_part fraction exponent
read_number [] = none
read_number (c ∷ s) =
    (if c == b'-' then integer_part (c ∷ []) s else integer_part [] (c ∷ s))
    >>= fraction
    >>= exponent

unfoldable pub literal : Bytes → Json → Bytes → Option (Json × Bytes)
literal word j s = cut_prefix word s >>= λ rest. some (j, rest)

-- A value that holds no other.
unfoldable pub scalar : ℕ → Bytes → Option (Json × Bytes)
unfolding quoted read_number literal
scalar c s =
    if c == b'"'
    then (quoted s >>= λ (t, rest). some (text t, rest))
    else if c == b't'
    then literal (codes "true") (boolean true) s
    else if c == b'f'
    then literal (codes "false") (boolean false) s
    else if c == b'n'
    then literal (codes "null") null s
    else (read_number s >>= λ (n, rest). some (numeral n, rest))

-- What reads a value.
abbrev pub Reader : Type 0
Reader = Bytes → Option (Json × Bytes)

-- The members behind `{` or a comma, one for each unit of fuel; `value` reads a value.
unfoldable pub read_members : Reader → ℕ → Bytes → Option (Members × Bytes)
unfolding quoted expect
read_members value zero s = none
read_members value (suc n) s = do
  (k, t) ← quoted s
  t' ← expect b':' t
  (v, u) ← value t'
  elim (skip_white u) [
    | [] ↦ none
    | c ∷ w ↦
        let more = read_members value n w in
        if c == b','
        then (more >>= λ (ms, rest). some (member k v ms, rest))
        else if c == b'}'
        then some (member k v no_members, w)
        else none
  ]

unfoldable pub read_items : Reader → ℕ → Bytes → Option (Items × Bytes)
read_items value zero s = none
read_items value (suc n) s = do
  (v, u) ← value s
  elim (skip_white u) [
    | [] ↦ none
    | c ∷ w ↦
        let more = read_items value n w in
        if c == b','
        then (more >>= λ (vs, rest). some (item v vs, rest))
        else if c == b']'
        then some (item v no_items, w)
        else none
  ]

-- What follows `{` and `[`.
unfoldable pub read_object : Reader → ℕ → Bytes → Option (Json × Bytes)
read_object value n s = elim (expect b'}' s) [
  | some rest ↦ some (object_of no_members, rest)
  | none ↦ read_members value n s >>= λ (ms, rest). some (object_of ms, rest)
]

unfoldable pub read_array : Reader → ℕ → Bytes → Option (Json × Bytes)
read_array value n s = elim (expect b']' s) [
  | some rest ↦ some (array_of no_items, rest)
  | none ↦ read_items value n s >>= λ (vs, rest). some (array_of vs, rest)
]

-- A value whose parts `inner` reads; at the greatest depth it has none.
unfoldable pub read_with : Option Reader → Bytes → Option (Json × Bytes)
read_with inner s = elim (skip_white s) [
  | [] ↦ none
  | c ∷ t ↦
      if c == b'{'
      then (inner >>= λ value. read_object value (suc (length t)) t)
      else if c == b'['
      then (inner >>= λ value. read_array value (suc (length t)) t)
      else scalar c (c ∷ t)
]

-- A value, nested `depth` deep at most, and what follows.
unfoldable pub read_value : ℕ → Bytes → Option (Json × Bytes)
unfolding read_with
read_value zero s = read_with none s
read_value (suc depth) s = read_with (some (read_value depth)) s

abbrev pub max_nesting : ℕ
max_nesting = 10000

-- A whole input: a value, and white space around it.
unfoldable pub parse : Bytes → Option Json
parse s = do
  (j, rest) ← read_value max_nesting s
  if is_empty (skip_white rest) then some j else none
