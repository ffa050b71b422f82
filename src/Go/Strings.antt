-- ===== src/Go/Strings.antt =====
-- Functions of package strings.
use harness_transport.Prelude.Find.{cut_prefix}
use harness_transport.Prelude.{
  ℕ, ◌+◌, ◌==◌, ◌&&◌, true, false, Bool, Bytes, List, [], ◌∷◌, ◌++◌, none, some, is_empty, within,
  if◌then◌else◌,
}

-- `Join`
unfoldable pub join : Bytes → List Bytes → Bytes
join sep [] = []
join sep (a ∷ []) = a
join sep (a ∷ b ∷ rest) = a ++ (sep ++ join sep (b ∷ rest))

-- `TrimRight` of one character.
unfoldable pub trim_right : ℕ → Bytes → Bytes
trim_right q [] = []
trim_right q (c ∷ s) = let rest = trim_right q s in if c == q && is_empty rest then [] else c ∷ rest

-- `Contains`, of the first string in the second.
unfoldable pub contains : Bytes → Bytes → Bool
contains p [] = is_empty p
contains p (c ∷ s) =
    let later = contains p s in elim (cut_prefix p (c ∷ s)) [ some _ ↦ true | none ↦ later ]

-- The simple case folding of the runes that fold to a letter of ASCII.
unfoldable pub fold_rune : ℕ → ℕ
fold_rune r =
    if within b'A' b'Z' r
    then r + 32
    else if r == 0x212A
    then b'k'
    else if r == 0x17F
    then b's'
    else r

-- `EqualFold` of a string, as runes, with one of lower-case letters.
unfoldable pub equal_fold : List (ℕ × Bytes) → Bytes → Bool
equal_fold [] [] = true
equal_fold ((r, _) ∷ rs) (c ∷ s) =
    let rest = equal_fold rs s in if fold_rune r == c then rest else false
equal_fold _ _ = false
