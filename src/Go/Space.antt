-- ===== src/Go/Space.antt =====
-- `unicode.IsSpace`, `strings.TrimSpace` and the class of control characters.
use harness_transport.Go.Utf8.{runes, runes_from, raw_length, raw_length-runes_from, runes_from-all}
use harness_transport.Prelude.{
  ℕ, ◌≡◌, refl, Bool, true, ◌||◌, Bytes, List, [], ◌∷◌, ◌++◌, ltb, ◌==◌, within, ◌≤◌, length,
  length-append, if◌then◌else◌, all, arith, all-append, All,
}

unfoldable pub is_space : ℕ → Bool
is_space r =
    within 0x09 0x0D r
    || r == 0x20
    || r == 0x85
    || r == 0xA0
    || r == 0x1680
    || within 0x2000 0x200A r
    || r == 0x2028
    || r == 0x2029
    || r == 0x202F
    || r == 0x205F
    || r == 0x3000

-- `unicode.Is(unicode.Cc, r)`
unfoldable pub is_control : ℕ → Bool
is_control r = ltb r 0x20 || within 0x7F 0x9F r

trim_left : List (ℕ × Bytes) → List (ℕ × Bytes)
trim_left [] = []
trim_left ((r, raw) ∷ rs) = let rest = trim_left rs in if is_space r then rest else (r, raw) ∷ rs

-- The bytes up to the last rune that is no space.
trim_right : List (ℕ × Bytes) → Bytes
trim_right [] = []
trim_right ((r, raw) ∷ rs) =
    let rest = trim_right rs in
    elim rest [ [] ↦ (if is_space r then [] else raw) | c ∷ s ↦ raw ++ c ∷ s ]

unfoldable pub trim_space : Bytes → Bytes
unfolding trim_left trim_right is_space
trim_space s = trim_right (trim_left (runes s))

-- Bytes that pass a test pass it still.
trim_left-all :
    (p : ℕ → Bool) (rs : List (ℕ × Bytes))
    → All (λ r. all p r.1 ≡ true) rs
    → All (λ r. all p r.1 ≡ true) (trim_left rs)
unfolding trim_left
trim_left-all p [] h = tt
trim_left-all p ((r, raw) ∷ rs) h = ground (arith, trim_left-all p rs h.1)

trim_right-all :
    (p : ℕ → Bool) (rs : List (ℕ × Bytes))
    → All (λ r. all p r.1 ≡ true) rs
    → all p (trim_right rs) ≡ true
unfolding trim_right
trim_right-all p [] h = refl
trim_right-all p ((r, raw) ∷ rs) h =
    ground (arith, trim_right-all p rs h.1, all-append p raw (trim_right rs))

pub trim_space-all : (p : ℕ → Bool) (s : Bytes) → all p s ≡ true → all p (trim_space s) ≡ true
unfolding trim_space
trim_space-all p s h =
    trim_right-all p (trim_left (runes s)) (trim_left-all p (runes s) (runes_from-all p 0 s h))

pub trim_space-nil : trim_space [] ≡ []
unfolding trim_space trim_left trim_right runes runes_from
trim_space-nil = refl

length-trim_left : (rs : List (ℕ × Bytes)) → raw_length (trim_left rs) ≤ raw_length rs
unfolding trim_left
length-trim_left [] = omega arith
length-trim_left ((r, raw) ∷ rs) = ground (arith, length-trim_left rs)

length-trim_right : (rs : List (ℕ × Bytes)) → length (trim_right rs) ≤ raw_length rs
unfolding trim_right
length-trim_right [] = omega arith
length-trim_right ((r, raw) ∷ rs) =
    ground (arith, length-trim_right rs, length-append raw (trim_right rs))

pub length-trim_space : (s : Bytes) → length (trim_space s) ≤ length s
unfolding trim_space
length-trim_space s = omega (
  arith,
  length-trim_right (trim_left (runes s)),
  length-trim_left (runes s),
  raw_length-runes_from 0 s,
)
