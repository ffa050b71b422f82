-- ===== src/Go/Json/Fuel/Rounds.antt =====
-- Every value takes a byte at least, so the rounds that `read_value` gives to the members of an object
-- and to the items of an array are always enough.
use harness_transport.Go.Json.Fuel.{Shrinks, length-skip_white, List-cases}
use harness_transport.Go.Json.Fuel.Values.{
  scalar-Shrinks, read_object-Shrinks, read_array-Shrinks, read_object_fuel, read_array_fuel,
}
use harness_transport.Go.Json.Value.{
  Json, ◌>>=◌, skip_white, is_white, Reader, read_object, read_array, read_with, read_value,
}
use harness_transport.Prelude.{
  ℕ, zero, suc, ◌≤◌, ◌<◌, ◌≡◌, sym, ap, Bytes, ◌∷◌, Option, none, some, length, arith, Bool-cases,
  inl, inr, ◌==◌,
}

-- An inner reader that takes a byte, where there is one.
abbrev Inner : Option Reader → Type 0
Inner none = Unit
Inner (some value) = Shrinks value

read_with-Shrinks : (inner : Option Reader) → Inner inner → Shrinks (read_with inner)
unfolding read_with
read_with-Shrinks inner h s a u e = elim (List-cases (skip_white s)) [
  | inl x ↦ absurd (cc (rw (x, read_with) at e))
  | inr (c, t, x) ↦
      let size : suc (length t) ≤ length s = omega (arith, length-skip_white s, ap length x) in
      elim (Bool-cases (c == b'{')) [
        | inl y ↦ within_object inner h (suc (length t)) t a u size (rw (x, read_with, y) at e)
        | inr y ↦ elim (Bool-cases (c == b'[')) [
          | inl z ↦ within_array inner h (suc (length t)) t a u size (rw (x, read_with, y, z) at e)
          | inr z ↦ omega (arith, scalar-Shrinks c (c ∷ t) a u (rw (x, read_with, y, z) at e), size)
        ]
      ]
]
  where
    within_object :
        (inner : Option Reader)
        → Inner inner
        → (n : ℕ) (t : Bytes) (a : Json) (u : Bytes) → suc (length t) ≤ length s
        → (inner >>= λ value. read_object value n t) ≡ some (a, u)
        → length u < length s
    within_object none h n t a u size e = absurd (cc)
    within_object (some value) h n t a u size e =
        omega (arith, read_object-Shrinks value h n t a u e, size)

    within_array :
        (inner : Option Reader)
        → Inner inner
        → (n : ℕ) (t : Bytes) (a : Json) (u : Bytes) → suc (length t) ≤ length s
        → (inner >>= λ value. read_array value n t) ≡ some (a, u)
        → length u < length s
    within_array none h n t a u size e = absurd (cc)
    within_array (some value) h n t a u size e =
        omega (arith, read_array-Shrinks value h n t a u e, size)

pub read_value-Shrinks : (depth : ℕ) → Shrinks (read_value depth)
unfolding read_value
read_value-Shrinks zero s a u e = read_with-Shrinks none tt s a u e
read_value-Shrinks (suc depth) s a u e =
    read_with-Shrinks (some (read_value depth)) (read_value-Shrinks depth) s a u e

-- At any depth, what follows the brace of an object or the bracket of an array is read alike with
-- every number of rounds above its length: none is refused for want of rounds.
pub read_value_fuel :
    (depth n : ℕ) (t : Bytes)
    → length t < n
    → (read_value (suc depth) (b'{' ∷ t) ≡ read_object (read_value depth) n t)
      × (read_value (suc depth) (b'[' ∷ t) ≡ read_array (read_value depth) n t)
unfolding read_value read_with skip_white is_white
read_value_fuel depth n t h = (
  sym (read_object_fuel (read_value depth) (read_value-Shrinks depth) n t h),
  sym (read_array_fuel (read_value depth) (read_value-Shrinks depth) n t h),
)
