-- ===== src/Go/Json/Fuel/Values.antt =====
-- A value takes a byte at least, at every depth.
use harness_transport.Go.Json.Fuel.{
  Shrinks, length-skip_white, length-expect, quoted-Shrinks, List-cases, read_members_fuel,
  read_items_fuel,
}
use harness_transport.Go.Json.Value.{
  Json, object_of, array_of, no_members, no_items, member, item, ◌>>=◌, skip_white, expect, quoted,
  some_digits, integer_part, fraction, signed_digits, exponent, read_number, literal, scalar,
  Reader, read_members, read_items, read_object, read_array, text, numeral, boolean, null,
}
use harness_transport.Go.Strconv.{is_digit}
use harness_transport.Prelude.Find.{span, cut_prefix, cut_prefix_sound}
use harness_transport.Prelude.{
  ℕ, zero, suc, ◌+◌, ◌≤◌, ◌<◌, ◌≡◌, refl, ap, Bool, true, false, Bytes, [], ◌∷◌, ◌++◌, Option, none,
  some, length, length-append, arith, Option-cases, Bool-cases, inl, inr, if◌then◌else◌, ◌==◌,
  is_empty, codes,
}

-- What a bind passes on.
bind-some {ℓ κ} :
    {A : Type ℓ} {B : Type κ} (o : Option A) (f : A → Option B) {b : B}
    → (o >>= f) ≡ some b
    → (a : A) × (o ≡ some a) × (f a ≡ some b)
bind-some none f e = absurd (cc)
bind-some (some a) f e = (a, refl, e)

length-span : (p : ℕ → Bool) (s : Bytes) → length (span p s).0 + length (span p s).1 ≡ length s
unfolding span
length-span p [] = refl
length-span p (c ∷ s) = ground (arith, length-span p s)

not_empty : (s : Bytes) → is_empty s ≡ false → 1 ≤ length s
unfolding is_empty
not_empty [] h = absurd (cc)
not_empty (c ∷ s) h = omega arith

some_digits-Shrinks : (n : Bytes) → Shrinks (some_digits n)
unfolding some_digits is_empty
some_digits-Shrinks n s a u e =
    ground (arith, length-span is_digit s, not_empty (span is_digit s).0)

integer_part-Shrinks : (n : Bytes) → Shrinks (integer_part n)
unfolding integer_part is_empty
integer_part-Shrinks n s a u e =
    ground (arith, length-span is_digit s, not_empty (span is_digit s).0)

fraction-le : (n s a u : Bytes) → fraction (n, s) ≡ some (a, u) → length u ≤ length s
unfolding fraction
fraction-le n [] a u e = ground arith
fraction-le n (c ∷ s) a u e = ground (arith, some_digits-Shrinks (n ++ c ∷ []) s a u)

signed_digits-le : (n s a u : Bytes) → signed_digits n s ≡ some (a, u) → length u ≤ length s
unfolding signed_digits
signed_digits-le n [] a u e = absurd (cc)
signed_digits-le n (c ∷ s) a u e =
    ground (arith, some_digits-Shrinks (n ++ c ∷ []) s a u, some_digits-Shrinks n (c ∷ s) a u)

exponent-le : (n s a u : Bytes) → exponent (n, s) ≡ some (a, u) → length u ≤ length s
unfolding exponent
exponent-le n [] a u e = ground arith
exponent-le n (c ∷ s) a u e = ground (arith, signed_digits-le (n ++ c ∷ []) s a u)

number_tail :
    (o : Option (Bytes × Bytes)) (a u : Bytes)
    → (o >>= fraction >>= exponent) ≡ some (a, u)
    → (m : Bytes) × (q : Bytes) × (o ≡ some (m, q)) × (length u ≤ length q)
number_tail none a u e = absurd (cc)
number_tail (some (m, q)) a u e =
    let ((n, r), middle, last) = bind-some (fraction (m, q)) exponent e in
    (m, q, refl, omega (arith, fraction-le m q n r middle, exponent-le n r a u last))

read_number-Shrinks : Shrinks read_number
unfolding read_number
read_number-Shrinks [] a u e = absurd (cc)
read_number-Shrinks (c ∷ s) a u e =
    let head : Option (Bytes × Bytes) =
      if c == b'-' then integer_part (c ∷ []) s else integer_part [] (c ∷ s) in
    let (m, q, first, le) = number_tail head a u e in
    ground (arith, integer_part-Shrinks (c ∷ []) s m q, integer_part-Shrinks [] (c ∷ s) m q)

literal-Shrinks : (c : ℕ) (w : Bytes) (j : Json) → Shrinks (literal (c ∷ w) j)
unfolding literal
literal-Shrinks c w j s a u e =
    let (r, at, last) = bind-some (cut_prefix (c ∷ w) s) _ e in
    let same : length r ≡ length u = ground arith in
    omega (arith, ap length (cut_prefix_sound (c ∷ w) s at), length-append w r, same)

-- A reader with its result wrapped takes as much.
wrapped-Shrinks :
    {A : Type 0} (f : Bytes → Option (A × Bytes)) (g : A → Json)
    → Shrinks f
    → Shrinks (λ s. f s >>= λ (a, u). some (g a, u))
wrapped-Shrinks f g h s a u e =
    let ((b, r), at, last) = bind-some (f s) _ e in
    let same : length r ≡ length u = ground arith in omega (arith, h s b r at, same)

pub scalar-Shrinks : (c : ℕ) → Shrinks (scalar c)
unfolding scalar
scalar-Shrinks c s a u e = ground (
  arith,
  wrapped-Shrinks quoted text quoted-Shrinks s a u,
  literal-Shrinks b't' (codes "rue") (boolean true) s a u,
  literal-Shrinks b'f' (codes "alse") (boolean false) s a u,
  literal-Shrinks b'n' (codes "ull") null s a u,
  wrapped-Shrinks read_number numeral read_number-Shrinks s a u,
)

module _ (value : Reader) (shrinks : Shrinks value) where
  -- What stands behind a member or an item is at most what is left by the value.
  read_members-Shrinks : (n : ℕ) → Shrinks (read_members value n)
  unfolding read_members
  read_members-Shrinks zero s a u e = absurd (cc)
  read_members-Shrinks (suc n) s a u e =
      let ((k, t), e1, rest1) = bind-some (quoted s) _ e in
      let (t', e2, rest2) = bind-some (expect b':' t) _ rest1 in
      let ((v, w), e3, rest3) = bind-some (value t') _ rest2 in
      let before : length w < length s =
        omega (arith, quoted-Shrinks s k t e1, length-expect b':' t e2, shrinks t' v w e3) in
      elim (List-cases (skip_white w)) [
        | inl x ↦ absurd (cc (rw x at rest3))
        | inr (c, r, x) ↦
            let left : length r < length s =
              omega (arith, before, length-skip_white w, ap length x) in
            elim (Bool-cases (c == b',')) [
              | inl y ↦
                  let ((ms, q), e4, last) =
                    bind-some (read_members value n r) _ (rw (x, y) at rest3) in
                  let same : length q ≡ length u = ground arith in
                  omega (arith, read_members-Shrinks n r ms q e4, same)
              | inr y ↦ elim (Bool-cases (c == b'}')) [
                | inl z ↦
                    let last : some (member k v no_members, r) ≡ some (a, u) =
                      rw (x, y, z) at rest3 in
                    let same : length r ≡ length u = ground arith in omega arith
                | inr z ↦ absurd (cc (rw (x, y, z) at rest3))
              ]
            ]
      ]

  read_items-Shrinks : (n : ℕ) → Shrinks (read_items value n)
  unfolding read_items
  read_items-Shrinks zero s a u e = absurd (cc)
  read_items-Shrinks (suc n) s a u e =
      let ((v, w), e3, rest3) = bind-some (value s) _ e in
      elim (List-cases (skip_white w)) [
        | inl x ↦ absurd (cc (rw x at rest3))
        | inr (c, r, x) ↦
            let left : length r < length s =
              omega (arith, shrinks s v w e3, length-skip_white w, ap length x) in
            elim (Bool-cases (c == b',')) [
              | inl y ↦
                  let ((vs, q), e4, last) =
                    bind-some (read_items value n r) _ (rw (x, y) at rest3) in
                  let same : length q ≡ length u = ground arith in
                  omega (arith, read_items-Shrinks n r vs q e4, same)
              | inr y ↦ elim (Bool-cases (c == b']')) [
                | inl z ↦
                    let last : some (item v no_items, r) ≡ some (a, u) = rw (x, y, z) at rest3 in
                    let same : length r ≡ length u = ground arith in omega arith
                | inr z ↦ absurd (cc (rw (x, y, z) at rest3))
              ]
            ]
      ]

  pub read_object-Shrinks : (n : ℕ) → Shrinks (read_object value n)
  unfolding read_object
  read_object-Shrinks n s a u e = elim (Option-cases (expect b'}' s)) [
    | inl x ↦
        wrapped-Shrinks (read_members value n) object_of (read_members-Shrinks n) s a u
          (rw (x, read_object) at e)
    | inr (r, x) ↦
        let last : some (object_of no_members, r) ≡ some (a, u) = rw (x, read_object) at e in
        let same : length r ≡ length u = ground arith in omega (arith, length-expect b'}' s x, same)
  ]

  pub read_array-Shrinks : (n : ℕ) → Shrinks (read_array value n)
  unfolding read_array
  read_array-Shrinks n s a u e = elim (Option-cases (expect b']' s)) [
    | inl x ↦
        wrapped-Shrinks (read_items value n) array_of (read_items-Shrinks n) s a u
          (rw (x, read_array) at e)
    | inr (r, x) ↦
        let last : some (array_of no_items, r) ≡ some (a, u) = rw (x, read_array) at e in
        let same : length r ≡ length u = ground arith in omega (arith, length-expect b']' s x, same)
  ]

  -- An object and an array get rounds enough.
  pub read_object_fuel :
      (n : ℕ) (t : Bytes)
      → length t < n
      → read_object value n t ≡ read_object value (suc (length t)) t
  unfolding read_object
  read_object_fuel n t h = elim (Option-cases (expect b'}' t)) [
    | inl x ↦
        rw (x, read_object, read_members_fuel value shrinks n (suc (length t)) t h (omega arith))
          refl
    | inr (r, x) ↦ rw (x, read_object) refl
  ]

  pub read_array_fuel :
      (n : ℕ) (t : Bytes)
      → length t < n
      → read_array value n t ≡ read_array value (suc (length t)) t
  unfolding read_array
  read_array_fuel n t h = elim (Option-cases (expect b']' t)) [
    | inl x ↦
        rw (x, read_array, read_items_fuel value shrinks n (suc (length t)) t h (omega arith)) refl
    | inr (r, x) ↦ rw (x, read_array) refl
  ]
