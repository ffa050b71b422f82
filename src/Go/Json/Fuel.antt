-- ===== src/Go/Json/Fuel.antt =====
-- Reading takes bytes: what is left of an input is shorter, and so the members and the items of a
-- value never run out of the rounds that they are given.
pub mod Values
pub mod Rounds
use harness_transport.Go.Json.Text.{string_body, prepend, piece}
use harness_transport.Go.Json.Value.{
  Json, Items, Members, ◌>>=◌, skip_white, expect, quoted, some_digits, integer_part, fraction,
  signed_digits, exponent, read_number, literal, scalar, Reader, read_members, read_items,
  read_object, read_array, read_with, read_value,
}
use harness_transport.Prelude.Find.{span, cut_prefix}
use harness_transport.Prelude.{
  ℕ, zero, suc, ◌+◌, ◌≤◌, ◌<◌, ◌≡◌, refl, sym, ap, ◌∙◌, Bool, true, false, Bytes, List, [], ◌∷◌,
  ◌++◌, Option, none, some, length, arith, Option-cases, Bool-cases, inl, inr, ◌⊎◌, if◌then◌else◌,
  ◌==◌,
}

-- What a reader leaves is shorter than its input.
abbrev pub Shrinks {ℓ} : {A : Type ℓ} → (Bytes → Option (A × Bytes)) → Type ℓ
Shrinks {A = A} f = (s : Bytes) (a : A) (u : Bytes) → f s ≡ some (a, u) → length u < length s

pub length-skip_white : (s : Bytes) → length (skip_white s) ≤ length s
unfolding skip_white
length-skip_white [] = omega arith
length-skip_white (c ∷ s) = ground (arith, length-skip_white s)

pub length-expect : (c : ℕ) (s : Bytes) {u : Bytes} → expect c s ≡ some u → length u < length s
unfolding expect
length-expect c s {u} e = tail (skip_white s) (length-skip_white s) e
  where
    tail :
        (w : Bytes)
        → length w ≤ length s
        → elim w [ [] ↦ none | x ∷ t ↦ if x == c then some t else none ] ≡ some u
        → length u < length s
    tail [] h e = cc
    tail (x ∷ t) h e = ground arith

pub string_body-Shrinks : (k : ℕ) → Shrinks (string_body k)
unfolding string_body prepend
string_body-Shrinks k [] a u e = absurd (cc)
string_body-Shrinks (suc k) (b ∷ s) a u e = omega (arith, string_body-Shrinks k s a u e)
string_body-Shrinks zero (b ∷ s) a u e = elim (Bool-cases (b == b'"')) [
  | inl q ↦ let same : some ([], s) ≡ some (a, u) = rw q at e in ground arith
  | inr q ↦ elim (Option-cases (piece b s)) [
    | inl none_left ↦ absurd (cc (rw (q, none_left) at e))
    | inr ((w, n), at) ↦ elim (Option-cases (string_body n s)) [
      | inl none_left ↦ absurd (cc (rw (q, at, none_left) at e))
      | inr ((t, r), found) ↦
          let same : some (w ++ t, r) ≡ some (a, u) = rw (q, at, found) at e in
          ground (arith, string_body-Shrinks n s t r found)
    ]
  ]
]

pub quoted-Shrinks : Shrinks quoted
unfolding quoted
quoted-Shrinks s a u e = elim (Option-cases (expect b'"' s)) [
  | inl none_left ↦ absurd (cc (rw none_left at e))
  | inr (t, at) ↦ omega (arith, length-expect b'"' s at, string_body-Shrinks 0 t a u (rw at at e))
]

-- Two continuations that agree on what is passed on.
bind-eq {ℓ κ} :
    {A : Type ℓ} {B : Type κ} (o : Option A) (f g : A → Option B)
    → ((a : A) → o ≡ some a → f a ≡ g a)
    → (o >>= f) ≡ (o >>= g)
bind-eq none f g h = refl
bind-eq (some a) f g h = h a refl

pub List-cases : (s : Bytes) → (s ≡ []) ⊎ ((c : ℕ) × (t : Bytes) × (s ≡ c ∷ t))
List-cases [] = inl refl
List-cases (c ∷ t) = inr (c, t, refl)

-- Two counts of rounds that are both enough.
module _ (value : Reader) (shrinks : Shrinks value) where
  pub read_members_fuel :
      (n m : ℕ) (s : Bytes)
      → length s < n
      → length s < m
      → read_members value n s ≡ read_members value m s
  unfolding read_members
  read_members_fuel zero m s h k = absurd (omega arith)
  read_members_fuel (suc n) zero s h k = absurd (omega arith)
  read_members_fuel (suc n) (suc m) s h k = bind-eq (quoted s) _ _ λ (key, t) e.
      bind-eq (expect b':' t) _ _ λ t' f. bind-eq (value t') _ _ λ (v, u) g.
        elim (List-cases (skip_white u)) [
          | inl w ↦ rw w refl
          | inr (c, r, w) ↦
              let left : length r < length s = omega (
                arith,
                quoted-Shrinks s key t e,
                length-expect b':' t f,
                shrinks t' v u g,
                length-skip_white u,
                ap length w,
              ) in
              rw (w, read_members_fuel n m r (omega arith) (omega arith)) refl
        ]

  pub read_items_fuel :
      (n m : ℕ) (s : Bytes)
      → length s < n
      → length s < m
      → read_items value n s ≡ read_items value m s
  unfolding read_items
  read_items_fuel zero m s h k = absurd (omega arith)
  read_items_fuel (suc n) zero s h k = absurd (omega arith)
  read_items_fuel (suc n) (suc m) s h k = bind-eq (value s) _ _ λ (v, u) g.
      elim (List-cases (skip_white u)) [
        | inl w ↦ rw w refl
        | inr (c, r, w) ↦
            let left : length r < length s =
              omega (arith, shrinks s v u g, length-skip_white u, ap length w) in
            rw (w, read_items_fuel n m r (omega arith) (omega arith)) refl
      ]
