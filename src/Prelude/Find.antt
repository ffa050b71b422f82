-- ===== src/Prelude/Find.antt =====
-- Searching a byte string: the first byte that fails or passes a test, prefixes and suffixes.
use harness_transport.Prelude.Lists.{length, length-append, all}
use harness_transport.Prelude.Tests.{
  ◌==◌, if◌then◌else◌, Bytes, str_eq, str_eq_iff, str_eq_self, Bool-cases,
}
use Prim.Native.Nat.{ℕ}
use mathlib.Core.Bool.{Bool, true, false, not}
use mathlib.Core.Logic.{inl, inr}
use mathlib.Core.List.{[], ◌∷◌, ◌++◌}
use mathlib.Core.Option.{Option, none, some}
use mathlib.Core.Path.{◌≡◌, refl, ap}
use native.Mathlib.Omega.{arith}

-- `strings.CutPrefix`: what follows the prefix.
unfoldable pub cut_prefix : Bytes → Bytes → Option Bytes
cut_prefix [] s = some s
cut_prefix (p ∷ ps) [] = none
cut_prefix (p ∷ ps) (c ∷ s) = let rest = cut_prefix ps s in if p == c then rest else none

pub cut_prefix-append : (p s : Bytes) → cut_prefix p (p ++ s) ≡ some s
unfolding cut_prefix
cut_prefix-append [] s = refl
cut_prefix-append (c ∷ p) s = ground (arith, cut_prefix-append p s)

pub cut_prefix_sound : (p s : Bytes) {rest : Bytes} → cut_prefix p s ≡ some rest → s ≡ p ++ rest
unfolding cut_prefix
cut_prefix_sound [] s e = ground arith
cut_prefix_sound (p ∷ ps) [] e = cc
cut_prefix_sound (p ∷ ps) (c ∷ s) {rest} e = ground (arith, cut_prefix_sound ps s {rest = rest})

-- `strings.CutSuffix`: what stands before the suffix.
pub cons_some : ℕ → Option Bytes → Option Bytes
cons_some c none = none
cons_some c (some b) = some (c ∷ b)

unfoldable pub cut_suffix : Bytes → Bytes → Option Bytes
unfolding cons_some
cut_suffix q [] = if str_eq q [] then some [] else none
cut_suffix q (c ∷ s) =
    let rest = cons_some c (cut_suffix q s) in if str_eq q (c ∷ s) then some [] else rest

pub str_eq-append_cons : (q b : Bytes) (c : ℕ) → str_eq q (c ∷ (b ++ q)) ≡ false
str_eq-append_cons q b c = elim (Bool-cases (str_eq q (c ∷ (b ++ q)))) [
  | inl e ↦ absurd (omega (arith, ap length ((str_eq_iff q (c ∷ (b ++ q))).0 e), length-append b q))
  | inr e ↦ e
]

pub cut_suffix-append : (q b : Bytes) → cut_suffix q (b ++ q) ≡ some b
unfolding cut_suffix
cut_suffix-append [] [] = unfold str_eq in refl
cut_suffix-append (x ∷ q) [] = rw (str_eq_self (x ∷ q))
cut_suffix-append q (c ∷ b) = rw (str_eq-append_cons q b c, cut_suffix-append q b)

-- The bytes before the first one that fails the test, and the rest.
unfoldable pub span : (ℕ → Bool) → Bytes → Bytes × Bytes
span p [] = ([], [])
span p (c ∷ s) = let (a, b) = span p s in if p c then (c ∷ a, b) else ([], c ∷ s)

-- A run of passing bytes ends at the first that fails.
pub span-append :
    (p : ℕ → Bool) (a : Bytes) (c : ℕ) (s : Bytes)
    → all p a ≡ true
    → p c ≡ false
    → span p (a ++ c ∷ s) ≡ (a, c ∷ s)
unfolding span
span-append p [] c s h e = rw e
span-append p (x ∷ a) c s h e = ground (arith, span-append p a c s)

pub span-all : (p : ℕ → Bool) (a : Bytes) → all p a ≡ true → span p a ≡ (a, [])
unfolding span
span-all p [] h = refl
span-all p (x ∷ a) h = ground (arith, span-all p a)

-- What follows the last byte `c` (`strings.LastIndexByte`).
unfoldable pub after_last : ℕ → Bytes → Option Bytes
after_last c [] = none
after_last c (x ∷ s) = elim (after_last c s) [
  | some t ↦ some t
  | none ↦ if x == c then some s else none
]

pub after_last-none : (c : ℕ) (t : Bytes) → all (λ x. not (x == c)) t ≡ true → after_last c t ≡ none
unfolding after_last
after_last-none c [] h = refl
after_last-none c (x ∷ t) h = ground (arith, after_last-none c t)

pub after_last-append :
    (c : ℕ) (a t : Bytes) → all (λ x. not (x == c)) t ≡ true → after_last c (a ++ c ∷ t) ≡ some t
unfolding after_last
after_last-append c [] t h = ground (arith, after_last-none c t h)
after_last-append c (x ∷ a) t h = rw (after_last-append c a t h) refl
