-- ===== src/Go/Strconv/Leading.antt =====
-- Decimal digits with no zero in front of another.
use harness_transport.Go.Strconv.{itoa, itoa_loop}
use harness_transport.Prelude.{
  ℕ, zero, suc, ◌+◌, ◌/◌, ◌%◌, ◌<◌, ◌≡◌, refl, Bool, true, false, not, Bytes, [], ◌∷◌, ltb, ◌==◌,
  arith, Bool-cases, inl, inr,
}

unfoldable pub leads : Bytes → Bool
leads (c ∷ d ∷ _) = not (c == b'0')
leads _ = true

starts : Bytes → Bool
starts [] = false
starts (c ∷ _) = not (c == b'0')

starts→leads : (s : Bytes) → starts s ≡ true → leads s ≡ true
unfolding starts leads
starts→leads [] h = refl
starts→leads (c ∷ []) h = refl
starts→leads (c ∷ d ∷ s) h = h

itoa_loop-starts :
    (fuel n : ℕ) (out : Bytes) → n < fuel → 0 < n → starts (itoa_loop fuel n out) ≡ true
unfolding itoa_loop starts
itoa_loop-starts zero n out h p = absurd (omega arith)
itoa_loop-starts (suc fuel) n out h p = elim (Bool-cases (ltb n 10)) [
  | inl e ↦ rw e (ground arith)
  | inr e ↦
      rw e (itoa_loop-starts fuel (n / 10) ((b'0' + n % 10) ∷ out) (ground arith) (ground arith))
]

pub itoa-leads : (n : ℕ) → leads (itoa n) ≡ true
unfolding itoa itoa_loop leads
itoa-leads zero = refl
itoa-leads (suc n) =
    starts→leads (itoa (suc n))
      (itoa_loop-starts (suc (suc n)) (suc n) [] (omega arith) (omega arith))
