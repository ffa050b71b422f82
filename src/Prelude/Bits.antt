-- ===== src/Prelude/Bits.antt =====
-- Masks on one byte as arithmetic; each is a table of at most 256 entries, checked by evaluation.
use Prim.Native.Nat.{ℕ, zero, suc, ◌+◌, ◌*◌, ◌/◌, ◌%◌, ◌<◌, bit_and, bit_or}
use harness_transport.Prelude.Tests.{◌==◌}
use mathlib.Core.Bool.{Bool, true, ◌&&◌}
use mathlib.Core.Path.{◌≡◌, refl}
use native.Mathlib.Omega.{arith}

module _ (f g : ℕ → ℕ) where
  agree_below : ℕ → Bool
  agree_below zero = true
  agree_below (suc n) = f n == g n && agree_below n

  agree_below→eq : (n : ℕ) → agree_below n ≡ true → (i : ℕ) → i < n → f i ≡ g i
  unfolding agree_below
  agree_below→eq zero e i h = absurd (omega arith)
  agree_below→eq (suc n) e i h = ground (arith, agree_below→eq n (ground arith) i)

pub bit_and_0x7f : (b : ℕ) → b < 256 → bit_and b 0x7f ≡ b % 128
unfolding agree_below
bit_and_0x7f = agree_below→eq _ _ 256 refl

pub bit_and_0x80 : (b : ℕ) → b < 256 → bit_and b 0x80 ≡ b / 128 * 128
unfolding agree_below
bit_and_0x80 = agree_below→eq _ _ 256 refl

pub bit_and_0x0f : (b : ℕ) → b < 256 → bit_and b 0x0f ≡ b % 16
unfolding agree_below
bit_and_0x0f = agree_below→eq _ _ 256 refl

pub bit_and_0x3f : (b : ℕ) → b < 256 → bit_and b 0x3f ≡ b % 64
unfolding agree_below
bit_and_0x3f = agree_below→eq _ _ 256 refl

pub bit_or_0x80 : (b : ℕ) → b < 128 → bit_or b 0x80 ≡ b + 128
unfolding agree_below
bit_or_0x80 = agree_below→eq _ _ 128 refl

pub or_0x80 : (b : ℕ) → b < 128 → bit_or 0x80 b ≡ b + 128
unfolding agree_below
or_0x80 = agree_below→eq _ _ 128 refl

pub bit_or_0x40 : (b : ℕ) → b < 16 → bit_or b 0x40 ≡ b + 64
unfolding agree_below
bit_or_0x40 = agree_below→eq _ _ 16 refl

pub bit_or_0x70 : (b : ℕ) → b < 16 → bit_or b 0x70 ≡ b + 112
unfolding agree_below
bit_or_0x70 = agree_below→eq _ _ 16 refl
