-- ===== src/Go/Json/Store/Laws.antt =====
-- Integers and texts that are stored as they were written.
use harness_transport.Go.Json.Store.{int_of}
use harness_transport.Go.Utf8.Whole.{decode_rune-byte, runes_from_nil, runes_from_rune}
use harness_transport.Go.Utf8.{rune_error}
use harness_transport.Go.Utf8.Valid.{is_valid, are_valid}
use harness_transport.Go.Json.{number}
use harness_transport.Go.Strconv.{
  itoa, is_digit, digits_value, itoa-digits, itoa-is_empty, digits_value-itoa,
}
use harness_transport.Prelude.Int.{ℤ, pos, negsuc}
use harness_transport.Prelude.{
  ℕ, suc, ◌^◌, ◌<◌, ◌≡◌, refl, true, false, Bytes, [], ◌∷◌, some, arith, is_empty, lt→ltb, ltb,
  le→leb, ◌==◌, all,
}

-- An `int` of 64 bits.
abbrev pub IsInt : ℤ → Type 0
IsInt (pos n) = n < 2 ^ 63
IsInt (negsuc n) = n < 2 ^ 63

abbrev pub IsText : Bytes → Type 0
IsText s = is_valid s ≡ true

int_of-digits :
    (n : ℕ) (s : Bytes)
    → n < 2 ^ 63
    → all is_digit s ≡ true
    → is_empty s ≡ false
    → digits_value 0 s ≡ n
    → int_of s ≡ some (pos n)
unfolding int_of is_empty
int_of-digits n [] h d e v = absurd (cc)
int_of-digits n (c ∷ s) h d e v =
    let no_sign : (c == b'-') ≡ false = ground arith in rw (no_sign, d, v, lt→ltb n (2 ^ 63) h) refl

pub int_of-number : (z : ℤ) → IsInt z → int_of (number z) ≡ some z
unfolding int_of number
int_of-number (pos n) h =
    int_of-digits n (itoa n) h (itoa-digits n) (itoa-is_empty n) (digits_value-itoa n)
int_of-number (negsuc n) h =
    rw (itoa-digits (suc n), digits_value-itoa (suc n), le→leb (suc n) (2 ^ 63) (omega arith)) refl

-- ASCII is UTF-8.
pub ascii-IsText : (s : Bytes) → all (λ c. ltb c 0x80) s ≡ true → IsText s
unfolding are_valid
ascii-IsText [] h = rw (runes_from_nil 0)
ascii-IsText (c ∷ s) h =
    let no_error : (c == rune_error) ≡ false = ground arith in
    let ascii : ltb c 0x80 ≡ true = ground arith in
    rw (runes_from_rune c s, decode_rune-byte c s ascii, no_error) (ascii-IsText s (ground arith))
