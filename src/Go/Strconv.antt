-- ===== src/Go/Strconv.antt =====
-- `strconv.Itoa`, `strconv.Atoi`, and hexadecimal digits.
pub mod Leading
use harness_transport.Prelude.{
  not, ◌==◌, ℕ, zero, suc, ◌+◌, ◌-◌, ◌*◌, ◌/◌, ◌%◌, ◌^◌, ◌≤◌, ◌<◌, ◌≡◌, sym, refl, Bool, true,
  false, Bytes, [], ◌∷◌, ◌++◌, Option, none, some, ltb, within, if◌then◌else◌, arith, all, is_empty,
  length, Bool-cases, inl, inr, ap, ◌∙◌,
}

itoa_loop : ℕ → ℕ → Bytes → Bytes
itoa_loop zero n out = out
itoa_loop (suc fuel) n out =
    let out' = (b'0' + n % 10) ∷ out in
    let rest = itoa_loop fuel (n / 10) out' in if ltb n 10 then out' else rest

-- The decimal digits of a number; a number has no more digits than the fuel given here.
unfoldable pub itoa : ℕ → Bytes
unfolding itoa_loop
itoa n = itoa_loop (suc n) n []

abbrev pub is_digit : ℕ → Bool
is_digit c = within b'0' b'9' c

unfoldable pub digits_value : ℕ → Bytes → ℕ
digits_value acc [] = acc
digits_value acc (c ∷ s) = digits_value (acc * 10 + (c - b'0')) s

abbrev pub max_int : ℕ
max_int = 2 ^ 63 - 1

-- `strconv.Atoi` on a string with no sign: digits only, and within an `int`.
unfoldable pub atoi : Bytes → Option ℕ
unfolding digits_value
atoi s =
    let n = digits_value 0 s in
    if is_empty s
    then none
    else if all is_digit s
    then (if ltb max_int n then none else some n)
    else none

itoa_loop-digits :
    (fuel n : ℕ) (out : Bytes)
    → all is_digit out ≡ true
    → all is_digit (itoa_loop fuel n out) ≡ true
unfolding itoa_loop
itoa_loop-digits zero n out h = h
itoa_loop-digits (suc fuel) n out h =
    ground (arith, itoa_loop-digits fuel (n / 10) ((b'0' + n % 10) ∷ out))

pub itoa-digits : (n : ℕ) → all is_digit (itoa n) ≡ true
unfolding itoa
itoa-digits n = itoa_loop-digits (suc n) n [] refl

itoa_loop-value :
    (fuel n : ℕ) (out : Bytes)
    → n < fuel
    → digits_value 0 (itoa_loop fuel n out) ≡ digits_value n out
unfolding itoa_loop digits_value
itoa_loop-value zero n out h = absurd (omega arith)
itoa_loop-value (suc fuel) n out h = elim (Bool-cases (ltb n 10)) [
  | inl b ↦ rw b (ground arith)
  | inr b ↦
      let e : n / 10 * 10 + (b'0' + n % 10 - b'0') ≡ n = omega arith in
      rw b (
        itoa_loop-value fuel (n / 10) ((b'0' + n % 10) ∷ out) (ground arith)
        ∙ ap (λ x. digits_value x out) e)
]

itoa_loop-is_empty :
    (fuel n : ℕ) (c : ℕ) (out : Bytes) → is_empty (itoa_loop fuel n (c ∷ out)) ≡ false
unfolding itoa_loop is_empty
itoa_loop-is_empty zero n c out = refl
itoa_loop-is_empty (suc fuel) n c out =
    ground (arith, itoa_loop-is_empty fuel (n / 10) (b'0' + n % 10) (c ∷ out))

pub itoa-is_empty : (n : ℕ) → is_empty (itoa n) ≡ false
unfolding itoa is_empty
itoa-is_empty n = ground (arith, itoa_loop-is_empty n (n / 10) (b'0' + n % 10) [])

pub digits_value-itoa : (n : ℕ) → digits_value 0 (itoa n) ≡ n
unfolding itoa digits_value
digits_value-itoa n = itoa_loop-value (suc n) n [] (omega arith)

-- Different numbers have different digits.
pub itoa-injective : (m n : ℕ) → itoa m ≡ itoa n → m ≡ n
itoa-injective m n e = sym (digits_value-itoa m) ∙ ap (digits_value 0) e ∙ digits_value-itoa n

-- Every `int` that is not negative is read back from its digits.
pub atoi-itoa : (n : ℕ) → n ≤ max_int → atoi (itoa n) ≡ some n
unfolding atoi
atoi-itoa n h = ground (arith, itoa-digits n, itoa-is_empty n, digits_value-itoa n)

-- Two or more lowercase hexadecimal digits, as `encoding/hex` writes a byte.
unfoldable pub hex_digit : ℕ → ℕ
hex_digit d = if ltb d 10 then b'0' + d else b'a' + (d - 10)

abbrev pub hex_byte : ℕ → Bytes
hex_byte b = hex_digit (b / 16) ∷ hex_digit (b % 16) ∷ []

unfoldable pub hex_string : Bytes → Bytes
unfolding hex_digit
hex_string [] = []
hex_string (b ∷ s) = hex_byte b ++ hex_string s

itoa_loop-length :
    (fuel k n : ℕ) (out : Bytes)
    → n < 10 ^ suc k
    → length (itoa_loop fuel n out) ≤ length out + suc k
unfolding itoa_loop
itoa_loop-length zero k n out h = omega arith
itoa_loop-length (suc fuel) zero n out h = ground arith
itoa_loop-length (suc fuel) (suc k) n out h =
    let smaller : n / 10 < 10 ^ suc k = omega arith in
    ground (arith, itoa_loop-length fuel k (n / 10) ((b'0' + n % 10) ∷ out) smaller)

-- An `int` that is not negative has nineteen digits at most.
pub length-itoa : (n : ℕ) → n ≤ max_int → length (itoa n) ≤ 19
unfolding itoa
length-itoa n h = itoa_loop-length (suc n) 18 n [] (omega arith)

pub length-hex_string : (s : Bytes) → length (hex_string s) ≡ 2 * length s
unfolding hex_string
length-hex_string [] = refl
length-hex_string (b ∷ s) = omega (arith, length-hex_string s)

-- No hexadecimal text holds a byte that is no digit and no letter.
pub hex_string-without :
    (c : ℕ) (s : Bytes) → c < b'0' → all (λ x. not (x == c)) (hex_string s) ≡ true
unfolding hex_string hex_digit
hex_string-without c [] h = refl
hex_string-without c (b ∷ s) h = ground (arith, hex_string-without c s h)
