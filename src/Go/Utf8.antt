-- ===== src/Go/Utf8.antt =====
-- `unicode/utf8` and the loop `for _, r := range s`, over byte strings.
pub mod Whole
pub mod Valid
use harness_transport.Prelude.{
  length-take, ℕ, zero, suc, ◌+◌, ◌-◌, ◌*◌, ◌/◌, ◌%◌, ◌≤◌, ◌<◌, ◌≡◌, ◌≢◌, Bool, true, false, not,
  ◌&&◌, ◌||◌, Bytes, List, [], ◌∷◌, ltb, leb, ◌==◌, within, if◌then◌else◌, length, take, all, arith,
  all-take, All,
}

-- U+FFFD, which an invalid byte is read as.
abbrev pub rune_error : ℕ
rune_error = 0xFFFD

abbrev pub invalid : ℕ × ℕ
invalid = (rune_error, 1)

abbrev is_tail : ℕ → Bool
is_tail b = within 0x80 0xBF b

-- The bytes that may follow a first byte: no overlong form, no surrogate, nothing past U+10FFFF.
abbrev is_second : ℕ → ℕ → Bool
is_second b0 b1 =
    leb (if b0 == 0xE0 then 0xA0 else if b0 == 0xF0 then 0x90 else 0x80) b1
    && leb b1 (if b0 == 0xED then 0x9F else if b0 == 0xF4 then 0x8F else 0xBF)

decode_two : ℕ → Bytes → ℕ × ℕ
decode_two b0 (b1 ∷ _) = if is_tail b1 then ((b0 - 0xC0) * 64 + (b1 - 0x80), 2) else invalid
decode_two b0 _ = invalid

decode_three : ℕ → Bytes → ℕ × ℕ
decode_three b0 (b1 ∷ b2 ∷ _) =
    if is_second b0 b1 && is_tail b2
    then ((b0 - 0xE0) * 4096 + (b1 - 0x80) * 64 + (b2 - 0x80), 3)
    else invalid
decode_three b0 _ = invalid

decode_four : ℕ → Bytes → ℕ × ℕ
decode_four b0 (b1 ∷ b2 ∷ b3 ∷ _) =
    if is_second b0 b1 && is_tail b2 && is_tail b3
    then ((b0 - 0xF0) * 262144 + (b1 - 0x80) * 4096 + (b2 - 0x80) * 64 + (b3 - 0x80), 4)
    else invalid
decode_four b0 _ = invalid

-- `utf8.DecodeRune`: the rune and the count of its bytes.
unfoldable pub decode_rune : Bytes → ℕ × ℕ
unfolding decode_two decode_three decode_four
decode_rune [] = (rune_error, 0)
decode_rune (b ∷ s) =
    if ltb b 0x80
    then (b, 1)
    else if within 0xC2 0xDF b
    then decode_two b s
    else if within 0xE0 0xEF b
    then decode_three b s
    else if within 0xF0 0xF4 b
    then decode_four b s
    else invalid

-- The runes of a string, each with its bytes, behind `k` bytes that are read already.
unfoldable pub runes_from : ℕ → Bytes → List (ℕ × Bytes)
unfolding decode_rune
runes_from k [] = []
runes_from (suc k) (b ∷ s) = runes_from k s
runes_from zero (b ∷ s) =
    let r = decode_rune (b ∷ s) in (r.0, take r.1 (b ∷ s)) ∷ runes_from (r.1 - 1) s

abbrev pub runes : Bytes → List (ℕ × Bytes)
runes = runes_from 0

-- `utf8.RuneCountInString`
abbrev pub rune_count : Bytes → ℕ
rune_count s = length (runes s)

-- `utf8.AppendRune`
unfoldable pub encode_rune : ℕ → Bytes
encode_rune r =
    if ltb r 0x80
    then r ∷ []
    else if ltb r 0x800
    then (0xC0 + r / 64) ∷ (0x80 + r % 64) ∷ []
    else if within 0xD800 0xDFFF r || ltb 0x10FFFF r
    then 0xEF ∷ 0xBF ∷ 0xBD ∷ []
    else if ltb r 0x10000
    then (0xE0 + r / 4096) ∷ (0x80 + r / 64 % 64) ∷ (0x80 + r % 64) ∷ []
    else (0xF0 + r / 262144) ∷ (0x80 + r / 4096 % 64) ∷ (0x80 + r / 64 % 64) ∷ (0x80 + r % 64) ∷ []

-- An ASCII byte shows in an encoded rune only as the rune itself.
pub encode_rune_without :
    (c r : ℕ) → c < 0x80 → (r == c) ≡ false → all (λ b. not (b == c)) (encode_rune r) ≡ true
unfolding encode_rune
encode_rune_without c r hc hr = ground arith

-- A rune has a byte at least, and no more than there are.
pub decode_rune_size :
    (b : ℕ) (s : Bytes) → (1 ≤ (decode_rune (b ∷ s)).1) × ((decode_rune (b ∷ s)).1 ≤ length (b ∷ s))
unfolding decode_rune
decode_rune_size b [] = ground arith
decode_rune_size b (b1 ∷ []) = ground arith
decode_rune_size b (b1 ∷ b2 ∷ []) = ground arith
decode_rune_size b (b1 ∷ b2 ∷ b3 ∷ s) = ground arith

length-runes_from : (k : ℕ) (s : Bytes) → length (runes_from k s) ≤ length s - k
unfolding runes_from
length-runes_from k [] = omega arith
length-runes_from (suc k) (b ∷ s) = omega (arith, length-runes_from k s)
length-runes_from zero (b ∷ s) =
    omega (arith, length-runes_from ((decode_rune (b ∷ s)).1 - 1) s, decode_rune_size b s)

-- A string has no more runes than bytes.
pub rune_count-le : (s : Bytes) → rune_count s ≤ length s
rune_count-le s = omega (arith, length-runes_from 0 s)

-- Each rune's bytes are bytes of the string.
pub runes_from-all :
    (p : ℕ → Bool) (k : ℕ) (s : Bytes)
    → all p s ≡ true
    → All (λ r. all p r.1 ≡ true) (runes_from k s)
unfolding runes_from
runes_from-all p k [] h = tt
runes_from-all p (suc k) (b ∷ s) h = runes_from-all p k s (ground arith)
runes_from-all p zero (b ∷ s) h =
    let n = (decode_rune (b ∷ s)).1 in
    (all-take p n (b ∷ s) h, runes_from-all p (n - 1) s (ground arith))

-- A rune past ASCII that was no invalid byte has no ASCII byte in it.
pub decode_rune-raw :
    (b : ℕ) (s : Bytes)
    → ltb (decode_rune (b ∷ s)).0 0x80 ≡ false
    → (decode_rune (b ∷ s)).1 ≢ 1
    → all (leb 0x80) (take (decode_rune (b ∷ s)).1 (b ∷ s)) ≡ true
unfolding decode_rune
decode_rune-raw b [] h n = ground arith
decode_rune-raw b (b1 ∷ []) h n = ground arith
decode_rune-raw b (b1 ∷ b2 ∷ []) h n = ground arith
decode_rune-raw b (b1 ∷ b2 ∷ b3 ∷ s) h n = ground arith

-- A single byte past ASCII is invalid.
pub decode_rune_single :
    (b : ℕ) (s : Bytes)
    → ltb (decode_rune (b ∷ s)).0 0x80 ≡ false
    → (decode_rune (b ∷ s)).1 ≡ 1
    → (decode_rune (b ∷ s)).0 ≡ rune_error
unfolding decode_rune
decode_rune_single b [] h n = ground arith
decode_rune_single b (b1 ∷ []) h n = ground arith
decode_rune_single b (b1 ∷ b2 ∷ []) h n = ground arith
decode_rune_single b (b1 ∷ b2 ∷ b3 ∷ s) h n = ground arith

-- The bytes that a list of runes was read from.
abbrev pub raw_length : List (ℕ × Bytes) → ℕ
raw_length [] = 0
raw_length ((r, raw) ∷ rs) = length raw + raw_length rs

pub raw_length-runes_from : (k : ℕ) (s : Bytes) → raw_length (runes_from k s) ≤ length s - k
unfolding runes_from
raw_length-runes_from k [] = omega arith
raw_length-runes_from (suc k) (b ∷ s) = omega (arith, raw_length-runes_from k s)
raw_length-runes_from zero (b ∷ s) =
    let n = (decode_rune (b ∷ s)).1 in
    omega (arith, raw_length-runes_from (n - 1) s, decode_rune_size b s, length-take n (b ∷ s))
