-- ===== src/Go/Utf8/Whole.antt =====
-- A rune that was read whole: what follows its bytes does not matter, and it is written as these bytes.
use harness_transport.Go.Utf8.{
  rune_error, decode_rune, encode_rune, is_tail, is_second, runes_from, decode_rune_size,
  decode_rune_single,
}
use harness_transport.Prelude.{
  ℕ, zero, suc, length, length-take, ◌+◌, ◌-◌, ◌*◌, ◌≤◌, ◌<◌, ◌≡◌, ◌≢◌, refl, true, false, ◌&&◌,
  Bytes, [], ◌∷◌, ◌++◌, ltb, ◌==◌, within, take, arith,
}

pub decode_rune-take :
    (b : ℕ) (s t : Bytes)
    → ltb (decode_rune (b ∷ s)).0 0x80 ≡ false
    → (decode_rune (b ∷ s)).1 ≢ 1
    → decode_rune (take (decode_rune (b ∷ s)).1 (b ∷ s) ++ t) ≡ decode_rune (b ∷ s)
unfolding decode_rune
decode_rune-take b [] t h n = ground arith
decode_rune-take b (b1 ∷ []) t h n = ground arith
decode_rune-take b (b1 ∷ b2 ∷ []) t h n = ground arith
decode_rune-take b (b1 ∷ b2 ∷ b3 ∷ s) t h n = ground arith

encode_two :
    (b b1 : ℕ)
    → within 0xC2 0xDF b ≡ true
    → is_tail b1 ≡ true
    → encode_rune ((b - 0xC0) * 64 + (b1 - 0x80)) ≡ b ∷ b1 ∷ []
unfolding encode_rune
encode_two b b1 h k = ground arith

encode_three :
    (b b1 b2 : ℕ)
    → within 0xE0 0xEF b ≡ true
    → is_second b b1 && is_tail b2 ≡ true
    → encode_rune ((b - 0xE0) * 4096 + (b1 - 0x80) * 64 + (b2 - 0x80)) ≡ b ∷ b1 ∷ b2 ∷ []
unfolding encode_rune
encode_three b b1 b2 h k = ground arith

encode_four :
    (b b1 b2 b3 : ℕ)
    → within 0xF0 0xF4 b ≡ true
    → is_second b b1 && is_tail b2 && is_tail b3 ≡ true
    → encode_rune ((b - 0xF0) * 262144 + (b1 - 0x80) * 4096 + (b2 - 0x80) * 64 + (b3 - 0x80))
      ≡ b ∷ b1 ∷ b2 ∷ b3 ∷ []
unfolding encode_rune
encode_four b b1 b2 b3 h k = ground arith

pub encode_rune-decode_rune :
    (b : ℕ) (s : Bytes)
    → ltb (decode_rune (b ∷ s)).0 0x80 ≡ false
    → (decode_rune (b ∷ s)).1 ≢ 1
    → encode_rune (decode_rune (b ∷ s)).0 ≡ take (decode_rune (b ∷ s)).1 (b ∷ s)
unfolding decode_rune
encode_rune-decode_rune b [] h n = ground arith
encode_rune-decode_rune b (b1 ∷ []) h n = ground (arith, encode_two b b1)
encode_rune-decode_rune b (b1 ∷ b2 ∷ []) h n = ground (arith, encode_two b b1, encode_three b b1 b2)
encode_rune-decode_rune b (b1 ∷ b2 ∷ b3 ∷ s) h n =
    ground (arith, encode_two b b1, encode_three b b1 b2, encode_four b b1 b2 b3)

-- The equations of `runes_from`, with the decoding of a rune shut.
pub runes_from_nil : (k : ℕ) → runes_from k [] ≡ []
unfolding runes_from
runes_from_nil k = refl

pub runes_from_skip : (k b : ℕ) (s : Bytes) → runes_from (suc k) (b ∷ s) ≡ runes_from k s
unfolding runes_from
runes_from_skip k b s = refl

pub runes_from_rune :
    (b : ℕ) (s : Bytes)
    → runes_from 0 (b ∷ s)
      ≡ ((decode_rune (b ∷ s)).0, take (decode_rune (b ∷ s)).1 (b ∷ s))
        ∷ runes_from ((decode_rune (b ∷ s)).1 - 1) s
unfolding runes_from
runes_from_rune b s = refl

pub take-cons : (n b : ℕ) (s : Bytes) → 1 ≤ n → take n (b ∷ s) ≡ b ∷ take (n - 1) s
take-cons zero b s h = absurd (omega arith)
take-cons (suc n) b s h = let e : suc n - 1 ≡ n = omega arith in rw e refl

pub encode_rune-ascii : (r : ℕ) → r < 0x80 → encode_rune r ≡ r ∷ []
unfolding encode_rune
encode_rune-ascii r h = ground arith

-- A rune past ASCII that was no invalid byte has two bytes or more.
pub decode_rune-long :
    (b : ℕ) (s : Bytes)
    → ltb (decode_rune (b ∷ s)).0 0x80 ≡ false
    → ((decode_rune (b ∷ s)).0 == rune_error && length (take (decode_rune (b ∷ s)).1 (b ∷ s)) == 1)
      ≡ false
    → (decode_rune (b ∷ s)).1 ≢ 1
decode_rune-long b s h g one =
    let n = (decode_rune (b ∷ s)).1 in
    let size : length (take n (b ∷ s)) ≡ 1 =
      omega (arith, length-take n (b ∷ s), decode_rune_size b s, one) in
    let bad = decode_rune_single b s h one in cc (g, both bad size)
  where
    both : {r k : ℕ} → r ≡ rune_error → k ≡ 1 → (r == rune_error && k == 1) ≡ true
    both p q = rw (p, q)

-- An ASCII rune is its byte.
pub decode_rune-ascii :
    (b : ℕ) (s : Bytes) → ltb (decode_rune (b ∷ s)).0 0x80 ≡ true → decode_rune (b ∷ s) ≡ (b, 1)
unfolding decode_rune
decode_rune-ascii b [] h = ground arith
decode_rune-ascii b (b1 ∷ []) h = ground arith
decode_rune-ascii b (b1 ∷ b2 ∷ []) h = ground arith
decode_rune-ascii b (b1 ∷ b2 ∷ b3 ∷ s) h = ground arith

pub decode_rune-byte : (b : ℕ) (s : Bytes) → ltb b 0x80 ≡ true → decode_rune (b ∷ s) ≡ (b, 1)
unfolding decode_rune
decode_rune-byte b s h = rw h
