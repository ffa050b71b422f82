-- ===== src/Go/Utf8/Valid.antt =====
-- `utf8.ValidString`, and the text that is left of a string when its invalid bytes are replaced.
use harness_transport.Go.Utf8.Whole.{
  take-cons, encode_rune-ascii, decode_rune-long, decode_rune-ascii, encode_rune-decode_rune,
  runes_from_nil, runes_from_skip, runes_from_rune,
}
use harness_transport.Go.Utf8.{
  rune_error, decode_rune, encode_rune, runes, runes_from, decode_rune_size,
}
use harness_transport.Prelude.{
  ℕ, zero, suc, ◌-◌, ◌≡◌, ap, Bool, true, not, ◌&&◌, Bytes, List, [], ◌∷◌, ◌++◌, ltb, ltb→lt, ◌==◌,
  length, take, drop, take-append-drop, arith, Bool-cases, inl, inr,
}

-- The runes, each in UTF-8: U+FFFD stands in the place of an invalid byte.
unfoldable pub valid_text : List (ℕ × Bytes) → Bytes
valid_text [] = []
valid_text ((r, raw) ∷ rs) = encode_rune r ++ valid_text rs

unfoldable pub are_valid : List (ℕ × Bytes) → Bool
are_valid [] = true
are_valid ((r, raw) ∷ rs) = not (r == rune_error && length raw == 1) && are_valid rs

-- No byte of a string is invalid.
abbrev pub is_valid : Bytes → Bool
is_valid s = are_valid (runes s)

encode_rune-valid :
    (b : ℕ) (s : Bytes)
    → let (r, n) = decode_rune (b ∷ s) in
      not (r == rune_error && length (take n (b ∷ s)) == 1) ≡ true → encode_rune r ≡ take n (b ∷ s)
encode_rune-valid b s h = elim (Bool-cases (ltb (decode_rune (b ∷ s)).0 0x80)) [
  | inl e ↦
      let ascii = decode_rune-ascii b s e in
      rw ascii (encode_rune-ascii b (ltb→lt b 0x80 (rw ascii at e)))
  | inr e ↦ encode_rune-decode_rune b s e (decode_rune-long b s e (ground arith))
]

valid_text-runes_from :
    (k : ℕ) (s : Bytes) → are_valid (runes_from k s) ≡ true → valid_text (runes_from k s) ≡ drop k s
unfolding valid_text are_valid
valid_text-runes_from zero [] h = rw (runes_from_nil 0)
valid_text-runes_from (suc k) [] h = rw (runes_from_nil (suc k))
valid_text-runes_from (suc k) (b ∷ s) h =
    rw (runes_from_skip k b s) (valid_text-runes_from k s (rw (runes_from_skip k b s) at h))
valid_text-runes_from zero (b ∷ s) h =
    let n = (decode_rune (b ∷ s)).1 in
    let later = runes_from (n - 1) s in
    let both : not ((decode_rune (b ∷ s)).0 == rune_error && length (take n (b ∷ s)) == 1)
          && are_valid later
        ≡ true =
      rw (runes_from_rune b s) at h in
    let (lo, hi) = decode_rune_size b s in
    rw
      (
        runes_from_rune b s,
        encode_rune-valid b s (ground arith),
        valid_text-runes_from (n - 1) s (ground arith),
        take-cons n b s lo,
      )
      (ap (◌∷◌ b) (take-append-drop (n - 1) s))

-- Of a valid string, all is left.
pub valid_text-runes : (s : Bytes) → is_valid s ≡ true → valid_text (runes s) ≡ s
valid_text-runes s h = valid_text-runes_from 0 s h
