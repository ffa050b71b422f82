-- ===== src/Go/Json/Text/RoundTrip.antt =====
-- A literal that `quote` writes is read back.
use harness_transport.Go.Json.{escape_ascii, escape_rune, escape, unicode_escape, quote}
use harness_transport.Go.Json.Text.{
  hex_value, hex_more, four_hex, unicode_unit, simple_escape, escape_at, piece, prepend,
  string_body,
}
use harness_transport.Go.Strconv.{hex_digit}
use harness_transport.Go.Utf8.{
  rune_error, decode_rune, encode_rune, runes, runes_from, decode_rune_size,
}
use harness_transport.Go.Utf8.Valid.{valid_text}
use harness_transport.Go.Utf8.Whole.{
  take-cons, encode_rune-ascii, decode_rune-long, decode_rune-take, runes_from_nil, runes_from_skip,
  runes_from_rune,
}
use harness_transport.Prelude.{
  ℕ, zero, suc, ◌+◌, ◌-◌, ◌*◌, ◌/◌, ◌%◌, ◌<◌, ◌≡◌, ◌≢◌, refl, sym, ap, ◌∙◌, true, false, ◌&&◌,
  Bytes, [], ◌∷◌, ◌++◌, append_assoc, append-nil, Option, none, some, ltb, leb, ◌==◌, ==_iff,
  length, length-take, take, drop, codes, arith, Bool-cases, inl, inr, ltb→lt, lt→ltb,
}

hex_value-hex_digit : (d : ℕ) → d < 16 → hex_value (hex_digit d) ≡ some d
unfolding hex_value hex_digit
hex_value-hex_digit d h = ground arith

-- A code unit that is no surrogate is its rune.
unicode_unit-plain : (r : ℕ) (t : Bytes) → r < 0xD800 → unicode_unit r t ≡ (r, 4)
unfolding unicode_unit
unicode_unit-plain r t h = ground arith

-- An ASCII rune's escape is read as the rune.
string_body-unicode_escape :
    (r : ℕ) (t : Bytes)
    → r < 0x80
    → string_body 0 (unicode_escape r ++ t) ≡ prepend (r ∷ []) (string_body 0 t)
unfolding string_body piece unicode_escape four_hex hex_value hex_more escape_at
string_body-unicode_escape r t h =
    let value : (0 + r / 16) * 16 + r % 16 ≡ r = omega arith in
    rw
      (
        hex_value-hex_digit (r / 16) (omega arith),
        hex_value-hex_digit (r % 16) (omega arith),
        value,
        unicode_unit-plain r t (omega arith),
        encode_rune-ascii r h,
      )
      refl

string_body-simple :
    (c r : ℕ) (t : Bytes)
    → (c == b'u') ≡ false
    → simple_escape c ≡ some r
    → string_body 0 (b'\\' ∷ c ∷ t) ≡ prepend (r ∷ []) (string_body 0 t)
unfolding string_body piece escape_at
string_body-simple c r t n e = rw (n, e) refl

string_body-plain :
    (r : ℕ) (t : Bytes)
    → r < 0x80
    → ltb r 0x20 ≡ false
    → (r == b'"') ≡ false
    → (r == b'\\') ≡ false
    → string_body 0 (r ∷ t) ≡ prepend (r ∷ []) (string_body 0 t)
unfolding string_body piece decode_rune
string_body-plain r t h a b c = rw (b, c, a, lt→ltb r 0x80 h, encode_rune-ascii r h) refl

string_body-escape_ascii :
    (r : ℕ) (t : Bytes)
    → r < 0x80
    → string_body 0 (escape_ascii r ++ t) ≡ prepend (r ∷ []) (string_body 0 t)
unfolding escape_ascii simple_escape
string_body-escape_ascii r t h = ground (
  arith,
  string_body-plain r t h,
  string_body-unicode_escape r t h,
  string_body-simple r r t,
  string_body-simple b'b' r t,
  string_body-simple b'f' r t,
  string_body-simple b'n' r t,
  string_body-simple b'r' r t,
  string_body-simple b't' r t,
)

-- Bytes that are read already are passed.
string_body_skip : (a t : Bytes) → string_body (length a) (a ++ t) ≡ string_body 0 t
unfolding string_body
string_body_skip [] t = refl
string_body_skip (b ∷ a) t = string_body_skip a t

-- Bytes past ASCII that are one rune.
string_body-raw :
    (b : ℕ) (a t : Bytes) {r n : ℕ}
    → leb 0x80 b ≡ true
    → decode_rune (b ∷ (a ++ t)) ≡ (r, n)
    → n - 1 ≡ length a
    → string_body 0 (b ∷ (a ++ t)) ≡ prepend (encode_rune r) (string_body 0 t)
unfolding string_body piece
string_body-raw b a t {r} h e n =
    let not_quote : (b == b'"') ≡ false = ground arith in
    let not_escape : (b == b'\\') ≡ false = ground arith in
    let no_control : ltb b 0x20 ≡ false = ground arith in
    rw (not_quote, not_escape, no_control, e, n)
      (ap (prepend (encode_rune r)) (string_body_skip a t))

decode_rune-first :
    (b : ℕ) (s : Bytes) → ltb (decode_rune (b ∷ s)).0 0x80 ≡ false → leb 0x80 b ≡ true
unfolding decode_rune
decode_rune-first b s h = ground arith

-- The runes that are always escaped.
escaped_three :
    (t : Bytes)
    → (string_body 0 (codes "\\ufffd" ++ t) ≡ prepend (encode_rune 0xFFFD) (string_body 0 t))
      × (string_body 0 (codes "\\u2028" ++ t) ≡ prepend (encode_rune 0x2028) (string_body 0 t))
      × (string_body 0 (codes "\\u2029" ++ t) ≡ prepend (encode_rune 0x2029) (string_body 0 t))
unfolding string_body piece escape_at four_hex hex_value hex_more unicode_unit
escaped_three t = (refl, refl, refl)

string_body-whole :
    (b : ℕ) (s t : Bytes)
    → ltb (decode_rune (b ∷ s)).0 0x80 ≡ false
    → (decode_rune (b ∷ s)).1 ≢ 1
    → string_body 0 (take (decode_rune (b ∷ s)).1 (b ∷ s) ++ t)
      ≡ prepend (encode_rune (decode_rune (b ∷ s)).0) (string_body 0 t)
string_body-whole b s t h d =
    let n = (decode_rune (b ∷ s)).1 in
    let (lo, hi) = decode_rune_size b s in
    let same : take n (b ∷ s) ≡ b ∷ take (n - 1) s = take-cons n b s lo in
    let again : decode_rune (b ∷ (take (n - 1) s ++ t)) ≡ decode_rune (b ∷ s) =
      ap (λ x. decode_rune (x ++ t)) (sym same) ∙ decode_rune-take b s t h d in
    ap (λ x. string_body 0 (x ++ t)) same
    ∙ string_body-raw b (take (n - 1) s) t (decode_rune-first b s h) again
        (omega (arith, length-take (n - 1) s, hi))

-- A rune's escape is read as the rune in UTF-8.
string_body-escape_rune :
    (b : ℕ) (s t : Bytes)
    → let (r, n) = decode_rune (b ∷ s) in
      string_body 0 (escape_rune r (take n (b ∷ s)) ++ t)
      ≡ prepend (encode_rune r) (string_body 0 t)
unfolding escape_rune
string_body-escape_rune b s t =
    let r = (decode_rune (b ∷ s)).0 in
    let n = (decode_rune (b ∷ s)).1 in
    let raw = take n (b ∷ s) in
    elim (Bool-cases (ltb r 0x80)) [
      | inl e ↦
          rw (e, encode_rune-ascii r (ltb→lt r 0x80 e))
            (string_body-escape_ascii r t (ltb→lt r 0x80 e))
      | inr e ↦ elim (Bool-cases (r == rune_error && length raw == 1)) [
        | inl f ↦ rw (e, f) ((escaped_three t).0 ∙ of r (ground arith))
        | inr f ↦ elim (Bool-cases (r == 0x2028)) [
          | inl g ↦ rw (e, f, g) ((escaped_three t).1 ∙ of r ((==_iff r 0x2028).0 g))
          | inr g ↦ elim (Bool-cases (r == 0x2029)) [
            | inl h ↦ rw (e, f, g, h) ((escaped_three t).2 ∙ of r ((==_iff r 0x2029).0 h))
            | inr h ↦ rw (e, f, g, h) (string_body-whole b s t e (decode_rune-long b s e f))
          ]
        ]
      ]
    ]
  where
    of :
        (r : ℕ) {c : ℕ}
        → r ≡ c
        → prepend (encode_rune c) (string_body 0 t) ≡ prepend (encode_rune r) (string_body 0 t)
    of r e = ap (λ x. prepend (encode_rune x) (string_body 0 t)) (sym e)

prepend-append :
    (v w : Bytes) (o : Option (Bytes × Bytes)) → prepend v (prepend w o) ≡ prepend (v ++ w) o
unfolding prepend
prepend-append v w none = refl
prepend-append v w (some (a, rest)) = ap (λ x. some (x, rest)) (sym (append_assoc v w a))

prepend_nil : (o : Option (Bytes × Bytes)) → prepend [] o ≡ o
unfolding prepend
prepend_nil none = refl
prepend_nil (some p) = refl

closed : (rest : Bytes) → string_body 0 (b'"' ∷ rest) ≡ some ([], rest)
unfolding string_body
closed rest = refl

string_body-escape :
    (k : ℕ) (s t : Bytes)
    → string_body 0 (escape (runes_from k s) ++ t)
      ≡ prepend (valid_text (runes_from k s)) (string_body 0 t)
unfolding escape valid_text
string_body-escape k [] t = rw (runes_from_nil k) (sym (prepend_nil (string_body 0 t)))
string_body-escape (suc k) (b ∷ s) t = rw (runes_from_skip k b s) (string_body-escape k s t)
string_body-escape zero (b ∷ s) t =
    let r = (decode_rune (b ∷ s)).0 in
    let raw = take (decode_rune (b ∷ s)).1 (b ∷ s) in
    let later = runes_from ((decode_rune (b ∷ s)).1 - 1) s in
    rw (runes_from_rune b s) (
      ap (string_body 0) (append_assoc (escape_rune r raw) (escape later) t)
      ∙ string_body-escape_rune b s (escape later ++ t)
      ∙ ap (prepend (encode_rune r)) (string_body-escape ((decode_rune (b ∷ s)).1 - 1) s t)
      ∙ prepend-append (encode_rune r) (valid_text later) (string_body 0 t))

-- A literal, from behind its opening quote, stands for the string with U+FFFD in the place of each
-- byte that is no UTF-8.
pub string_body-quote :
    (s rest : Bytes) → string_body 0 (drop 1 (quote s) ++ rest) ≡ some (valid_text (runes s), rest)
unfolding quote prepend
string_body-quote s rest =
    ap (string_body 0) (append_assoc (escape (runes s)) (codes "\"") rest)
    ∙ string_body-escape 0 s (b'"' ∷ rest)
    ∙ ap (prepend (valid_text (runes s))) (closed rest)
    ∙ ap (λ x. some (x, rest)) (append-nil (valid_text (runes s)))
