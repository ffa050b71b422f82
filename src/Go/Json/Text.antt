-- ===== src/Go/Json/Text.antt =====
-- `encoding/json`'s reading of a string literal: escapes, surrogate pairs, and U+FFFD in the place of
-- what is no UTF-8.
pub mod RoundTrip
use harness_transport.Go.Utf8.{rune_error, decode_rune, encode_rune}
use harness_transport.Prelude.{
  ℕ, zero, suc, ◌+◌, ◌-◌, ◌*◌, Bool, true, false, ◌&&◌, ◌||◌, Bytes, [], ◌∷◌, ◌++◌, Option, none,
  some, ltb, ◌==◌, within, if◌then◌else◌, drop,
}

unfoldable pub hex_value : ℕ → Option ℕ
hex_value c =
    if within b'0' b'9' c
    then some (c - b'0')
    else if within b'a' b'f' c
    then some (c - b'a' + 10)
    else if within b'A' b'F' c
    then some (c - b'A' + 10)
    else none

unfoldable pub hex_more : Option ℕ → ℕ → Option ℕ
hex_more none c = none
hex_more (some n) c = elim (hex_value c) [ none ↦ none | some v ↦ some (n * 16 + v) ]

-- The four digits behind `\u`.
unfoldable pub four_hex : Bytes → Option ℕ
unfolding hex_value hex_more
four_hex (a ∷ b ∷ c ∷ d ∷ _) = hex_more (hex_more (hex_more (hex_more (some 0) a) b) c) d
four_hex _ = none

unfoldable pub second_unit : Bytes → Option ℕ
second_unit (x ∷ y ∷ s) = if x == b'\\' && y == b'u' then four_hex s else none
second_unit _ = none

-- A code unit, and what stands behind its digits: the rune, and the digits and bytes it takes. Half a
-- surrogate pair is U+FFFD.
unfoldable pub unicode_unit : ℕ → Bytes → ℕ × ℕ
unfolding second_unit
unicode_unit r s =
    if within 0xD800 0xDFFF r
    then elim (second_unit s) [
      | none ↦ (rune_error, 4)
      | some low ↦
          if within 0xD800 0xDBFF r && within 0xDC00 0xDFFF low
          then ((r - 0xD800) * 1024 + (low - 0xDC00) + 0x10000, 10)
          else (rune_error, 4)
    ]
    else (r, 4)

unfoldable pub simple_escape : ℕ → Option ℕ
simple_escape c =
    if c == b'"' || c == b'\\' || c == b'/'
    then some c
    else if c == b'b'
    then some 0x08
    else if c == b'f'
    then some 0x0C
    else if c == b'n'
    then some 0x0A
    else if c == b'r'
    then some 0x0D
    else if c == b't'
    then some 0x09
    else none

-- What follows a backslash: the bytes it stands for, and how many it takes.
unfoldable pub escape_at : Bytes → Option (Bytes × ℕ)
unfolding four_hex simple_escape
escape_at [] = none
escape_at (c ∷ s) =
    if c == b'u'
    then elim (four_hex s) [
      | none ↦ none
      | some r ↦ let u = unicode_unit r (drop 4 s) in some (encode_rune u.0, u.1 + 1)
    ]
    else elim (simple_escape c) [ none ↦ none | some b ↦ some (b ∷ [], 1) ]

-- A byte of a literal with what follows: the bytes that it stands for, and how many more it takes. A
-- control character is refused.
unfoldable pub piece : ℕ → Bytes → Option (Bytes × ℕ)
unfolding escape_at
piece b s =
    let r = decode_rune (b ∷ s) in
    if b == b'\\' then escape_at s else if ltb b 0x20 then none else some (encode_rune r.0, r.1 - 1)

unfoldable pub prepend : Bytes → Option (Bytes × Bytes) → Option (Bytes × Bytes)
prepend w none = none
prepend w (some (t, rest)) = some (w ++ t, rest)

-- A literal behind its opening quote and `k` bytes that are read already: its text, and what follows
-- the closing quote.
unfoldable pub string_body : ℕ → Bytes → Option (Bytes × Bytes)
unfolding piece prepend
string_body k [] = none
string_body (suc k) (b ∷ s) = string_body k s
string_body zero (b ∷ s) =
    if b == b'"'
    then some ([], s)
    else elim (piece b s) [ none ↦ none | some (w, n) ↦ prepend w (string_body n s) ]
