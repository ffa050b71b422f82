-- ===== src/Go/Json.antt =====
-- `encoding/json`'s rendering of strings, integers and objects, with HTML escaping on.
pub mod Text
pub mod Value
pub mod Read
pub mod Store
pub mod Fuel
use harness_transport.Go.Strconv.{itoa, hex_digit, is_digit, itoa-digits}
use harness_transport.Go.Utf8.{
  runes, runes_from, rune_error, decode_rune, decode_rune_size, decode_rune-raw, decode_rune_single,
}
use harness_transport.Prelude.Int.{ℤ, pos, negsuc}
use harness_transport.Prelude.{
  ℕ, zero, suc, ◌+◌, ◌-◌, ◌*◌, ◌/◌, ◌%◌, ◌≤◌, ◌≡◌, refl, ◌&&◌, ◌||◌, Bytes, List, [], ◌∷◌, ◌++◌,
  ltb, ◌==◌, if◌then◌else◌, length, length-append, length-take, take, codes, arith, all, all-append,
  All, not, leb, ◌∙◌, true, false,
}

-- `\u00XX`
unicode_escape : ℕ → Bytes
unicode_escape r = codes "\\u00" ++ (hex_digit (r / 16) ∷ hex_digit (r % 16) ∷ [])

escape_ascii : ℕ → Bytes
unfolding unicode_escape
escape_ascii r =
    if r == b'"' || r == b'\\'
    then b'\\' ∷ r ∷ []
    else if r == 0x08
    then codes "\\b"
    else if r == 0x0C
    then codes "\\f"
    else if r == 0x0A
    then codes "\\n"
    else if r == 0x0D
    then codes "\\r"
    else if r == 0x09
    then codes "\\t"
    else if ltb r 0x20 || r == b'<' || r == b'>' || r == b'&'
    then unicode_escape r
    else r ∷ []

-- One rune with its bytes.
escape_rune : ℕ → Bytes → Bytes
unfolding escape_ascii
escape_rune r raw =
    if ltb r 0x80
    then escape_ascii r
    else if r == rune_error && length raw == 1
    then codes "\\ufffd"
    else if r == 0x2028
    then codes "\\u2028"
    else if r == 0x2029
    then codes "\\u2029"
    else raw

escape : List (ℕ × Bytes) → Bytes
unfolding escape_rune
escape [] = []
escape ((r, raw) ∷ rs) = escape_rune r raw ++ escape rs

-- A string literal.
unfoldable pub quote : Bytes → Bytes
unfolding escape
quote s = b'"' ∷ (escape (runes s) ++ codes "\"")

unfoldable pub number : ℤ → Bytes
number (pos n) = itoa n
number (negsuc n) = b'-' ∷ itoa (suc n)

members : List (Bytes × Bytes) → Bytes
members [] = []
members ((k, v) ∷ []) = k ++ (b':' ∷ v)
members ((k, v) ∷ m ∷ ms) = k ++ (b':' ∷ (v ++ (b',' ∷ members (m ∷ ms))))

-- An object, from its keys, quoted, and their values.
unfoldable pub object : List (Bytes × Bytes) → Bytes
unfolding members
object ms = b'{' ∷ (members ms ++ codes "}")

-- An array, from its values.
items : List Bytes → Bytes
items [] = []
items (v ∷ []) = v
items (v ∷ w ∷ vs) = v ++ (b',' ∷ items (w ∷ vs))

unfoldable pub array : List Bytes → Bytes
unfolding items
array vs = b'[' ∷ (items vs ++ codes "]")

length-escape_rune :
    (r : ℕ) (raw : Bytes) → 1 ≤ length raw → length (escape_rune r raw) ≤ 6 * length raw
unfolding escape_rune
length-escape_rune r raw h = ground arith

length-escape :
    (k : ℕ) (s : Bytes) → k ≤ length s → length (escape (runes_from k s)) + 6 * k ≤ 6 * length s
unfolding escape runes_from
length-escape zero [] h = omega arith
length-escape (suc k) [] h = absurd (omega arith)
length-escape (suc k) (b ∷ s) h = omega (arith, length-escape k s (omega arith))
length-escape zero (b ∷ s) h =
    let n = (decode_rune (b ∷ s)).1 in
    let raw = take n (b ∷ s) in
    let (lo, hi) = decode_rune_size b s in
    let size : length raw ≡ n = omega (arith, length-take n (b ∷ s)) in
    omega (
      arith,
      length-escape (n - 1) s (omega arith),
      length-escape_rune (decode_rune (b ∷ s)).0 raw (omega arith),
      length-append (escape_rune (decode_rune (b ∷ s)).0 raw) (escape (runes_from (n - 1) s)),
      size,
      lo,
      hi,
    )

-- A literal has at most six bytes for each byte of the string, and its quotes.
pub length-quote : (s : Bytes) → length (quote s) ≤ 6 * length s + 2
unfolding quote
length-quote s =
    omega (arith, length-escape 0 s (omega arith), length-append (escape (runes s)) (codes "\""))

-- The bytes of the members, with a colon and a comma for each.
abbrev pub sizes : List (Bytes × Bytes) → ℕ
sizes [] = 0
sizes ((k, v) ∷ ms) = length k + length v + 2 + sizes ms

length-members : (ms : List (Bytes × Bytes)) → length (members ms) ≤ sizes ms
unfolding members
length-members [] = omega arith
length-members ((k, v) ∷ []) = omega (arith, length-append k (b':' ∷ v))
length-members ((k, v) ∷ m ∷ ms) = omega (
  arith,
  length-append k (b':' ∷ (v ++ (b',' ∷ members (m ∷ ms)))),
  length-append v (b',' ∷ members (m ∷ ms)),
  length-members (m ∷ ms),
)

pub length-object : (ms : List (Bytes × Bytes)) → length (object ms) ≤ 2 + sizes ms
unfolding object
length-object ms = omega (arith, length-members ms, length-append (members ms) (codes "}"))

-- No newline is among the bytes.
abbrev pub IsOneLine : Bytes → Type 0
IsOneLine s = all (λ c. not (c == b'\n')) s ≡ true

high-IsOneLine : (s : Bytes) → all (leb 0x80) s ≡ true → IsOneLine s
high-IsOneLine [] h = refl
high-IsOneLine (c ∷ s) h = ground (arith, high-IsOneLine s)

hex_digit-ne : (d : ℕ) → (hex_digit d == b'\n') ≡ false
unfolding hex_digit
hex_digit-ne d = ground arith

escape_rune-IsOneLine :
    (r : ℕ) (raw : Bytes)
    → ((ltb r 0x80 ≡ false) → (r == rune_error && length raw == 1) ≡ false → IsOneLine raw)
    → IsOneLine (escape_rune r raw)
unfolding escape_rune
escape_rune-IsOneLine r raw h = ground (arith, hex_digit-ne (r / 16), hex_digit-ne (r % 16))

decoded_raw :
    (b : ℕ) (s : Bytes)
    → ltb (decode_rune (b ∷ s)).0 0x80 ≡ false
    → ((decode_rune (b ∷ s)).0 == rune_error && length (take (decode_rune (b ∷ s)).1 (b ∷ s)) == 1)
      ≡ false
    → IsOneLine (take (decode_rune (b ∷ s)).1 (b ∷ s))
decoded_raw b s h g =
    let n = (decode_rune (b ∷ s)).1 in
    let (lo, hi) = decode_rune_size b s in
    let size : length (take n (b ∷ s)) ≡ n = omega (arith, length-take n (b ∷ s), hi) in
    high-IsOneLine (take n (b ∷ s))
      (decode_rune-raw b s h (λ one. cc (g, single (decode_rune_single b s h one) (size ∙ one))))
  where
    single : {r : ℕ} {k : ℕ} → r ≡ rune_error → k ≡ 1 → (r == rune_error && k == 1) ≡ true
    single p q = rw (p, q)

escape-IsOneLine : (k : ℕ) (s : Bytes) → IsOneLine (escape (runes_from k s))
unfolding escape runes_from
escape-IsOneLine k [] = refl
escape-IsOneLine (suc k) (b ∷ s) = escape-IsOneLine k s
escape-IsOneLine zero (b ∷ s) =
    let r = decode_rune (b ∷ s) in
    let raw = take r.1 (b ∷ s) in
    all-append _ (escape_rune r.0 raw) (escape (runes_from (r.1 - 1) s))
    ∙ rw (escape_rune-IsOneLine r.0 raw (decoded_raw b s), escape-IsOneLine (r.1 - 1) s)

pub quote-IsOneLine : (s : Bytes) → IsOneLine (quote s)
unfolding quote
quote-IsOneLine s = ground (
  arith,
  escape-IsOneLine 0 s,
  all-append (λ c. not (c == b'\n')) (escape (runes s)) (codes "\""),
)

append-IsOneLine : (a b : Bytes) → IsOneLine a → IsOneLine b → IsOneLine (a ++ b)
append-IsOneLine a b h k = all-append (λ c. not (c == b'\n')) a b ∙ rw (h, k)

-- Keys and values on one line.
abbrev pub AreOneLine : List (Bytes × Bytes) → Type 0
AreOneLine ms = All (λ m. IsOneLine m.0 × IsOneLine m.1) ms

members-IsOneLine : (ms : List (Bytes × Bytes)) → AreOneLine ms → IsOneLine (members ms)
unfolding members
members-IsOneLine [] h = refl
members-IsOneLine ((k, v) ∷ []) h = append-IsOneLine k (b':' ∷ v) h.0.0 h.0.1
members-IsOneLine ((k, v) ∷ m ∷ ms) h =
    append-IsOneLine k (b':' ∷ (v ++ (b',' ∷ members (m ∷ ms)))) h.0.0
      (append-IsOneLine v (b',' ∷ members (m ∷ ms)) h.0.1 (members-IsOneLine (m ∷ ms) h.1))

pub object-IsOneLine : (ms : List (Bytes × Bytes)) → AreOneLine ms → IsOneLine (object ms)
unfolding object
object-IsOneLine ms h = append-IsOneLine (members ms) (codes "}") (members-IsOneLine ms h) refl

digits-IsOneLine : (s : Bytes) → all is_digit s ≡ true → IsOneLine s
digits-IsOneLine [] h = refl
digits-IsOneLine (c ∷ s) h = ground (arith, digits-IsOneLine s)

pub number-IsOneLine : (n : ℤ) → IsOneLine (number n)
unfolding number
number-IsOneLine (pos n) = digits-IsOneLine (itoa n) (itoa-digits n)
number-IsOneLine (negsuc n) = digits-IsOneLine (itoa (suc n)) (itoa-digits (suc n))
