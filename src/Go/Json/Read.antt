-- ===== src/Go/Json/Read.antt =====
-- What this library's printing of values reads back as: strings, integers and objects.
pub mod Objects
use harness_transport.Go.Json.{quote, number, object, members}
use harness_transport.Go.Json.Text.{string_body}
use harness_transport.Go.Json.Text.RoundTrip.{string_body-quote}
use harness_transport.Go.Json.Value.{
  Json, numeral, text, object_of, Members, no_members, member, ◌>>=◌, is_white, skip_white, expect,
  quoted, some_digits, integer_part, fraction, exponent, read_number, scalar, Reader, read_members,
  read_object, read_with, read_value, max_nesting, parse,
}
use harness_transport.Go.Strconv.Leading.{leads, itoa-leads}
use harness_transport.Go.Strconv.{itoa, is_digit, itoa-digits, itoa-is_empty}
use harness_transport.Go.Utf8.{runes}
use harness_transport.Go.Utf8.Valid.{valid_text, is_valid, valid_text-runes}
use harness_transport.Prelude.Find.{span, span-append}
use harness_transport.Prelude.Int.{ℤ, pos, negsuc}
use harness_transport.Prelude.{
  ℕ, zero, suc, ◌+◌, ◌≤◌, ◌<◌, ◌≡◌, refl, sym, ap, ◌∙◌, Bool, true, false, ◌&&◌, ◌||◌, Bytes, List,
  [], ◌∷◌, ◌++◌, map, append-nil, Option, none, some, ◌==◌, if◌then◌else◌, is_empty, length,
  length-append, drop, codes, arith, All, all,
}

-- What follows a value inside an object.
unfoldable pub is_end : Bytes → Bool
is_end [] = false
is_end (c ∷ _) = c == b',' || c == b'}'

-- Bytes that a reader takes for a value, inside an object.
abbrev pub Reads : Reader → Bytes → Json → Type 0
Reads value b j = (rest : Bytes) → is_end rest ≡ true → value (b ++ rest) ≡ some (j, rest)

-- A string behind its opening quote.
string_body-valid :
    (s rest : Bytes) → is_valid s ≡ true → string_body 0 (drop 1 (quote s) ++ rest) ≡ some (s, rest)
string_body-valid s rest h =
    string_body-quote s rest ∙ ap (λ x. some (x, rest)) (valid_text-runes s h)

pub quoted-quote : (s rest : Bytes) → is_valid s ≡ true → quoted (quote s ++ rest) ≡ some (s, rest)
unfolding quoted expect skip_white quote
quoted-quote s rest h = string_body-valid s rest h

pub quote-Reads :
    (depth : ℕ) (s : Bytes) → is_valid s ≡ true → Reads (read_value depth) (quote s) (text s)
unfolding read_value read_with scalar skip_white quote
quote-Reads zero s h rest e =
    ap (λ o. o >>= λ (t, r). some (text t, r)) (string_body-valid s rest h)
quote-Reads (suc d) s h rest e =
    ap (λ o. o >>= λ (t, r). some (text t, r)) (string_body-valid s rest h)

-- Digits that end where the value does.
span-digits :
    (ds rest : Bytes)
    → all is_digit ds ≡ true
    → is_end rest ≡ true
    → span is_digit (ds ++ rest) ≡ (ds, rest)
unfolding is_end
span-digits ds [] h e = absurd (cc)
span-digits ds (c ∷ rest) h e = span-append is_digit ds c rest h (ground arith)

number_ends :
    (n rest : Bytes) → is_end rest ≡ true → (fraction (n, rest) >>= exponent) ≡ some (n, rest)
unfolding is_end fraction exponent
number_ends n [] e = absurd (cc)
number_ends n (c ∷ rest) e =
    let no_point : (c == b'.') ≡ false = ground arith in
    let no_exponent : (c == b'e' || c == b'E') ≡ false = ground arith in rw (no_point, no_exponent)

integer_part-digits :
    (sign ds rest : Bytes)
    → all is_digit ds ≡ true
    → is_empty ds ≡ false
    → leads ds ≡ true
    → is_end rest ≡ true
    → (integer_part sign (ds ++ rest) >>= fraction >>= exponent) ≡ some (sign ++ ds, rest)
unfolding integer_part
integer_part-digits sign ds rest h n l e =
    rw (span-digits ds rest h e, n, l) (number_ends (sign ++ ds) rest e)

read_number-digits :
    (ds rest : Bytes)
    → all is_digit ds ≡ true
    → is_empty ds ≡ false
    → leads ds ≡ true
    → is_end rest ≡ true
    → (read_number (ds ++ rest) ≡ some (ds, rest))
      × (read_number (b'-' ∷ (ds ++ rest)) ≡ some (b'-' ∷ ds, rest))
unfolding read_number is_empty
read_number-digits [] rest h n l e = absurd (cc)
read_number-digits (c ∷ ds) rest h n l e =
    let no_sign : (c == b'-') ≡ false = ground arith in
    (
      rw no_sign (integer_part-digits [] (c ∷ ds) rest h n l e),
      integer_part-digits (b'-' ∷ []) (c ∷ ds) rest h n l e,
    )

pub skip_white-solid : (c : ℕ) (s : Bytes) → is_white c ≡ false → skip_white (c ∷ s) ≡ c ∷ s
unfolding skip_white
skip_white-solid c s w = rw w

scalar-numeral :
    (c : ℕ) (s : Bytes) {n rest : Bytes}
    → is_digit c || c == b'-' ≡ true
    → read_number (c ∷ s) ≡ some (n, rest)
    → scalar c (c ∷ s) ≡ some (numeral n, rest)
unfolding scalar
scalar-numeral c s h e =
    let q : (c == b'"') ≡ false = ground arith in
    let t : (c == b't') ≡ false = ground arith in
    let f : (c == b'f') ≡ false = ground arith in
    let n : (c == b'n') ≡ false = ground arith in rw (q, t, f, n, e) refl

-- A value that starts like a number is read as one.
read_with-numeral :
    (inner : Option Reader) (c : ℕ) (s : Bytes) {n rest : Bytes}
    → is_digit c || c == b'-' ≡ true
    → read_number (c ∷ s) ≡ some (n, rest)
    → read_with inner (c ∷ s) ≡ some (numeral n, rest)
unfolding read_with
read_with-numeral inner c s h e =
    let a : (c == b'{') ≡ false = ground arith in
    let b : (c == b'[') ≡ false = ground arith in
    let w : is_white c ≡ false = unfold is_white in ground arith in
    rw (skip_white-solid c s w, read_with, a, b) (scalar-numeral c s h e)

-- A reader of values, at any depth.
read_value-with :
    (depth : ℕ) → (inner : Option Reader) × ((s : Bytes) → read_value depth s ≡ read_with inner s)
unfolding read_value
read_value-with zero = (none, λ s. refl)
read_value-with (suc depth) = (some (read_value depth), λ s. refl)

read_with-digits :
    (inner : Option Reader) (ds rest : Bytes)
    → all is_digit ds ≡ true
    → is_empty ds ≡ false
    → leads ds ≡ true
    → is_end rest ≡ true
    → read_with inner (ds ++ rest) ≡ some (numeral ds, rest)
unfolding is_empty
read_with-digits inner [] rest h n l e = absurd (cc)
read_with-digits inner (c ∷ ds) rest h n l e =
    read_with-numeral inner c (ds ++ rest) (ground arith)
      ((read_number-digits (c ∷ ds) rest h n l e).0)

-- A number that is written as an integer is read as its spelling.
pub number-Reads : (depth : ℕ) (z : ℤ) → Reads (read_value depth) (number z) (numeral (number z))
unfolding number
number-Reads depth (pos n) rest e =
    let (inner, same) = read_value-with depth in
    same (itoa n ++ rest)
    ∙ read_with-digits inner (itoa n) rest (itoa-digits n) (itoa-is_empty n) (itoa-leads n) e
number-Reads depth (negsuc n) rest e =
    let (inner, same) = read_value-with depth in
    let (_, signed) =
      read_number-digits (itoa (suc n)) rest (itoa-digits (suc n)) (itoa-is_empty (suc n))
        (itoa-leads (suc n)) e in
    same (b'-' ∷ (itoa (suc n) ++ rest))
    ∙ read_with-numeral inner b'-' (itoa (suc n) ++ rest) refl signed

-- Bytes that are read as one value are the input of `Unmarshal`.
pub parse-whole :
    (s : Bytes) {j : Json} → read_value max_nesting (s ++ []) ≡ some (j, []) → parse s ≡ some j
unfolding parse is_empty skip_white
parse-whole s e = rw (sym (append-nil s), parse, e) refl
