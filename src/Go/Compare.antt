-- ===== src/Go/Compare.antt =====
-- Go's `<` on strings, and what keeps it: the digits of a word, hexadecimal text, and texts that are
-- put around.
use harness_transport.Go.Binary.{put_be}
use harness_transport.Go.Strconv.{hex_digit, hex_string}
use harness_transport.Prelude.{
  ℕ, zero, suc, ◌/◌, ◌%◌, ◌^◌, ◌<◌, ◌≡◌, refl, Bool, true, false, Bytes, [], ◌∷◌, ◌++◌, ltb, ◌==◌,
  if◌then◌else◌, length, take, drop, arith, Bool-cases, inl, inr, ltb→lt,
}

unfoldable pub str_lt : Bytes → Bytes → Bool
str_lt [] [] = false
str_lt [] (y ∷ b) = true
str_lt (x ∷ a) [] = false
str_lt (x ∷ a) (y ∷ b) =
    let rest = str_lt a b in if ltb x y then true else (if x == y then rest else false)

-- The same bytes in front of both, and a smaller byte.
str_lt-cons_self : (x : ℕ) (a b : Bytes) → str_lt (x ∷ a) (x ∷ b) ≡ str_lt a b
unfolding str_lt
str_lt-cons_self x a b = ground arith

str_lt-cons : (x y : ℕ) (a b : Bytes) → x < y → str_lt (x ∷ a) (y ∷ b) ≡ true
unfolding str_lt
str_lt-cons x y a b h = ground arith

-- Where the first bytes are not in order, they are the same and the rest is.
str_lt-tail :
    (x y : ℕ) (a b : Bytes)
    → str_lt (x ∷ a) (y ∷ b) ≡ true
    → ltb x y ≡ false
    → (x ≡ y) × (str_lt a b ≡ true)
unfolding str_lt
str_lt-tail x y a b h e = (ground arith, ground arith)

str_lt-put_be_self :
    (k w : ℕ) (a b : Bytes) → str_lt a b ≡ true → str_lt (put_be k w a) (put_be k w b) ≡ true
unfolding put_be
str_lt-put_be_self zero w a b h = h
str_lt-put_be_self (suc k) w a b h =
    str_lt-put_be_self k (w / 256) ((w % 256) ∷ a) ((w % 256) ∷ b)
      (rw (str_lt-cons_self (w % 256) a b) h)

-- Big-endian words are ordered as their bytes.
pub str_lt-put_be :
    (k u v : ℕ) (a b : Bytes) → u < v → v < 256 ^ k → str_lt (put_be k u a) (put_be k v b) ≡ true
unfolding put_be
str_lt-put_be zero u v a b h w = absurd (omega arith)
str_lt-put_be (suc k) u v a b h w = elim (Bool-cases (ltb (u / 256) (v / 256))) [
  | inl e ↦
      str_lt-put_be k (u / 256) (v / 256) ((u % 256) ∷ a) ((v % 256) ∷ b) (ltb→lt _ _ e)
        (omega arith)
  | inr e ↦
      let same : u / 256 ≡ v / 256 = ground arith in
      rw same (
        str_lt-put_be_self k (v / 256) ((u % 256) ∷ a) ((v % 256) ∷ b)
          (str_lt-cons (u % 256) (v % 256) a b (omega arith)))
]

hex_digit_mono : (d e : ℕ) → d < e → hex_digit d < hex_digit e
unfolding hex_digit
hex_digit_mono d e h = ground arith

str_lt-hex_byte :
    (x y : ℕ) (a b : Bytes)
    → x < y
    → str_lt
        (hex_digit (x / 16) ∷ hex_digit (x % 16) ∷ a)
        (hex_digit (y / 16) ∷ hex_digit (y % 16) ∷ b)
      ≡ true
str_lt-hex_byte x y a b h = elim (Bool-cases (ltb (x / 16) (y / 16))) [
  | inl e ↦ str_lt-cons _ _ _ _ (hex_digit_mono (x / 16) (y / 16) (ltb→lt _ _ e))
  | inr e ↦
      let same : x / 16 ≡ y / 16 = ground arith in
      rw (same, str_lt-cons_self)
        (str_lt-cons _ _ a b (hex_digit_mono (x % 16) (y % 16) (omega arith)))
]

-- Hexadecimal text is ordered as the bytes.
pub str_lt-hex_string :
    (a b : Bytes) → str_lt a b ≡ true → str_lt (hex_string a) (hex_string b) ≡ true
unfolding hex_string
str_lt-hex_string [] [] h = h
str_lt-hex_string [] (y ∷ b) h = unfold str_lt in refl
str_lt-hex_string (x ∷ a) [] h = absurd (unfold str_lt in cc)
str_lt-hex_string (x ∷ a) (y ∷ b) h = elim (Bool-cases (ltb x y)) [
  | inl e ↦ str_lt-hex_byte x y (hex_string a) (hex_string b) (ltb→lt x y e)
  | inr e ↦
      let (same, later) = str_lt-tail x y a b h e in
      rw (same, str_lt-cons_self, str_lt-cons_self) (str_lt-hex_string a b later)
]

str_lt-append :
    (a b r s : Bytes) → length a ≡ length b → str_lt a b ≡ true → str_lt (a ++ r) (b ++ s) ≡ true
unfolding str_lt
str_lt-append [] [] r s n h = absurd cc
str_lt-append [] (y ∷ b) r s n h = absurd (omega arith)
str_lt-append (x ∷ a) [] r s n h = absurd cc
str_lt-append (x ∷ a) (y ∷ b) r s n h = ground (arith, str_lt-append a b r s)

-- Something put in at one place of both texts, and anything behind them.
pub str_lt_insert :
    (n c : ℕ) (a b r s : Bytes)
    → length a ≡ length b
    → str_lt a b ≡ true
    → str_lt (take n a ++ c ∷ (drop n a ++ r)) (take n b ++ c ∷ (drop n b ++ s)) ≡ true
str_lt_insert zero c a b r s n h = rw (str_lt-cons_self c) (str_lt-append a b r s n h)
str_lt_insert (suc k) c [] [] r s n h = unfold str_lt in absurd cc
str_lt_insert (suc k) c [] (y ∷ b) r s n h = absurd (omega arith)
str_lt_insert (suc k) c (x ∷ a) [] r s n h = absurd (omega arith)
str_lt_insert (suc k) c (x ∷ a) (y ∷ b) r s n h = elim (Bool-cases (ltb x y)) [
  | inl e ↦ str_lt-cons x y _ _ (ltb→lt x y e)
  | inr e ↦
      let (same, later) = str_lt-tail x y a b h e in
      rw (same, str_lt-cons_self) (str_lt_insert k c a b r s (omega arith) later)
]
