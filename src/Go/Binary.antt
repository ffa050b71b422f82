-- ===== src/Go/Binary.antt =====
-- `encoding/binary`'s big-endian words, and `io.ReadFull`.
use harness_transport.Prelude.{
  ℕ, zero, suc, ◌+◌, ◌*◌, ◌/◌, ◌%◌, ◌^◌, ◌<◌, ◌≡◌, refl, ap, Bytes, [], ◌∷◌, ◌++◌, arith, leb,
  if◌then◌else◌, length, take, drop, take-append, drop-append, Result, ok, err, le→leb,
  length-append, take-append-drop, length-take, all, ltb, true,
}

-- The `k` low bytes of a word in front of `out`, the highest first.
unfoldable pub put_be : ℕ → ℕ → Bytes → Bytes
put_be zero v out = out
put_be (suc k) v out = put_be k (v / 256) ((v % 256) ∷ out)

-- The number that the bytes spell behind `acc`.
unfoldable pub get_be : ℕ → Bytes → ℕ
get_be acc [] = acc
get_be acc (b ∷ bs) = get_be (acc * 256 + b) bs

put_be-append : (k v : ℕ) (out rest : Bytes) → put_be k v out ++ rest ≡ put_be k v (out ++ rest)
unfolding put_be
put_be-append zero v out rest = refl
put_be-append (suc k) v out rest = put_be-append k (v / 256) ((v % 256) ∷ out) rest

pub length-put_be : (k v : ℕ) (out : Bytes) → length (put_be k v out) ≡ k + length out
unfolding put_be
length-put_be zero v out = omega arith
length-put_be (suc k) v out = omega (arith, length-put_be k (v / 256) ((v % 256) ∷ out))

get_be-put_be_acc : (k v : ℕ) (out : Bytes) → v < 256 ^ k → get_be 0 (put_be k v out) ≡ get_be v out
unfolding put_be get_be
get_be-put_be_acc zero zero out h = refl
get_be-put_be_acc zero (suc v) out h = absurd (omega arith)
get_be-put_be_acc (suc k) v out h =
    let e : v / 256 * 256 + v % 256 ≡ v = omega arith in
    rw (get_be-put_be_acc k (v / 256) ((v % 256) ∷ out) (omega arith), e)

-- A word that fits its width is read back.
pub get_be-put_be : (k v : ℕ) → v < 256 ^ k → get_be 0 (put_be k v []) ≡ v
unfolding get_be
get_be-put_be k v h = get_be-put_be_acc k v [] h

-- `io.EOF` where nothing was read, `io.ErrUnexpectedEOF` where the input ended inside.
pub data ReadError : Type 0 where
  eof unexpected_eof : ReadError

-- `io.ReadFull` for `n` bytes of an input that then ends.
unfoldable pub read_full : ℕ → Bytes → Result ReadError (Bytes × Bytes)
read_full zero s = ok ([], s)
read_full (suc n) [] = err eof
read_full (suc n) (c ∷ s) =
    if leb (suc n) (length (c ∷ s))
    then ok (take (suc n) (c ∷ s), drop (suc n) (c ∷ s))
    else err unexpected_eof

read_full-append_self : (a s : Bytes) → read_full (length a) (a ++ s) ≡ ok (a, s)
unfolding read_full
read_full-append_self [] s = refl
read_full-append_self (c ∷ a) s = rw (
  le→leb (suc (length a)) (suc (length (a ++ s))) (omega (arith, length-append a s)),
  take-append a s,
  drop-append a s,
)

pub read_full-append : (n : ℕ) (a s : Bytes) → length a ≡ n → read_full n (a ++ s) ≡ ok (a, s)
read_full-append n a s h = rw (← h) (read_full-append_self a s)

-- What is read and what is left make up the input.
pub read_full_splits :
    (n : ℕ) (s : Bytes) {a rest : Bytes}
    → read_full n s ≡ ok (a, rest)
    → (s ≡ a ++ rest) × (length a ≡ n)
unfolding read_full
read_full_splits zero s e = ground arith
read_full_splits (suc n) [] e = cc
read_full_splits (suc n) (c ∷ s) e =
    ground (arith, take-append-drop (suc n) (c ∷ s), length-take (suc n) (c ∷ s))

pub length-read_full :
    (n : ℕ) (s : Bytes) {a rest : Bytes} → read_full n s ≡ ok (a, rest) → length s ≡ n + length rest
length-read_full n s {a} {rest} e =
    let (p, q) = read_full_splits n s e in omega (arith, ap length p, length-append a rest)

put_be-bytes_acc :
    (k v : ℕ) (out : Bytes)
    → all (λ b. ltb b 256) out ≡ true
    → all (λ b. ltb b 256) (put_be k v out) ≡ true
unfolding put_be
put_be-bytes_acc zero v out h = h
put_be-bytes_acc (suc k) v out h = put_be-bytes_acc k (v / 256) ((v % 256) ∷ out) (ground arith)

pub put_be-bytes : (k v : ℕ) → all (λ b. ltb b 256) (put_be k v []) ≡ true
put_be-bytes k v = put_be-bytes_acc k v [] refl
