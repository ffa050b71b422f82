-- ===== src/Codexmsg/Client/Keys.antt =====
-- The keys under which calls wait: only a call's own id has its key.
use harness_transport.Codexmsg.Client.{key_of}
use harness_transport.Codexmsg.Jsonrpc.{RequestId, int_id, key}
use harness_transport.Go.Json.{number}
use harness_transport.Go.Strconv.{itoa, is_digit, itoa-digits, itoa-injective}
use harness_transport.Prelude.Int.{ℤ, pos, negsuc}
use harness_transport.Prelude.{
  ℕ, suc, ◌≡◌, ap, ◌∙◌, true, Bytes, [], ◌∷◌, all, is_empty, is_empty→eq, arith, Bool-cases, inl,
  inr,
}

-- An integer's text is that of a natural number only if it is that number.
number-itoa : (z : ℤ) (n : ℕ) → number z ≡ itoa n → z ≡ pos n
unfolding number
number-itoa (pos m) n e = ap pos (itoa-injective m n e)
number-itoa (negsuc m) n e = absurd (minus_is_no_digit (ap (all is_digit) e ∙ itoa-digits n))
  where
    minus_is_no_digit : all is_digit (b'-' ∷ itoa (suc m)) ≡ true → ⊥
    minus_is_no_digit h = ground arith

first : Bytes → ℕ
first [] = 0
first (c ∷ _) = c

-- An id with the key of a call's id is that number.
pub key-key_of : (i : RequestId) (n : ℕ) → key i ≡ key_of n → (i.str ≡ []) × (i.num ≡ pos n)
unfolding key int_id is_empty number first
key-key_of i n e = elim (Bool-cases (is_empty i.str)) [
  | inl b ↦ (is_empty→eq i.str b, number-itoa i.num n (cc (rw b at e)))
  | inr b ↦ absurd (omega (arith, ap first (rw b at e)))
]
