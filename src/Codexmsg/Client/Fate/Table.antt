-- ===== src/Codexmsg/Client/Fate/Table.antt =====
-- The table of pending calls under each change: what stands under the key of one call.
use harness_transport.Codexmsg.Client.Answers.{IsKeyed}
use harness_transport.Codexmsg.Client.Fate.{answers, is_number, sent_on}
use harness_transport.Codexmsg.Client.Invariant.{count, targets}
use harness_transport.Codexmsg.Client.Keys.{key-key_of}
use harness_transport.Codexmsg.Client.{delete, lookup, member, remove, key_of, channels}
use harness_transport.Codexmsg.Jsonrpc.{RequestId, int_id, key, Message, response_id}
use harness_transport.Prelude.Int.{ℤ, pos, negsuc}
use harness_transport.Prelude.{
  ℕ, ◌≤◌, ◌≡◌, ◌≢◌, ◌↔◌, ◌&&◌, refl, sym, ◌∙◌, true, false, Bytes, List, [], ◌∷◌, ◌++◌, none, some,
  ◌==◌, ◌||◌, str_eq, str_eq_iff, str_eq_self, is_empty, All, Bool-cases, arith, inl, inr,
}

pub lookup-delete_self : (k : Bytes) (p : List (Bytes × ℕ)) → lookup k (delete k p) ≡ none
unfolding lookup delete
lookup-delete_self k [] = refl
lookup-delete_self k ((k', n) ∷ p) = ground (arith, lookup-delete_self k p)

pub lookup-delete :
    (k j : Bytes) (p : List (Bytes × ℕ)) → k ≢ j → lookup k (delete j p) ≡ lookup k p
unfolding lookup delete
lookup-delete k j [] d = refl
lookup-delete k j ((k', n) ∷ p) d =
    ground (arith, lookup-delete k j p d, str_eq_iff k k', str_eq_iff j k')

pub lookup-cons :
    (k j : Bytes) (n : ℕ) (p : List (Bytes × ℕ)) → k ≢ j → lookup k ((j, n) ∷ p) ≡ lookup k p
unfolding lookup
lookup-cons k j n p d = ground (arith, str_eq_iff k j)

pub key_of-injective : (j n : ℕ) → key_of j ≡ key_of n → j ≡ n
unfolding int_id
key_of-injective j n e = let (_, same) = key-key_of (int_id j) n e in cc

pub member-append : (n : ℕ) (xs ys : List ℕ) → member n (xs ++ ys) ≡ (member n xs || member n ys)
unfolding member
member-append n [] ys = refl
member-append n (x ∷ xs) ys = ground (arith, member-append n xs ys)

pub member-remove : (n j : ℕ) (xs : List ℕ) → member n xs ≡ false → member n (remove j xs) ≡ false
unfolding member remove
member-remove n j [] h = refl
member-remove n j (x ∷ xs) h = ground (arith, member-remove n j xs)

-- A number that stands nowhere is no member; one that is a member stands somewhere.
pub member_none : (n : ℕ) (xs : List ℕ) → count n xs ≤ 0 → member n xs ≡ false
unfolding member count
member_none n [] h = refl
member_none n (x ∷ xs) h = ground (arith, member_none n xs)

pub member→count : (n : ℕ) (xs : List ℕ) → member n xs ≡ true → 1 ≤ count n xs
unfolding member count
member→count n [] h = absurd cc
member→count n (x ∷ xs) h = ground (arith, member→count n xs)

pub sent_on-none :
    (n : ℕ) (sent : List (ℕ × Message)) → count n (targets sent) ≤ 0 → sent_on n sent ≡ none
unfolding sent_on count
sent_on-none n [] h = refl
sent_on-none n ((j, m) ∷ sent) h = ground (arith, sent_on-none n sent)

-- A channel is in the table exactly if its call's key is.
pub channels_waiting :
    (n j : ℕ) (p : List (Bytes × ℕ))
    → All IsKeyed p
    → lookup (key_of n) p ≡ some j
    → member n (channels p) ≡ true
unfolding lookup member
channels_waiting n j [] h e = absurd cc
channels_waiting n j ((k, i) ∷ p) h e = elim (Bool-cases (str_eq (key_of n) k)) [
  | inl same ↦
      let at : i ≡ n = sym (key_of-injective n i ((str_eq_iff (key_of n) k).0 same ∙ h.0)) in
      ground arith
  | inr differ ↦ ground (arith, channels_waiting n j p h.1 (rw differ at e))
]

pub channels_gone :
    (n : ℕ) (p : List (Bytes × ℕ))
    → All IsKeyed p
    → lookup (key_of n) p ≡ none
    → member n (channels p) ≡ false
unfolding lookup member
channels_gone n [] h e = refl
channels_gone n ((k, i) ∷ p) h e = elim (Bool-cases (str_eq (key_of n) k)) [
  | inl same ↦ absurd (cc (rw same at e))
  | inr differ ↦ elim (Bool-cases (i == n)) [
    | inl at ↦
        let it : i ≡ n = ground arith in absurd (cc (differ, str_eq_self (key_of n), rw it at h.0))
    | inr other ↦ rw other (channels_gone n p h.1 (rw differ at e))
  ]
]

is_number_iff : (n : ℕ) (z : ℤ) → (is_number n z ≡ true) ↔ (z ≡ pos n)
unfolding is_number
is_number_iff n (pos k) = ground arith
is_number_iff n (negsuc k) = ground arith

-- An answer's id has the key of the call, and no other response's has.
pub answers→key :
    (n : ℕ) (m : Message) (i : RequestId)
    → response_id m ≡ some i
    → answers n m ≡ true
    → key i ≡ key_of n
unfolding answers key int_id is_empty
answers→key n m i r h =
    let found : (is_empty i.str && is_number n i.num) ≡ true = rw (r, answers) at h in
    ground (arith, is_number_iff n i.num)

pub not_answers→key :
    (n : ℕ) (m : Message) (i : RequestId)
    → response_id m ≡ some i
    → answers n m ≡ false
    → key_of n ≢ key i
unfolding answers is_empty
not_answers→key n m i r h e =
    let (no_text, same) = key-key_of i n (sym e) in
    let found : (is_empty i.str && is_number n i.num) ≡ false = rw (r, answers) at h in
    ground (arith, is_number_iff n i.num)
