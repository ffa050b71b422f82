-- ===== src/Codexmsg/Client/Invariant.antt =====
-- What holds after every interleaving of calls, messages and failures.
use harness_transport.Codexmsg.Client.{
  Client, fresh, ConnError, delete, lookup, member, remove, take_id, key_of, register, abandon,
  respond, on_message, channels, fail, Action, takes, registers, abandons, reads, fails, act, run,
}
use harness_transport.Codexmsg.Jsonrpc.{key, Message, response_id}
use harness_transport.Prelude.{
  ℕ, ◌+◌, ◌≤◌, ◌<◌, ◌≡◌, refl, true, Bytes, List, [], ◌∷◌, ◌++◌, map, some, ◌==◌, if◌then◌else◌,
  arith, Option-cases, inl, inr,
}

-- How often a number stands in a list.
unfoldable pub count : ℕ → List ℕ → ℕ
count n [] = 0
count n (x ∷ xs) = (if x == n then 1 else 0) + count n xs

count-append : (n : ℕ) (xs ys : List ℕ) → count n (xs ++ ys) ≡ count n xs + count n ys
unfolding count
count-append n [] ys = omega arith
count-append n (x ∷ xs) ys = ground (arith, count-append n xs ys)

pub count-remove_self :
    (n : ℕ) (xs : List ℕ) → member n xs ≡ true → count n (remove n xs) + 1 ≡ count n xs
unfolding count remove member
count-remove_self n [] h = absurd cc
count-remove_self n (x ∷ xs) h = ground (arith, count-remove_self n xs)

count-remove : (n m : ℕ) (xs : List ℕ) → count n (remove m xs) ≤ count n xs
unfolding count remove
count-remove n m [] = omega arith
count-remove n m (x ∷ xs) = ground (arith, count-remove n m xs)

count-delete :
    (n : ℕ) (k : Bytes) (p : List (Bytes × ℕ))
    → count n (channels (delete k p)) ≤ count n (channels p)
unfolding count delete
count-delete n k [] = omega arith
count-delete n k ((k', m) ∷ p) = ground (arith, count-delete n k p)

-- A channel that was found is gone from the map.
count-delete_found :
    (k : Bytes) (p : List (Bytes × ℕ)) {n : ℕ}
    → lookup k p ≡ some n
    → count n (channels (delete k p)) + 1 ≤ count n (channels p)
unfolding count delete lookup
count-delete_found k [] e = absurd cc
count-delete_found k ((k', m) ∷ p) {n} e =
    ground (arith, count-delete_found k p {n = n}, count-delete n k p)

abbrev pub targets : List (ℕ × Message) → List ℕ
targets = map (λ s. s.0)

-- The places where a channel can be: with its call, pending, sent on, or closed.
abbrev pub uses : ℕ → Client → ℕ
uses n c =
    count n c.taken + count n (channels c.pending) + count n (targets c.sent) + count n c.hung

-- Each channel is in one place at most, and in none before its id was drawn.
abbrev pub IsUsedOnce : ℕ → Client → Type 0
IsUsedOnce n c = (uses n c ≤ 1) × (c.next_id < n → uses n c ≡ 0)

take_id-IsUsedOnce : (n : ℕ) (c : Client) → IsUsedOnce n c → IsUsedOnce n (take_id c)
unfolding count take_id
take_id-IsUsedOnce n c h = ground arith

uses-register : (n m : ℕ) (c : Client) → uses n (register c m) ≤ uses n c
unfolding count register
uses-register n m c = ground (
  arith,
  count-remove_self n c.taken,
  count-remove n m c.taken,
  count-delete n (key_of m) c.pending,
)

uses-abandon : (n m : ℕ) (c : Client) → uses n (abandon c m) ≤ uses n c
unfolding abandon
uses-abandon n m c = omega (arith, count-delete n (key_of m) c.pending)

uses-respond : (n : ℕ) (c : Client) (m : Message) (k : Bytes) → uses n (respond c m k) ≤ uses n c
unfolding respond count
uses-respond n c m k = elim (Option-cases (lookup k c.pending)) [
  | inl e ↦ rw (e, respond) (omega (arith, count-delete n k c.pending))
  | inr (j, e) ↦
      rw (e, respond)
        (ground (arith, count-delete n k c.pending, count-delete_found k c.pending {n = j} e))
]

uses-on_message : (n : ℕ) (c : Client) (m : Message) → uses n (on_message c m) ≤ uses n c
unfolding on_message
uses-on_message n c m = elim (Option-cases (response_id m)) [
  | inl e ↦ rw (e, on_message) (omega arith)
  | inr (i, e) ↦ rw (e, on_message) (uses-respond n c m (key i))
]

uses-fail : (n : ℕ) (c : Client) (e : ConnError) → uses n (fail c e) ≤ uses n c
unfolding fail count
uses-fail n c e = ground (arith, count-append n (channels c.pending) c.hung)

next_id-register : (m : ℕ) (c : Client) → (register c m).next_id ≡ c.next_id
unfolding register
next_id-register m c = ground arith

next_id-on_message : (c : Client) (m : Message) → (on_message c m).next_id ≡ c.next_id
unfolding on_message respond
next_id-on_message c m = elim (Option-cases (response_id m)) [
  | inl e ↦ rw (e, on_message) refl
  | inr (i, e) ↦ elim (Option-cases (lookup (key i) c.pending)) [
    | inl f ↦ rw (e, on_message, f, respond) refl
    | inr (j, f) ↦ rw (e, on_message, f, respond) refl
  ]
]

next_id-fail : (c : Client) (e : ConnError) → (fail c e).next_id ≡ c.next_id
unfolding fail
next_id-fail c e = ground arith

act-IsUsedOnce : (n : ℕ) (c : Client) (a : Action) → IsUsedOnce n c → IsUsedOnce n (act c a)
unfolding act
act-IsUsedOnce n c takes h = take_id-IsUsedOnce n c h
act-IsUsedOnce n c (registers m) h = ground (arith, uses-register n m c, next_id-register m c)
act-IsUsedOnce n c (abandons m) h = unfold abandon in ground (arith, uses-abandon n m c)
act-IsUsedOnce n c (reads m) h = ground (arith, uses-on_message n c m, next_id-on_message c m)
act-IsUsedOnce n c (fails e) h = ground (arith, uses-fail n c e, next_id-fail c e)

pub run-IsUsedOnce :
    (n : ℕ) (c : Client) (actions : List Action) → IsUsedOnce n c → IsUsedOnce n (run c actions)
unfolding run
run-IsUsedOnce n c [] h = h
run-IsUsedOnce n c (a ∷ actions) h = run-IsUsedOnce n (act c a) actions (act-IsUsedOnce n c a h)

-- However calls, messages and failures interleave, the channel of a call gets at most one message
-- or is closed once, never both, and a channel that had either is not pending.
pub run_once :
    (actions : List Action) (n : ℕ)
    → count n (channels (run fresh actions).pending)
        + count n (targets (run fresh actions).sent)
        + count n (run fresh actions).hung
      ≤ 1
unfolding count
run_once actions n =
    let (once, _) = run-IsUsedOnce n fresh actions (omega arith, λ _. refl) in omega (arith, once)
