-- ===== src/Codexmsg/Client/Answers.antt =====
-- Whose answer a call gets, and what the end of the connection leaves.
use harness_transport.Codexmsg.Client.{
  Client, fresh, ConnError, delete, lookup, member, take_id, key_of, register, abandon, respond,
  on_message, fail, Action, takes, registers, abandons, reads, fails, act, run,
}
use harness_transport.Codexmsg.Client.Keys.{key-key_of}
use harness_transport.Codexmsg.Jsonrpc.{RequestId, key, Message, response_id}
use harness_transport.Prelude.Int.{pos}
use harness_transport.Prelude.{
  ℕ, ◌≡◌, refl, ap, ◌∙◌, true, Bytes, List, [], ◌∷◌, some, str_eq, str_eq_iff, All, Bool-cases,
  Option-cases, inl, inr,
}

-- The map holds a channel under the key of its own call.
abbrev pub IsKeyed : Bytes × ℕ → Type 0
IsKeyed (k, n) = k ≡ key_of n

-- What was sent on a call's channel answers an id with the key of the call's own.
abbrev HasKey : ℕ × Message → Type 0
HasKey (n, m) = (i : RequestId) × (response_id m ≡ some i) × (key i ≡ key_of n)

pub delete-IsKeyed : (k : Bytes) (p : List (Bytes × ℕ)) → All IsKeyed p → All IsKeyed (delete k p)
unfolding delete
delete-IsKeyed k [] h = tt
delete-IsKeyed k ((k', n) ∷ p) h = elim (Bool-cases (str_eq k k')) [
  | inl e ↦ rw e (delete-IsKeyed k p h.1)
  | inr e ↦ rw e (h.0, delete-IsKeyed k p h.1)
]

pub lookup-IsKeyed :
    (k : Bytes) (p : List (Bytes × ℕ)) {n : ℕ} → All IsKeyed p → lookup k p ≡ some n → k ≡ key_of n
unfolding lookup
lookup-IsKeyed k [] h e = absurd cc
lookup-IsKeyed k ((k', m) ∷ p) {n} h e = elim (Bool-cases (str_eq k k')) [
  | inl same ↦ let at : m ≡ n = cc (rw same at e) in (str_eq_iff k k').0 same ∙ h.0 ∙ ap key_of at
  | inr differ ↦ lookup-IsKeyed k p h.1 (rw differ at e)
]

-- The invariant: both hold, and a closed client has no pending call.
record IsSound (c : Client) : Type 0 where
  keyed : All IsKeyed c.pending
  answers : All HasKey c.sent
  no_waiting : c.closed ≡ true → c.pending ≡ []

fresh-IsSound : IsSound fresh
fresh-IsSound = record { keyed = tt; answers = tt; no_waiting = λ _. refl }

register-IsSound : (c : Client) (n : ℕ) → IsSound c → IsSound (register c n)
unfolding register
register-IsSound c n h = elim (Bool-cases (member n c.taken)) [
  | inr e ↦ rw (e, register) h
  | inl e ↦ elim (Bool-cases c.closed) [
    | inl shut ↦
        rw (e, register, shut)
          (record { keyed = h.keyed; answers = h.answers; no_waiting = λ _. h.no_waiting shut })
    | inr open_still ↦
        rw (e, register, open_still)
          (record {
            keyed = (refl, delete-IsKeyed (key_of n) c.pending h.keyed);
            answers = h.answers;
            no_waiting = λ shut. absurd (cc (shut, open_still));
          })
  ]
]

delete-nil : (k : Bytes) (p : List (Bytes × ℕ)) → p ≡ [] → delete k p ≡ []
unfolding delete
delete-nil k [] h = refl
delete-nil k (x ∷ p) h = absurd cc

abandon-IsSound : (c : Client) (n : ℕ) → IsSound c → IsSound (abandon c n)
unfolding abandon
abandon-IsSound c n h = record {
  keyed = delete-IsKeyed (key_of n) c.pending h.keyed;
  answers = h.answers;
  no_waiting = λ shut. delete-nil (key_of n) c.pending (h.no_waiting shut);
}

respond-IsSound :
    (c : Client) (m : Message) (i : RequestId)
    → response_id m ≡ some i
    → IsSound c
    → IsSound (respond c m (key i))
unfolding respond
respond-IsSound c m i answers_i h =
    let left = delete-IsKeyed (key i) c.pending h.keyed in
    let none_left : c.closed ≡ true → delete (key i) c.pending ≡ [] =
      λ shut. delete-nil (key i) c.pending (h.no_waiting shut) in
    elim (Option-cases (lookup (key i) c.pending)) [
      | inl e ↦
          rw (e, respond) (record { keyed = left; answers = h.answers; no_waiting = none_left })
      | inr (n, e) ↦
          rw (e, respond)
            (record {
              keyed = left;
              answers = ((i, answers_i, lookup-IsKeyed (key i) c.pending h.keyed e), h.answers);
              no_waiting = none_left;
            })
    ]

on_message-IsSound : (c : Client) (m : Message) → IsSound c → IsSound (on_message c m)
unfolding on_message
on_message-IsSound c m h = elim (Option-cases (response_id m)) [
  | inl e ↦ rw (e, on_message) h
  | inr (i, e) ↦ rw (e, on_message) (respond-IsSound c m i e h)
]

fail-IsSound : (c : Client) (e : ConnError) → IsSound c → IsSound (fail c e)
unfolding fail
fail-IsSound c e h = elim (Bool-cases c.closed) [
  | inl shut ↦
      rw (shut, fail)
        (record { keyed = h.keyed; answers = h.answers; no_waiting = λ _. h.no_waiting shut })
  | inr open_still ↦
      rw (open_still, fail) (record { keyed = tt; answers = h.answers; no_waiting = λ _. refl })
]

act-IsSound : (c : Client) (a : Action) → IsSound c → IsSound (act c a)
unfolding act take_id
act-IsSound c takes h = record { keyed = h.keyed; answers = h.answers; no_waiting = h.no_waiting }
act-IsSound c (registers n) h = register-IsSound c n h
act-IsSound c (abandons n) h = abandon-IsSound c n h
act-IsSound c (reads m) h = on_message-IsSound c m h
act-IsSound c (fails e) h = fail-IsSound c e h

run-IsSound : (c : Client) (actions : List Action) → IsSound c → IsSound (run c actions)
unfolding run
run-IsSound c [] h = h
run-IsSound c (a ∷ actions) h = run-IsSound (act c a) actions (act-IsSound c a h)

-- What was sent on a call's channel answers the id of that call.
abbrev pub IsAnswer : ℕ × Message → Type 0
IsAnswer (n, m) = (i : RequestId) × (response_id m ≡ some i) × (i.str ≡ []) × (i.num ≡ pos n)

All-IsAnswer : (sent : List (ℕ × Message)) → All HasKey sent → All IsAnswer sent
All-IsAnswer [] h = tt
All-IsAnswer ((n, m) ∷ sent) ((i, r, same), h) =
    let (no_text, number_of) = key-key_of i n same in
    ((i, r, no_text, number_of), All-IsAnswer sent h)

-- However calls, messages and failures interleave, every message that a call's channel got is a
-- response to the number that is the call's own id.
pub run-IsAnswer : (actions : List Action) → All IsAnswer (run fresh actions).sent
run-IsAnswer actions =
    All-IsAnswer (run fresh actions).sent (run-IsSound fresh actions fresh-IsSound).answers

-- However calls, messages and failures interleave, no call is pending on a client that is closed.
pub run_no_waiting :
    (actions : List Action) → (run fresh actions).closed ≡ true → (run fresh actions).pending ≡ []
run_no_waiting actions = (run-IsSound fresh actions fresh-IsSound).no_waiting

pub run-IsKeyed : (actions : List Action) → All IsKeyed (run fresh actions).pending
run-IsKeyed actions = (run-IsSound fresh actions fresh-IsSound).keyed
