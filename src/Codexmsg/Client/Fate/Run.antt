-- ===== src/Codexmsg/Client/Fate/Run.antt =====
-- The fate of every call that registered: the table of pending calls gives it what its own events say.
use harness_transport.Codexmsg.Client.Fate.Agrees.{
  Agrees, waiting_as, answer_as, shut_as, fate_in-Agrees, ends_as,
}
use harness_transport.Codexmsg.Client.Fate.Steps.{
  take_id-Agrees, register-Agrees, abandon-Agrees, on_message-Agrees, fail-Agrees,
}
use harness_transport.Codexmsg.Client.Answers.{delete-IsKeyed, run-IsKeyed}
use harness_transport.Codexmsg.Client.Fate.{
  Fate, waits, gave_up, hung_up, answered, answers, next_fate, fate_from, fate_in,
}
use harness_transport.Codexmsg.Client.Fate.Table.{member_none, member→count, sent_on-none}
use harness_transport.Codexmsg.Client.Invariant.{count, count-remove_self, run-IsUsedOnce}
use harness_transport.Codexmsg.Client.{
  Client, fresh, ConnError, lookup, member, remove, key_of, register, Action, takes, registers,
  abandons, reads, fails, act, run,
}
use harness_transport.Codexmsg.Jsonrpc.{Message}
use harness_transport.Prelude.{
  ℕ, ◌≤◌, ◌≡◌, refl, ap, ◌∙◌, true, false, List, [], ◌∷◌, ◌++◌, ◌==◌, ltb, ltb→lt, str_eq_self,
  if◌then◌else◌, Bool-cases, arith, inl, inr,
}

next_fate-abandons :
    (n : ℕ) (f : Fate) (j : ℕ)
    → next_fate n f (abandons j) ≡ (if j == n then ends_as gave_up f else f)
unfolding next_fate ends_as
next_fate-abandons n waits j = refl
next_fate-abandons n gave_up j = ground arith
next_fate-abandons n hung_up j = ground arith
next_fate-abandons n (answered m) j = ground arith

next_fate-reads :
    (n : ℕ) (f : Fate) (m : Message)
    → next_fate n f (reads m) ≡ (if answers n m then ends_as (answered m) f else f)
unfolding next_fate ends_as
next_fate-reads n waits m = refl
next_fate-reads n gave_up m = ground arith
next_fate-reads n hung_up m = ground arith
next_fate-reads n (answered m') m = ground arith

next_fate-fails : (n : ℕ) (f : Fate) (e : ConnError) → next_fate n f (fails e) ≡ ends_as hung_up f
unfolding next_fate ends_as
next_fate-fails n waits e = refl
next_fate-fails n gave_up e = refl
next_fate-fails n hung_up e = refl
next_fate-fails n (answered m) e = refl

next_fate_idle :
    (n : ℕ) (f : Fate) → (next_fate n f takes ≡ f) × ((j : ℕ) → next_fate n f (registers j) ≡ f)
unfolding next_fate
next_fate_idle n waits = (refl, λ j. refl)
next_fate_idle n gave_up = (refl, λ j. refl)
next_fate_idle n hung_up = (refl, λ j. refl)
next_fate_idle n (answered m) = (refl, λ j. refl)

act-Agrees :
    (n : ℕ) (f : Fate) (c : Client) (a : Action)
    → Agrees n f c
    → Agrees n (next_fate n f a) (act c a)
unfolding act
act-Agrees n f c takes h = rw ((next_fate_idle n f).0) (take_id-Agrees n f c h)
act-Agrees n f c (registers j) h = rw ((next_fate_idle n f).1 j) (register-Agrees n j f c h)
act-Agrees n f c (abandons j) h = rw (next_fate-abandons n f j) (abandon-Agrees n j f c h)
act-Agrees n f c (reads m) h = rw (next_fate-reads n f m) (on_message-Agrees n f c m h)
act-Agrees n f c (fails e) h = rw (next_fate-fails n f e) (fail-Agrees n f c e h)

run-Agrees :
    (n : ℕ) (f : Fate) (c : Client) (later : List Action)
    → Agrees n f c
    → Agrees n (fate_from n f later) (run c later)
unfolding run fate_from
run-Agrees n f c [] h = h
run-Agrees n f c (a ∷ later) h =
    run-Agrees n (next_fate n f a) (act c a) later (act-Agrees n f c a h)

-- A call that registers waits.
registered-Agrees :
    (before : List Action) (n : ℕ)
    → member n (run fresh before).taken ≡ true
    → (run fresh before).closed ≡ false
    → Agrees n waits (register (run fresh before) n)
unfolding register waiting_as answer_as shut_as lookup
registered-Agrees before n at opened =
    let c = run fresh before in
    let (once, none_yet) =
      run-IsUsedOnce n fresh before (unfold count in omega arith, λ _. unfold count in refl) in
    let here : 1 ≤ count n c.taken = member→count n c.taken at in
    rw (at, opened, register)
      (record {
        keyed = (refl, delete-IsKeyed (key_of n) c.pending (run-IsKeyed before));
        drawn =
            member_none n (remove n c.taken) (omega (arith, once, count-remove_self n c.taken at));
        old = elim (Bool-cases (ltb c.next_id n)) [
          | inl h ↦ absurd (omega (arith, none_yet (ltb→lt c.next_id n h), here))
          | inr h ↦ ground arith
        ];
        waiting = rw (str_eq_self (key_of n));
        answer = sent_on-none n c.sent (omega (arith, once, here));
        shut = member_none n c.hung (omega (arith, once, here));
        live = λ _. refl;
      })

run-append :
    (c : Client) (before later : List Action) → run c (before ++ later) ≡ run (run c before) later
unfolding run
run-append c [] later = refl
run-append c (a ∷ before) later = run-append (act c a) before later

-- However calls, messages and failures interleave, a call that drew its id before and registers on
-- an open client fares as its own events say: what its channel got or that it was closed, read off
-- the table, the sends and the closings at the end of the run, is decided by the first of the
-- later events that is its own giving up, a response whose id is its number, or a failure, and the
-- call still waits if there is none.
pub run-fate :
    (before later : List Action) (n : ℕ)
    → member n (run fresh before).taken ≡ true
    → (run fresh before).closed ≡ false
    → fate_in n (run fresh (before ++ registers n ∷ later)) ≡ fate_from n waits later
unfolding run act
run-fate before later n at opened =
    let c = register (run fresh before) n in
    ap (fate_in n) (run-append fresh before (registers n ∷ later))
    ∙ fate_in-Agrees n (fate_from n waits later) (run c later)
        (run-Agrees n waits c later (registered-Agrees before n at opened))
