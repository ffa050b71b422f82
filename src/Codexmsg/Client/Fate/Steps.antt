-- ===== src/Codexmsg/Client/Fate/Steps.antt =====
-- Every operation of the client keeps the agreement with the fate of a call.
use harness_transport.Codexmsg.Client.Fate.Agrees.{
  Agrees, waiting_as, answer_as, shut_as, delete-Agrees, ends_as, ends_as-waiting, ends_as-ne,
  ends_as-answer, delete_own-Agrees, send-Agrees,
}
use harness_transport.Codexmsg.Client.Answers.{delete-IsKeyed, lookup-IsKeyed}
use harness_transport.Codexmsg.Client.Fate.{
  Fate, waits, gave_up, hung_up, answered, answers, sent_on,
}
use harness_transport.Codexmsg.Client.Fate.Table.{
  lookup-delete_self, lookup-delete, lookup-cons, key_of-injective, member-append, member-remove,
  channels_waiting, channels_gone, answers→key, not_answers→key,
}
use harness_transport.Codexmsg.Client.{
  Client, ConnError, delete, lookup, member, remove, take_id, key_of, register, abandon, respond,
  on_message, channels, fail,
}
use harness_transport.Codexmsg.Jsonrpc.{key, Message, response_id}
use harness_transport.Prelude.{
  ℕ, ◌≡◌, ◌≢◌, refl, sym, ap, ◌∙◌, false, Bytes, ◌∷◌, ◌++◌, none, ◌==◌, ==_iff, ==_self,
  if◌then◌else◌, Bool-cases, Option-cases, arith, inl, inr,
}

pub take_id-Agrees : (n : ℕ) (f : Fate) (c : Client) → Agrees n f c → Agrees n f (take_id c)
unfolding take_id member
take_id-Agrees n f c a = record {
  keyed = a.keyed;
  drawn = ground (arith, a.drawn, a.old);
  old = omega (arith, a.old);
  waiting = a.waiting;
  answer = a.answer;
  shut = a.shut;
  live = a.live;
}

pub register-Agrees : (n j : ℕ) (f : Fate) (c : Client) → Agrees n f c → Agrees n f (register c j)
unfolding register
register-Agrees n j f c a = elim (Bool-cases (member j c.taken)) [
  | inr e ↦ rw (e, register) a
  | inl e ↦
      let still : member n (remove j c.taken) ≡ false = member-remove n j c.taken a.drawn in
      let other : key_of n ≢ key_of j = λ same. cc (e, a.drawn, key_of-injective n j same) in
      elim (Bool-cases c.closed) [
        | inl closed ↦
            rw (e, register, closed)
              (record {
                keyed = a.keyed;
                drawn = still;
                old = a.old;
                waiting = a.waiting;
                answer = a.answer;
                shut = a.shut;
                live = λ w. sym closed ∙ a.live w;
              })
        | inr opened ↦
            rw (e, register, opened)
              (record {
                keyed = (refl, delete-IsKeyed (key_of j) c.pending a.keyed);
                drawn = still;
                old = a.old;
                waiting =
                    lookup-cons (key_of n) (key_of j) j (delete (key_of j) c.pending) other
                    ∙ lookup-delete (key_of n) (key_of j) c.pending other
                    ∙ a.waiting;
                answer = a.answer;
                shut = a.shut;
                live = λ _. refl;
              })
      ]
]

pub abandon-Agrees :
    (n j : ℕ) (f : Fate) (c : Client)
    → Agrees n f c
    → Agrees n (if j == n then ends_as gave_up f else f) (abandon c j)
unfolding abandon
abandon-Agrees n j f c a = elim (Bool-cases (j == n)) [
  | inl e ↦ let at : j ≡ n = (==_iff j n).0 e in rw (e, at) (delete_own-Agrees n f c a)
  | inr e ↦
      rw e (delete-Agrees n f c (key_of j) (λ same. cc (e, ==_self n, key_of-injective n j same)) a)
]

-- An answer to another call, or to none.
pub respond_other-Agrees :
    (n : ℕ) (f : Fate) (c : Client) (m : Message) (k : Bytes)
    → key_of n ≢ k
    → Agrees n f c
    → Agrees n f (respond c m k)
unfolding respond
respond_other-Agrees n f c m k d a = elim (Option-cases (lookup k c.pending)) [
  | inl e ↦ rw (e, respond) (delete-Agrees n f c k d a)
  | inr (j, e) ↦
      rw (e, respond)
        (delete-Agrees n f (record c { sent = (j, m) ∷ c.sent }) k d
          (send-Agrees n j m f c
            (λ at. d (sym (lookup-IsKeyed k c.pending a.keyed e ∙ ap key_of at))) a))
]

-- An answer to this call.
pub respond_own-Agrees :
    (n : ℕ) (f : Fate) (c : Client) (m : Message)
    → Agrees n f c
    → Agrees n (ends_as (answered m) f) (respond c m (key_of n))
unfolding respond ends_as waiting_as answer_as shut_as sent_on
respond_own-Agrees n waits c m a =
    rw (a.waiting, respond)
      (record {
        keyed = delete-IsKeyed (key_of n) c.pending a.keyed;
        drawn = a.drawn;
        old = a.old;
        waiting = lookup-delete_self (key_of n) c.pending;
        answer = ground arith;
        shut = a.shut;
        live = λ e. absurd (cc);
      })
respond_own-Agrees n gave_up c m a = rw (a.waiting, respond) (delete_own-Agrees n gave_up c a)
respond_own-Agrees n hung_up c m a = rw (a.waiting, respond) (delete_own-Agrees n hung_up c a)
respond_own-Agrees n (answered m') c m a =
    rw (a.waiting, respond) (delete_own-Agrees n (answered m') c a)

pub on_message-Agrees :
    (n : ℕ) (f : Fate) (c : Client) (m : Message)
    → Agrees n f c
    → Agrees n (if answers n m then ends_as (answered m) f else f) (on_message c m)
unfolding on_message
on_message-Agrees n f c m a = elim (Option-cases (response_id m)) [
  | inl e ↦ rw (unanswering e, e, on_message) a
  | inr (i, e) ↦ elim (Bool-cases (answers n m)) [
    | inl own ↦ rw (own, e, on_message, answers→key n m i e own) (respond_own-Agrees n f c m a)
    | inr other ↦
        rw (other, e, on_message)
          (respond_other-Agrees n f c m (key i) (not_answers→key n m i e other) a)
  ]
]
  where
    unanswering : response_id m ≡ none → answers n m ≡ false
    unanswering e = unfold answers in rw (e, answers) refl

-- The end of the connection closes the channel of a call that waits, and no other's.
pub hung-channels :
    (n : ℕ) (f : Fate) (c : Client)
    → Agrees n f c
    → member n (channels c.pending ++ c.hung) ≡ shut_as (ends_as hung_up f)
unfolding shut_as ends_as waiting_as
hung-channels n waits c a =
    member-append n (channels c.pending) c.hung
    ∙ rw (channels_waiting n n c.pending a.keyed a.waiting)
hung-channels n gave_up c a =
    member-append n (channels c.pending) c.hung
    ∙ rw (channels_gone n c.pending a.keyed a.waiting, a.shut)
hung-channels n hung_up c a =
    member-append n (channels c.pending) c.hung
    ∙ rw (channels_gone n c.pending a.keyed a.waiting, a.shut)
hung-channels n (answered m) c a =
    member-append n (channels c.pending) c.hung
    ∙ rw (channels_gone n c.pending a.keyed a.waiting, a.shut)

pub ends_as_settled : (g f : Fate) → f ≢ waits → ends_as g f ≡ f
unfolding ends_as
ends_as_settled g waits d = absurd (d refl)
ends_as_settled g gave_up d = refl
ends_as_settled g hung_up d = refl
ends_as_settled g (answered m) d = refl

pub fail-Agrees :
    (n : ℕ) (f : Fate) (c : Client) (e : ConnError)
    → Agrees n f c
    → Agrees n (ends_as hung_up f) (fail c e)
unfolding fail lookup answer_as
fail-Agrees n f c e a = elim (Bool-cases c.closed) [
  | inl closed ↦
      let settled : f ≢ waits = λ w. cc (closed, a.live w) in
      let gone : fail c e ≡ c = rw (closed, fail) refl in
      rw (gone, ends_as_settled hung_up f settled) a
  | inr opened ↦
      rw (opened, fail)
        (record {
          keyed = tt;
          drawn = a.drawn;
          old = a.old;
          waiting = sym (ends_as-waiting n hung_up f (λ w. cc));
          answer = a.answer ∙ sym (ends_as-answer hung_up f refl);
          shut = hung-channels n f c a;
          live = λ w. absurd (ends_as-ne hung_up f (λ v. cc) w);
        })
]
