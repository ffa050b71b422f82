-- ===== src/Codexmsg/Client/Fate/Agrees.antt =====
-- When the client's state agrees with the fate of one call, and what a change of one part leaves of it.
use harness_transport.Codexmsg.Client.Answers.{IsKeyed, delete-IsKeyed}
use harness_transport.Codexmsg.Client.Fate.{
  Fate, waits, gave_up, hung_up, answered, sent_on, fate_in,
}
use harness_transport.Codexmsg.Client.Fate.Table.{lookup-delete_self, lookup-delete}
use harness_transport.Codexmsg.Client.{Client, delete, lookup, member, key_of}
use harness_transport.Codexmsg.Jsonrpc.{Message}
use harness_transport.Prelude.{
  ℕ, ◌≤◌, ◌≡◌, ◌≢◌, refl, sym, ◌∙◌, Bool, true, false, Bytes, ◌∷◌, Option, none, some, All, arith,
}

-- What the three places hold of a call with that fate.
unfoldable pub waiting_as : ℕ → Fate → Option ℕ
waiting_as n waits = some n
waiting_as n _ = none

unfoldable pub answer_as : Fate → Option Message
answer_as (answered m) = some m
answer_as _ = none

unfoldable pub shut_as : Fate → Bool
shut_as hung_up = true
shut_as _ = false

-- The client's state agrees with the fate of call `n`.
pub record Agrees (n : ℕ) (f : Fate) (c : Client) : Type 0 where
  pub keyed : All IsKeyed c.pending
  pub drawn : member n c.taken ≡ false
  pub old : n ≤ c.next_id
  pub waiting : lookup (key_of n) c.pending ≡ waiting_as n f
  pub answer : sent_on n c.sent ≡ answer_as f
  pub shut : member n c.hung ≡ shut_as f
  pub live : f ≡ waits → c.closed ≡ false

pub fate_in-Agrees : (n : ℕ) (f : Fate) (c : Client) → Agrees n f c → fate_in n c ≡ f
unfolding fate_in waiting_as answer_as shut_as
fate_in-Agrees n waits c a = rw (a.waiting, fate_in) refl
fate_in-Agrees n gave_up c a = rw (a.waiting, fate_in, a.answer, a.shut) refl
fate_in-Agrees n hung_up c a = rw (a.waiting, fate_in, a.answer, a.shut) refl
fate_in-Agrees n (answered m) c a = rw (a.waiting, fate_in, a.answer) refl

-- Another key is deleted.
pub delete-Agrees :
    (n : ℕ) (f : Fate) (c : Client) (k : Bytes)
    → key_of n ≢ k
    → Agrees n f c
    → Agrees n f (record c { pending = delete k c.pending })
delete-Agrees n f c k d a = record {
  keyed = delete-IsKeyed k c.pending a.keyed;
  drawn = a.drawn;
  old = a.old;
  waiting = lookup-delete (key_of n) k c.pending d ∙ a.waiting;
  answer = a.answer;
  shut = a.shut;
  live = a.live;
}

-- An end comes to a call that waits; any other has its fate already.
unfoldable pub ends_as : Fate → Fate → Fate
ends_as g waits = g
ends_as g f = f

pub ends_as-waiting : (n : ℕ) (g f : Fate) → g ≢ waits → waiting_as n (ends_as g f) ≡ none
unfolding waiting_as ends_as
ends_as-waiting n waits waits d = absurd (d refl)
ends_as-waiting n gave_up waits d = refl
ends_as-waiting n hung_up waits d = refl
ends_as-waiting n (answered m) waits d = refl
ends_as-waiting n g gave_up d = refl
ends_as-waiting n g hung_up d = refl
ends_as-waiting n g (answered m) d = refl

pub ends_as-ne : (g f : Fate) → g ≢ waits → ends_as g f ≢ waits
unfolding ends_as
ends_as-ne g waits d e = d e
ends_as-ne g gave_up d e = cc
ends_as-ne g hung_up d e = cc
ends_as-ne g (answered m) d e = cc

pub ends_as-answer : (g f : Fate) → answer_as g ≡ none → answer_as (ends_as g f) ≡ answer_as f
unfolding answer_as ends_as
ends_as-answer g waits h = h
ends_as-answer g gave_up h = refl
ends_as-answer g hung_up h = refl
ends_as-answer g (answered m) h = refl

pub ends_as-shut : (g f : Fate) → shut_as g ≡ false → shut_as (ends_as g f) ≡ shut_as f
unfolding shut_as ends_as
ends_as-shut g waits h = h
ends_as-shut g gave_up h = refl
ends_as-shut g hung_up h = refl
ends_as-shut g (answered m) h = refl

-- The call's own key is deleted.
pub delete_own-Agrees :
    (n : ℕ) (f : Fate) (c : Client)
    → Agrees n f c
    → Agrees n (ends_as gave_up f) (record c { pending = delete (key_of n) c.pending })
unfolding answer_as shut_as
delete_own-Agrees n f c a = record {
  keyed = delete-IsKeyed (key_of n) c.pending a.keyed;
  drawn = a.drawn;
  old = a.old;
  waiting = lookup-delete_self (key_of n) c.pending ∙ sym (ends_as-waiting n gave_up f (λ e. cc));
  answer = a.answer ∙ sym (ends_as-answer gave_up f refl);
  shut = a.shut ∙ sym (ends_as-shut gave_up f refl);
  live = λ e. absurd (ends_as-ne gave_up f (λ w. cc) e);
}

pub send-Agrees :
    (n j : ℕ) (m : Message) (f : Fate) (c : Client)
    → j ≢ n
    → Agrees n f c
    → Agrees n f (record c { sent = (j, m) ∷ c.sent })
unfolding sent_on
send-Agrees n j m f c d a = record {
  keyed = a.keyed;
  drawn = a.drawn;
  old = a.old;
  waiting = a.waiting;
  answer = ground (arith, a.answer);
  shut = a.shut;
  live = a.live;
}
