-- ===== src/Deliver/Codex/Race.antt =====
-- A request that is adopted while a delivery runs.
use harness_transport.Deliver.{Delivery, compose, Meta, thread_id_from_meta, Observation}
use harness_transport.Deliver.Codex.{
  Backend, World, Call, DeliverError, not_queued, receipt, first_text, close, queued,
  codex_max_chars, available, adopt_id, adopt, queue, send, connect, deliver,
}
use harness_transport.Go.Utf8.{rune_count}
use harness_transport.Prelude.{
  ℕ, ◌≤◌, ◌≡◌, refl, ap, ◌∙◌, false, true, Bool, Bytes, List, [], ◌∷◌, none, some, le→leb, str_eq,
  ok, err, Result, Option-cases, inl, inr, is_empty, arith,
}

-- What the daemon's answer to a message queued for the backend `c` leads to: an error closes the
-- client that the backend has then, and the outcome.
unfoldable pub dropped : World → Backend → ℕ → Bytes → Bytes → List Call
dropped w c k thread text = elim (w.queue_message k thread text) [
  | none ↦ (close (w.while_queueing c)).1
  | some _ ↦ []
]

unfoldable pub outcome_of : World → ℕ → Bytes → Bytes → Result DeliverError Observation
outcome_of w k thread text = elim (w.queue_message k thread text) [
  | none ↦ err not_queued
  | some texts ↦ ok (receipt w.sha256 text (first_text texts))
]

-- A backend that is available is not disabled, and holds a thread.
available-none :
    (found : Bool) (c : Backend)
    → available found c ≡ none
    → (c.disabled ≡ false) × (is_empty c.thread ≡ false)
unfolding available
available-none found c h = ground arith

adopted_second :
    (c : Backend) (m : Meta) {id : Bytes}
    → c.disabled ≡ false
    → is_empty c.thread ≡ false
    → thread_id_from_meta m ≡ ok id
    → str_eq c.thread id ≡ false
    → (adopt c m).0 ≡ record c { disabled = true; thread = [] }
unfolding adopt adopt_id
adopted_second c m on held named differs = rw (named, adopt, on, held, differs) refl

connect_live : (w : World) (c : Backend) (k : ℕ) → c.client ≡ some k → connect w c ≡ (c, [], ok k)
unfolding connect
connect_live w c k live = ground (arith, live)

send_live :
    (w : World) (c : Backend) (thread text : Bytes) (k : ℕ)
    → c.client ≡ some k
    → ((send w c thread text).1 ≡ queued k thread text ∷ dropped w c k thread text)
      × ((send w c thread text).2 ≡ outcome_of w k thread text)
unfolding send queue dropped outcome_of
send_live w c thread text k live =
    let conn = connect_live w c k live in
    let calls : (connect w c).1 ≡ [] = ap (λ r. r.1) conn in
    let client : (connect w c).2 ≡ ok k = ap (λ r. r.2) conn in
    let kept : (connect w c).0 ≡ c = ap (λ r. r.0) conn in
    elim (Option-cases (w.queue_message k thread text)) [
      | inl failed ↦ rw (client, send, calls, failed, queue, kept, dropped, outcome_of) (refl, refl)
      | inr (texts, answer) ↦
          rw (client, send, calls, answer, queue, dropped, outcome_of) (refl, refl)
    ]

-- Where the check of a delivery finds the backend available, the message is within the limit of
-- characters, and a request with another thread's id is adopted between that check and the reading of
-- the thread, the request disables the backend, but the delivery over a connected client is not
-- refused, whatever the daemon makes of it: it asks the daemon to queue the message under an empty
-- thread id, and returns a receipt if the daemon answers and the error of the queueing, with the
-- client that the backend then has closed, if it does not.
pub deliver_raced :
    (w : World) (c : Backend) (d : Delivery) (m : Meta) (k : ℕ) {id : Bytes}
    → available w.socket_found c ≡ none
    → rune_count (compose d) ≤ codex_max_chars
    → thread_id_from_meta m ≡ ok id
    → str_eq c.thread id ≡ false
    → w.before_thread c ≡ (adopt c m).0
    → c.client ≡ some k
    → ((adopt c m).0.disabled ≡ true)
      × ((deliver w c d).1 ≡ queued k [] (compose d) ∷ dropped w (adopt c m).0 k [] (compose d))
      × ((deliver w c d).2 ≡ outcome_of w k [] (compose d))
unfolding deliver
deliver_raced w c d m k free fit named differs raced live =
    let (on, held) = available-none w.socket_found c free in
    let off : Backend = record c { disabled = true; thread = [] } in
    let adopted : (adopt c m).0 ≡ off = adopted_second c m on held named differs in
    let now : w.before_thread c ≡ off = raced ∙ adopted in
    let (calls, result) = send_live w off [] (compose d) k live in
    rw (free, le→leb (rune_count (compose d)) codex_max_chars fit, deliver, now, adopted)
      (refl, calls, result)
