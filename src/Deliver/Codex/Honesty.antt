-- ===== src/Deliver/Codex/Honesty.antt =====
-- What a receipt of `Deliver` is worth.
use harness_transport.Deliver.{observed_stored, Delivery, compose, lead, anchor, mark}
use harness_transport.Deliver.Codex.{
  Backend, World, codex_max_chars, available, first_text, receipt, queue, send, connect, deliver,
}
use harness_transport.Go.Utf8.{rune_count}
use harness_transport.Prelude.{
  ℕ, ◌≤◌, ◌≡◌, refl, ap, false, Bytes, List, ◌∷◌, ◌++◌, none, some, length, length-append, leb,
  le→leb, str_eq_iff, str_eq_self, is_empty, is_empty→eq, codes, ok, arith, Option-cases,
  Bool-cases, Result-cases, inl, inr,
}

-- The daemon answered the composed message with these texts, and the first has its digest.
pub record Echoed (w : World) (thread text : Bytes) : Type 0 where
  pub client : ℕ
  pub texts : List Bytes
  pub answered : w.queue_message client thread text ≡ some texts
  pub has_echo : is_empty (first_text texts) ≡ false
  pub same_digest : w.sha256 (first_text texts) ≡ w.sha256 text

receipt_stored :
    (sha256 : Bytes → Bytes) (text echo : Bytes)
    → receipt sha256 text echo ≡ observed_stored
    → (is_empty echo ≡ false) × (sha256 echo ≡ sha256 text)
unfolding receipt
receipt_stored sha256 text echo h = ground (arith, str_eq_iff (sha256 echo) (sha256 text))

queue_stored :
    (w : World) (c : Backend) (k : ℕ) (thread text : Bytes)
    → (queue w c k thread text).2 ≡ ok observed_stored
    → Echoed w thread text
unfolding queue
queue_stored w c k thread text h = elim (Option-cases (w.queue_message k thread text)) [
  | inl e ↦ absurd (cc (rw (e, queue) at h))
  | inr (texts, e) ↦
      let (not_empty, same) =
        receipt_stored w.sha256 text (first_text texts) (cc (rw (e, queue) at h)) in
      record { client = k; texts = texts; answered = e; has_echo = not_empty; same_digest = same }
]

send_stored :
    (w : World) (c : Backend) (thread text : Bytes)
    → (send w c thread text).2 ≡ ok observed_stored
    → Echoed w thread text
unfolding send
send_stored w c thread text h = elim (Result-cases (connect w c).2) [
  | inr (x, e) ↦ absurd (cc (rw (e, send) at h))
  | inl (k, e) ↦ queue_stored w (connect w c).0 k thread text (rw (e, send) at h)
]

-- A delivery that reports the message as stored had it echoed: the daemon answered the composed
-- message, on the thread that the delivery read, with a first text that is not empty and has the
-- message's SHA-256.
pub deliver_stored :
    (w : World) (c : Backend) (d : Delivery)
    → (deliver w c d).2 ≡ ok observed_stored
    → Echoed w (w.before_thread c).thread (compose d)
unfolding deliver
deliver_stored w c d h = elim (Option-cases (available w.socket_found c)) [
  | inr (why, e) ↦ absurd (cc (rw (e, deliver) at h))
  | inl e ↦ elim (Bool-cases (leb (rune_count (compose d)) codex_max_chars)) [
    | inl y ↦ send_stored w (w.before_thread c) _ (compose d) (rw (e, y, deliver) at h)
    | inr n ↦ absurd (cc (rw (e, n, deliver) at h))
  ]
]

compose_not_empty : (d : Delivery) → is_empty (compose d) ≡ false
unfolding compose
compose_not_empty d = elim (Bool-cases (is_empty (compose d))) [
  | inr e ↦ e
  | inl e ↦ absurd (
      omega (
        arith,
        ap length (is_empty→eq (compose d) e),
        length-append (lead d.body) (codes "[" ++ (anchor d.cursor ++ (mark d.more ++ codes "]"))),
      ))
]

-- A delivery over a client that is connected, of a text within the daemon's limit, reports the
-- message as stored wherever the daemon echoes it unchanged.
pub deliver_echoed :
    (w : World) (c : Backend) (d : Delivery) (k : ℕ) (more : List Bytes)
    → available w.socket_found c ≡ none
    → rune_count (compose d) ≤ codex_max_chars
    → (w.before_thread c).client ≡ some k
    → w.queue_message k (w.before_thread c).thread (compose d) ≡ some (compose d ∷ more)
    → (deliver w c d).2 ≡ ok observed_stored
unfolding deliver send connect queue receipt is_empty first_text
deliver_echoed w c d k more free fit live answer =
    let text = compose d in
    rw
      (
        free,
        le→leb (rune_count text) codex_max_chars fit,
        deliver,
        send,
        live,
        connect,
        answer,
        queue,
        receipt,
        compose_not_empty d,
        str_eq_self (w.sha256 text),
      )
      refl
