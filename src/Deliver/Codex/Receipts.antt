-- ===== src/Deliver/Codex/Receipts.antt =====
-- What `Deliver` asks of the daemon, and what its receipt says.
use harness_transport.Deliver.{Delivery, compose}
use harness_transport.Deliver.Codex.{
  Backend, World, Call, dialled, initialized, closed, queued, codex_max_chars, available, queue,
  send, connect, keep_client, close, deliver,
}
use harness_transport.Go.Utf8.{rune_count}
use harness_transport.Prelude.{
  ℕ, ◌≡◌, refl, Bytes, leb, All, All-append, Option-cases, Bool-cases, Result-cases, inl, inr,
}

-- A call that queues nothing, or queues this text on this thread.
abbrev pub QueuesOnly : Bytes → Bytes → Call → Type 0
QueuesOnly thread text dialled = Unit
QueuesOnly thread text (initialized _) = Unit
QueuesOnly thread text (closed _) = Unit
QueuesOnly thread text (queued _ t s) = (t ≡ thread) × (s ≡ text)

keep_client-QueuesOnly :
    (c : Backend) (k : ℕ) (thread text : Bytes) → All (QueuesOnly thread text) (keep_client c k).1
unfolding keep_client
keep_client-QueuesOnly c k thread text = elim (Option-cases c.client) [
  | inl e ↦ rw e tt
  | inr (j, e) ↦ rw e (tt, tt)
]

connect-QueuesOnly :
    (w : World) (c : Backend) (thread text : Bytes) → All (QueuesOnly thread text) (connect w c).1
unfolding connect
connect-QueuesOnly w c thread text = elim (Option-cases c.client) [
  | inr (j, e) ↦ rw (e, connect) tt
  | inl e ↦ elim (Option-cases w.dial) [
    | inl f ↦ rw (e, f, connect) (tt, tt)
    | inr (k, h) ↦ elim (Bool-cases (w.initialize k c.name)) [
      | inl y ↦
          rw (e, h, y, connect)
            (tt, (tt, keep_client-QueuesOnly (w.while_dialling c) k thread text))
      | inr n ↦ rw (e, h, n, connect) (tt, (tt, (tt, tt)))
    ]
  ]
]

close-QueuesOnly : (c : Backend) (thread text : Bytes) → All (QueuesOnly thread text) (close c).1
unfolding close
close-QueuesOnly c thread text = elim (Option-cases c.client) [
  | inl e ↦ rw e tt
  | inr (j, e) ↦ rw e (tt, tt)
]

queue-QueuesOnly :
    (w : World) (c : Backend) (k : ℕ) (thread text : Bytes)
    → All (QueuesOnly thread text) (queue w c k thread text).1
unfolding queue
queue-QueuesOnly w c k thread text = elim (Option-cases (w.queue_message k thread text)) [
  | inl e ↦ rw (e, queue) ((refl, refl), close-QueuesOnly (w.while_queueing c) thread text)
  | inr (texts, e) ↦ rw (e, queue) ((refl, refl), tt)
]

send-QueuesOnly :
    (w : World) (c : Backend) (thread text : Bytes)
    → All (QueuesOnly thread text) (send w c thread text).1
unfolding send
send-QueuesOnly w c thread text =
    let before = connect-QueuesOnly w c thread text in
    elim (Result-cases (connect w c).2) [
      | inr (x, e) ↦ rw (e, send) before
      | inl (k, e) ↦
          rw (e, send)
            (All-append (QueuesOnly thread text) _ _ before
              (queue-QueuesOnly w (connect w c).0 k thread text))
    ]

-- The calls of a delivery under its guards: none where the backend is not available or the text is
-- longer than the daemon accepts.
pub deliver-QueuesOnly :
    (w : World) (c : Backend) (d : Delivery)
    → All (QueuesOnly (w.before_thread c).thread (compose d)) (deliver w c d).1
unfolding deliver
deliver-QueuesOnly w c d = elim (Option-cases (available w.socket_found c)) [
  | inr (why, e) ↦ rw (e, deliver) tt
  | inl e ↦ elim (Bool-cases (leb (rune_count (compose d)) codex_max_chars)) [
    | inl y ↦ rw (e, y, deliver) (send-QueuesOnly w (w.before_thread c) _ (compose d))
    | inr n ↦ rw (e, n, deliver) tt
  ]
]
