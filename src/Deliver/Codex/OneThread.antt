-- ===== src/Deliver/Codex/OneThread.antt =====
-- Adopted requests and a delivery after them: which thread a message can reach.
use harness_transport.Deliver.{Delivery, compose, Meta}
use harness_transport.Deliver.Codex.{
  Backend, new_codex, two_threads, World, available, deliver, cannot_deliver,
}
use harness_transport.Deliver.Codex.Latch.{ids_seen, adopt_all, all_are, latched, adopt_all-latched}
use harness_transport.Deliver.Codex.Receipts.{QueuesOnly, deliver-QueuesOnly}
use harness_transport.Prelude.{◌≡◌, refl, ap, ◌∙◌, true, false, Bytes, List, [], ◌∷◌, err, All}

-- A new backend that adopted a run of requests, all of which that name a thread name `id`, queues
-- nothing but the composed message, on the thread `id`, where no other request is adopted between
-- the check and the reading of the thread.
pub deliver-agreed :
    (w : World) (default_name name : Bytes) (ms : List Meta) (d : Delivery) {id : Bytes}
    {ids : List Bytes}
    → ids_seen ms ≡ id ∷ ids
    → all_are id ids ≡ true
    → ((c : Backend) → w.before_thread c ≡ c)
    → All (QueuesOnly id (compose d)) (deliver w (adopt_all (new_codex default_name name) ms) d).1
unfolding latched
deliver-agreed w default_name name ms d {id} {ids} seen agree idle =
    let c = adopt_all (new_codex default_name name) ms in
    let latch : (w.before_thread c).thread ≡ id =
      ap (λ b. b.thread) (idle c)
      ∙ ap (λ b. b.thread) (adopt_all-latched default_name name ms)
      ∙ rw (seen, latched, agree) refl in
    let calls = deliver-QueuesOnly w c d in rw latch at calls

-- Where two of the requests name different threads, every later delivery is refused and asks nothing
-- of the daemon.
pub deliver_two_threads :
    (w : World) (default_name name : Bytes) (ms : List Meta) (d : Delivery) {id : Bytes}
    {ids : List Bytes}
    → ids_seen ms ≡ id ∷ ids
    → all_are id ids ≡ false
    → deliver w (adopt_all (new_codex default_name name) ms) d
      ≡ (adopt_all (new_codex default_name name) ms, [], err (cannot_deliver two_threads))
unfolding latched deliver available
deliver_two_threads w default_name name ms d seen differ =
    rw (adopt_all-latched default_name name ms, seen, latched, differ) refl
