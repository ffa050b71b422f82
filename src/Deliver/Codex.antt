-- ===== src/Deliver/Codex.antt =====
-- deliver/codex.go: the backend that delivers into a Codex thread. The daemon, the connection to it
-- and SHA-256 are parameters; what the backend asks of them is a list of calls.
pub mod Latch
pub mod Receipts
pub mod OneThread
pub mod Honesty
pub mod Race
pub mod Floor
use harness_transport.Deliver.{
  Observation, observed_accepted, observed_stored, Delivery, compose, Meta, no_meta,
  not_a_thread_id, thread_id_from_meta,
}
use harness_transport.Go.Utf8.{rune_count}
use harness_transport.Prelude.{
  ℕ, ◌*◌, ◌-◌, ◌^◌, Bool, true, false, not, ◌&&◌, Bytes, List, [], ◌∷◌, ◌++◌, Option, none, some,
  ltb, leb, if◌then◌else◌, length, str_eq, is_empty, Result, ok, err,
}

-- The state behind the mutex. A client is named by a number.
pub record Backend : Type 0 where
  pub thread : Bytes
  pub disabled : Bool
  pub client : Option ℕ
  pub name : Bytes

-- `newCodex`, with the default name that it falls back to.
unfoldable pub new_codex : Bytes → Bytes → Backend
new_codex default_name name = record {
  thread = [];
  disabled = false;
  client = none;
  name = if is_empty name then default_name else name;
}

abbrev pub codex_max_chars : ℕ
codex_max_chars = 1 * 2 ^ 20

abbrev pub codex_overhead : ℕ
codex_overhead = 4 * 2 ^ 10

-- Why the backend is not available.
pub data Unavailable : Type 0 where
  two_threads no_daemon no_thread : Unavailable

-- The outcome of `Available`; `socket_found` is what `DefaultSocket` says.
unfoldable pub available : Bool → Backend → Option Unavailable
available socket_found c =
    if c.disabled
    then some two_threads
    else if not socket_found
    then some no_daemon
    else if is_empty c.thread
    then some no_thread
    else none

unfoldable pub max_intact_bytes : Bool → Backend → Result Unavailable ℕ
unfolding available
max_intact_bytes socket_found c = elim (available socket_found c) [
  | some why ↦ err why
  | none ↦ ok (codex_max_chars - codex_overhead)
]

-- `Fits`: the decision on runes, and the size in bytes.
unfoldable pub fits : Delivery → Bool × ℕ
fits d = (leb (rune_count (compose d)) codex_max_chars, length (compose d))

pub data AdoptError : Type 0 where
  bad_meta already_disabled second_thread : AdoptError

-- The switch of `Adopt` over the state, under the lock.
unfoldable pub adopt_id : Backend → Bytes → Backend × Option AdoptError
adopt_id c id =
    if c.disabled
    then (c, some already_disabled)
    else if is_empty c.thread
    then (record c { thread = id }, none)
    else if str_eq c.thread id
    then (c, none)
    else (record c { disabled = true; thread = [] }, some second_thread)

unfoldable pub adopt : Backend → Meta → Backend × Option AdoptError
adopt c meta = elim (thread_id_from_meta meta) [
  | err no_meta ↦ (c, none)
  | err not_a_thread_id ↦ (c, some bad_meta)
  | ok id ↦ adopt_id c id
]

-- What the backend asks of the daemon and of its clients.
pub data Call : Type 0 where
  dialled : Call
  initialized closed : ℕ → Call
  queued : ℕ → Bytes → Bytes → Call

-- Everything outside: the daemon's socket, a dial and the handshake on it, the answer to a queued
-- message (its echoed texts), SHA-256, and what other callers do to the backend while the lock is
-- free, before the thread is read, while a client is dialled and while a message is queued.
pub record World : Type 0 where
  pub socket_found : Bool
  pub dial : Option ℕ
  pub initialize : ℕ → Bytes → Bool
  pub queue_message : ℕ → Bytes → Bytes → Option (List Bytes)
  pub sha256 : Bytes → Bytes
  pub before_thread : Backend → Backend
  pub while_dialling : Backend → Backend
  pub while_queueing : Backend → Backend

pub data DeliverError : Type 0 where
  cannot_deliver : Unavailable → DeliverError
  too_many_characters not_connected not_initialized not_queued : DeliverError

-- `Close`
unfoldable pub close : Backend → Backend × List Call
close c = (record c { client = none }, elim c.client [ none ↦ [] | some k ↦ closed k ∷ [] ])

-- The second half of `connect`, when the lock is held again: another caller may have won.
unfoldable pub keep_client : Backend → ℕ → Backend × List Call × ℕ
keep_client c k = elim c.client [
  | some winner ↦ (c, closed k ∷ [], winner)
  | none ↦ (record c { client = some k }, [], k)
]

-- `connect`: the backend, the calls made, and a client.
unfoldable pub connect : World → Backend → Backend × List Call × Result DeliverError ℕ
unfolding keep_client
connect w c = elim c.client [
  | some k ↦ (c, [], ok k)
  | none ↦ elim w.dial [
    | none ↦ (w.while_dialling c, dialled ∷ [], err not_connected)
    | some k ↦
        let c' = w.while_dialling c in
        let (c'', calls, winner) = keep_client c' k in
        if w.initialize k c.name
        then (c'', dialled ∷ initialized k ∷ calls, ok winner)
        else (c', dialled ∷ initialized k ∷ closed k ∷ [], err not_initialized)
  ]
]

-- `echo`: the first text of the answer.
unfoldable pub first_text : List Bytes → Bytes
first_text [] = []
first_text (t ∷ _) = t

-- The receipt for an echo.
unfoldable pub receipt : (Bytes → Bytes) → Bytes → Bytes → Observation
receipt sha256 text echo =
    if not (is_empty echo) && str_eq (sha256 echo) (sha256 text)
    then observed_stored
    else observed_accepted

-- From `QueueMessage` on: an error drops the client.
unfoldable pub queue :
    World → Backend → ℕ → Bytes → Bytes → Backend × List Call × Result DeliverError Observation
unfolding close
queue w c k thread text =
    let c' = w.while_queueing c in
    elim (w.queue_message k thread text) [
      | none ↦ let (c'', calls) = close c' in (c'', queued k thread text ∷ calls, err not_queued)
      | some texts ↦ (c', queued k thread text ∷ [], ok (receipt w.sha256 text (first_text texts)))
    ]

-- What follows the guards of `Deliver`.
unfoldable pub send :
    World → Backend → Bytes → Bytes → Backend × List Call × Result DeliverError Observation
send w c thread text =
    let (c', calls, r) = connect w c in
    elim r [
      | err e ↦ (c', calls, err e)
      | ok k ↦ let (c'', more, o) = queue w c' k thread text in (c'', calls ++ more, o)
    ]

-- `Deliver`
unfoldable pub deliver :
    World → Backend → Delivery → Backend × List Call × Result DeliverError Observation
unfolding fits
deliver w c d = elim (available w.socket_found c) [
  | some why ↦ (c, [], err (cannot_deliver why))
  | none ↦
      let c' = w.before_thread c in
      if (fits d).0 then send w c' c'.thread (compose d) else (c', [], err too_many_characters)
]
