-- ===== src/CodexSend/Exits.antt =====
-- What the command asks of the daemon, and what its exit code says.
use harness_transport.Go.Strings.{join}
use harness_transport.CodexSend.{
  World, Options, Effect, called, closed, usage, params_of, queue, converse, run, exit_ok,
  exit_error, exit_no_target,
}
use harness_transport.Codexmsg.Dial.{DialError, dial}
use harness_transport.Codexmsg.Jsonrpc.{Failure, plain}
use harness_transport.Codexmsg.Methods.{
  Call, QueuedSubmission, method_initialize, method_thread_queue_add, marshal_initialize,
  marshal_queue, text_input, initialize, queue_message, queued, decode_result,
}
use harness_transport.Prelude.{
  ℕ, ◌≡◌, ◌⊎◌, refl, ap, true, false, ◌||◌, Bytes, List, [], ◌∷◌, ◌++◌, is_empty, codes, none, some,
  Result, ok, err, arith, Bool-cases, Result-cases, inl, inr,
}

-- The calls among the effects.
unfoldable pub calls_of : List Effect → List Call
calls_of [] = []
calls_of (called c ∷ es) = c ∷ calls_of es
calls_of (_ ∷ es) = calls_of es

-- The handshake, which asks for the experimental methods.
abbrev pub handshake : Options → Call
handshake o = (
  method_initialize,
  marshal_initialize (record {
    client_info = record { name = o.name; title = none; version = codes "0.1.0" };
    capabilities = some true;
  }),
)

-- The request that queues a text.
abbrev pub request : World → Options → Bytes → Call
request w o text = (
  method_thread_queue_add,
  marshal_queue (record { thread_id = o.to; input = text_input text; message_id = w.fresh }),
)

module _ (w : World) (o : Options) (text : Bytes) where
  -- What the daemon answered, and what the calls and the exit code are then.
  abbrev pub Refused : List Call → Type 0
  Refused calls =
      (f : Failure) × (w.daemon.answer (handshake o) ≡ err f) × (calls ≡ handshake o ∷ [])

  abbrev pub NotQueued : List Call → Type 0
  NotQueued calls =
      (hello : Bytes) × (f : Failure) × (w.daemon.answer (handshake o) ≡ ok hello)
      × (queued w.daemon (w.daemon.answer (request w o text)) ≡ err f)
      × (calls ≡ handshake o ∷ request w o text ∷ [])

  abbrev pub Queued : List Call → Type 0
  Queued calls =
      (hello raw : Bytes) × (q : QueuedSubmission) × (w.daemon.answer (handshake o) ≡ ok hello)
      × (w.daemon.answer (request w o text) ≡ ok raw)
      × (decode_result w.daemon raw ≡ ok q)
      × (calls ≡ handshake o ∷ request w o text ∷ [])

  -- An end with an error, or the text queued.
  abbrev pub Ends : List Call → ℕ → Type 0
  Ends calls exit =
      ((exit ≡ exit_error) × ((calls ≡ []) ⊎ Refused calls ⊎ NotQueued calls))
      ⊎ ((exit ≡ exit_ok) × Queued calls)

queue_message-answer :
    (w : World) (o : Options) (text : Bytes)
    → queue_message w.daemon w.fresh o.to text w.fresh
      ≡ (request w o text ∷ [], queued w.daemon (w.daemon.answer (request w o text)))
unfolding queue_message
queue_message-answer w o text = ground arith

initialize-answer :
    (w : World) (o : Options)
    → is_empty o.name ≡ false
    → initialize w.daemon (params_of o) ≡ (handshake o ∷ [], w.daemon.answer (handshake o))
unfolding initialize params_of is_empty
initialize-answer w o n = rw (n, initialize) refl

queued-ok :
    (w : World) (r : Result Failure Bytes) {q : QueuedSubmission}
    → queued w.daemon r ≡ ok q
    → (raw : Bytes) × (r ≡ ok raw) × (decode_result w.daemon raw ≡ ok q)
unfolding queued
queued-ok w (err f) e = cc
queued-ok w (ok raw) e = (raw, refl, ground arith)

calls_of-closed : (es : List Effect) → calls_of (es ++ closed ∷ []) ≡ calls_of es
unfolding calls_of
calls_of-closed [] = refl
calls_of-closed (called c ∷ es) = ap (◌∷◌ c) (calls_of-closed es)
calls_of-closed (usage ∷ es) = calls_of-closed es
calls_of-closed (_ ∷ es) = calls_of-closed es

-- No handshake is sent without a name.
initialize-unnamed :
    (w : World) (o : Options)
    → is_empty o.name ≡ true
    → (f : Failure) × (initialize w.daemon (params_of o) ≡ ([], err f))
unfolding initialize params_of
initialize-unnamed w o n = (plain (codes "initialize needs a client name"), rw (n, initialize) refl)

converse-Ends :
    (w : World) (o : Options) (text : Bytes)
    → Ends w o text (calls_of (converse w o text).0) (converse w o text).1
unfolding converse queue calls_of
converse-Ends w o text = elim (Bool-cases (is_empty o.name)) [
  | inl n ↦
      let (f, i) = initialize-unnamed w o n in
      inl (rw (i, converse) refl, inl (rw (i, converse, i) refl))
  | inr n ↦
      let i = initialize-answer w o n in
      let a = queue_message-answer w o text in
      elim (Result-cases (w.daemon.answer (handshake o))) [
        | inr (f, r) ↦ inl (rw (i, r, converse) refl, inr (inl (f, r, rw (i, r, converse, i) refl)))
        | inl (hello, r) ↦
            elim (Result-cases (queued w.daemon (w.daemon.answer (request w o text)))) [
              | inr (f, s) ↦ inl (
                rw (i, r, converse, queue, a, s) refl,
                inr (inr (hello, f, r, s, rw (i, r, converse, i, queue, a, s, a) refl)),
              )
              | inl (q, s) ↦
                  let (raw, t, d) = queued-ok w (w.daemon.answer (request w o text)) s in
                  inr (
                    rw (i, r, converse, queue, a, s) refl,
                    (hello, raw, q, r, t, d, rw (i, r, converse, i, queue, a, s, a) refl),
                  )
            ]
      ]
]

-- The exit code tells what happened. With 6 no connection was made and nothing was asked. With 0 the
-- daemon accepted the handshake, which asks for the experimental methods, and then answered the
-- request that queues the text in the thread, and these two calls were all. With 1 nothing was asked,
-- or the handshake was refused and nothing else asked, or the request behind it failed.
pub run-Ends :
    (w : World) (o : Options) (args : List Bytes)
    → let (es, exit) = run w o args in
      ((exit ≡ exit_no_target)
        × (calls_of es ≡ [])
        × ((e : DialError) × (dial w.host (record { socket_path = o.socket; path = [] }) ≡ err e)))
      ⊎ Ends w o (join (codes " ") args) (calls_of es) exit
unfolding run calls_of
run-Ends w o args = elim (Bool-cases (is_empty o.to || is_empty (join (codes " ") args))) [
  | inl b ↦ inr (inl (rw (b, run) refl, inl (rw (b, run) refl)))
  | inr b ↦ elim (Result-cases (dial w.host (record { socket_path = o.socket; path = [] }))) [
    | inr (e, r) ↦ inl (rw (b, r, run) refl, rw (b, r, run) refl, (e, r))
    | inl (path, r) ↦ inr (
        rw (b, r, run, calls_of-closed (converse w o (join (codes " ") args)).0)
          (converse-Ends w o (join (codes " ") args)))
  ]
]
