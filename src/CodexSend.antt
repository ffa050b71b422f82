-- ===== src/CodexSend.antt =====
-- cmd/codex-send/main.go: the command that queues a message into a thread. The flags come parsed; the
-- deadline is left out, and the texts of errors are those of the values that are printed.
pub mod Exits
mod Examples
use harness_transport.Go.Strings.{join}
use harness_transport.Codexmsg.Dial
use harness_transport.Codexmsg.Dial.{DialError, dial}
use harness_transport.Codexmsg.Jsonrpc.{Failure}
use harness_transport.Codexmsg.Methods.{
  InitializeParams, Call, Daemon, QueuedSubmission, initialize, queue_message,
}
use harness_transport.Prelude.{
  ℕ, Bool, true, false, ◌||◌, Bytes, List, [], ◌∷◌, ◌++◌, Option, none, some, codes, is_empty, map,
  if◌then◌else◌, Result, ok, err,
}

abbrev pub exit_ok : ℕ
exit_ok = 0

abbrev pub exit_error : ℕ
exit_error = 1

abbrev pub exit_no_target : ℕ
exit_no_target = 6

-- The flags.
pub record Options : Type 0 where
  pub to : Bytes
  pub socket : Bytes
  pub name : Bytes
  pub json_out : Bool

-- The socket's surroundings, the daemon, a new version 7 id, and `json.Marshal` of a result.
pub record World : Type 0 where
  pub host : Dial.Host
  pub daemon : Daemon
  pub fresh : Bytes
  pub marshal_result : QueuedSubmission → Bytes

pub data Effect : Type 0 where
  usage : Effect
  dialled : Bytes → Effect
  called : Call → Effect
  closed : Effect
  printed : Bytes → Effect
  not_dialled : DialError → Effect
  failed : Failure → Effect

abbrev pub Outcome : Type 0
Outcome = List Effect × ℕ

-- The handshake that asks for the experimental methods.
unfoldable pub params_of : Options → InitializeParams
params_of o = record {
  client_info = record { name = o.name; title = none; version = codes "0.1.0" };
  capabilities = some true;
}

unfoldable pub report : World → Options → QueuedSubmission → Bytes
report w o q =
    if o.json_out
    then w.marshal_result q
    else codes "Queued message " ++ (q.id ++ (codes " for thread " ++ (o.to ++ codes ".")))

-- The message, behind the handshake.
unfoldable pub queue : World → Options → Bytes → Outcome
queue w o text =
    let (calls, r) = queue_message w.daemon w.fresh o.to text w.fresh in
    elim r [
      | err f ↦ (map called calls ++ (failed f ∷ []), exit_error)
      | ok q ↦ (map called calls ++ (printed (report w o q) ∷ []), exit_ok)
    ]

-- What is done on the connection.
unfoldable pub converse : World → Options → Bytes → Outcome
converse w o text =
    let (calls, r) = initialize w.daemon (params_of o) in
    elim r [
      | err f ↦ (map called calls ++ (failed f ∷ []), exit_error)
      | ok _ ↦ let (es, exit) = queue w o text in (map called calls ++ es, exit)
    ]

-- `run` behind the flags.
unfoldable pub run : World → Options → List Bytes → Outcome
run w o args =
    if is_empty o.to || is_empty (join (codes " ") args)
    then (usage ∷ [], exit_error)
    else elim (dial w.host (record { socket_path = o.socket; path = [] })) [
      | err e ↦ (not_dialled e ∷ [], exit_no_target)
      | ok path ↦
          let (es, exit) = converse w o (join (codes " ") args) in
          (dialled path ∷ (es ++ (closed ∷ [])), exit)
    ]
