-- ===== src/Codexmsg/Methods.antt =====
-- codexmsg/methods.go: the two requests that push a message into a thread, with their JSON. A call is
-- its method and parameters; the daemon's answer to it, an error or the raw result, is a parameter,
-- and so is the decoding of a result.
use harness_transport.Go.Strings.{contains}
use harness_transport.Codexmsg.Jsonrpc.{Failure, wrapped, plain, failure_text, is_method_not_found}
use harness_transport.Go.Json.{quote, object, array}
use harness_transport.Prelude.{
  Bool, Bytes, List, [], ◌∷◌, ◌++◌, Option, none, some, codes, is_empty, if◌then◌else◌, Result, ok,
  err,
}
use harness_transport.Udsmsg.Frame.Encode.{text_member}

abbrev pub method_initialize : Bytes
method_initialize = codes "initialize"

abbrev pub method_thread_queue_add : Bytes
method_thread_queue_add = codes "thread/queue/add"

pub record ClientInfo : Type 0 where
  pub name : Bytes
  pub title : Option Bytes
  pub version : Bytes

-- `InitializeParams`; `capabilities` is the `ExperimentalAPI` of those that are given.
pub record InitializeParams : Type 0 where
  pub client_info : ClientInfo
  pub capabilities : Option Bool

unfoldable pub marshal_client_info : ClientInfo → Bytes
marshal_client_info c = object (
    (quote (codes "name"), quote c.name)
    ∷ (elim c.title [ none ↦ [] | some t ↦ (quote (codes "title"), quote t) ∷ [] ]
        ++ ((quote (codes "version"), quote c.version) ∷ [])))

unfoldable pub marshal_capabilities : Bool → Bytes
marshal_capabilities experimental =
    object (if experimental then (quote (codes "experimentalApi"), codes "true") ∷ [] else [])

unfoldable pub marshal_initialize : InitializeParams → Bytes
marshal_initialize p = object (
    (quote (codes "clientInfo"), marshal_client_info p.client_info) ∷ elim p.capabilities [
      | none ↦ []
      | some c ↦ (quote (codes "capabilities"), marshal_capabilities c) ∷ []
    ])

-- `UserInput`, whose spans no code here fills.
pub record UserInput : Type 0 where
  pub type : Bytes
  pub text : Bytes

-- `TextInput`
unfoldable pub text_input : Bytes → UserInput
text_input text = record { type = codes "text"; text = text }

unfoldable pub marshal_input : UserInput → Bytes
marshal_input i = object (
    (quote (codes "type"), quote i.type)
    ∷ (text_member (codes "text") i.text ++ ((quote (codes "text_elements"), array []) ∷ [])))

-- `ThreadQueueAddParams` with its one input.
pub record QueueParams : Type 0 where
  pub thread_id : Bytes
  pub input : UserInput
  pub message_id : Bytes

unfoldable pub marshal_queue : QueueParams → Bytes
marshal_queue q = object (
    (quote (codes "threadId"), quote q.thread_id)
    ∷ (quote (codes "input"), array (marshal_input q.input ∷ []))
    ∷ (quote (codes "clientUserMessageId"), quote q.message_id)
    ∷ [])

-- `QueuedSubmission`
pub record QueuedSubmission : Type 0 where
  pub id : Bytes
  pub input : List UserInput
  pub message_id : Bytes

abbrev pub no_submission : QueuedSubmission
no_submission = record { id = []; input = []; message_id = [] }

-- A call: its method, and its parameters as JSON.
abbrev pub Call : Type 0
Call = Bytes × Bytes

-- The daemon's answer to a call, and `json.Unmarshal` of what was queued, with its error's text.
pub record Daemon : Type 0 where
  pub answer : Call → Result Failure Bytes
  pub unmarshal : Bytes → Result Bytes QueuedSubmission

-- `Initialize`: the calls that it makes, and its result.
unfoldable pub initialize : Daemon → InitializeParams → List Call × Result Failure Bytes
initialize d p =
    let info = p.client_info in
    let version = if is_empty info.version then codes "0.0.0" else info.version in
    let call : Call = (
      method_initialize,
      marshal_initialize (record p { client_info = record info { version = version } }),
    ) in
    if is_empty info.name
    then ([], err (plain (codes "initialize needs a client name")))
    else (call ∷ [], d.answer call)

-- The result of a call into a value that no result leaves as it is.
unfoldable pub decode_result : Daemon → Bytes → Result Failure QueuedSubmission
decode_result d raw = if is_empty raw then ok no_submission else elim (d.unmarshal raw) [
  | ok q ↦ ok q
  | err e ↦
      err (wrapped (codes "decode " ++ (method_thread_queue_add ++ codes " result")) (plain e))
]

-- The `switch` of `QueueMessage` over the error of its call.
unfoldable pub explain : Failure → Failure
explain f =
    if is_method_not_found f
    then wrapped
        (codes "the app-server daemon does not support "
          ++ (method_thread_queue_add ++ codes "; update or restart it"))
        f
    else if contains (codes "experimentalApi") (failure_text f)
    then wrapped
        (method_thread_queue_add
          ++ codes
              " needs the experimentalApi capability: initialize with Capabilities{ExperimentalAPI: true}")
        f
    else f

-- What the call gives.
unfoldable pub queued : Daemon → Result Failure Bytes → Result Failure QueuedSubmission
queued d (err f) = err (explain f)
queued d (ok raw) = elim (decode_result d raw) [ ok q ↦ ok q | err f ↦ err (explain f) ]

-- `QueueMessage`: the call that it makes, and its result; `fresh` is a new version 7 id.
unfoldable pub queue_message :
    Daemon → Bytes → Bytes → Bytes → Bytes → List Call × Result Failure QueuedSubmission
queue_message d fresh thread_id text message_id =
    let call : Call = (
      method_thread_queue_add,
      marshal_queue (record {
        thread_id = thread_id;
        input = text_input text;
        message_id = if is_empty message_id then fresh else message_id;
      }),
    ) in
    (call ∷ [], queued d (d.answer call))
