-- ===== src/Deliver/Open.antt =====
-- deliver/deliver.go: the options, the choice of a backend from the environment, and the environment
-- cleared for a test.
pub mod Cleared
mod Examples
use harness_transport.Deliver.Claude
use harness_transport.Deliver.Claude.{new_claude}
use harness_transport.Deliver.Codex
use harness_transport.Deliver.Codex.{new_codex}
use harness_transport.Prelude.{
  Bool, true, false, ◌||◌, Bytes, List, [], ◌∷◌, Option, none, some, codes, str_eq, is_empty,
  if◌then◌else◌, Result, ok, err,
}
use harness_transport.Udsmsg.Proc.{ModeError}

-- What `os.LookupEnv` gives for a name.
abbrev pub Env : Type 0
Env = Bytes → Option Bytes

-- `os.Getenv`
abbrev pub getenv : Env → Bytes → Bytes
getenv env k = elim (env k) [ some v ↦ v | none ↦ [] ]

-- `os.Setenv`, and `os.Unsetenv` for `none`.
abbrev pub set_env : Env → Bytes → Option Bytes → Env
set_env env k v q = if str_eq q k then v else env q

abbrev pub env_claude_socket : Bytes
env_claude_socket = codes "CLAUDE_CODE_MESSAGING_SOCKET"

abbrev pub env_claude_token : Bytes
env_claude_token = codes "CLAUDE_CODE_MESSAGING_TOKEN"

abbrev pub env_codex_session : Bytes
env_codex_session = codes "CODEX_SESSION_ID"

abbrev pub harness_env : List Bytes
harness_env = env_claude_socket ∷ env_claude_token ∷ env_codex_session ∷ []

-- `options`
pub record Options : Type 0 where
  pub sender_name : Bytes
  pub reply_address : Bytes
  pub mode : Bytes

unfoldable pub with_sender_name : Bytes → Options → Options
with_sender_name name o = record o { sender_name = name }

unfoldable pub with_reply_address : Bytes → Options → Options
with_reply_address addr o = record o { reply_address = addr }

-- `WithDetectedMode`, over what `DetectParentMode` answers.
unfoldable pub with_detected_mode : Result ModeError Bytes → Options → Options
with_detected_mode (ok m) o = record o { mode = m }
with_detected_mode (err _) o = o

unfoldable pub apply_options : List (Options → Options) → Options → Options
apply_options [] o = o
apply_options (f ∷ fs) o = apply_options fs (f o)

-- The two backends that `Open` returns.
pub data Deliverer : Type 0 where
  claude : Claude.Backend → Deliverer
  codex : Codex.Backend → Deliverer

abbrev pub no_options : Options
no_options = record { sender_name = []; reply_address = []; mode = [] }

-- `Open` behind its options.
unfoldable pub choose : Bytes → Env → Options → Deliverer
choose default_name env o =
    let name = if is_empty o.sender_name then default_name else o.sender_name in
    if is_empty (getenv env env_claude_socket)
    then codex (new_codex default_name name)
    else claude (
        new_claude default_name (getenv env env_claude_socket) (getenv env env_claude_token) name
          o.reply_address o.mode)

-- `Open`; `default_name` is what `defaultSenderName` gives.
unfoldable pub open_deliverer : Bytes → Env → List (Options → Options) → Deliverer
open_deliverer default_name env opts = choose default_name env (apply_options opts no_options)

-- `ClearEnvForTesting`: the environment without the names.
unfoldable pub clear_names : List Bytes → Env → Env
clear_names [] env = env
clear_names (k ∷ ks) env = clear_names ks (set_env env k none)

unfoldable pub clear_env : Env → Env
clear_env env = clear_names harness_env env

-- The function that it returns: `saved` is the environment that it found, `ks` the order in which the
-- map of saved values is walked.
unfoldable pub restore_env : Env → List Bytes → Env → Env
restore_env saved [] env = env
restore_env saved (k ∷ ks) env = restore_env saved ks (set_env env k (saved k))
