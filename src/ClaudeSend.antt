-- ===== src/ClaudeSend.antt =====
-- cmd/claude-send/main.go: the command that sends a message to a session and waits for an answer.
-- The flags come parsed, and the system is a record of parameters. What a run does is a list of
-- effects and an exit code; the texts of errors are left out, and so is a negative `--to`.
pub mod Accept
pub mod Await
pub mod Message
pub mod Run
pub mod Answers
pub mod Senders
pub mod Held
pub mod Cleanup
pub mod Exits
mod Examples
use harness_transport.Prelude.{ℕ, Bool, Bytes}
use harness_transport.Udsmsg.Session.{SessionEntry}

abbrev pub exit_ok : ℕ
exit_ok = 0

abbrev pub exit_error : ℕ
exit_error = 1

abbrev pub exit_no_reply : ℕ
exit_no_reply = 3

abbrev pub exit_timeout : ℕ
exit_timeout = 4

abbrev pub exit_refused : ℕ
exit_refused = 5

abbrev pub exit_no_target : ℕ
exit_no_target = 6

-- `options`; `timeout` is the duration as `%s` prints it.
pub record Options : Type 0 where
  pub to : ℕ
  pub to_socket : Bytes
  pub wait : Bytes
  pub timeout : Bytes
  pub no_auth : Bool
  pub no_hint : Bool
  pub json_out : Bool
  pub quiet : Bool
  pub any_sender : Bool
  pub name : Bytes
  pub announce : Bytes
  pub publish_key : Bool

-- Why a run ends early, with a line on standard error.
pub data Stop : Type 0 where
  bad_stdin bad_usage two_targets bad_wait no_target recycled_pid : Stop
  no_inbox no_entry not_published not_dialled not_sent : Stop

-- What a run does: lines on standard output and as progress, the early end, the inbox bound and
-- closed, the registry entry published and removed, and the connection with what it wrote.
pub data Effect : Type 0 where
  printed noted : Bytes → Effect
  stopped : Stop → Effect
  bound : Bytes → Effect
  unbound : Effect
  announced : SessionEntry → Effect
  withdrawn : ℕ → Effect
  connected disconnected : Effect
  wrote : Bytes → Effect
