-- ===== src/Deliver/Claude.antt =====
-- deliver/claude.go: the backend that delivers into the Claude Code session that spawned us.
pub mod Guard
use harness_transport.Deliver.{Observation, observed_nothing, Delivery, compose}
use harness_transport.Prelude.{
  ℕ, ◌-◌, ◌*◌, ◌/◌, ◌^◌, Bool, true, false, not, ◌&&◌, Bytes, [], Option, none, some, ltb,
  if◌then◌else◌, length, codes, is_empty, Result, ok, err,
}
use harness_transport.Udsmsg.Addr.{pid_from_socket_name}
use harness_transport.Udsmsg.Attrib.{CrossSession}
use harness_transport.Udsmsg.Client.{
  User, UserError, Conn, Target, DialError, encoded_user_size, send_user, dial,
}
use harness_transport.Udsmsg.Frame.{max_line_bytes}

pub record Backend : Type 0 where
  pub socket : Bytes
  pub token : Bytes
  pub reply_to : Bytes
  pub mode : Bytes
  pub name : Bytes

-- `defaultSenderName`, over what `os.Executable` gives and `filepath.Base`.
unfoldable pub default_sender_name : (Bytes → Bytes) → Option Bytes → Bytes
default_sender_name base (some exe) = base exe
default_sender_name base none = codes "mcp"

-- `newClaude`, with the default name that it falls back to.
unfoldable pub new_claude : Bytes → Bytes → Bytes → Bytes → Bytes → Bytes → Backend
new_claude default_name socket token name reply_to mode = record {
  socket = socket;
  token = token;
  reply_to = reply_to;
  mode = mode;
  name = if is_empty name then default_name else name;
}

abbrev pub claude_overhead : ℕ
claude_overhead = 8 * 2 ^ 10

abbrev pub worst_case_escape : ℕ
worst_case_escape = 6

abbrev pub max_intact_bytes : ℕ
max_intact_bytes = (max_line_bytes - claude_overhead) / worst_case_escape

-- The `User` that `Fits` measures, and that `Deliver` sends with the posture in the frame as well.
unfoldable pub attributed : Backend → Bytes → Bytes → User
attributed c text from_mode = record {
  text = text;
  from = c.reply_to;
  from_mode = from_mode;
  msg_id = [];
  attribution = some (record { from = c.reply_to; name = c.name; mode = c.mode });
  priority = [];
}

-- `Fits`: `fresh` is the id that is generated.
unfoldable pub fits : Bytes → Backend → Delivery → Result UserError (ℕ × Bool)
unfolding attributed
fits fresh c d = encoded_user_size fresh (attributed c (compose d) [])

pub data Unavailable : Type 0 where
  no_harness inbox_gone no_token : Unavailable

-- The system: whether a path is a socket, the last element of a path, the start time of a process
-- and whether it is the one running, and a connection to a path.
pub record System : Type 0 where
  pub is_socket : Bytes → Bool
  pub base : Bytes → Bytes
  pub proc_start : ℕ → Option Bytes
  pub alive : ℕ → Bytes → Bool
  pub connect : Bytes → Option Conn

unfoldable pub available : System → Backend → Option Unavailable
available s c =
    if is_empty c.socket
    then some no_harness
    else if not (s.is_socket c.socket)
    then some inbox_gone
    else if is_empty c.token
    then some no_token
    else none

-- The target of a delivery, bound to the process in the socket's name where that has one.
unfoldable pub target_of : System → Backend → Target
target_of s c =
    let plain : Target = record {
      pid = 0;
      proc_start = [];
      socket_path = c.socket;
      token = c.token;
      unauthenticated = false;
    } in
    elim (pid_from_socket_name (s.base c.socket)) [
      | none ↦ plain
      | some pid ↦ record plain {
        pid = pid;
        proc_start = elim (s.proc_start pid) [ some t ↦ t | none ↦ [] ];
      }
    ]

pub data DeliverError : Type 0 where
  cannot_deliver : Unavailable → DeliverError
  too_long : DeliverError
  not_connected : DialError → DeliverError
  not_written : UserError → DeliverError

-- The receipt of a delivery that was written.
unfoldable pub written :
    Conn × Result UserError Bytes → Option Conn × Result DeliverError Observation
written (conn, err e) = (some conn, err (not_written e))
written (conn, ok _) = (some conn, ok observed_nothing)

-- `Deliver`, with the connection as it was closed.
unfoldable pub deliver :
    Bytes → System → Backend → Delivery → Option Conn × Result DeliverError Observation
unfolding target_of attributed written
deliver fresh s c d = elim (available s c) [
  | some why ↦ (none, err (cannot_deliver why))
  | none ↦
      if ltb max_intact_bytes (length (compose d))
      then (none, err too_long)
      else elim (dial s.alive s.connect (target_of s c)) [
        | err e ↦ (none, err (not_connected e))
        | ok conn ↦ written (send_user fresh conn (attributed c (compose d) c.mode))
      ]
]
