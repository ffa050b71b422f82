-- ===== src/ClaudeSend/Message.antt =====
-- cmd/claude-send/main.go: the surroundings of a run, the target that it finds (`resolve`), and the
-- message that is sent there.
use harness_transport.Disk.{Disk}
use harness_transport.Udsmsg.KeyFile
use harness_transport.Udsmsg.Listen.{Machine}
use harness_transport.Udsmsg.Proc.{System, alive, detect_parent_mode}
use harness_transport.Udsmsg.Session.{Process}
use harness_transport.ClaudeSend.Await.{is_waiting}
use harness_transport.ClaudeSend.{Options}
use harness_transport.Prelude.{
  ℕ, ◌/◌, ◌%◌, ◌^◌, ◌==◌, Bool, true, false, not, ◌&&◌, Bytes, List, [], ◌++◌, Option, none, some,
  codes, is_empty, if◌then◌else◌, Result, ok, err,
}
use harness_transport.Udsmsg.Addr.{pid_from_socket_name}
use harness_transport.Udsmsg.Client.{Target, User, Conn}
use harness_transport.Udsmsg.Discover
use harness_transport.Udsmsg.Discover.{ResolveError, bad_key, resolve_target}
use harness_transport.Udsmsg.Frame.{Frame}
use harness_transport.Udsmsg.KeyFile.{Key}
use harness_transport.Udsmsg.Proc.{ModeError}
use harness_transport.Udsmsg.Server.{Peer}

-- What the command asks of its surroundings: standard input, the sessions of this machine, /proc, what
-- `Listen` asks and where it writes its key, this process, the registry's paths and random bytes, the
-- working directory, `%q`, the connection to a socket, a new message id, and the frames that reach the
-- inbox before the wait ends.
pub record World (D : Disk) : Type 0 where
  pub stdin : Option Bytes
  pub is_terminal : Bool
  pub base : Bytes → Bytes
  pub host : Discover.Host
  pub socket_dirs : List Bytes
  pub system : System
  pub machine : Machine
  pub key_host : KeyFile.Host
  pub disk : D.State
  pub process : Process
  pub in_sessions : Bytes → Bytes
  pub random_suffix : Option Bytes
  pub cwd : Option Bytes
  pub quoted : Bytes → Bytes
  pub connect : Bytes → Option Conn
  pub fresh_id : Bytes
  pub arrivals : List (Peer × Frame)

-- `os.ModeCharDevice`
abbrev pub mode_char_device : ℕ
mode_char_device = 2 ^ 21

-- `isTerminal`, over the mode that `Stat` gives.
unfoldable pub is_terminal : Option ℕ → Bool
is_terminal none = false
is_terminal (some mode) = mode / mode_char_device % 2 == 1

-- The key that the socket's owner published, in the target.
unfoldable pub keyed : Target → Option Key → Target
keyed t none = t
keyed t (some k) = record t { token = k.peer_token; proc_start = k.proc_start }

abbrev pub bare_target : Bytes → ℕ → Target
bare_target path pid = record {
  pid = pid;
  proc_start = [];
  socket_path = path;
  token = [];
  unauthenticated = false;
}

-- `resolve`
unfoldable pub resolve : {D : Disk} → World D → Options → Result ResolveError Target
resolve w o =
    if is_empty o.to_socket
    then resolve_target w.host w.socket_dirs o.to
    else elim (pid_from_socket_name (w.base o.to_socket)) [
      | none ↦ ok (bare_target o.to_socket 0)
      | some pid ↦ elim (w.host.read_key pid o.to_socket) [
        | none ↦ err bad_key
        | some k ↦ ok (keyed (bare_target o.to_socket pid) k)
      ]
    ]

-- `defaultName`
unfoldable pub default_name : {D : Disk} → World D → Bytes
default_name w = elim w.cwd [
  | none ↦ codes "claude-send"
  | some dir ↦ codes "claude-send in " ++ w.base dir
]

-- The name in the attribution.
unfoldable pub sender_name : {D : Disk} → World D → Options → Bytes
sender_name w o =
    if not (is_empty o.name)
    then o.name
    else if not (is_empty o.announce)
    then o.announce
    else default_name w

-- What a waiting sender says in the body.
unfoldable pub hint : Options → Bytes
hint o =
    if is_waiting o (codes "reply")
    then codes "\n\n[The sender is blocked waiting for a reply to this address.]"
    else if is_waiting o (codes "replies")
    then codes "\n\n[The sender is collecting replies at this address for the next "
      ++ (o.timeout ++ codes "; more than one is welcome.]")
    else []

unfoldable pub asserted_mode : Result ModeError Bytes → Bytes
asserted_mode (ok m) = m
asserted_mode (err _) = []

-- The `User` that is sent.
unfoldable pub user_of : {D : Disk} → World D → Options → Bytes → Bytes → User
user_of w o text from = record {
  text = if o.no_hint then text else text ++ hint o;
  from = from;
  from_mode = asserted_mode (detect_parent_mode w.system);
  msg_id = [];
  attribution =
      if o.no_hint
      then none
      else some (record {
        from = from;
        name = sender_name w o;
        mode = asserted_mode (detect_parent_mode w.system);
      });
  priority = [];
}

unfoldable pub with_auth : Options → Target → Target
with_auth o t = if o.no_auth then record t { token = []; unauthenticated = true } else t

-- The start time that was published is not the process's.
unfoldable pub is_recycled : {D : Disk} → World D → Target → Bool
is_recycled w t =
    not (t.pid == 0) && not (is_empty t.proc_start) && not (alive w.system t.pid t.proc_start)
