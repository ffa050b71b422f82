-- ===== src/Udsmsg/Session.antt =====
-- udsmsg/session.go: the entry that makes a process discoverable as a session.
pub mod Publish
mod Examples
use harness_transport.Disk.{Disk, FileError, not_exist, io_failed, replace}
use harness_transport.Go.Json.{quote, number, object, array}
use harness_transport.Go.Space.{is_control, trim_space}
use harness_transport.Go.Strconv.{itoa, hex_string}
use harness_transport.Go.Utf8.{runes}
use harness_transport.Prelude.Int.{ℤ, pos}
use harness_transport.Prelude.{
  ℕ, Bool, true, false, ◌||◌, Bytes, List, [], ◌∷◌, ◌++◌, Option, none, some, codes, is_empty,
  if◌then◌else◌, Result, ok, err,
}
use harness_transport.Udsmsg.Frame.Encode.{text_member}

abbrev pub peer_features : List Bytes
peer_features =
    codes "notify_idle" ∷ codes "reply_across_default_dirs" ∷ codes "artifact_yield" ∷ []

-- `SessionEntry`
pub record SessionEntry : Type 0 where
  pub pid : ℕ
  pub session_id : Bytes
  pub cwd : Bytes
  pub started_at : ℤ
  pub proc_start : Bytes
  pub version : Bytes
  pub peer_protocol : ℤ
  pub peer_features : List Bytes
  pub kind : Bytes
  pub entrypoint : Bytes
  pub pid_domain : Bytes
  pub messaging_socket_path : Bytes
  pub name : Bytes
  pub name_source : Bytes
  pub name_since : ℤ
  pub updated_at : ℤ
  pub status : Bytes

pub data EntryError : Type 0 where
  no_name control_character no_proc_start : EntryError

-- The loop of `checkEntryName`
unfoldable pub has_control : List (ℕ × Bytes) → Bool
has_control [] = false
has_control ((r, raw) ∷ rs) = is_control r || has_control rs

-- `checkEntryName`: no error is `none`.
unfoldable pub check_entry_name : Bytes → Option EntryError
check_entry_name name =
    if is_empty (trim_space name)
    then some no_name
    else if has_control (runes name)
    then some control_character
    else none

-- What an entry takes from the process: its pid, a new id, its directory, the time in milliseconds,
-- and what /proc says of it.
pub record Process : Type 0 where
  pub pid : ℕ
  pub uuid : Bytes
  pub cwd : Bytes
  pub now : ℤ
  pub started : Option Bytes
  pub domain : Option Bytes

unfoldable pub entry_of : Process → Bytes → Bytes → Bytes → Bytes → Bytes → SessionEntry
entry_of p socket_path name kind entrypoint started = record {
  pid = p.pid;
  session_id = p.uuid;
  cwd = p.cwd;
  started_at = p.now;
  proc_start = started;
  version = codes "2.1.272";
  peer_protocol = pos 1;
  peer_features = peer_features;
  kind = kind;
  entrypoint = entrypoint;
  pid_domain = elim p.domain [ some d ↦ d | none ↦ [] ];
  messaging_socket_path = socket_path;
  name = name;
  name_source = codes "user";
  name_since = p.now;
  updated_at = p.now;
  status = codes "idle";
}

-- `NewSessionEntry`
unfoldable pub new_session_entry :
    Process → Bytes → Bytes → Bytes → Bytes → Result EntryError SessionEntry
new_session_entry p socket_path name kind entrypoint = elim (check_entry_name name) [
  | some e ↦ err e
  | none ↦ elim p.started [
    | none ↦ err no_proc_start
    | some started ↦ ok (entry_of p socket_path name kind entrypoint started)
  ]
]

abbrev member : Bytes → Bytes → Bytes × Bytes
member k v = (quote k, v)

-- A number left out where it is zero (`omitempty`).
unfoldable pub number_member : Bytes → ℤ → List (Bytes × Bytes)
number_member k (pos ℕ.zero) = []
number_member k n = (quote k, number n) ∷ []

unfoldable pub quotes : List Bytes → List Bytes
quotes [] = []
quotes (s ∷ ss) = quote s ∷ quotes ss

-- `json.Marshal` of an entry.
unfoldable pub marshal_entry : SessionEntry → Bytes
marshal_entry e = object (
    member (codes "pid") (itoa e.pid)
    ∷ member (codes "sessionId") (quote e.session_id)
    ∷ member (codes "cwd") (quote e.cwd)
    ∷ member (codes "startedAt") (number e.started_at)
    ∷ member (codes "procStart") (quote e.proc_start)
    ∷ member (codes "version") (quote e.version)
    ∷ member (codes "peerProtocol") (number e.peer_protocol)
    ∷ member (codes "peerFeatures") (array (quotes e.peer_features))
    ∷ member (codes "kind") (quote e.kind)
    ∷ member (codes "entrypoint") (quote e.entrypoint)
    ∷ member (codes "pidDomain") (quote e.pid_domain)
    ∷ member (codes "messagingSocketPath") (quote e.messaging_socket_path)
    ∷ (text_member (codes "name") e.name
        ++ (text_member (codes "nameSource") e.name_source
            ++ (number_member (codes "nameSince") e.name_since
                ++ (member (codes "updatedAt") (number e.updated_at)
                    ∷ member (codes "status") (quote e.status)
                    ∷ [])))))

pub data PublishError : Type 0 where
  no_directory no_entropy not_replaced not_removed : PublishError

module _ (D : Disk) (in_sessions : Bytes → Bytes) where
  -- `sessionEntryPath`
  unfoldable pub session_entry_path : ℕ → Bytes
  session_entry_path pid = in_sessions (itoa pid ++ codes ".json")

  abbrev pub tmp_path : Bytes → Bytes → Bytes
  tmp_path final suffix = final ++ (codes ".tmp." ++ hex_string suffix)

  -- Behind the directory and the JSON.
  unfoldable pub publish_at :
      D.State → Bytes → Option Bytes → Bytes → List D.State × Result PublishError (Unit {0})
  publish_at s final suffix b = elim suffix [
    | none ↦ ([], err no_entropy)
    | some r ↦
        let (states, is_done) = replace D s (tmp_path final r) final b in
        (states, if is_done then ok tt else err not_replaced)
  ]

  -- `PublishSession`: the states of the disk after each of its calls, and the error.
  unfoldable pub publish_session :
      D.State → Option Bytes → SessionEntry → List D.State × Result PublishError (Unit {0})
  publish_session s suffix e =
      let (s1, is_made) = D.make_dir s in
      let (states, r) = publish_at s1 (session_entry_path e.pid) suffix (marshal_entry e) in
      if is_made then (s1 ∷ states, r) else (s1 ∷ [], err no_directory)

  -- `UnpublishSession`: an entry that is not there is no error.
  unfoldable pub unpublish_session : D.State → ℕ → D.State × Result PublishError (Unit {0})
  unpublish_session s pid =
      let (s', r) = D.remove s (session_entry_path pid) in
      (s', elim r [ ok _ ↦ ok tt | err not_exist ↦ ok tt | err io_failed ↦ err not_removed ])
