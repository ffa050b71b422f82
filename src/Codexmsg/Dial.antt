-- ===== src/Codexmsg/Dial.antt =====
-- codexmsg/discover.go and the `Dial` of codexmsg/client.go: the daemon's control socket, and the
-- connection to it. The environment, the file system and the connection are parameters.
use harness_transport.Codexmsg.Handshake
use harness_transport.Codexmsg.Handshake.{HandshakeError, ws_handshake}
use harness_transport.Prelude.{
  ℕ, ◌+◌, Bool, Bytes, List, [], ◌∷◌, Option, none, some, ltb, codes, is_empty, length,
  if◌then◌else◌, Result, ok, err,
}

abbrev pub control_dir_name : Bytes
control_dir_name = codes "app-server-control"

abbrev pub control_socket_name : Bytes
control_socket_name = codes "app-server-control.sock"

abbrev pub max_unix_path : ℕ
max_unix_path = 108

-- What `os.Stat` says of a path: no such file, another error, or whether it is a socket.
pub data Stat : Type 0 where
  missing failed : Stat
  found : Bool → Stat

-- `CODEX_HOME`, `os.UserHomeDir`, `filepath.Join`, `os.Stat`, and the connection to a path: none, or
-- the peer of the upgrade.
pub record Host : Type 0 where
  pub env_home : Bytes
  pub user_home : Option Bytes
  pub join : List Bytes → Bytes
  pub stat : Bytes → Stat
  pub connect : Bytes → Option Handshake.Peer

pub data SocketError : Type 0 where
  no_home path_too_long no_daemon no_stat not_a_socket : SocketError

-- `Home`
unfoldable pub home : Host → Option Bytes
home h =
    if is_empty h.env_home
    then elim h.user_home [ none ↦ none | some dir ↦ some (h.join (dir ∷ codes ".codex" ∷ [])) ]
    else some h.env_home

-- `ControlSocketPath`
unfoldable pub control_socket_path : Host → Bytes → Bytes
control_socket_path h codex_home = h.join (codex_home ∷ control_dir_name ∷ control_socket_name ∷ [])

-- `CheckSocketPath`: no error is `none`.
unfoldable pub check_socket_path : Host → Bytes → Option SocketError
check_socket_path h path =
    if ltb max_unix_path (length path + 1) then some path_too_long else elim (h.stat path) [
      | missing ↦ some no_daemon
      | failed ↦ some no_stat
      | found is_socket ↦ if is_socket then none else some not_a_socket
    ]

-- A path that `CheckSocketPath` passes.
unfoldable pub checked : Host → Bytes → Result SocketError Bytes
checked h path = elim (check_socket_path h path) [ some e ↦ err e | none ↦ ok path ]

-- `DefaultSocket`
unfoldable pub default_socket : Host → Result SocketError Bytes
default_socket h = elim (home h) [
  | none ↦ err no_home
  | some dir ↦ checked h (control_socket_path h dir)
]

-- `Options`
pub record Options : Type 0 where
  pub socket_path : Bytes
  pub path : Bytes

pub data DialError : Type 0 where
  bad_socket : SocketError → DialError
  no_connection : DialError
  no_upgrade : HandshakeError → DialError

-- The socket that `Dial` connects to.
unfoldable pub socket_of : Host → Options → Result SocketError Bytes
socket_of h opt = if is_empty opt.socket_path then default_socket h else checked h opt.socket_path

-- `Dial`: the path of a connection that was upgraded. One that was not is closed.
unfoldable pub dial : Host → Options → Result DialError Bytes
dial h opt = elim (socket_of h opt) [
  | err e ↦ err (bad_socket e)
  | ok path ↦ elim (h.connect path) [
    | none ↦ err no_connection
    | some peer ↦
        let target = if is_empty opt.path then codes "/" else opt.path in
        elim (ws_handshake peer (codes "localhost") target).1 [
          | some e ↦ err (no_upgrade e)
          | none ↦ ok path
        ]
  ]
]
