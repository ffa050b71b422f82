-- ===== src/Udsmsg/Platform.antt =====
-- udsmsg/peer_linux.go, peer_darwin.go, peer_other.go, owner_unix.go and owner_other.go: who is on
-- the other end of a connection, and who owns a file, as each platform answers it. What the system
-- calls answer is a parameter; a pid is not negative and fits an `int32`.
pub mod Named
mod Examples
use harness_transport.Prelude.{
  ℕ, Bool, true, false, Bytes, List, [], ◌∷◌, ◌++◌, Option, none, some, codes, if◌then◌else◌,
  Result, ok, err,
}
use harness_transport.Udsmsg.Server.{Peer, Ucred, peer_of}

pub data PeerError : Type 0 where
  not_unix unavailable : PeerError
  failed : Bytes → PeerError

-- A connection: whether it is a `*net.UnixConn`, and the errors of `SyscallConn` and of `Control`.
pub record Conn : Type 0 where
  pub is_unix : Bool
  pub syscall_error : Option Bytes
  pub control_error : Option Bytes

-- What stands around the calls on a connection's descriptor.
unfoldable pub controlled : Conn → Result Bytes Peer → Result PeerError Peer
controlled c answer =
    if c.is_unix
    then elim c.syscall_error [
      | some e ↦ err (failed e)
      | none ↦ elim c.control_error [
        | some e ↦ err (failed e)
        | none ↦ elim answer [ err e ↦ err (failed e) | ok p ↦ ok p ]
      ]
    ]
    else err not_unix

-- `unix.Xucred`: a user and its groups.
pub record Xucred : Type 0 where
  pub uid : ℕ
  pub groups : List ℕ

unfoldable pub first_group : List ℕ → ℕ
first_group [] = 0
first_group (g ∷ _) = g

-- The answer of SO_PEERCRED on Linux; of LOCAL_PEERCRED, and of LOCAL_PEERPID behind it, on macOS;
-- and a system that offers neither.
pub data System : Type 0 where
  linux : Result Bytes Ucred → System
  darwin : Result Bytes Xucred → Result Bytes ℕ → System
  other : System

unfoldable pub linux_peer : (ℕ → Option Bytes) → Result Bytes Ucred → Result Bytes Peer
linux_peer start (err e) = err e
linux_peer start (ok cred) = ok (peer_of start cred)

unfoldable pub darwin_peer :
    (ℕ → Option Bytes) → Result Bytes Xucred → Result Bytes ℕ → Result Bytes Peer
unfolding first_group
darwin_peer start (err e) pid = err e
darwin_peer start (ok cred) (err e) = err e
darwin_peer start (ok cred) (ok pid) = ok (record {
  pid = pid;
  uid = cred.uid;
  gid = first_group cred.groups;
  proc_start = elim (start pid) [ some t ↦ t | none ↦ [] ];
  authed = false;
  addr = [];
  identified = true;
})

-- `peerCred`, of which a build has the one for its system.
unfoldable pub peer_cred : (ℕ → Option Bytes) → Conn → System → Result PeerError Peer
peer_cred start c (linux cred) = controlled c (linux_peer start cred)
peer_cred start c (darwin cred pid) = controlled c (darwin_peer start cred pid)
peer_cred start c other = err unavailable

-- `ownerUID`, over the uid of `*syscall.Stat_t` where `Sys` gives one.
unfoldable pub owner_uid_unix : Bytes → Option ℕ → Result Bytes ℕ
owner_uid_unix name (some uid) = ok uid
owner_uid_unix name none =
    err (codes "cannot read ownership of " ++ (name ++ codes " on this platform"))

unfoldable pub owner_uid_other : Bytes → Result Bytes ℕ
owner_uid_other name = err (
    codes "file ownership cannot be read as a uid on this platform, so "
    ++ (name ++ codes " cannot be verified"))
