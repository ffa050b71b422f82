-- ===== src/Udsmsg/Platform/Named.antt =====
-- A peer is identified only by what the kernel of the system answered.
use harness_transport.Prelude.{ℕ, ◌≡◌, true, false, Bytes, Option, Result, ok, err, arith}
use harness_transport.Udsmsg.Platform.{
  Conn, Xucred, controlled, System, linux, darwin, other, linux_peer, darwin_peer, first_group,
  peer_cred,
}
use harness_transport.Udsmsg.Server.{Peer, Ucred, peer_of}

-- The peer has the pid, the user and the group that the calls of the system answered.
pub data IsAnswered : System → Peer → Type 0 where
  by_linux :
      (cred : Ucred) (p : Peer)
      → p.pid ≡ cred.pid
      → p.uid ≡ cred.uid
      → p.gid ≡ cred.gid
      → IsAnswered (linux (ok cred)) p
  by_darwin :
      (cred : Xucred) (pid : ℕ) (p : Peer)
      → p.pid ≡ pid
      → p.uid ≡ cred.uid
      → p.gid ≡ first_group cred.groups
      → IsAnswered (darwin (ok cred) (ok pid)) p

module _ (start : ℕ → Option Bytes) (c : Conn) {p : Peer} where
  -- A peer that is found is the one that the calls gave, over a Unix socket.
  controlled-ok :
      (answer : Result Bytes Peer)
      → controlled c answer ≡ ok p
      → (answer ≡ ok p) × (c.is_unix ≡ true)
  unfolding controlled
  controlled-ok answer e = ground (arith, e)

  -- Whatever the system: a peer that `peerCred` returns is identified and not yet authenticated, its
  -- connection is a Unix socket, and every call on it succeeded and gave the peer's pid, user and
  -- group.
  pub peer_cred-IsAnswered :
      (s : System)
      → peer_cred start c s ≡ ok p
      → (c.is_unix ≡ true) × (p.identified ≡ true) × (p.authed ≡ false) × IsAnswered s p
  unfolding peer_cred linux_peer darwin_peer peer_of
  peer_cred-IsAnswered (linux (ok cred)) e =
      let (found, is_unix) = controlled-ok _ e in (is_unix, cc, cc, by_linux cred p (cc) (cc) (cc))
  peer_cred-IsAnswered (linux (err f)) e = (let (found, _) = controlled-ok _ e in absurd cc)
  peer_cred-IsAnswered (darwin (ok cred) (ok pid)) e =
      let (found, is_unix) = controlled-ok _ e in
      (is_unix, cc, cc, by_darwin cred pid p (cc) (cc) (cc))
  peer_cred-IsAnswered (darwin (ok cred) (err f)) e =
      (let (found, _) = controlled-ok _ e in absurd cc)
  peer_cred-IsAnswered (darwin (err f) pid) e = (let (found, _) = controlled-ok _ e in absurd cc)
  peer_cred-IsAnswered other e = absurd cc
