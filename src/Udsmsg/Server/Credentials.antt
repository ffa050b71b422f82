-- ===== src/Udsmsg/Server/Credentials.antt =====
-- Whose frames a connection hands on: those of the process that the kernel named.
use harness_transport.Prelude.{
  List, [], ◌∷◌, if◌then◌else◌, ℕ, zero, suc, ◌≡◌, refl, Bool, true, false, Bytes, Option, none,
  some, All, All-append, arith, inl, inr,
}
use harness_transport.Udsmsg.Frame.{max_line_bytes}
use harness_transport.Udsmsg.Server.ReadLine.{Line-cases, read_line}
use harness_transport.Udsmsg.Server.{
  Server, Peer, Event, user, unknown, reported, accepted_unidentified, refused_unidentified,
  Outcome, Ending, dispatch, on_line, last_line, conn_loop, still_first, handle_conn, Ucred,
}

-- What the kernel said of a peer: its pid, and that it named one.
abbrev pub IsPeer : ℕ → Bool → Peer → Type 0
IsPeer pid named p = (p.pid ≡ pid) × (p.identified ≡ named)

-- A handed frame is of such a peer.
abbrev pub IsOf : ℕ → Bool → Event → Type 0
IsOf pid named (user q f) = IsPeer pid named q
IsOf pid named (unknown q f) = IsPeer pid named q
IsOf pid named _ = Unit

module _ (s : Server) (end : Ending) (pid : ℕ) (named : Bool) where
  -- An outcome that keeps to its peer.
  abbrev Keeps : Outcome → Type 0
  Keeps o = All (IsOf pid named) o.events × IsPeer pid named o.peer

  dispatch-Keeps :
      (p : Peer) (line : Bytes) (first : Bool)
      → IsPeer pid named p
      → Keeps (dispatch s p line first)
  unfolding dispatch
  dispatch-Keeps p line first h = ground arith

  on_line-Keeps :
      (p : Peer) (line : Bytes) (first : Bool) → IsPeer pid named p → Keeps (on_line s p line first)
  unfolding on_line
  on_line-Keeps p line first h = ground (arith, dispatch-Keeps p line first h)

  last_line-IsOf :
      (p : Peer) (line : Bytes) (first : Bool)
      → IsPeer pid named p
      → All (IsOf pid named) (last_line s end p line first)
  unfolding last_line
  last_line-IsOf p line first h =
      let o = on_line s p line first in
      All-append (IsOf pid named) o.events _ (on_line-Keeps p line first h).0 (ground arith)

  conn_loop-IsOf :
      (fuel : ℕ) (p : Peer) (first : Bool) (input : Bytes)
      → IsPeer pid named p
      → All (IsOf pid named) (conn_loop s end fuel p first input)
  unfolding conn_loop
  conn_loop-IsOf zero p first input h = tt
  conn_loop-IsOf (suc fuel) p first input h = elim (Line-cases (read_line max_line_bytes input)) [
    | inl e ↦ rw (e, conn_loop) (tt, tt)
    | inr (inl (line, e)) ↦ rw (e, conn_loop) (last_line-IsOf p line first h)
    | inr (inr (line, rest, e)) ↦
        let o = on_line s p line first in
        let (kept, same) = on_line-Keeps p line first h in
        let later = conn_loop-IsOf fuel o.peer (still_first first line) rest same in
        rw (e, conn_loop) (All-append (IsOf pid named) o.events _ kept (ground (arith, later)))
  ]

-- The events of a connection whose peer the kernel did not name.
accepted-IsOf :
    (pid : ℕ) (named allowed : Bool) (events : List Event)
    → All (IsOf pid named) events
    → All (IsOf pid named) (
        if allowed
        then reported accepted_unidentified ∷ events
        else reported refused_unidentified ∷ [])
accepted-IsOf pid named true events h = (tt, h)
accepted-IsOf pid named false events h = (tt, tt)

-- The pid that the kernel named, 0 where it named none, and whether it did.
abbrev pub pid_of : Option Ucred → ℕ
pid_of none = 0
pid_of (some c) = c.pid

abbrev pub is_named : Option Ucred → Bool
is_named none = false
is_named (some _) = true

-- Every frame that a connection hands on is of what the kernel said of its peer.
pub handle_conn-IsOf :
    (s : Server) (start : ℕ → Option Bytes) (cred : Option Ucred) (input : Bytes) (end : Ending)
    → All (IsOf (pid_of cred) (is_named cred)) (handle_conn s start cred input end)
unfolding handle_conn
handle_conn-IsOf s start (some c) input end =
    (tt, conn_loop-IsOf s end c.pid true _ _ true input (refl, refl))
handle_conn-IsOf s start none input end =
    accepted-IsOf 0 false s.allow_unidentified _
      (tt, conn_loop-IsOf s end 0 false _ _ true input (refl, refl))
