-- ===== src/ClaudeSend/Senders.antt =====
-- Whose frames are heard: the inbox's connections and the check on the sender together.
use harness_transport.ClaudeSend.Accept.{only, wanted_pid, accepter, accept, hear}
use harness_transport.Prelude.{
  ℕ, ◌==◌, ◌≡◌, refl, sym, Bool, true, false, Bytes, List, [], ◌∷◌, Option, none, some, map,
  if◌then◌else◌, All, arith,
}
use harness_transport.Udsmsg.Client.{Target}
use harness_transport.Udsmsg.Frame.{Frame}
use harness_transport.Udsmsg.Server.Credentials.{IsPeer, IsOf, pid_of, is_named, handle_conn-IsOf}
use harness_transport.Udsmsg.Server.{Server, Peer, user, Ending, Ucred, handle_conn}
use mathlib.Core.List.{Mem, not-mem-nil, eq-or-mem_of_mem-cons}
use mathlib.Core.Logic.Or
use mathlib.Core.Path.{subst}
use native.Mathlib.Decide.{ℕ_discrete}

All-Mem {ℓ κ} :
    {A : Type ℓ} (P : A → Type κ) (a : A) (xs : List A) → IsProp (P a) → Mem a xs → All P xs → P a
All-Mem P a [] prop m h = absurd (not-mem-nil m)
All-Mem P a (x ∷ xs) prop m h =
    Or.elim prop (eq-or-mem_of_mem-cons m) (λ e. subst P (sym e) h.0)
      (λ n. All-Mem P a xs prop n h.1)

-- A frame that reached the handler, the process that the kernel named for its connection, if it named
-- one, and what that connection carried.
pub record Arrival : Type 0 where
  pub sender : Option Ucred
  pub input : Bytes
  pub end : Ending
  pub peer : Peer
  pub frame : Frame

-- The frame is one of those that the connection hands on.
abbrev pub IsHanded : Server → (ℕ → Option Bytes) → Arrival → Type 0
IsHanded s start a = Mem (user a.peer a.frame) (handle_conn s start a.sender a.input a.end)

-- Whether a connection is of the process `pid`, or of a peer that the kernel did not identify.
unfoldable pub may_be : ℕ → Option Ucred → Bool
may_be pid none = true
may_be pid (some c) = c.pid == pid

-- The frames that came over the connections that may be the process `pid`'s.
unfoldable pub sent_by : ℕ → List Arrival → List Frame
sent_by pid [] = []
sent_by pid (a ∷ rest) =
    let others = sent_by pid rest in if may_be pid a.sender then a.frame ∷ others else others

abbrev pub handed : Arrival → Peer × Frame
handed a = (a.peer, a.frame)

IsHanded-IsPeer :
    (s : Server) (start : ℕ → Option Bytes) (a : Arrival)
    → IsHanded s start a
    → IsPeer (pid_of a.sender) (is_named a.sender) a.peer
IsHanded-IsPeer s start a m =
    All-Mem (IsOf (pid_of a.sender) (is_named a.sender)) (user a.peer a.frame) _ (hlevel ℕ_discrete)
      m (handle_conn-IsOf s start a.sender a.input a.end)

-- What the check says of a peer that the kernel named or did not.
accept-may_be :
    (want : ℕ) (warned : Bool) (cred : Option Ucred) (p : Peer)
    → IsPeer (pid_of cred) (is_named cred) p
    → (accept (only want) warned p).0 ≡ may_be want cred
unfolding accept may_be
accept-may_be want warned none p (same, named) = ground (arith, same, named)
accept-may_be want warned (some c) p (same, named) = ground (arith, same, named)

hear-only :
    (s : Server) (start : ℕ → Option Bytes) (want : ℕ) (warned : Bool) (arrivals : List Arrival)
    → All (IsHanded s start) arrivals
    → (hear (only want) warned (map handed arrivals)).0 ≡ sent_by want arrivals
unfolding hear sent_by
hear-only s start want warned [] h = refl
hear-only s start want warned (a ∷ rest) h =
    let is_heard = accept-may_be want warned a.sender a.peer (IsHanded-IsPeer s start a h.0) in
    let later = (accept (only want) warned a.peer).1 in
    rw (is_heard, hear-only s start want later rest h.1) refl

-- Without `--any-sender`, and with the target's pid known, of the frames that connections to the inbox
-- hand on, those that are heard are exactly the ones of connections whose peer is, by the kernel, the
-- process with that pid, and the ones of connections whose peer the kernel did not identify, in their
-- order, however the connections were interleaved.
pub hear-sent_by :
    (s : Server) (start : ℕ → Option Bytes) (base : Bytes → Bytes) (t : Target)
    (arrivals : List Arrival)
    → (wanted_pid base t == 0) ≡ false
    → All (IsHanded s start) arrivals
    → (hear (accepter base t false).0 false (map handed arrivals)).0
      ≡ sent_by (wanted_pid base t) arrivals
unfolding accepter
hear-sent_by s start base t arrivals known h =
    rw known (hear-only s start (wanted_pid base t) false arrivals h)
