-- ===== src/Udsmsg/Listen/Tidy.antt =====
-- The socket of an inbox through its life.
use harness_transport.Disk.{Disk}
use harness_transport.Prelude.{
  Bool, false, Bytes, List, [], ◌∷◌, ◌++◌, str_eq, if◌then◌else◌, Result, ok, err,
}
use harness_transport.Udsmsg.KeyFile.{Host}
use harness_transport.Udsmsg.Listen.{
  Machine, Inbox, ListenError, Step, made_dir, secured_dir, removed, opened, secured, shut,
  logged_no_mode, close,
}

-- Whether a socket is bound, open to others or to this user alone; `broken` after a call that finds
-- no such socket, or one too many.
pub data Bound : Type 0 where
  nothing broken : Bound
  exposed private : Bytes → Bound

when_same : Bytes → Bytes → Bound → Bound
when_same p q b = if str_eq p q then b else broken

on_open : Bound → Bytes → Bound
on_open nothing p = exposed p
on_open _ p = broken

on_secure : Bound → Bytes → Bound
unfolding when_same
on_secure (exposed p) q = when_same p q (private p)
on_secure _ q = broken

on_shut : Bound → Bytes → Bound
unfolding when_same
on_shut (exposed p) q = when_same p q nothing
on_shut (private p) q = when_same p q nothing
on_shut _ q = broken

unfoldable pub bound_by : Bound → Step → Bound
unfolding on_open on_secure on_shut
bound_by b (made_dir _) = b
bound_by b (secured_dir _) = b
bound_by b (removed _) = b
bound_by b logged_no_mode = b
bound_by b (opened p) = on_open b p
bound_by b (secured p) = on_secure b p
bound_by b (shut p) = on_shut b p

unfoldable pub bound_after : Bound → List Step → Bound
unfolding bound_by
bound_after b [] = b
bound_after b (e ∷ es) = bound_after (bound_by b e) es

-- What is bound when `Listen` returns.
unfoldable pub bound_of : Result ListenError Inbox → Bound
bound_of (ok i) = private i.path
bound_of (err _) = nothing

-- Whether the result is a closed inbox.
closed_of : Result ListenError Inbox → Bool
closed_of (ok i) = i.is_closed
closed_of (err _) = false

module _ (m : Machine) where
  module _ (D : Disk) (h : Host) where
    -- The steps of two calls of `Close`, in these states of the disk.
    unfoldable pub close_twice : D.State → D.State → Result ListenError Inbox → List Step
    close_twice t u (err _) = []
    close_twice t u (ok i) = let (steps, _, i') = close m D h t i in steps ++ (close m D h u i').0
