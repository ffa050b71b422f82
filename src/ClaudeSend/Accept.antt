-- ===== src/ClaudeSend/Accept.antt =====
-- cmd/claude-send/main.go: which frames that reach the inbox are heard (`accepter`).
use harness_transport.Go.Strconv.{itoa}
use harness_transport.Prelude.{
  ℕ, Bool, true, false, not, ◌==◌, Bytes, List, [], ◌∷◌, ◌++◌, none, some, codes, if◌then◌else◌,
}
use harness_transport.Udsmsg.Addr.{pid_from_socket_name}
use harness_transport.Udsmsg.Client.{Target}
use harness_transport.Udsmsg.Frame.{Frame}
use harness_transport.Udsmsg.Server.{Peer}

-- The function that `accepter` returns: everyone is heard, or one process.
pub data Policy : Type 0 where
  everyone : Policy
  only : ℕ → Policy

-- The pid to wait for, 0 if none is known; `base` is `filepath.Base`.
unfoldable pub wanted_pid : (Bytes → Bytes) → Target → ℕ
wanted_pid base t =
    if t.pid == 0
    then elim (pid_from_socket_name (base t.socket_path)) [ some pid ↦ pid | none ↦ 0 ]
    else t.pid

abbrev pub unknown_pid : Bytes
unknown_pid = codes "target pid is unknown, so any sender will be heard"

-- `accepter`, with the progress that it makes at once.
unfoldable pub accepter : (Bytes → Bytes) → Target → Bool → Policy × List Bytes
accepter base t any_sender =
    if any_sender
    then (everyone, [])
    else if wanted_pid base t == 0
    then (everyone, unknown_pid ∷ [])
    else (only (wanted_pid base t), [])

abbrev pub unidentified : Bytes
unidentified =
    codes "frames are arriving from a peer the kernel will not identify on this "
    ++ codes "platform, so they cannot be told from anyone else's: hearing them anyway"

unfoldable pub ignoring : ℕ → ℕ → Bytes
ignoring pid want =
    codes "ignoring frames from pid "
    ++ (itoa pid
        ++ (codes ": waiting for pid "
            ++ (itoa want ++ codes " (use --any-sender to hear everyone)")))

-- An answer with a line that is said once: the answer, the new `warned`, and the progress.
unfoldable pub warn : Bool → Bytes → Bool → Bool × Bool × List Bytes
warn warned line answer = (answer, true, if warned then [] else line ∷ [])

-- What the function answers for a peer, the new `warned`, and the progress.
unfoldable pub accept : Policy → Bool → Peer → Bool × Bool × List Bytes
unfolding warn
accept everyone warned p = (true, warned, [])
accept (only want) warned p =
    if not p.identified
    then warn warned unidentified true
    else if p.pid == want
    then (true, warned, [])
    else warn warned (ignoring p.pid want) false

-- `deliver` on the frames in the order in which they come: those heard, and the progress.
unfoldable pub hear : Policy → Bool → List (Peer × Frame) → List Frame × List Bytes
hear policy warned [] = ([], [])
hear policy warned ((p, f) ∷ rest) =
    let (is_heard, warned', notes) = accept policy warned p in
    let (frames, later) = hear policy warned' rest in
    (if is_heard then f ∷ frames else frames, notes ++ later)
