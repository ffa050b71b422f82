-- ===== src/Udsmsg/Server/Accepting.antt =====
-- udsmsg/server.go: the loop that accepts connections (`Serve`).
use harness_transport.Prelude.{
  ℕ, Bool, true, false, ◌||◌, Bytes, List, [], ◌∷◌, Option, if◌then◌else◌,
}
use harness_transport.Udsmsg.Server.{Server, Event, Ucred, Ending, handle_conn}

-- What `AcceptUnix` gives: a connection, with its credentials and what it will carry, or an error,
-- with whether it is `net.ErrClosed` and whether the inbox was closed by then.
pub data Accepted : Type 0 where
  connection : Option Ucred → Bytes → Ending → Accepted
  failed : Bool → Bool → Accepted

-- What a round starts: the handling of a connection, on its own goroutine, or a reported error.
pub data Started : Type 0 where
  handled : List Event → Started
  reported_error : Started

-- `Serve`, over what is accepted in turn: what was started, and whether it returned.
unfoldable pub serve : Server → (ℕ → Option Bytes) → List Accepted → List Started × Bool
serve s start [] = ([], false)
serve s start (connection cred input end ∷ later) =
    let (started, done) = serve s start later in
    (handled (handle_conn s start cred input end) ∷ started, done)
serve s start (failed is_closed was_closed ∷ later) =
    let (started, done) = serve s start later in
    if was_closed || is_closed then ([], true) else (reported_error ∷ started, done)
