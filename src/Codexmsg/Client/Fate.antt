-- ===== src/Codexmsg/Client/Fate.antt =====
-- What a call sees of its channel, told by the call's own events alone: the abstract view of
-- codexmsg/client.go's table of pending calls.
pub mod Table
mod Agrees
mod Steps
pub mod Run
use harness_transport.Codexmsg.Client.{
  Client, lookup, member, key_of, Action, takes, registers, abandons, reads, fails,
}
use harness_transport.Codexmsg.Jsonrpc.{RequestId, Message, response_id}
use harness_transport.Prelude.Int.{ℤ, pos, negsuc}
use harness_transport.Prelude.{
  ℕ, Bool, true, false, Bytes, List, [], ◌∷◌, Option, none, some, ◌==◌, ◌&&◌, if◌then◌else◌,
  is_empty,
}

-- A call waits, has given up, has its answer, or found its channel closed.
pub data Fate : Type 0 where
  waits gave_up hung_up : Fate
  answered : Message → Fate

unfoldable pub is_number : ℕ → ℤ → Bool
is_number n (pos k) = k == n
is_number n (negsuc _) = false

-- A response whose id is a number, the call's.
unfoldable pub answers : ℕ → Message → Bool
unfolding is_number
answers n m = elim (response_id m) [ none ↦ false | some i ↦ is_empty i.str && is_number n i.num ]

-- One event, to a call that waits: nothing that comes later changes its fate.
unfoldable pub next_fate : ℕ → Fate → Action → Fate
unfolding answers
next_fate n waits (abandons j) = if j == n then gave_up else waits
next_fate n waits (reads m) = if answers n m then answered m else waits
next_fate n waits (fails _) = hung_up
next_fate n f _ = f

unfoldable pub fate_from : ℕ → Fate → List Action → Fate
fate_from n f [] = f
fate_from n f (a ∷ later) = fate_from n (next_fate n f a) later

-- What was sent on a channel.
unfoldable pub sent_on : ℕ → List (ℕ × Message) → Option Message
sent_on n [] = none
sent_on n ((j, m) ∷ sent) = if j == n then some m else sent_on n sent

-- The same, read off the client's state.
unfoldable pub fate_in : ℕ → Client → Fate
unfolding sent_on
fate_in n c = elim (lookup (key_of n) c.pending) [
  | some _ ↦ waits
  | none ↦ elim (sent_on n c.sent) [
    | some m ↦ answered m
    | none ↦ if member n c.hung then hung_up else gave_up
  ]
]
