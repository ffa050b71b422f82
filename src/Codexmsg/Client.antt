-- ===== src/Codexmsg/Client.antt =====
-- codexmsg/client.go: the calls that wait for the daemon, and what its messages and the end of the
-- connection do to them. Every critical section is one action, with the send or the closing of the
-- channels that it took out of the table; an interleaving is a list of actions.
-- A channel is named by the number of the call that made it.
pub mod Invariant
pub mod Keys
pub mod Answers
pub mod Fate
mod Examples
use harness_transport.Codexmsg.Jsonrpc.{RequestId, int_id, key, RpcError, Message, response_id}
use harness_transport.Prelude.{
  ℕ, suc, ◌+◌, Bool, true, false, Bytes, List, [], ◌∷◌, ◌++◌, map, Option, none, some, ◌==◌, ◌||◌,
  if◌then◌else◌, str_eq, codes, is_empty, Result, ok, err,
}

-- Why a connection ended: `io.EOF`, or another error by its text.
pub data ConnError : Type 0 where
  eof : ConnError
  broken : Bytes → ConnError

-- `taken` holds the ids that calls drew and have not registered yet, `sent` what was sent on
-- channels, `hung` the channels that were closed.
pub record Client : Type 0 where
  pub next_id : ℕ
  pub taken : List ℕ
  pub pending : List (Bytes × ℕ)
  pub closed : Bool
  pub error : Option ConnError
  pub sent : List (ℕ × Message)
  pub hung : List ℕ

abbrev pub fresh : Client
fresh = record {
  next_id = 0;
  taken = [];
  pending = [];
  closed = false;
  error = none;
  sent = [];
  hung = [];
}

-- The map of pending calls: `delete`, and the lookup.
unfoldable pub delete : Bytes → List (Bytes × ℕ) → List (Bytes × ℕ)
delete k [] = []
delete k ((k', n) ∷ p) = let rest = delete k p in if str_eq k k' then rest else (k', n) ∷ rest

unfoldable pub lookup : Bytes → List (Bytes × ℕ) → Option ℕ
lookup k [] = none
lookup k ((k', n) ∷ p) = let rest = lookup k p in if str_eq k k' then some n else rest

unfoldable pub member : ℕ → List ℕ → Bool
member n [] = false
member n (x ∷ xs) = x == n || member n xs

unfoldable pub remove : ℕ → List ℕ → List ℕ
remove n [] = []
remove n (x ∷ xs) = let rest = remove n xs in if x == n then xs else x ∷ rest

-- `c.nextID.Add(1)`
unfoldable pub take_id : Client → Client
take_id c = record c { next_id = c.next_id + 1; taken = (c.next_id + 1) ∷ c.taken }

abbrev pub key_of : ℕ → Bytes
key_of n = key (int_id n)

-- The registration of a call under its id, refused on a closed client.
unfoldable pub register : Client → ℕ → Client
register c n =
    if member n c.taken
    then (if c.closed then record c { taken = remove n c.taken } else record c {
      taken = remove n c.taken;
      pending = (key_of n, n) ∷ delete (key_of n) c.pending;
    })
    else c

-- A call that gives up: its write failed, or its context ended.
unfoldable pub abandon : Client → ℕ → Client
abandon c n = record c { pending = delete (key_of n) c.pending }

-- A response in `readLoop`.
unfoldable pub respond : Client → Message → Bytes → Client
respond c m k = elim (lookup k c.pending) [
  | none ↦ record c { pending = delete k c.pending }
  | some n ↦ record c { pending = delete k c.pending; sent = (n, m) ∷ c.sent }
]

-- A message in `readLoop`: one that is no response is discarded.
unfoldable pub on_message : Client → Message → Client
on_message c m = elim (response_id m) [ none ↦ c | some i ↦ respond c m (key i) ]

-- The error that `fail` keeps.
unfoldable pub kept_error : Option ConnError → ConnError → Option ConnError
kept_error none (broken e) = some (broken e)
kept_error old _ = old

abbrev pub channels : List (Bytes × ℕ) → List ℕ
channels = map (λ p. p.1)

-- `fail`
unfoldable pub fail : Client → ConnError → Client
fail c e = if c.closed then c else record c {
  closed = true;
  error = kept_error c.error e;
  pending = [];
  hung = channels c.pending ++ c.hung;
}

pub data Action : Type 0 where
  takes : Action
  registers abandons : ℕ → Action
  reads : Message → Action
  fails : ConnError → Action

unfoldable pub act : Client → Action → Client
act c takes = take_id c
act c (registers n) = register c n
act c (abandons n) = abandon c n
act c (reads m) = on_message c m
act c (fails e) = fail c e

unfoldable pub run : Client → List Action → Client
run c [] = c
run c (a ∷ as') = run (act c a) as'

-- `readLoop` over what `ReadMessage` gives: a frame that does not parse is skipped, and an error ends
-- it. Other actions may come between these.
unfoldable pub read_loop : (Bytes → Option Message) → List (Result ConnError Bytes) → List Action
read_loop unmarshal [] = []
read_loop unmarshal (err e ∷ later) = fails e ∷ []
read_loop unmarshal (ok data_of ∷ later) =
    let rest = read_loop unmarshal later in
    elim (unmarshal data_of) [ none ↦ rest | some m ↦ reads m ∷ rest ]

-- `Close`, behind the closing of the WebSocket; the test and `fail` are two critical sections.
unfoldable pub close_actions : Client → List Action
close_actions c = if c.closed then [] else fails eof ∷ []

pub data CallError : Type 0 where
  ended : Option ConnError → CallError
  refused : RpcError → CallError

-- `closedErr`, by its text.
unfoldable pub closed_err : Option ConnError → Bytes
closed_err none = codes "connection to the app server is closed"
closed_err (some eof) = codes "EOF"
closed_err (some (broken e)) = e

-- The end of `Call`: what came on the channel, or that it was closed.
unfoldable pub received : Client → Option Message → Result CallError Bytes
received c none = err (ended c.error)
received c (some m) = elim m.error [ some e ↦ err (refused e) | none ↦ ok m.result ]
