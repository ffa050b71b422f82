-- ===== src/Deliver/Unavailable.antt =====
-- deliver/deliver.go: the backend where no harness can be reached, which is its reason.
use harness_transport.Deliver.{Delivery, Meta, Observation}
use harness_transport.Go.Json.{quote}
use harness_transport.Prelude.{ℕ, Bool, false, Bytes, ◌++◌, Option, none, codes, Result, err}

unfoldable pub deliver : Bytes → Delivery → Result Bytes Observation
deliver reason _ = err (codes "cannot deliver: " ++ reason)

unfoldable pub available : Bytes → Bool × Bytes
available reason = (false, reason)

unfoldable pub max_intact_bytes : Bytes → Result Bytes ℕ
max_intact_bytes reason = err reason

-- `Adopt` and `Close`: no error.
unfoldable pub adopt : Bytes → Meta → Option Bytes
adopt _ _ = none

unfoldable pub close : Bytes → Option Bytes
close _ = none

unfoldable pub text : Bytes → Bytes
text reason = codes "unavailable: " ++ reason

-- `MarshalJSON`
unfoldable pub marshal : Bytes → Bytes
marshal reason = quote reason
