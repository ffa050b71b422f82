-- ===== src/Deliver/Open/Examples.antt =====
-- The theorems on Open and the environment at concrete inputs.
use harness_transport.Deliver.Codex
use harness_transport.Deliver.Codex.{World}
use harness_transport.Deliver.Open.Cleared.{open_deliverer-clear_env}
use harness_transport.Deliver.Open.{
  Env, set_env, env_claude_socket, with_sender_name, codex, open_deliverer, clear_env,
}
use harness_transport.Deliver.{Delivery}
use harness_transport.Prelude.{◌≡◌, [], ◌∷◌, none, some, codes}

abbrev inherited : Env
inherited = set_env (λ _. none) env_claude_socket (some (codes "/x.sock"))

open_deliverer-clear_env_example :
    (c : Codex.Backend) × (open_deliverer
        (codes "mcp")
        (clear_env inherited)
        (with_sender_name (codes "me") ∷ [])
      ≡ codex c)
    × ((w : World) (d : Delivery) → (Codex.deliver w c d).1 ≡ [])
open_deliverer-clear_env_example =
    open_deliverer-clear_env (codes "mcp") inherited (with_sender_name (codes "me") ∷ [])
