-- ===== src/Deliver/Open/Cleared.antt =====
-- The environment cleared and restored, and a backend opened in between.
use harness_transport.Deliver.Codex
use harness_transport.Deliver.Codex.{new_codex, available, World}
use harness_transport.Deliver.Open.{
  Env, getenv, set_env, env_claude_socket, harness_env, Options, apply_options, no_options, codex,
  choose, open_deliverer, clear_names, clear_env, restore_env,
}
use harness_transport.Deliver.{Delivery}
use harness_transport.Prelude.{
  ◌≡◌, refl, sym, ap, Bool, false, ◌||◌, Bytes, List, [], ◌∷◌, none, str_eq, str_eq_iff, is_empty,
  if◌then◌else◌, arith, Bool-cases, inl, inr,
}

-- Whether a name is among the names.
unfoldable pub is_among : Bytes → List Bytes → Bool
is_among q [] = false
is_among q (k ∷ ks) = str_eq q k || is_among q ks

clear_names_lem :
    (ks : List Bytes) (env : Env) (q : Bytes)
    → clear_names ks env q ≡ (if is_among q ks then none else env q)
unfolding clear_names is_among
clear_names_lem [] env q = refl
clear_names_lem (k ∷ ks) env q = ground (arith, clear_names_lem ks (set_env env k none) q)

restore_env_lem :
    (saved : Env) (ks : List Bytes) (env : Env) (q : Bytes)
    → restore_env saved ks env q ≡ (if is_among q ks then saved q else env q)
unfolding restore_env is_among
restore_env_lem saved [] env q = refl
restore_env_lem saved (k ∷ ks) env q = elim (Bool-cases (str_eq q k)) [
  | inr e ↦ ground (arith, e, restore_env_lem saved ks (set_env env k (saved k)) q)
  | inl e ↦
      let same = ap saved ((str_eq_iff q k).0 e) in
      ground (arith, e, same, restore_env_lem saved ks (set_env env k (saved k)) q)
]

-- However the environment changed in between and in whatever order the saved values are walked, the
-- function that `ClearEnvForTesting` returns puts back each of the harness's variables as it was
-- found, unset ones included, and touches no other.
pub restore_env-harness_env :
    (found now : Env) (ks : List Bytes) (q : Bytes)
    → ((k : Bytes) → is_among k ks ≡ is_among k harness_env)
    → restore_env found ks now q ≡ (if is_among q harness_env then found q else now q)
restore_env-harness_env found now ks q same = rw (sym (same q)) (restore_env_lem found ks now q)

cleared_socket : (env : Env) → getenv (clear_env env) env_claude_socket ≡ []
unfolding clear_env is_among str_eq
cleared_socket env = rw (clear_names_lem harness_env env env_claude_socket, getenv) refl

-- With the environment cleared, `Open` returns under any options a backend that queues nothing and
-- calls no daemon, whatever it is asked to deliver before a request was adopted.
pub open_deliverer-clear_env :
    (default_name : Bytes) (env : Env) (opts : List (Options → Options))
    → (c : Codex.Backend) × (open_deliverer default_name (clear_env env) opts ≡ codex c)
      × ((w : World) (d : Delivery) → (Codex.deliver w c d).1 ≡ [])
unfolding open_deliverer choose Codex.deliver new_codex available is_empty
open_deliverer-clear_env default_name env opts =
    let o = apply_options opts no_options in
    (
      new_codex default_name (if is_empty o.sender_name then default_name else o.sender_name),
      rw (cleared_socket env) refl,
      λ w d. ground arith,
    )
