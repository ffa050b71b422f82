-- ===== src/Udsmsg/Discover/First.antt =====
-- Which inbox a pid is resolved to, and with which token.
use harness_transport.Prelude.{
  ℕ, ◌≡◌, refl, ap, Bool, true, false, not, is_empty, if◌then◌else◌, ◌&&◌, Bytes, List, [], ◌∷◌,
  ◌++◌, Option, none, some, str_eq, ok, arith, sym, ◌∙◌, All, Bool-cases, Option-cases, inl, inr,
}
use harness_transport.Udsmsg.Client.{Target}
use harness_transport.Udsmsg.KeyFile.{Key}
use harness_transport.Udsmsg.Discover.{
  Host, socket_in, find_socket, child_token, target_at, resolve_target,
}

-- A directory that is passed over: it cannot be used, or has no socket of the pid.
abbrev pub IsPassed : Host → ℕ → Bytes → Type 0
IsPassed h pid dir = (h.usable dir && h.has_file (socket_in h pid dir)) ≡ false

-- The directory whose socket was found.
pub record Found (h : Host) (dirs : List Bytes) (pid : ℕ) (path : Bytes) : Type 0 where
  pub before : List Bytes
  pub dir : Bytes
  pub after : List Bytes
  pub splits : dirs ≡ before ++ dir ∷ after
  pub passed : All (IsPassed h pid) before
  pub is_usable : h.usable dir ≡ true
  pub is_there : h.has_file path ≡ true
  pub is_path : path ≡ socket_in h pid dir

find_socket-Found :
    (h : Host) (dirs : List Bytes) (pid : ℕ) {path : Bytes}
    → find_socket h dirs pid ≡ some path
    → Found h dirs pid path
unfolding find_socket
find_socket-Found h [] pid e = absurd cc
find_socket-Found h (dir ∷ dirs) pid {path} e =
    elim (Bool-cases (h.usable dir && h.has_file (socket_in h pid dir))) [
      | inl y ↦ record {
        before = [];
        dir = dir;
        after = dirs;
        splits = refl;
        passed = tt;
        is_usable = ground (arith, y);
        is_there = ground (arith, y, e);
        is_path = ground (arith, y, e);
      }
      | inr n ↦
          let later : find_socket h dirs pid ≡ some path = ground (arith, n, e) in
          let f = find_socket-Found h dirs pid later in
          record {
            before = dir ∷ f.before;
            dir = f.dir;
            after = f.after;
            splits = ap (λ ds. dir ∷ ds) f.splits;
            passed = (n, f.passed);
            is_usable = f.is_usable;
            is_there = f.is_there;
            is_path = f.is_path;
          }
    ]

-- The token that was published for an inbox, or none where none was.
abbrev pub published_token : Option Key → Bytes
published_token none = []
published_token (some k) = k.peer_token

-- Whether the environment names this inbox, with a token.
unfoldable pub is_named : Host → Bytes → Bool
is_named h path =
    not (is_empty h.env_socket) && str_eq h.env_socket path && not (is_empty h.env_token)

token_at :
    (h : Host) (path : Bytes) (k : Option Key) {q : Bytes}
    → path ≡ q
    → child_token h path (elim k [ some key ↦ key.peer_token | none ↦ [] ])
      ≡ (if is_named h q then h.env_token else published_token k)
unfolding child_token is_named
token_at h path none at = ground (arith, at)
token_at h path (some key) at = ground (arith, at)

-- A pid that is resolved is resolved to the socket of the first directory that can be used and has
-- one; and the target carries the token of the environment, where the environment names that inbox
-- and has a token, and otherwise the token of the key that was published for it, or none where none
-- was.
pub resolve_target-Found :
    (h : Host) (dirs : List Bytes) (pid : ℕ) {t : Target}
    → resolve_target h dirs pid ≡ ok t
    → Found h dirs pid t.socket_path
      × ((k : Option Key) × (h.read_key pid t.socket_path ≡ some k)
          × (t.token ≡ (if is_named h t.socket_path then h.env_token else published_token k)))
unfolding resolve_target target_at child_token is_named
resolve_target-Found h dirs pid {t} e = elim (Option-cases (find_socket h dirs pid)) [
  | inl no_path ↦ absurd (cc (rw (no_path, resolve_target) at e))
  | inr (path, found) ↦ elim (Option-cases (h.read_key pid path)) [
    | inl no_key ↦ absurd (cc (rw (found, no_key, resolve_target) at e))
    | inr (k, published) ↦
        let same : target_at h pid path k ≡ t = cc (rw (found, published, resolve_target) at e) in
        let at : path ≡ t.socket_path = ap (λ x. x.socket_path) same in
        (
          rw (sym at) (find_socket-Found h dirs pid found),
          (k, rw (sym at) published, sym (ap (λ x. x.token) same) ∙ token_at h path k at),
        )
  ]
]
