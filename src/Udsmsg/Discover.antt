-- ===== src/Udsmsg/Discover.antt =====
-- udsmsg/discover.go: the inbox of a session by its pid, and the token to present there. The file
-- system, the key files and the environment are parameters.
pub mod First
pub mod Dedup
mod Examples
use harness_transport.Go.Strconv.{itoa}
use harness_transport.Prelude.{
  ℕ, Bool, true, false, not, ◌&&◌, ◌||◌, Bytes, List, [], ◌∷◌, ◌++◌, Option, none, some, codes,
  str_eq, is_empty, if◌then◌else◌, Result, ok, err,
}
use harness_transport.Udsmsg.Client.{Target}
use harness_transport.Udsmsg.KeyFile.{Key}

unfoldable pub is_seen : Bytes → List Bytes → Bool
is_seen s [] = false
is_seen s (x ∷ xs) = str_eq s x || is_seen s xs

-- The loop of `dedup`, with what was seen.
unfoldable pub dedup_from : List Bytes → List Bytes → List Bytes
dedup_from seen [] = []
dedup_from seen (s ∷ rest) =
    let kept = dedup_from (s ∷ seen) rest in
    let skipped = dedup_from seen rest in if is_seen s seen then skipped else s ∷ kept

unfoldable pub dedup : List Bytes → List Bytes
dedup dirs = dedup_from [] dirs

-- `socketDirs`: the value of `XDG_RUNTIME_DIR`, the uid, and `filepath.Join`.
unfoldable pub socket_dirs : Bytes → ℕ → (Bytes → Bytes → Bytes) → List Bytes
socket_dirs runtime uid join = dedup (
    (if is_empty runtime then [] else join runtime (codes "cc-socks") ∷ [])
    ++ ((codes "/run/user/" ++ (itoa uid ++ codes "/cc-socks"))
        ∷ (codes "/tmp/cc-socks-" ++ itoa uid)
        ∷ codes "/tmp/cc-socks"
        ∷ (codes "/private/tmp/cc-socks-" ++ itoa uid)
        ∷ codes "/private/tmp/cc-socks"
        ∷ codes "/data/data/com.termux/files/usr/tmp/cc-socks"
        ∷ []))

-- `checkDir` and `os.Stat` without an error, `filepath.Join`, `ReadKey`, and the two variables.
pub record Host : Type 0 where
  pub usable : Bytes → Bool
  pub has_file : Bytes → Bool
  pub join : Bytes → Bytes → Bytes
  pub read_key : ℕ → Bytes → Option (Option Key)
  pub env_socket : Bytes
  pub env_token : Bytes

-- The socket of a pid in a directory.
abbrev pub socket_in : Host → ℕ → Bytes → Bytes
socket_in h pid dir = h.join dir (itoa pid ++ codes ".sock")

-- `findSocket` over the standard directories.
unfoldable pub find_socket : Host → List Bytes → ℕ → Option Bytes
find_socket h [] pid = none
find_socket h (dir ∷ dirs) pid =
    let later = find_socket h dirs pid in
    if not (h.usable dir)
    then later
    else if h.has_file (socket_in h pid dir)
    then some (socket_in h pid dir)
    else later

pub data ResolveError : Type 0 where
  no_socket bad_key : ResolveError

-- The child token takes the place of a published one where the inbox is the environment's.
unfoldable pub child_token : Host → Bytes → Bytes → Bytes
child_token h path token =
    if not (is_empty h.env_socket) && str_eq h.env_socket path
    then (if is_empty h.env_token then token else h.env_token)
    else token

unfoldable pub target_at : Host → ℕ → Bytes → Option Key → Target
unfolding child_token
target_at h pid path k = record {
  pid = pid;
  proc_start = elim k [ some key ↦ key.proc_start | none ↦ [] ];
  socket_path = path;
  token = child_token h path (elim k [ some key ↦ key.peer_token | none ↦ [] ]);
  unauthenticated = false;
}

-- `ResolveTarget`
unfoldable pub resolve_target : Host → List Bytes → ℕ → Result ResolveError Target
resolve_target h dirs pid = elim (find_socket h dirs pid) [
  | none ↦ err no_socket
  | some path ↦ elim (h.read_key pid path) [
    | none ↦ err bad_key
    | some k ↦ ok (target_at h pid path k)
  ]
]
