-- ===== src/Udsmsg/KeyFile.antt =====
-- udsmsg/keyfile.go: the key that a session publishes for its socket. Paths, SHA-256 and the
-- random bytes are parameters, and the disk is `Disk`.
pub mod Names
pub mod Decoded
pub mod Atomic
mod Examples
use harness_transport.Disk.{Disk, FileError, not_exist, io_failed, replace, last_state}
use harness_transport.Go.Json.Store.{store_text, store_member, store_members}
use harness_transport.Go.Json.Value.{Json, null, object_of, parse, ◌>>=◌}
use harness_transport.Go.Json.{quote, object}
use harness_transport.Go.Strconv.{itoa, hex_string}
use harness_transport.Prelude.{
  ℕ, Bool, true, false, Bytes, List, [], ◌∷◌, ◌++◌, Option, none, some, ltb, codes, str_eq,
  if◌then◌else◌, length, Result, ok, err,
}

abbrev pub max_key_file_bytes : ℕ
max_key_file_bytes = 4096

-- `Key`
pub record Key : Type 0 where
  pub peer_token : Bytes
  pub proc_start : Bytes
  pub pid_domain : Bytes

-- `sessionsDir`, over `os.UserHomeDir` and `filepath.Join`.
unfoldable pub sessions_dir : (List Bytes → Bytes) → Option Bytes → Bytes
sessions_dir join home = join (elim home [
  | none ↦ codes "/root" ∷ codes ".claude" ∷ codes "sessions" ∷ []
  | some dir ↦ dir ∷ codes ".claude" ∷ codes "sessions" ∷ []
])

-- What the calls on paths answer while the files stay as they are: `EvalSymlinks` and `Abs` without
-- an error, `Clean`, `sha256.Sum256`, the path of a name in the directory of the registry.
pub record Host : Type 0 where
  pub eval_symlinks : Bytes → Option Bytes
  pub clean : Bytes → Bytes
  pub abs : Bytes → Option Bytes
  pub sha256 : Bytes → Bytes
  pub in_sessions : Bytes → Bytes

-- The canonical path of a socket, by its links or by its text.
unfoldable pub canonical : Host → Bytes → Bytes
canonical h path = elim (h.eval_symlinks path) [ some c ↦ c | none ↦ h.clean path ]

-- The host once the file at a path is gone: its links resolve no more.
unfoldable pub without_file : Bytes → Host → Host
without_file path h = record h {
  eval_symlinks = λ p. if str_eq p path then none else h.eval_symlinks p;
}

-- `keyFileName`
unfoldable pub key_file_name : Host → ℕ → Bytes → Option Bytes
key_file_name h pid path = elim (h.abs (canonical h path)) [
  | none ↦ none
  | some a ↦ some (itoa pid ++ (codes "." ++ (hex_string (h.sha256 a) ++ codes ".key")))
]

-- `json.Marshal` of a key.
unfoldable pub marshal_key : Key → Bytes
marshal_key k = object (
    (quote (codes "peerToken"), quote k.peer_token)
    ∷ (quote (codes "procStart"), quote k.proc_start)
    ∷ (quote (codes "pidDomain"), quote k.pid_domain)
    ∷ [])

abbrev pub key_names : List Bytes
key_names = codes "peerToken" ∷ codes "procStart" ∷ codes "pidDomain" ∷ []

-- A value into the field of a key that has the name.
unfoldable pub key_member : Bytes → Json → Key → Option Key
unfolding store_text
key_member n j k =
    if str_eq n (codes "peerToken")
    then (store_text j k.peer_token >>= λ s. some (record k { peer_token = s }))
    else if str_eq n (codes "procStart")
    then (store_text j k.proc_start >>= λ s. some (record k { proc_start = s }))
    else (store_text j k.pid_domain >>= λ s. some (record k { pid_domain = s }))

abbrev pub empty_key : Key
empty_key = record { peer_token = []; proc_start = []; pid_domain = [] }

unfoldable pub store_key : Json → Option Key
unfolding key_member store_member store_members
store_key null = some empty_key
store_key (object_of ms) = store_members (store_member key_names key_member) ms empty_key
store_key _ = none

-- `json.Unmarshal` into a key.
unfoldable pub unmarshal_key : Bytes → Option Key
unfolding store_key
unmarshal_key b = parse b >>= store_key

pub data KeyError : Type 0 where
  no_name no_directory no_entropy not_replaced unreadable not_json : KeyError
  too_large : ℕ → KeyError

-- The temporary name beside a name.
abbrev pub tmp_name : Bytes → Bytes → Bytes
tmp_name name suffix = name ++ (codes ".tmp." ++ hex_string suffix)

-- What `ReadFile` gives, parsed.
unfoldable pub parse_key : Result FileError Bytes → Result KeyError (Option Key)
parse_key (err _) = err unreadable
parse_key (ok b) = elim (unmarshal_key b) [ none ↦ err not_json | some k ↦ ok (some k) ]

-- What `Stat` gives: no file, an error, or a size within the cap or over it. `content` is what
-- `ReadFile` gives after it.
unfoldable pub check_size :
    Result FileError Bytes → Result FileError Bytes → Result KeyError (Option Key)
check_size (err not_exist) content = ok none
check_size (err io_failed) content = err unreadable
check_size (ok b) content =
    if ltb max_key_file_bytes (length b) then err (too_large (length b)) else parse_key content

module _ (D : Disk) (h : Host) where
  -- `ReadKey`, in the states of the disk at its two calls.
  unfoldable pub read_key : D.State → D.State → ℕ → Bytes → Result KeyError (Option Key)
  read_key s s' pid path = elim (key_file_name h pid path) [
    | none ↦ err no_name
    | some name ↦ check_size (D.read s (h.in_sessions name)) (D.read s' (h.in_sessions name))
  ]

  -- The end of `writeKey`: the states of the disk, in order, and the error.
  unfoldable pub publish :
      D.State → Bytes → Bytes → Bytes → List D.State × Result KeyError (Unit {0})
  publish s name suffix b =
      let (states, is_done) =
        replace D s (h.in_sessions (tmp_name name suffix)) (h.in_sessions name) b in
      (states, if is_done then ok tt else err not_replaced)

  -- Behind the directory: the size, and the random suffix.
  unfoldable pub write_named :
      D.State → Bytes → Option Bytes → Bytes → List D.State × Result KeyError (Unit {0})
  write_named s name suffix b =
      if ltb max_key_file_bytes (length b)
      then ([], err (too_large (length b)))
      else elim suffix [ none ↦ ([], err no_entropy) | some r ↦ publish s name r b ]

  -- `writeKey`: the states of the disk after each of its calls, and the error.
  unfoldable pub write_key :
      D.State → ℕ → Bytes → Option Bytes → Key → List D.State × Result KeyError (Unit {0})
  write_key s pid path suffix k = elim (key_file_name h pid path) [
    | none ↦ ([], err no_name)
    | some name ↦
        let (s1, is_made) = D.make_dir s in
        let (states, r) = write_named s1 name suffix (marshal_key k) in
        if is_made then (s1 ∷ states, r) else (s1 ∷ [], err no_directory)
  ]

  -- `removeKey`: a file that is not there is no error.
  unfoldable pub remove_key : D.State → ℕ → Bytes → D.State × Result KeyError (Unit {0})
  remove_key s pid path = elim (key_file_name h pid path) [
    | none ↦ (s, err no_name)
    | some name ↦
        let (s', r) = D.remove s (h.in_sessions name) in
        (s', elim r [ ok _ ↦ ok tt | err not_exist ↦ ok tt | err io_failed ↦ err not_replaced ])
  ]

-- `newToken`
unfoldable pub new_token : Bytes → Bytes
new_token random = hex_string random
