-- ===== src/Udsmsg/Listen.antt =====
-- udsmsg/server.go: an inbox from `Listen` to `Close`. The directories, the socket calls, the random
-- bytes and what /proc says of this process are parameters; the key file is written on a `Disk`.
pub mod Tidy
pub mod Published
mod Examples
use harness_transport.Disk.{Disk, last_state}
use harness_transport.Go.Strconv.{hex_string}
use harness_transport.Prelude.{
  ℕ, Bool, true, false, not, Bytes, List, [], ◌∷◌, ◌++◌, Option, none, some, is_empty,
  if◌then◌else◌, Result, ok, err,
}
use harness_transport.Udsmsg.Addr.{FileInfo, DirError, check_dir, socket_name, uds_address}
use harness_transport.Udsmsg.KeyFile.{
  Host, Key, KeyError, without_file, write_key, remove_key, new_token,
}
use harness_transport.Udsmsg.Proc.{ModeError}

-- What the calls of `Listen` answer: `filepath.Join` and `Dir`; `os.Stat` of a directory, before any
-- is made and after; whether making and securing a directory succeed; whether a path is a socket;
-- whether its address resolves, binds and is secured; the uid and pid; the random bytes of the name,
-- the token and the key file; `DetectParentMode`, `ProcStart` and `pidDomain` of this process.
pub record Machine : Type 0 where
  pub join : Bytes → Bytes → Bytes
  pub dir_of : Bytes → Bytes
  pub dir_info : Bytes → Option FileInfo
  pub made_info : Bytes → Option FileInfo
  pub makes_dir : Bytes → Bool
  pub secures_dir : Bytes → Bool
  pub is_socket : Bytes → Bool
  pub resolves : Bytes → Bool
  pub binds : Bytes → Bool
  pub secures : Bytes → Bool
  pub uid : ℕ
  pub pid : ℕ
  pub random_name : Option Bytes
  pub random_token : Bytes
  pub random_suffix : Option Bytes
  pub mode : Result ModeError Bytes
  pub started : Option Bytes
  pub domain : Option Bytes

-- The parts of `Config` that `Listen` reads; `derives_mode` stands for a mode source that is not
-- `ModeSourceNone`.
pub record Config : Type 0 where
  pub path : Bytes
  pub publish_key : Bool
  pub derives_mode : Bool

-- The parts of `Server` that last from `Listen` to `Close`.
pub record Inbox : Type 0 where
  pub path : Bytes
  pub mode : Bytes
  pub token : Bytes
  pub publish_key : Bool
  pub is_closed : Bool

pub data ListenError : Type 0 where
  no_entropy no_directory not_resolved not_bound not_secured : ListenError
  bad_directory : DirError → ListenError
  no_key : KeyError → ListenError

-- What is done to directories and sockets, and the line that is logged.
pub data Step : Type 0 where
  made_dir secured_dir removed opened secured shut : Bytes → Step
  logged_no_mode : Step

-- `Addr`
unfoldable pub reply_address : Inbox → Bytes
reply_address i = uds_address i.path

module _ (m : Machine) where
  -- The first directory that `checkDir` passes.
  unfoldable pub usable_dir : List Bytes → Option Bytes
  usable_dir [] = none
  usable_dir (dir ∷ dirs) =
      let later = usable_dir dirs in
      elim (check_dir (m.dir_info dir) m.uid) [ none ↦ some dir | some _ ↦ later ]

  -- The first directory that can be made and passes `checkDir` then.
  unfoldable pub make_usable : List Bytes → List Step × Option Bytes
  make_usable [] = ([], none)
  make_usable (dir ∷ dirs) =
      let (steps, found) = make_usable dirs in
      if not (m.makes_dir dir)
      then (steps, found)
      else if not (m.secures_dir dir)
      then (made_dir dir ∷ steps, found)
      else elim (check_dir (m.made_info dir) m.uid) [
        | none ↦ (made_dir dir ∷ secured_dir dir ∷ [], some dir)
        | some _ ↦ (made_dir dir ∷ secured_dir dir ∷ steps, found)
      ]

  -- `allocSocketPath`, with what it does to the directories.
  unfoldable pub alloc_socket_path : List Bytes → List Step × Result ListenError Bytes
  alloc_socket_path dirs = elim m.random_name [
    | none ↦ ([], err no_entropy)
    | some disc ↦ elim (usable_dir dirs) [
      | some dir ↦ ([], ok (m.join dir (socket_name m.pid disc)))
      | none ↦
          let (steps, found) = make_usable dirs in
          (
            steps,
            elim found [
              | none ↦ err no_directory
              | some dir ↦ ok (m.join dir (socket_name m.pid disc))
            ],
          )
    ]
  ]

  -- The path to bind.
  unfoldable pub socket_path : List Bytes → Config → List Step × Result ListenError Bytes
  socket_path dirs cfg =
      if is_empty cfg.path
      then alloc_socket_path dirs
      else elim (check_dir (m.dir_info (m.dir_of cfg.path)) m.uid) [
        | some e ↦ ([], err (bad_directory e))
        | none ↦ ([], ok cfg.path)
      ]

  -- The key that is published.
  unfoldable pub own_key : Key
  own_key = record {
    peer_token = new_token m.random_token;
    proc_start = elim m.started [ some t ↦ t | none ↦ [] ];
    pid_domain = elim m.domain [ some d ↦ d | none ↦ [] ];
  }

  -- The posture that is asserted, and the line where it is unknown.
  unfoldable pub posture : Config → List Step × Bytes
  posture cfg =
      if cfg.derives_mode
      then elim m.mode [ ok mode ↦ ([], mode) | err _ ↦ (logged_no_mode ∷ [], []) ]
      else ([], [])

  unfoldable pub inbox_at : Config → Bytes → Inbox
  inbox_at cfg path = record {
    path = path;
    mode = (posture cfg).1;
    token = new_token m.random_token;
    publish_key = cfg.publish_key;
    is_closed = false;
  }

  -- A stale socket at the path is removed.
  unfoldable pub remove_stale : Bytes → List Step
  remove_stale path = if m.is_socket path then removed path ∷ [] else []

  module _ (D : Disk) (h : Host) where
    -- What a call leaves: the steps, the states of the disk in order, and the result.
    abbrev pub Left : Type 0 → Type 0
    Left A = List Step × List D.State × A

    -- `Close`: the key file's name is looked up when the socket has been removed.
    unfoldable pub close : D.State → Inbox → Left Inbox
    close s i =
        let h' = without_file i.path h in
        let removed_key = if i.publish_key then (remove_key D h' s m.pid i.path).0 ∷ [] else [] in
        if i.is_closed
        then ([], [], i)
        else (shut i.path ∷ removed i.path ∷ [], removed_key, record i { is_closed = true })

    -- The key file of an inbox that is open.
    unfoldable pub publish_key_of : D.State → Inbox → Left (Result ListenError Inbox)
    publish_key_of s i =
        let (states, r) = write_key D h s m.pid i.path m.random_suffix own_key in
        if i.publish_key
        then elim r [
          | ok _ ↦ ([], states, ok i)
          | err e ↦
              let (steps, later, _) = close (last_state D s states) i in
              (steps, states ++ later, err (no_key e))
        ]
        else ([], [], ok i)

    -- The inbox at its path.
    unfoldable pub listen_at : D.State → Config → Bytes → Left (Result ListenError Inbox)
    listen_at s cfg path =
        let (steps, states, r) = publish_key_of s (inbox_at cfg path) in
        if not (m.resolves path)
        then (remove_stale path, [], err not_resolved)
        else if not (m.binds path)
        then (remove_stale path, [], err not_bound)
        else if not (m.secures path)
        then (remove_stale path ++ (opened path ∷ shut path ∷ []), [], err not_secured)
        else (
          remove_stale path ++ (opened path ∷ secured path ∷ ((posture cfg).0 ++ steps)),
          states,
          r,
        )

    -- `Listen`
    unfoldable pub listen : D.State → List Bytes → Config → Left (Result ListenError Inbox)
    listen s dirs cfg =
        let (steps, found) = socket_path dirs cfg in
        elim found [
          | err e ↦ (steps, [], err e)
          | ok path ↦ let (later, states, r) = listen_at s cfg path in (steps ++ later, states, r)
        ]
