-- ===== src/Udsmsg/Proc.antt =====
-- udsmsg/proc.go: what /proc says of a process. The files, the links and the environment are
-- parameters.
pub mod Stat
mod Examples
use harness_transport.Go.Fields.{fields}
use harness_transport.Go.Space.{trim_space}
use harness_transport.Go.Strconv.{itoa}
use harness_transport.Prelude.Find.{after_last}
use harness_transport.Prelude.{
  ℕ, Bool, true, false, ◌||◌, Bytes, List, [], ◌∷◌, ◌++◌, Option, none, some, get_elem?, codes,
  str_eq, is_empty, if◌then◌else◌, Result, ok, err,
}
use harness_transport.Udsmsg.Addr.{pid_from_socket_name}
use harness_transport.Udsmsg.Frame.{mode_prompting}

-- `os.ReadFile` and `os.Readlink` without an error, `filepath.Base`, and the variable that names the
-- inbox of the session that spawned us.
pub record System : Type 0 where
  pub read_file : Bytes → Option Bytes
  pub read_link : Bytes → Option Bytes
  pub base : Bytes → Bytes
  pub env_socket : Bytes

abbrev pub start_time_index : ℕ
start_time_index = 19

-- `/proc/<pid>/<leaf>`
abbrev pub proc_path : ℕ → Bytes → Bytes
proc_path pid leaf = codes "/proc/" ++ (itoa pid ++ (codes "/" ++ leaf))

-- The start time in the content of a stat file.
unfoldable pub start_time : Bytes → Option Bytes
start_time stat = elim (after_last b')' stat) [
  | none ↦ none
  | some rest ↦ get_elem? (fields rest) start_time_index
]

-- `ProcStart`
unfoldable pub proc_start : System → ℕ → Option Bytes
proc_start s pid = elim (s.read_file (proc_path pid (codes "stat"))) [
  | none ↦ none
  | some stat ↦ start_time stat
]

-- The loop of `machineID` over the two files.
unfoldable pub first_id : System → List Bytes → Option Bytes
first_id s [] = none
first_id s (path ∷ paths) =
    let later = first_id s paths in
    elim (s.read_file path) [
      | none ↦ later
      | some b ↦ if is_empty (trim_space b) then later else some (trim_space b)
    ]

unfoldable pub machine_id : System → Option Bytes
machine_id s = first_id s (codes "/etc/machine-id" ∷ codes "/var/lib/dbus/machine-id" ∷ [])

-- `pidDomain`
unfoldable pub pid_domain : System → ℕ → Option Bytes
pid_domain s pid = elim (machine_id s) [
  | none ↦ none
  | some id ↦ elim (s.read_link (proc_path pid (codes "ns/pid"))) [
    | none ↦ none
    | some ns ↦ some (codes "linux:" ++ (id ++ (codes ":" ++ ns)))
  ]
]

-- `Alive`
unfoldable pub alive : System → ℕ → Bytes → Bool
alive s pid started = elim (proc_start s pid) [
  | none ↦ false
  | some got ↦ is_empty started || str_eq got started
]

pub data ModeError : Type 0 where
  no_parent no_pid unreadable : ModeError

-- `DetectParentMode`
unfoldable pub detect_parent_mode : System → Result ModeError Bytes
detect_parent_mode s =
    if is_empty s.env_socket
    then err no_parent
    else elim (pid_from_socket_name (s.base s.env_socket)) [
      | none ↦ err no_pid
      | some pid ↦ elim (s.read_file (proc_path pid (codes "cmdline"))) [
        | none ↦ err unreadable
        | some _ ↦ ok mode_prompting
      ]
    ]
