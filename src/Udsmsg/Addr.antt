-- ===== src/Udsmsg/Addr.antt =====
-- udsmsg/addr.go: reply addresses, socket names, and the check of a socket's directory; and the
-- name that `allocSocketPath` of udsmsg/server.go gives a socket.
pub mod Names
use harness_transport.Go.Strconv.{atoi, itoa, hex_string}
use harness_transport.Go.Utf8.{rune_count}
use harness_transport.Prelude.Find.{cut_prefix, cut_suffix, span}
use harness_transport.Prelude.{
  ℕ, Bool, true, false, not, ◌&&◌, ◌||◌, Bytes, [], ◌∷◌, ◌++◌, Option, none, some, leb, ◌==◌,
  within, if◌then◌else◌, length, all, codes, str_eq,
}
use harness_transport.Udsmsg.Attrib.{scheme_uds, max_socket_path}

abbrev pub not_newline : ℕ → Bool
not_newline c = not (c == b'\n')

-- `addrRe`: a dot matches any rune but a newline, so the bound is on runes.
unfoldable pub valid_address : Bytes → Bool
valid_address addr = elim (cut_prefix (scheme_uds ++ codes ":") addr) [
  | none ↦ false
  | some path ↦ within 1 max_socket_path (rune_count path) && all not_newline path
]

unfoldable pub uds_address : Bytes → Bytes
uds_address path = scheme_uds ++ (codes ":" ++ path)

-- `[A-Za-z0-9._-]`
abbrev pub is_name_char : ℕ → Bool
is_name_char c =
    within b'A' b'Z' c
    || within b'a' b'z' c
    || within b'0' b'9' c
    || c == b'.'
    || c == b'_'
    || c == b'-'

-- `dialNameRe`
unfoldable pub is_dial_name : Bytes → Bool
is_dial_name name = elim (cut_suffix (codes ".sock") name) [
  | none ↦ false
  | some base ↦ within 1 64 (length base) && all is_name_char base
]

-- `strings.Contains(s, "..")`
unfoldable pub has_dots : Bytes → Bool
has_dots [] = false
has_dots (c ∷ s) = (c == b'.' && starts_with_dot s) || has_dots s
  where
    starts_with_dot : Bytes → Bool
    starts_with_dot [] = false
    starts_with_dot (d ∷ _) = d == b'.'

unfoldable pub valid_socket_name : Bytes → Bool
valid_socket_name name =
    not (str_eq name (codes ".sock")) && not (has_dots name) && is_dial_name name

abbrev pub not_dash : ℕ → Bool
not_dash c = not (c == b'-')

-- `PIDFromSocketName`: the number in front of a dash or of the suffix.
unfoldable pub pid_from_socket_name : Bytes → Option ℕ
pid_from_socket_name name =
    let base : Bytes = elim (cut_suffix (codes ".sock") name) [ some b ↦ b | none ↦ name ] in
    if valid_socket_name name then atoi (span not_dash base).0 else none

-- `"%d-%08x.sock"` of `allocSocketPath`: the pid, and four random bytes.
unfoldable pub socket_name : ℕ → Bytes → Bytes
socket_name pid disc = itoa pid ++ (codes "-" ++ (hex_string disc ++ codes ".sock"))

-- What `os.Stat` says of a directory.
pub record FileInfo : Type 0 where
  pub is_dir : Bool
  pub perm : ℕ
  pub owner : Option ℕ

pub data DirError : Type 0 where
  no_stat not_a_directory wrong_mode no_owner wrong_owner : DirError

-- `checkDir`: what `os.Stat` says, and the caller's own uid; no error is `none`.
unfoldable pub check_dir : Option FileInfo → ℕ → Option DirError
check_dir none self = some no_stat
check_dir (some fi) self =
    if not fi.is_dir
    then some not_a_directory
    else if not (fi.perm == 448)
    then some wrong_mode
    else elim fi.owner [
      | none ↦ some no_owner
      | some uid ↦ if not (uid == self) && not (uid == 0) then some wrong_owner else none
    ]
