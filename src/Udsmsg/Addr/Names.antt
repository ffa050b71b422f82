-- ===== src/Udsmsg/Addr/Names.antt =====
-- The pid in the name of a socket that this program allocates.
use harness_transport.Go.Strconv.{
  length-hex_string, atoi-itoa, itoa, itoa-digits, length-itoa, is_digit, max_int, hex_string,
  hex_digit,
}
use harness_transport.Prelude.Find.{cut_suffix-append, span-append}
use harness_transport.Prelude.{
  ℕ, ◌/◌, ◌%◌, ◌≤◌, ◌<◌, ◌≡◌, refl, Bool, true, false, not, ◌&&◌, Bytes, [], ◌∷◌, ◌++◌, some,
  length, length-append, ltb, ◌==◌, all, all-append, codes, str_eq, str_eq_iff, le→leb,
  append_assoc, sym, arith, Bool-cases, inl, inr, ap, ◌∙◌,
}
use harness_transport.Udsmsg.Addr.{
  is_name_char, is_dial_name, has_dots, valid_socket_name, not_dash, pid_from_socket_name,
  socket_name,
}

-- Characters that a dial name takes, and no dot.
abbrev is_plain : ℕ → Bool
is_plain c = is_name_char c && not (c == b'.')

hex_digit-plain : (d : ℕ) → d < 16 → is_plain (hex_digit d) ≡ true
unfolding hex_digit
hex_digit-plain d h = ground arith

hex_string-plain : (s : Bytes) → all (λ b. ltb b 256) s ≡ true → all is_plain (hex_string s) ≡ true
unfolding hex_string
hex_string-plain [] h = refl
hex_string-plain (b ∷ s) h =
    ground (arith, hex_string-plain s, hex_digit-plain (b / 16), hex_digit-plain (b % 16))

digits-plain :
    (s : Bytes) → all is_digit s ≡ true → (all is_plain s ≡ true) × (all not_dash s ≡ true)
digits-plain [] h = (refl, refl)
digits-plain (c ∷ s) h = ground (arith, digits-plain s)

plain-name : (s : Bytes) → all is_plain s ≡ true → all is_name_char s ≡ true
plain-name [] h = refl
plain-name (c ∷ s) h = ground (arith, plain-name s)

has_dots-plain : (s : Bytes) → all is_plain s ≡ true → has_dots (s ++ codes ".sock") ≡ false
unfolding has_dots
has_dots-plain [] h = refl
has_dots-plain (c ∷ s) h = ground (arith, has_dots-plain s)

-- The name without its suffix.
abbrev base_name : ℕ → Bytes → Bytes
base_name pid disc = itoa pid ++ (codes "-" ++ hex_string disc)

base_name-plain :
    (pid : ℕ) (disc : Bytes)
    → all (λ b. ltb b 256) disc ≡ true
    → all is_plain (base_name pid disc) ≡ true
base_name-plain pid disc h = ground (
  arith,
  all-append is_plain (itoa pid) (codes "-" ++ hex_string disc),
  digits-plain (itoa pid) (itoa-digits pid),
  hex_string-plain disc h,
)

length-base_name :
    (pid : ℕ) (disc : Bytes)
    → pid ≤ max_int
    → length disc ≤ 20
    → (1 ≤ length (base_name pid disc)) × (length (base_name pid disc) ≤ 64)
length-base_name pid disc h k = omega (
  arith,
  length-append (itoa pid) (codes "-" ++ hex_string disc),
  length-hex_string disc,
  length-itoa pid h,
)

not_only_suffix :
    (base : Bytes) → 1 ≤ length base → str_eq (base ++ codes ".sock") (codes ".sock") ≡ false
not_only_suffix base h = elim (Bool-cases (str_eq (base ++ codes ".sock") (codes ".sock"))) [
  | inr e ↦ e
  | inl e ↦ absurd (
      omega (
        arith,
        ap length ((str_eq_iff (base ++ codes ".sock") (codes ".sock")).0 e),
        length-append base (codes ".sock"),
      ))
]

valid_socket_name-plain :
    (base : Bytes)
    → all is_plain base ≡ true
    → 1 ≤ length base
    → length base ≤ 64
    → valid_socket_name (base ++ codes ".sock") ≡ true
unfolding valid_socket_name is_dial_name
valid_socket_name-plain base h lo hi =
    rw
      (
        not_only_suffix base lo,
        has_dots-plain base h,
        is_dial_name,
        cut_suffix-append (codes ".sock") base,
        le→leb 1 (length base) lo,
        le→leb (length base) 64 hi,
        plain-name base h,
      )
      refl

-- The name that `allocSocketPath` gives the socket of a process, with any random bytes, is one that
-- this package connects to, and the process's pid is read back from it.
pub pid_from_socket_name-socket_name :
    (pid : ℕ) (disc : Bytes)
    → pid ≤ max_int
    → length disc ≡ 4
    → all (λ b. ltb b 256) disc ≡ true
    → (valid_socket_name (socket_name pid disc) ≡ true)
      × (pid_from_socket_name (socket_name pid disc) ≡ some pid)
unfolding socket_name pid_from_socket_name
pid_from_socket_name-socket_name pid disc h four bytes =
    let base = base_name pid disc in
    let (lo, hi) = length-base_name pid disc h (omega arith) in
    let same : socket_name pid disc ≡ base ++ codes ".sock" =
      sym (append_assoc (itoa pid) (codes "-" ++ hex_string disc) (codes ".sock")) in
    let valid = valid_socket_name-plain base (base_name-plain pid disc bytes) lo hi in
    let read : pid_from_socket_name (base ++ codes ".sock") ≡ some pid =
      rw
        (
          valid,
          pid_from_socket_name,
          cut_suffix-append (codes ".sock") base,
          span-append not_dash (itoa pid) b'-' (hex_string disc)
              (digits-plain (itoa pid) (itoa-digits pid)).1 refl,
        )
        (atoi-itoa pid h) in
    (ap valid_socket_name same ∙ valid, ap pid_from_socket_name same ∙ read)
