-- ===== src/Udsmsg/KeyFile/Names.antt =====
-- The names of a key file and of the temporary file beside it.
use harness_transport.Prelude.{
  ℕ, ◌≡◌, ◌≢◌, inl, inr, refl, ◌∙◌, ap, sym, Bool, true, false, Bytes, [], ◌∷◌, ◌++◌, some, length,
  length-append, codes, all, all-append, append_assoc, not, ◌&&◌, ◌==◌, is_empty, Option-cases,
  arith,
}
use harness_transport.Udsmsg.KeyFile.{canonical, Host, key_file_name, tmp_name}
use harness_transport.Go.Strconv.{
  itoa, hex_string, is_digit, itoa-digits, itoa-is_empty, hex_string-without,
}

-- A name that stands for one file of a directory: it has no slash and does not begin with a dot.
unfoldable pub is_plain_name : Bytes → Bool
is_plain_name [] = false
is_plain_name (c ∷ s) = not (c == b'.') && all (λ x. not (x == b'/')) (c ∷ s)

-- Different plain names are different files of the directory, as `filepath.Join` documents.
abbrev pub IsDistinct : Host → Type 0
IsDistinct h =
    (a b : Bytes)
    → is_plain_name a ≡ true
    → is_plain_name b ≡ true
    → h.in_sessions a ≡ h.in_sessions b
    → a ≡ b

digits_no_slash : (s : Bytes) → all is_digit s ≡ true → all (λ x. not (x == b'/')) s ≡ true
digits_no_slash [] h = refl
digits_no_slash (c ∷ s) h = ground (arith, digits_no_slash s)

plain_behind :
    (d rest : Bytes)
    → all is_digit d ≡ true
    → is_empty d ≡ false
    → all (λ x. not (x == b'/')) rest ≡ true
    → is_plain_name (d ++ rest) ≡ true
unfolding is_plain_name is_empty
plain_behind [] rest h e r = absurd cc
plain_behind (c ∷ d) rest h e r =
    ground (arith, digits_no_slash (c ∷ d) h, all-append (λ (x : ℕ). not (x == b'/')) d rest)

-- The name of a key, and a temporary name beside it.
module _ (h : Host) (pid : ℕ) (path : Bytes) {name : Bytes}
    (named : key_file_name h pid path ≡ some name) where
  pub name-plain :
      (suffix : Bytes) → (is_plain_name name ≡ true) × (is_plain_name (tmp_name name suffix) ≡ true)
  unfolding key_file_name
  name-plain suffix = elim (Option-cases (h.abs (canonical h path))) [
    | inl e ↦ absurd (cc (rw (e, key_file_name) at named))
    | inr (a, e) ↦
        let tail = codes "." ++ (hex_string (h.sha256 a) ++ codes ".key") in
        let more = codes ".tmp." ++ hex_string suffix in
        let same : itoa pid ++ tail ≡ name = cc (rw (e, key_file_name) at named) in
        let no_slash : all (λ x. not (x == b'/')) tail ≡ true = ground (
          arith,
          all-append (λ (x : ℕ). not (x == b'/')) (hex_string (h.sha256 a)) (codes ".key"),
          hex_string-without b'/' (h.sha256 a),
        ) in
        let no_slash_more : all (λ x. not (x == b'/')) (tail ++ more) ≡ true = ground (
          arith,
          no_slash,
          all-append (λ (x : ℕ). not (x == b'/')) tail more,
          hex_string-without b'/' suffix,
        ) in
        let plain = plain_behind (itoa pid) tail (itoa-digits pid) (itoa-is_empty pid) no_slash in
        let plain_more =
          plain_behind (itoa pid) (tail ++ more) (itoa-digits pid) (itoa-is_empty pid)
            no_slash_more in
        (
          ap is_plain_name (sym same) ∙ plain,
          ap (λ n. is_plain_name (n ++ more)) (sym same)
              ∙ ap is_plain_name (append_assoc (itoa pid) tail more)
              ∙ plain_more,
        )
  ]

  pub apart :
      IsDistinct h → (suffix : Bytes) → h.in_sessions name ≢ h.in_sessions (tmp_name name suffix)
  apart distinct suffix e =
      let (p, q) = name-plain suffix in
      omega (
        arith,
        ap length (distinct name (tmp_name name suffix) p q e),
        length-append name (codes ".tmp." ++ hex_string suffix),
      )
