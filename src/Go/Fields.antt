-- ===== src/Go/Fields.antt =====
-- `strings.Fields`.
use harness_transport.Go.Space.{is_space}
use harness_transport.Go.Utf8.{runes, runes_from, decode_rune}
use harness_transport.Prelude.{
  ℕ, ◌≡◌, refl, ◌∙◌, ap, Bool, true, false, not, ◌&&◌, Bytes, List, [], ◌∷◌, ◌++◌, map,
  append_assoc, ltb, is_empty, if◌then◌else◌, all, all-append, All, arith, append-nil,
}

-- The words of a string, `word` being the one that is open.
unfoldable pub fields_from : Bytes → List (ℕ × Bytes) → List Bytes
fields_from word [] = if is_empty word then [] else word ∷ []
fields_from word ((r, raw) ∷ rs) =
    let shut = fields_from [] rs in
    let longer = fields_from (word ++ raw) rs in
    if is_space r then (if is_empty word then shut else word ∷ shut) else longer

unfoldable pub fields : Bytes → List Bytes
fields s = fields_from [] (runes s)

-- An ASCII string is one rune for each byte.
abbrev pub is_ascii : ℕ → Bool
is_ascii c = ltb c 0x80

abbrev singles : Bytes → List (ℕ × Bytes)
singles = map (λ b. (b, b ∷ []))

runes-ascii : (s : Bytes) → all is_ascii s ≡ true → runes s ≡ singles s
unfolding runes_from decode_rune
runes-ascii [] h = refl
runes-ascii (b ∷ s) h = ground (arith, runes-ascii s)

-- A character of a word.
abbrev pub is_word_char : ℕ → Bool
is_word_char c = is_ascii c && not (is_space c)

-- A word with characters of this kind, and at least one.
abbrev pub IsWord : Bytes → Type 0
IsWord f = (all is_word_char f ≡ true) × (is_empty f ≡ false)

-- A space in front of each word, and a newline at the end.
abbrev pub spaced : List Bytes → Bytes
spaced [] = b'\n' ∷ []
spaced (f ∷ fs) = b' ' ∷ (f ++ spaced fs)

fields_from-word :
    (word f : Bytes) (rest : Bytes)
    → all is_word_char f ≡ true
    → fields_from word (singles (f ++ rest)) ≡ fields_from (word ++ f) (singles rest)
unfolding fields_from
fields_from-word word [] rest h = rw append-nil refl
fields_from-word word (c ∷ f) rest h =
    let open_word : is_space c ≡ false = ground arith in
    rw (open_word, fields_from)
      (fields_from-word (word ++ c ∷ []) f rest (ground arith)
        ∙ ap (λ w. fields_from w (singles rest)) (append_assoc word (c ∷ []) f))

fields_from-spaced :
    (word : Bytes) (fs : List Bytes)
    → All IsWord fs
    → fields_from word (singles (spaced fs)) ≡ (if is_empty word then fs else word ∷ fs)
unfolding fields_from is_space is_empty
fields_from-spaced word [] h = refl
fields_from-spaced word (f ∷ fs) h =
    let first = fields_from-word [] f (spaced fs) h.0.0 ∙ fields_from-spaced f fs h.1 in
    ground (arith, first, h.0.1)

word-ascii : (f : Bytes) → all is_word_char f ≡ true → all is_ascii f ≡ true
word-ascii [] h = refl
word-ascii (c ∷ f) h = ground (arith, word-ascii f)

spaced-ascii : (fs : List Bytes) → All IsWord fs → all is_ascii (spaced fs) ≡ true
spaced-ascii [] h = refl
spaced-ascii (f ∷ fs) h =
    ground (arith, all-append is_ascii f (spaced fs), spaced-ascii fs h.1, word-ascii f h.0.0)

-- The words come back.
pub fields-spaced : (fs : List Bytes) → All IsWord fs → fields (spaced fs) ≡ fs
unfolding fields is_empty
fields-spaced fs h =
    ap (fields_from []) (runes-ascii (spaced fs) (spaced-ascii fs h)) ∙ fields_from-spaced [] fs h
