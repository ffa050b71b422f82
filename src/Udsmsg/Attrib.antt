-- ===== src/Udsmsg/Attrib.antt =====
-- udsmsg/attrib.go: the attribution element inside a message's content.
pub mod Plain
pub mod Matching
pub mod RoundTrip
pub mod Size
use harness_transport.Go.Space.{is_control, trim_space}
use harness_transport.Go.Utf8.{runes, encode_rune}
use harness_transport.Prelude.Find.{cut_prefix, cut_suffix, span}
use harness_transport.Prelude.{
  ℕ, zero, suc, ◌+◌, Bool, true, false, not, ◌&&◌, ◌||◌, Bytes, List, [], ◌∷◌, ◌++◌, Option, none,
  some, leb, ◌==◌, within, if◌then◌else◌, length, all, codes, str_eq, is_empty,
}
use harness_transport.Udsmsg.Frame.{mode_prompting}

abbrev pub cs_element : Bytes
cs_element = codes "cross-session-message"

abbrev pub attr_from : Bytes
attr_from = codes "from"

abbrev pub attr_name : Bytes
attr_name = codes "from-name"

abbrev pub attr_mode : Bytes
attr_mode = codes "from-mode"

abbrev pub max_socket_path : ℕ
max_socket_path = 107

abbrev pub scheme_uds : Bytes
scheme_uds = codes "uds"

-- `[A-Za-z0-9:_/.-]`
pub is_from_char : ℕ → Bool
is_from_char c =
    within b'A' b'Z' c
    || within b'a' b'z' c
    || within b'0' b'9' c
    || c == b':'
    || c == b'_'
    || c == b'/'
    || c == b'.'
    || c == b'-'

-- `fromRe`
unfoldable pub is_from : Bytes → Bool
unfolding is_from_char
is_from s = within 1 (length scheme_uds + 1 + max_socket_path) (length s) && all is_from_char s

pub record CrossSession : Type 0 where
  pub from : Bytes
  pub name : Bytes
  pub mode : Bytes

-- The mapping of `scrubName`: dropped, or kept.
is_dropped : ℕ → Bool
is_dropped r = r == b'"' || r == b'<' || r == b'>' || is_control r

-- `strings.Map` with it
scrub_runes : List (ℕ × Bytes) → Bytes
unfolding is_dropped
scrub_runes [] = []
scrub_runes ((r, raw) ∷ rs) =
    let rest = scrub_runes rs in if is_dropped r then rest else encode_rune r ++ rest

unfoldable pub scrub_name : Bytes → Bytes
unfolding scrub_runes
scrub_name name = trim_space (scrub_runes (runes name))

-- ` k="v"`, or nothing for an empty value, in front of `rest`.
attr : Bytes → Bytes → Bytes → Bytes
attr k v rest =
    if is_empty v then rest else codes " " ++ (k ++ (codes "=\"" ++ (v ++ (codes "\"" ++ rest))))

-- What `Wrap` asserts: the attributes that are usable.
unfoldable pub asserted : CrossSession → CrossSession
asserted cs = record {
  from = if is_from cs.from then cs.from else [];
  name = scrub_name cs.name;
  mode = if str_eq cs.mode mode_prompting then cs.mode else [];
}

pub attrs : CrossSession → Bytes
unfolding attr
attrs a = attr attr_from a.from (attr attr_name a.name (attr attr_mode a.mode []))

-- `(CrossSession).Wrap`
unfoldable pub wrap : CrossSession → Bytes → Bytes
unfolding attrs asserted
wrap cs text =
    codes "<"
    ++ (cs_element
        ++ (attrs (asserted cs)
            ++ (codes ">\n" ++ (text ++ (codes "\n</" ++ (cs_element ++ codes ">"))))))

-- `[a-z-]`
is_key_char : ℕ → Bool
is_key_char c = within b'a' b'z' c || c == b'-'

abbrev not_quote : ℕ → Bool
not_quote c = not (c == b'"')

-- `attrRe` at the start of a string: the two groups, and what follows the match.
attr_value : Bytes → Option Bytes → Option (Bytes × Bytes × Bytes)
attr_value key none = none
attr_value key (some s) =
    let (v, rest) = span not_quote s in elim rest [ [] ↦ none | q ∷ rest' ↦ some (key, v, rest') ]

attr_at : Bytes → Option (Bytes × Bytes × Bytes)
unfolding attr_value is_key_char
attr_at s =
    let (key, rest) = span is_key_char s in
    if is_empty key then none else attr_value key (cut_prefix (codes "=\"") rest)

-- `attrRe.FindAllStringSubmatch`: from the left, each match from where the last one ended.
pub find_attrs : ℕ → Bytes → List (Bytes × Bytes)
unfolding attr_at
find_attrs zero s = []
find_attrs (suc fuel) [] = []
find_attrs (suc fuel) (c ∷ s) = elim (attr_at (c ∷ s)) [
  | some (k, v, rest) ↦ (k, v) ∷ find_attrs fuel rest
  | none ↦ find_attrs fuel s
]

-- The switch over one match.
set_attr : CrossSession → Bytes × Bytes → CrossSession
set_attr cs (k, v) =
    if str_eq k attr_from
    then record cs { from = v }
    else if str_eq k attr_name
    then record cs { name = v }
    else if str_eq k attr_mode
    then record cs { mode = v }
    else cs

pub set_attrs : CrossSession → List (Bytes × Bytes) → CrossSession
unfolding set_attr
set_attrs cs [] = cs
set_attrs cs (a ∷ as') = set_attrs (set_attr cs a) as'

abbrev pub nothing : CrossSession
nothing = record { from = []; name = []; mode = [] }

-- `\b` behind the element's name: no word character follows.
is_word : ℕ → Bool
is_word c = within b'0' b'9' c || within b'A' b'Z' c || within b'a' b'z' c || c == b'_'

at_boundary : Bytes → Bool
unfolding is_word
at_boundary [] = true
at_boundary (c ∷ _) = not (is_word c)

abbrev not_gt : ℕ → Bool
not_gt c = not (c == b'>')

-- `wrapperRe` behind the element's name: its two groups.
match_tag : Bytes → Option (Bytes × Bytes)
unfolding at_boundary
match_tag s =
    if at_boundary s
    then (let (tag, rest) = span not_gt s in
        elim (cut_prefix (codes ">\n") rest) [
          | none ↦ none
          | some rest' ↦ elim (cut_suffix (codes "\n</" ++ (cs_element ++ codes ">")) rest') [
            | none ↦ none
            | some body ↦ some (tag, body)
          ]
        ])
    else none

match_wrapper : Bytes → Option (Bytes × Bytes)
unfolding match_tag
match_wrapper content = elim (cut_prefix (codes "<" ++ cs_element) content) [
  | none ↦ none
  | some s ↦ match_tag s
]

-- `Unwrap`
unfoldable pub unwrap : Bytes → CrossSession × Bytes × Bool
unfolding match_wrapper find_attrs set_attrs
unwrap content = elim (match_wrapper content) [
  | none ↦ (nothing, content, false)
  | some (tag, body) ↦ (set_attrs nothing (find_attrs (length tag) tag), body, true)
]
