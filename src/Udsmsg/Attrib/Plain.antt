-- ===== src/Udsmsg/Attrib/Plain.antt =====
-- The attributes that `Wrap` writes end neither their quotes nor the tag.
use harness_transport.Go.Space.{trim_space-all}
use harness_transport.Go.Utf8.{runes, encode_rune, encode_rune_without}
use harness_transport.Prelude.{
  ℕ, ◌≡◌, refl, true, Bytes, List, [], ◌∷◌, ◌++◌, if◌then◌else◌, all, all-append, codes, str_eq,
  str_eq_iff, arith, Bool-cases, inl, inr,
}
use harness_transport.Udsmsg.Attrib.{
  attr_from, attr_name, attr_mode, is_from_char, is_from, CrossSession, scrub_runes, scrub_name,
  attr, asserted, attrs, not_quote, not_gt,
}
use harness_transport.Udsmsg.Frame.{mode_prompting}

-- A value that neither ends its quotes nor the tag.
abbrev pub IsPlain : Bytes → Type 0
IsPlain v = (all not_quote v ≡ true) × (all not_gt v ≡ true)

scrub_runes-IsPlain : (rs : List (ℕ × Bytes)) → IsPlain (scrub_runes rs)
unfolding scrub_runes
scrub_runes-IsPlain [] = (refl, refl)
scrub_runes-IsPlain ((r, raw) ∷ rs) =
    let rest = scrub_runes rs in
    ground (
      arith,
      scrub_runes-IsPlain rs,
      encode_rune_without b'"' r,
      encode_rune_without b'>' r,
      all-append not_quote (encode_rune r) rest,
      all-append not_gt (encode_rune r) rest,
    )

scrub_name-IsPlain : (name : Bytes) → IsPlain (scrub_name name)
unfolding scrub_name
scrub_name-IsPlain name =
    let (q, g) = scrub_runes-IsPlain (runes name) in
    (trim_space-all not_quote _ q, trim_space-all not_gt _ g)

from_chars-IsPlain : (s : Bytes) → all is_from_char s ≡ true → IsPlain s
unfolding is_from_char
from_chars-IsPlain [] h = (refl, refl)
from_chars-IsPlain (c ∷ s) h = ground (arith, from_chars-IsPlain s)

abbrev pub ArePlain : CrossSession → Type 0
ArePlain a = IsPlain a.from × IsPlain a.name × IsPlain a.mode

str_eq-IsPlain : (m : Bytes) → IsPlain (if str_eq m mode_prompting then m else [])
str_eq-IsPlain m = elim (Bool-cases (str_eq m mode_prompting)) [
  | inl e ↦ rw (e, (str_eq_iff m mode_prompting).0 e) (refl, refl)
  | inr e ↦ rw e (refl, refl)
]

pub asserted-ArePlain : (cs : CrossSession) → ArePlain (asserted cs)
unfolding asserted is_from
asserted-ArePlain cs =
    (ground (arith, from_chars-IsPlain cs.from), scrub_name-IsPlain cs.name, str_eq-IsPlain cs.mode)

attr_plain :
    (k v rest : Bytes)
    → all not_gt k ≡ true
    → all not_gt v ≡ true
    → all not_gt rest ≡ true
    → all not_gt (attr k v rest) ≡ true
unfolding attr
attr_plain k v rest hk hv hr = ground (
  arith,
  all-append not_gt k (codes "=\"" ++ (v ++ (codes "\"" ++ rest))),
  all-append not_gt v (codes "\"" ++ rest),
)

pub attrs_plain : (a : CrossSession) → ArePlain a → all not_gt (attrs a) ≡ true
unfolding attrs
attrs_plain a h =
    attr_plain attr_from a.from _ refl h.0.1
      (attr_plain attr_name a.name _ refl h.1.1 (attr_plain attr_mode a.mode [] refl h.2.1 refl))
