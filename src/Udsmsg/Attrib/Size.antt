-- ===== src/Udsmsg/Attrib/Size.antt =====
-- How long an attributed message can get.
use harness_transport.Go.Space.{length-trim_space}
use harness_transport.Go.Utf8.{
  runes, runes_from, decode_rune, decode_rune_size, decode_rune_single, encode_rune,
}
use harness_transport.Prelude.{
  take, ℕ, zero, suc, ◌+◌, ◌-◌, ◌*◌, ◌≤◌, Bytes, List, [], ◌∷◌, ◌++◌, length, length-append, codes,
  str_eq_iff, arith,
}
use harness_transport.Udsmsg.Attrib.{
  CrossSession, is_from, scrub_runes, scrub_name, attr, attrs, asserted, wrap, attr_from, attr_name,
  attr_mode, cs_element,
}
use harness_transport.Udsmsg.Frame.{mode_prompting}

-- A rune is written in at most three times the bytes it was read from: an invalid byte becomes the
-- three of U+FFFD.
length-encode_decode :
    (b : ℕ) (s : Bytes) → length (encode_rune (decode_rune (b ∷ s)).0) ≤ 3 * (decode_rune (b ∷ s)).1
unfolding encode_rune
length-encode_decode b s = ground (arith, decode_rune_size b s, decode_rune_single b s)

length-scrub_rune :
    (r : ℕ) (raw : Bytes) (rs : List (ℕ × Bytes))
    → length (scrub_runes ((r, raw) ∷ rs)) ≤ length (encode_rune r) + length (scrub_runes rs)
unfolding scrub_runes
length-scrub_rune r raw rs = ground (arith, length-append (encode_rune r) (scrub_runes rs))

length-scrub_runes :
    (k : ℕ) (s : Bytes) → length (scrub_runes (runes_from k s)) ≤ 3 * (length s - k)
unfolding runes_from scrub_runes
length-scrub_runes k [] = omega arith
length-scrub_runes (suc k) (b ∷ s) = omega (arith, length-scrub_runes k s)
length-scrub_runes zero (b ∷ s) =
    let n = (decode_rune (b ∷ s)).1 in
    omega (
      arith,
      length-scrub_runes (n - 1) s,
      decode_rune_size b s,
      length-encode_decode b s,
      length-scrub_rune (decode_rune (b ∷ s)).0 (take n (b ∷ s)) (runes_from (n - 1) s),
    )

length-scrub_name : (name : Bytes) → length (scrub_name name) ≤ 3 * length name
unfolding scrub_name
length-scrub_name name =
    omega (arith, length-trim_space (scrub_runes (runes name)), length-scrub_runes 0 name)

length-attr : (k v rest : Bytes) → length (attr k v rest) ≤ 4 + length k + length v + length rest
unfolding attr
length-attr k v rest = ground (
  arith,
  length-append k (codes "=\"" ++ (v ++ (codes "\"" ++ rest))),
  length-append v (codes "\"" ++ rest),
)

length-asserted_from : (cs : CrossSession) → length (asserted cs).from ≤ 111
unfolding asserted is_from
length-asserted_from cs = ground arith

length-asserted_mode : (cs : CrossSession) → length (asserted cs).mode ≤ 9
unfolding asserted
length-asserted_mode cs = ground (arith, str_eq_iff cs.mode mode_prompting)

length-asserted_name : (cs : CrossSession) → length (asserted cs).name ≤ 3 * length cs.name
unfolding asserted
length-asserted_name cs = length-scrub_name cs.name

length-attrs : (cs : CrossSession) → length (attrs (asserted cs)) ≤ 154 + 3 * length cs.name
unfolding attrs
length-attrs cs =
    let a = asserted cs in
    omega (
      arith,
      length-attr attr_from a.from (attr attr_name a.name (attr attr_mode a.mode [])),
      length-attr attr_name a.name (attr attr_mode a.mode []),
      length-attr attr_mode a.mode [],
      length-asserted_from cs,
      length-asserted_mode cs,
      length-asserted_name cs,
    )

-- `Wrap` adds at most 203 bytes of its own and three times the name's.
pub length-wrap :
    (cs : CrossSession) (text : Bytes)
    → length (wrap cs text) ≤ 203 + 3 * length cs.name + length text
unfolding wrap
length-wrap cs text = omega (
  arith,
  length-attrs cs,
  length-append (attrs (asserted cs))
      (codes ">\n" ++ (text ++ (codes "\n</" ++ (cs_element ++ codes ">")))),
  length-append text (codes "\n</" ++ (cs_element ++ codes ">")),
)
