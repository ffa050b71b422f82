-- ===== src/Udsmsg/Attrib/RoundTrip.antt =====
-- `Unwrap` on what `Wrap` writes.
use harness_transport.Prelude.Find.{cut_prefix-append, cut_suffix-append, span-append}
use harness_transport.Prelude.{
  ◌≡◌, refl, ap, ◌∙◌, true, Bytes, ◌∷◌, ◌++◌, some, length, all, codes, is_empty, arith,
  append_assoc, Bool-cases, inl, inr,
}
use harness_transport.Udsmsg.Attrib.{
  cs_element, attr_from, attr_name, attr_mode, CrossSession, attr, asserted, attrs, wrap,
  at_boundary, is_word, not_gt, match_tag, match_wrapper, unwrap,
}
use harness_transport.Udsmsg.Attrib.Plain.{asserted-ArePlain, attrs_plain}
use harness_transport.Udsmsg.Attrib.Matching.{attrs-Collects}

at_boundary-attr : (k v rest : Bytes) → at_boundary rest ≡ true → at_boundary (attr k v rest) ≡ true
unfolding attr at_boundary is_word
at_boundary-attr k v rest h = ground arith

-- The tag's attributes, written in front of `rest` instead of `[]`.
attr-append : (k v a b : Bytes) → attr k v a ++ b ≡ attr k v (a ++ b)
unfolding attr
attr-append k v a b = elim (Bool-cases (is_empty v)) [
  | inl e ↦ rw e
  | inr e ↦ rw e (simp append_assoc)
]

at_boundary-attrs :
    (a : CrossSession) (rest : Bytes)
    → at_boundary rest ≡ true
    → at_boundary (attrs a ++ rest) ≡ true
unfolding attrs
at_boundary-attrs a rest h = simp attr-append (
    at_boundary-attr attr_from a.from _
      (at_boundary-attr attr_name a.name _ (at_boundary-attr attr_mode a.mode rest h)))

abbrev end_tag : Bytes
end_tag = codes "\n</" ++ (cs_element ++ codes ">")

match_tag_plain :
    (tag text : Bytes)
    → all not_gt tag ≡ true
    → at_boundary (tag ++ (codes ">\n" ++ (text ++ end_tag))) ≡ true
    → match_tag (tag ++ (codes ">\n" ++ (text ++ end_tag))) ≡ some (tag, text)
unfolding match_tag
match_tag_plain tag text h b = ground (
  arith,
  b,
  span-append not_gt tag b'>' (b'\n' ∷ (text ++ end_tag)) h refl,
  cut_prefix-append (codes ">\n") (text ++ end_tag),
  cut_suffix-append end_tag text,
)

match_wrapper_tag : (s : Bytes) → match_wrapper (codes "<" ++ (cs_element ++ s)) ≡ match_tag s
unfolding match_wrapper
match_wrapper_tag s = rw (cut_prefix-append (codes "<" ++ cs_element) s, match_wrapper)

match_wrapper-wrap :
    (cs : CrossSession) (text : Bytes)
    → match_wrapper (wrap cs text) ≡ some (attrs (asserted cs), text)
unfolding wrap
match_wrapper-wrap cs text =
    let tag = attrs (asserted cs) in
    let behind = codes ">\n" ++ (text ++ end_tag) in
    match_wrapper_tag (tag ++ behind)
    ∙ match_tag_plain tag text (attrs_plain (asserted cs) (asserted-ArePlain cs))
        (at_boundary-attrs (asserted cs) behind (unfold at_boundary is_word in refl))

-- `Unwrap` reads back what `Wrap` wrote, for every attribution and every text: the text whole, and
-- of the attribution what `Wrap` asserts (the address and the posture where they are acceptable,
-- the name scrubbed).
pub unwrap-wrap :
    (cs : CrossSession) (text : Bytes) → unwrap (wrap cs text) ≡ (asserted cs, text, true)
unfolding unwrap
unwrap-wrap cs text =
    let tag = attrs (asserted cs) in
    let collected =
      attrs-Collects (asserted cs) (asserted-ArePlain cs) (length tag) (omega arith) in
    rw (match_wrapper-wrap cs text, unwrap) (ap (λ a. (a, text, true)) collected)
