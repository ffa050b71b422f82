-- ===== src/Deliver/Trailer.antt =====
-- Reading the trailer of a composed message by its position, as the package's comment asks.
use harness_transport.Deliver.{
  Delivery, no_cursor, cursor_label, more_mark, lead, anchor, mark, compose,
}
use harness_transport.Prelude.Find.{
  after_last, after_last-append, cut_prefix, cut_suffix, cut_suffix-append,
}
use harness_transport.Prelude.{
  ℕ, ◌≡◌, refl, Bool, true, false, not, Bytes, [], ◌∷◌, ◌++◌, append_assoc, Option, none, some,
  ◌==◌, if◌then◌else◌, all, all-append, append-nil, sym, str_eq, is_empty, codes, arith,
}

unfoldable pub read_anchor : Bytes → Bool → Option (Bytes × Bool)
read_anchor a more = elim (cut_prefix cursor_label a) [
  | some c ↦ some (c, more)
  | none ↦ if str_eq a no_cursor then some ([], more) else none
]

unfoldable pub read_mark : Bytes → Option (Bytes × Bool)
read_mark u = elim (cut_suffix more_mark u) [
  | some a ↦ read_anchor a true
  | none ↦ read_anchor u false
]

unfoldable pub read_bracketed : Bytes → Option (Bytes × Bool)
read_bracketed t = elim (cut_suffix (codes "]") t) [ none ↦ none | some u ↦ read_mark u ]

-- The cursor and the mark of a message that ends with a bracketed trailer.
unfoldable pub read_trailer : Bytes → Option (Bytes × Bool)
read_trailer s = elim (after_last b'[' s) [ none ↦ none | some t ↦ read_bracketed t ]

abbrev pub not_bracket : ℕ → Bool
not_bracket c = not (c == b'[')

read_anchor-anchor :
    (cursor : Bytes) (more : Bool) → read_anchor (anchor cursor) more ≡ some (cursor, more)
unfolding read_anchor anchor is_empty cut_prefix str_eq
read_anchor-anchor [] more = refl
read_anchor-anchor (c ∷ s) more = refl

read_mark-mark :
    (cursor : Bytes) (more : Bool)
    → cut_suffix more_mark (anchor cursor) ≡ none
    → read_mark (anchor cursor ++ mark more) ≡ some (cursor, more)
unfolding read_mark mark
read_mark-mark cursor true h =
    rw (cut_suffix-append more_mark (anchor cursor), read_mark) (read_anchor-anchor cursor true)
read_mark-mark cursor false h =
    simp (append-nil) (rw (h, read_mark) (read_anchor-anchor cursor false))

no_brackets :
    (cursor : Bytes) (more : Bool)
    → all not_bracket cursor ≡ true
    → all not_bracket (anchor cursor ++ (mark more ++ codes "]")) ≡ true
unfolding anchor mark
no_brackets cursor more h =
    ground (arith, all-append not_bracket (anchor cursor) (mark more ++ codes "]"))

-- Whatever the body quotes, the trailer of a composed message gives back its cursor and whether more
-- is waiting, where the cursor holds no opening bracket and does not end like the mark.
pub read_trailer-compose :
    (d : Delivery)
    → all not_bracket d.cursor ≡ true
    → cut_suffix more_mark (anchor d.cursor) ≡ none
    → read_trailer (compose d) ≡ some (d.cursor, d.more)
unfolding read_trailer compose read_bracketed
read_trailer-compose d h k =
    let t = anchor d.cursor ++ mark d.more in
    let e =
      after_last-append b'[' (lead d.body) (anchor d.cursor ++ (mark d.more ++ codes "]"))
        (no_brackets d.cursor d.more h) in
    rw
      (
        e,
        read_trailer,
        sym (append_assoc (anchor d.cursor) (mark d.more) (codes "]")),
        read_bracketed,
        cut_suffix-append (codes "]") t,
      )
      (read_mark-mark d.cursor d.more k)
