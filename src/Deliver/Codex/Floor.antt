-- ===== src/Deliver/Codex/Floor.antt =====
-- The floor that `MaxIntactBytes` promises.
use harness_transport.Deliver.{Delivery, lead, anchor, mark, compose}
use harness_transport.Deliver.Codex.{
  Backend, codex_max_chars, codex_overhead, available, max_intact_bytes, fits,
}
use harness_transport.Go.Utf8.{rune_count, rune_count-le}
use harness_transport.Prelude.{
  ℕ, ◌+◌, ◌-◌, ◌≤◌, ◌≡◌, Bool, true, false, Bytes, ◌++◌, length, sym, length-append, le→leb, codes,
  ok, arith, Option-cases, inl, inr,
}

length-lead : (body : Bytes) → length (lead body) ≤ length body + 2
unfolding lead
length-lead body = ground (arith, length-append body (codes "\n\n"))

length-anchor : (cursor : Bytes) → length (anchor cursor) ≤ length cursor + 44
unfolding anchor
length-anchor cursor = ground arith

length-mark : (more : Bool) → length (mark more) ≤ 45
unfolding mark
length-mark true = omega arith
length-mark false = omega arith

length-compose : (d : Delivery) → length (compose d) ≤ length d.body + length d.cursor + 93
unfolding compose
length-compose d = omega (
  arith,
  length-append (lead d.body) (codes "[" ++ (anchor d.cursor ++ (mark d.more ++ codes "]"))),
  length-append (anchor d.cursor) (mark d.more ++ codes "]"),
  length-append (mark d.more) (codes "]"),
  length-lead d.body,
  length-anchor d.cursor,
  length-mark d.more,
)

floor_value :
    (found : Bool) (c : Backend) {n : ℕ}
    → max_intact_bytes found c ≡ ok n
    → n ≡ codex_max_chars - codex_overhead
unfolding max_intact_bytes
floor_value found c {n} h = elim (Option-cases (available found c)) [
  | inl e ↦ sym (cc (rw (e, max_intact_bytes) at h))
  | inr (why, e) ↦ absurd (cc (rw (e, max_intact_bytes) at h))
]

-- A body within the number of bytes that `MaxIntactBytes` gives fits, whatever its characters are,
-- with a cursor of up to 4,003 bytes and either trailer.
pub fits_floor :
    (found : Bool) (c : Backend) (d : Delivery) {n : ℕ}
    → max_intact_bytes found c ≡ ok n
    → length d.body ≤ n
    → length d.cursor ≤ 4003
    → (fits d).0 ≡ true
unfolding fits
fits_floor found c d floor body cursor =
    le→leb (rune_count (compose d)) codex_max_chars
      (omega (arith, rune_count-le (compose d), length-compose d, floor_value found c floor))
