-- ===== src/Udsmsg/Server/ReadLine/ByByte.antt =====
-- `readLine` against a reading that knows no buffer.
use harness_transport.Prelude.{
  ℕ, zero, suc, ◌+◌, ◌≤◌, ◌<◌, ◌≡◌, refl, ap, ◌∙◌, sym, Bool, true, not, Bytes, [], ◌∷◌, ◌++◌, ltb,
  leb, ◌==◌, if◌then◌else◌, length, all, arith, append-nil, append_assoc, length-append, all-append,
}
use harness_transport.Udsmsg.Server.ReadLine.{
  newline, Line, complete, partial, too_long, Stop, at_newline, full, ended, Slice, cons_chunk,
  read_slice, buffer_size, drop_last, read_loop, read_line,
}

-- The reading that knows no buffer: byte by byte.
by_byte : ℕ → Bytes → Bytes → Line
by_byte max buf [] = if leb (length buf) max then partial buf else too_long
by_byte max buf (c ∷ s) =
    let more = by_byte max (buf ++ c ∷ []) s in
    if c == newline then (if leb (length buf + 1) max then complete buf s else too_long) else more

by_byte_over : (max : ℕ) (buf s : Bytes) → max < length buf → by_byte max buf s ≡ too_long
unfolding by_byte
by_byte_over max buf [] h = ground arith
by_byte_over max buf (c ∷ s) h =
    ground (arith, by_byte_over max (buf ++ c ∷ []) s, length-append buf (c ∷ []))

drop_last-append : (a : Bytes) (c : ℕ) → drop_last (a ++ c ∷ []) ≡ a
unfolding drop_last
drop_last-append [] c = refl
drop_last-append (x ∷ []) c = refl
drop_last-append (x ∷ y ∷ a) c = ap (◌∷◌ x) (drop_last-append (y ∷ a) c)

-- A round of `readLine` that has `whole`, of length `n`, before it goes on byte by byte.
settle : ℕ → ℕ → Bytes → Stop → Bytes → Line
settle max n whole stop rest = if ltb max n then too_long else elim stop [
  | full ↦ by_byte max whole rest
  | ended ↦ partial whole
  | at_newline ↦ complete (drop_last whole) rest
]

abbrev after : ℕ → Bytes → Slice → Line
after max buf r = settle max (length buf + length r.chunk) (buf ++ r.chunk) r.stop r.rest

after-cons_chunk :
    (max : ℕ) (buf : Bytes) (c : ℕ) (r : Slice)
    → after max (buf ++ c ∷ []) r ≡ after max buf (cons_chunk c r)
unfolding cons_chunk
after-cons_chunk max buf c r =
    let longer : length (buf ++ c ∷ []) + length r.chunk ≡ length buf + suc (length r.chunk) =
      omega (arith, length-append buf (c ∷ [])) in
    cc (longer, append_assoc buf (c ∷ []) r.chunk)

by_byte-read_slice :
    (max n : ℕ) (buf s : Bytes) → by_byte max buf s ≡ after max buf (read_slice n s)
unfolding by_byte read_slice settle
by_byte-read_slice max zero buf s = ground (arith, append-nil buf, by_byte_over max buf s)
by_byte-read_slice max (suc n) buf [] = ground (arith, append-nil buf)
by_byte-read_slice max (suc n) buf (c ∷ s) = ground (
  arith,
  by_byte-read_slice max n (buf ++ c ∷ []) s,
  after-cons_chunk max buf c (read_slice n s),
  drop_last-append buf c,
)

length-read_slice :
    (n : ℕ) (s : Bytes) → (read_slice n s).stop ≡ full → length (read_slice n s).rest + n ≡ length s
unfolding read_slice
length-read_slice zero s h = omega arith
length-read_slice (suc n) [] h = absurd (cc)
length-read_slice (suc n) (c ∷ s) h = unfold cons_chunk in ground (arith, length-read_slice n s)

read_loop-by_byte :
    (size fuel max : ℕ) (buf s : Bytes)
    → 0 < size
    → length s < fuel
    → read_loop size fuel max buf s ≡ by_byte max buf s
unfolding read_loop settle
read_loop-by_byte size zero max buf s hs hf = absurd (omega arith)
read_loop-by_byte size (suc fuel) max buf s hs hf =
    let r = read_slice size s in
    ground (
      arith,
      by_byte-read_slice max size buf s,
      length-read_slice size s,
      read_loop-by_byte size fuel max (buf ++ r.chunk) r.rest,
    )

-- No byte is a newline.
abbrev pub no_newline : Bytes → Bool
no_newline = all (λ c. not (c == newline))

by_byte-append_newline :
    (max : ℕ) (buf line rest : Bytes)
    → no_newline line ≡ true
    → by_byte max buf (line ++ newline ∷ rest)
      ≡ (if leb (length buf + length line + 1) max then complete (buf ++ line) rest else too_long)
unfolding by_byte
by_byte-append_newline max buf [] rest h = ground (arith, append-nil buf)
by_byte-append_newline max buf (c ∷ line) rest h = ground (
  arith,
  by_byte-append_newline max (buf ++ c ∷ []) line rest,
  append_assoc buf (c ∷ []) line,
  length-append buf (c ∷ []),
)

by_byte_end :
    (max : ℕ) (buf line : Bytes)
    → no_newline line ≡ true
    → by_byte max buf line
      ≡ (if leb (length buf + length line) max then partial (buf ++ line) else too_long)
unfolding by_byte
by_byte_end max buf [] h = ground (arith, append-nil buf)
by_byte_end max buf (c ∷ line) h = ground (
  arith,
  by_byte_end max (buf ++ c ∷ []) line,
  append_assoc buf (c ∷ []) line,
  length-append buf (c ∷ []),
)

read_line-by_byte : (max : ℕ) (s : Bytes) → read_line max s ≡ by_byte max [] s
unfolding read_line
read_line-by_byte max s =
    read_loop-by_byte buffer_size (suc (length s)) max [] s (omega arith) (omega arith)

-- `readLine` gives back the bytes up to the first newline where they and the newline are within
-- `max`, and refuses the line otherwise. Without a newline it gives back what there is, if that is
-- within `max`. The buffer's size does not show.
pub read_line_cases :
    (max : ℕ) (line rest : Bytes)
    → no_newline line ≡ true
    → (read_line max (line ++ newline ∷ rest)
        ≡ (if leb (length line + 1) max then complete line rest else too_long))
      × (read_line max line ≡ (if leb (length line) max then partial line else too_long))
read_line_cases max line rest h = ground (
  arith,
  read_line-by_byte max (line ++ newline ∷ rest),
  read_line-by_byte max line,
  by_byte-append_newline max [] line rest h,
  by_byte_end max [] line h,
)

by_byte_sound :
    (max : ℕ) (buf s : Bytes) {line rest : Bytes}
    → no_newline buf ≡ true
    → by_byte max buf s ≡ complete line rest
    → (buf ++ s ≡ line ++ newline ∷ rest) × (no_newline line ≡ true) × (length line + 1 ≤ max)
unfolding by_byte
by_byte_sound max buf [] n e = ground arith
by_byte_sound max buf (c ∷ s) {line} {rest} n e = ground (
  arith,
  by_byte_sound max (buf ++ c ∷ []) s {line = line} {rest = rest},
  append_assoc buf (c ∷ []) s,
  all-append (λ c. not (c == newline)) buf (c ∷ []),
)

by_byte_partial :
    (max : ℕ) (buf s : Bytes) {line : Bytes}
    → no_newline buf ≡ true
    → by_byte max buf s ≡ partial line
    → (buf ++ s ≡ line) × (no_newline line ≡ true) × (length line ≤ max)
unfolding by_byte
by_byte_partial max buf [] n e = ground (arith, append-nil buf)
by_byte_partial max buf (c ∷ s) {line} n e = ground (
  arith,
  by_byte_partial max (buf ++ c ∷ []) s {line = line},
  append_assoc buf (c ∷ []) s,
  all-append (λ c. not (c == newline)) buf (c ∷ []),
)

-- What a complete line says of the input.
pub read_line_complete :
    (max : ℕ) (s : Bytes) {line rest : Bytes}
    → read_line max s ≡ complete line rest
    → (s ≡ line ++ newline ∷ rest) × (no_newline line ≡ true) × (length line + 1 ≤ max)
read_line_complete max s e = by_byte_sound max [] s refl (sym (read_line-by_byte max s) ∙ e)

pub read_line_partial :
    (max : ℕ) (s : Bytes) {line : Bytes}
    → read_line max s ≡ partial line
    → (s ≡ line) × (no_newline line ≡ true) × (length line ≤ max)
read_line_partial max s e = by_byte_partial max [] s refl (sym (read_line-by_byte max s) ∙ e)
