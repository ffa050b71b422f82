-- ===== src/Udsmsg/Server/ReadLine.antt =====
-- `readLine` over a `bufio.Reader` of 64 KiB.
pub mod ByByte
use harness_transport.Prelude.{
  ℕ, zero, suc, ◌+◌, ◌*◌, ◌^◌, Bytes, [], ◌∷◌, ◌++◌, ltb, ◌==◌, if◌then◌else◌, length, ◌≡◌, ◌⊎◌,
  inl, inr, refl,
}

abbrev pub newline : ℕ
newline = b'\n'

-- The outcome of `readLine`, with the input that it leaves behind a complete line.
pub data Line : Type 0 where
  complete : Bytes → Bytes → Line
  partial : Bytes → Line
  too_long : Line

-- How `ReadSlice` ended: at the delimiter, with a full buffer, or with the stream.
pub data Stop : Type 0 where
  at_newline full ended : Stop

pub record Slice : Type 0 where
  pub chunk : Bytes
  pub stop : Stop
  pub rest : Bytes

cons_chunk : ℕ → Slice → Slice
cons_chunk c r = record r { chunk = c ∷ r.chunk }

-- `ReadSlice('\n')` with room for `n` bytes.
read_slice : ℕ → Bytes → Slice
unfolding cons_chunk
read_slice zero s = record { chunk = []; stop = full; rest = s }
read_slice (suc n) [] = record { chunk = []; stop = ended; rest = [] }
read_slice (suc n) (c ∷ s) =
    let more = cons_chunk c (read_slice n s) in
    if c == newline then record { chunk = c ∷ []; stop = at_newline; rest = s } else more

abbrev buffer_size : ℕ
buffer_size = 64 * 2 ^ 10

drop_last : Bytes → Bytes
drop_last [] = []
drop_last (c ∷ []) = []
drop_last (c ∷ d ∷ s) = c ∷ drop_last (d ∷ s)

-- The loop of `readLine` with a buffer of `size` bytes.
read_loop : ℕ → ℕ → ℕ → Bytes → Bytes → Line
unfolding read_slice drop_last
read_loop size zero max buf s = too_long
read_loop size (suc fuel) max buf s =
    let r = read_slice size s in
    let buf' = buf ++ r.chunk in
    let more = read_loop size fuel max buf' r.rest in
    if ltb max (length buf + length r.chunk) then too_long else elim r.stop [
      | full ↦ more
      | ended ↦ partial buf'
      | at_newline ↦ complete (drop_last buf') r.rest
    ]

-- A full buffer takes bytes off the input, so this fuel is enough.
unfoldable pub read_line : ℕ → Bytes → Line
unfolding read_loop
read_line max s = read_loop buffer_size (suc (length s)) max [] s

pub Line-cases :
    (l : Line)
    → (l ≡ too_long)
      ⊎ ((line : Bytes) × (l ≡ partial line))
      ⊎ ((line : Bytes) × (rest : Bytes) × (l ≡ complete line rest))
Line-cases too_long = inl refl
Line-cases (partial line) = inr (inl (line, refl))
Line-cases (complete line rest) = inr (inr (line, rest, refl))
