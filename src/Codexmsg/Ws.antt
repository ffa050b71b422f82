-- ===== src/Codexmsg/Ws.antt =====
-- codexmsg/ws.go: the client half of RFC 6455, over a byte stream.
pub mod Spec
pub mod RoundTrip
pub mod Message
pub mod Termination
pub mod Fragments
mod Examples
use Prim.Native.Nat.{bit_and, bit_or, bit_xor}
use harness_transport.Go.Binary.{ReadError, read_full, put_be, get_be}
use harness_transport.Prelude.{
  ℕ, zero, suc, ◌+◌, ◌*◌, ◌%◌, ◌^◌, Bool, true, false, not, ◌||◌, Bytes, [], ◌∷◌, ◌++◌, Option,
  none, some, ltb, leb, ◌==◌, if◌then◌else◌, length, get_or, Result, ok, err, ◌>>=◌,
}

abbrev pub op_continuation : ℕ
op_continuation = 0x0

abbrev pub op_text : ℕ
op_text = 0x1

abbrev pub op_binary : ℕ
op_binary = 0x2

abbrev pub op_close : ℕ
op_close = 0x8

abbrev pub op_ping : ℕ
op_ping = 0x9

abbrev pub op_pong : ℕ
op_pong = 0xA

abbrev pub max_frame : ℕ
max_frame = 16 * 2 ^ 20

pub data Error : Type 0 where
  -- `io.ReadFull` on the connection
  read : ReadError → Error
  over_cap unknown_opcode : ℕ → Error
  no_mask write_failed inside_fragment nothing_to_continue : Error
  -- `io.EOF` for a close frame
  closed : Error

-- The random source and the connection: what the n-th draw gives, and whether the n-th write passes.
pub record Net : Type 0 where
  pub entropy : ℕ → Option Bytes
  pub accepts : ℕ → Bool

-- `input` is what the peer sends that has not been read, and `output` what was written to it.
pub record WsConn : Type 0 where
  pub input : Bytes
  pub output : Bytes
  pub draws : ℕ
  pub writes : ℕ

-- `b ^ mask[i%4]` from index `i` on; a mask has four bytes.
unfoldable pub xor_mask : Bytes → ℕ → Bytes → Bytes
xor_mask m i [] = []
xor_mask m i (b ∷ p) = bit_xor b (get_or m (i % 4) 0) ∷ xor_mask m (i + 1) p

-- `head[:n]`: the opcode with FIN, the length in one of three forms with the mask bit, the mask.
unfoldable pub write_head : ℕ → ℕ → Bytes → Bytes
write_head opcode n m =
    bit_or 0x80 opcode
    ∷ (if ltb n 126
        then bit_or n 0x80 ∷ m
        else if leb n 0xFFFF
        then bit_or 126 0x80 ∷ (put_be 2 n [] ++ m)
        else bit_or 127 0x80 ∷ (put_be 8 n [] ++ m))

-- `conn.Write`
write : Net → WsConn → Bytes → WsConn × Option Error
write e c bytes =
    let c' = record c { writes = c.writes + 1 } in
    if e.accepts c.writes
    then (record c' { output = c.output ++ bytes }, none)
    else (c', some write_failed)

write_masked : Net → WsConn × Option Error → Bytes → WsConn × Option Error
unfolding write
write_masked e (c, some x) p = (c, some x)
write_masked e (c, none) [] = (c, none)
write_masked e (c, none) (b ∷ p) = write e c (b ∷ p)

unfoldable pub write_frame : Net → WsConn → ℕ → Bytes → WsConn × Option Error
unfolding write_masked write_head xor_mask
write_frame e c opcode payload = elim (e.entropy c.draws) [
  | none ↦ (record c { draws = c.draws + 1 }, some no_mask)
  | some m ↦
      write_masked e
        (write e (record c { draws = c.draws + 1 }) (write_head opcode (length payload) m))
        (xor_mask m 0 payload)
]

unfoldable pub write_text : Net → WsConn → Bytes → WsConn × Option Error
unfolding write_frame
write_text e c payload = write_frame e c op_text payload

pub record Frame : Type 0 where
  pub opcode : ℕ
  pub payload : Bytes
  pub fin : Bool

-- `io.ReadFull` with this file's errors
unfoldable pub read_bytes : ℕ → Bytes → Result Error (Bytes × Bytes)
read_bytes n s = elim (read_full n s) [ ok r ↦ ok r | err x ↦ err (read x) ]

-- `ext`, read as a big-endian word of `k` bytes.
read_word : ℕ → Bytes → Result Error (ℕ × Bytes)
unfolding read_bytes
read_word k s = do (ext, rest) ← read_bytes k s; ok (get_be 0 ext, rest)

-- The payload length that the second byte announces.
unfoldable pub read_length : ℕ → Bytes → Result Error (ℕ × Bytes)
unfolding read_word
read_length n s = if n == 126 then read_word 2 s else if n == 127 then read_word 8 s else ok (n, s)

unfoldable pub read_mask : Bool → Bytes → Result Error (Bytes × Bytes)
unfolding read_bytes
read_mask masked s = if masked then read_bytes 4 s else ok ([], s)

-- The mask, where there is one, and the payload, unmasked.
unfoldable pub read_payload : Bool → ℕ → Bytes → Result Error (Bytes × Bytes)
unfolding read_bytes read_mask xor_mask
read_payload masked n s = do
  (m, s') ← read_mask masked s
  (p, rest) ← read_bytes n s'
  ok (if masked then xor_mask m 0 p else p, rest)

abbrev pub flag : ℕ → Bool
flag b = not (bit_and b 0x80 == 0)

-- What follows the two bytes of the head.
read_body : ℕ → ℕ → Bytes → Result Error (Frame × Bytes)
unfolding read_length read_payload
read_body b0 b1 s = do
  (n, s') ← read_length (bit_and b1 0x7F) s
  if ltb max_frame n then err (over_cap n) else do
    (p, rest) ← read_payload (flag b1) n s'
    ok (record { opcode = bit_and b0 0x0F; payload = p; fin = flag b0 }, rest)

-- `readFrame`, with the input behind the frame.
unfoldable pub read_frame : Bytes → Result Error (Frame × Bytes)
unfolding read_bytes read_body
read_frame s = do (head, s') ← read_bytes 2 s; read_body (get_or head 0 0) (get_or head 1 0) s'

-- One round of the loop in `ReadMessage`: it goes on with the connection, the opcode of the open
-- message and what was collected of it, or it returns.
pub data Round : Type 0 where
  again : WsConn → ℕ → Bytes → Round
  done : WsConn → Result Error Bytes → Round

-- The round behind the switch: `if fin { return buf, nil }`.
unfoldable pub collect : WsConn → ℕ → Bytes → Bool → Round
collect c op buf fin = if fin then done c (ok buf) else again c op buf

answer_ping : WsConn × Option Error → ℕ → Bytes → Round
answer_ping (c, some x) op buf = done c (err x)
answer_ping (c, none) op buf = again c op buf

unfoldable pub on_frame : Net → WsConn → ℕ → Bytes → Frame → Round
unfolding answer_ping collect
on_frame e c op buf f =
    if f.opcode == op_ping
    then answer_ping (write_frame e c op_pong f.payload) op buf
    else if f.opcode == op_pong
    then again c op buf
    else if f.opcode == op_close
    then done (write_frame e c op_close f.payload).0 (err closed)
    else if f.opcode == op_text || f.opcode == op_binary
    then (if ltb 0 (length buf)
        then done c (err inside_fragment)
        else collect c f.opcode f.payload f.fin)
    else if f.opcode == op_continuation
    then (if op == 0
        then done c (err nothing_to_continue)
        else collect c op (buf ++ f.payload) f.fin)
    else done c (err (unknown_opcode f.opcode))

-- The reader reads no more after an error, so what a failed read left is not kept.
unfoldable pub round : Net → WsConn → ℕ → Bytes → Round
unfolding on_frame
round e c op buf = elim (read_frame c.input) [
  | err x ↦ done c (err x)
  | ok (f, rest) ↦ on_frame e (record c { input = rest }) op buf f
]

-- The loop; `none` means that the fuel ran out.
unfoldable pub read_loop : Net → ℕ → WsConn → ℕ → Bytes → Option (WsConn × Result Error Bytes)
read_loop e zero c op buf = none
read_loop e (suc fuel) c op buf = elim (round e c op buf) [
  | done c' r ↦ some (c', r)
  | again c' op' buf' ↦ read_loop e fuel c' op' buf'
]

-- A frame takes a byte of the input at least, so this fuel is enough.
unfoldable pub read_message : Net → WsConn → Option (WsConn × Result Error Bytes)
read_message e c = read_loop e (suc (length c.input)) c 0 []

-- The status 1000 in a close frame, whose errors are ignored. The connection is then closed.
unfoldable pub close : Net → WsConn → WsConn
unfolding write_frame
close e c = (write_frame e c op_close (put_be 2 1000 [])).0
