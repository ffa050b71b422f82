-- ===== src/Codexmsg/Ws/Termination.antt =====
-- What a frame takes off the input, the cap on its payload, and that `ReadMessage` comes to an end.
use Prim.Native.Nat.{bit_and}
use harness_transport.Codexmsg.Ws.{
  WsConn, Net, Error, Frame, max_frame, read_bytes, read_word, read_length, read_mask, read_payload,
  read_body, read_frame, xor_mask, write_head, flag, write_frame, write, write_masked, Round, again,
  done, answer_ping, on_frame, round, read_loop, read_message, op_pong,
}
use harness_transport.Codexmsg.Ws.Spec.{length-xor_mask}
use harness_transport.Go.Binary.{length-read_full, read_full, read_full_splits}
use harness_transport.Prelude.{
  ℕ, zero, suc, ◌+◌, ◌≤◌, ◌<◌, ◌≡◌, ◌⊎◌, refl, ◌∙◌, Bool, true, false, Bytes, [], ◌∷◌, Option, none,
  some, length, get_or, arith, ok, inl, inr, Bool-cases, ltb, ◌==◌, Result-cases, Result,
  bind-eq-ok, Option-cases,
}

length-read_bytes :
    (n : ℕ) (s : Bytes) {a rest : Bytes}
    → read_bytes n s ≡ ok (a, rest)
    → (length s ≡ n + length rest) × (length a ≡ n)
unfolding read_bytes
length-read_bytes n s {a} {rest} e = elim (Result-cases (read_full n s)) [
  | inl ((b, r), g) ↦
      let (_, l) = read_full_splits n s g in
      ground (arith, length-read_full n s g, l, rw (g, read_bytes) at e)
  | inr (x, g) ↦ absurd (cc (rw (g, read_bytes) at e))
]

length-read_word :
    (k : ℕ) (s : Bytes) {m : ℕ} {rest : Bytes}
    → read_word k s ≡ ok (m, rest)
    → length rest ≤ length s
unfolding read_word
length-read_word k s e =
    let ((a, r), g, i) = bind-eq-ok (read_bytes k s) _ e in ground (arith, length-read_bytes k s g)

length-read_length :
    (n : ℕ) (s : Bytes) {m : ℕ} {rest : Bytes}
    → read_length n s ≡ ok (m, rest)
    → length rest ≤ length s
unfolding read_length
length-read_length n s {m} {rest} e = elim (Bool-cases (n == 126)) [
  | inl h ↦ length-read_word 2 s (rw h at e)
  | inr h ↦ elim (Bool-cases (n == 127)) [
    | inl g ↦ length-read_word 8 s (rw (h, g) at e)
    | inr g ↦ ground arith
  ]
]

length-read_mask :
    (masked : Bool) (s : Bytes) {m rest : Bytes}
    → read_mask masked s ≡ ok (m, rest)
    → length rest ≤ length s
unfolding read_mask
length-read_mask true s e = let (l, _) = length-read_bytes 4 s e in omega (arith, l)
length-read_mask false s e = ground arith

length-read_payload :
    (masked : Bool) (n : ℕ) (s : Bytes) {p rest : Bytes}
    → read_payload masked n s ≡ ok (p, rest)
    → (length rest + n ≤ length s) × (length p ≡ n)
unfolding read_payload
length-read_payload masked n s e =
    let ((m, s'), g, i) = bind-eq-ok (read_mask masked s) _ e in
    let ((q, r), j, k) = bind-eq-ok (read_bytes n s') _ i in
    let (a, b) = length-read_bytes n s' j in
    ground (arith, length-read_mask masked s g, a, b, length-xor_mask m 0 q)

length-read_body :
    (b0 b1 : ℕ) (s : Bytes) {f : Frame} {rest : Bytes}
    → read_body b0 b1 s ≡ ok (f, rest)
    → (length rest + length f.payload ≤ length s) × (length f.payload ≤ max_frame)
unfolding read_body
length-read_body b0 b1 s e =
    let ((n, s'), g, i) = bind-eq-ok (read_length (bit_and b1 0x7F) s) _ e in
    elim (Bool-cases (ltb max_frame n)) [
      | inl over ↦ absurd (cc (rw over at i))
      | inr under ↦
          let ((p, r), j, k) = bind-eq-ok (read_payload (flag b1) n s') _ (rw under at i) in
          let (a, b) = length-read_payload (flag b1) n s' j in
          ground (arith, length-read_length (bit_and b1 0x7F) s g, a, b)
    ]

-- Whatever the peer sends: a frame that `readFrame` returns took its two bytes of head and its
-- payload off the input at least, and its payload is within the cap.
pub read_frame_bounds :
    (s : Bytes) {f : Frame} {rest : Bytes}
    → read_frame s ≡ ok (f, rest)
    → (2 + length f.payload + length rest ≤ length s) × (length f.payload ≤ max_frame)
unfolding read_frame
read_frame_bounds s e =
    let ((head, s'), g, i) = bind-eq-ok (read_bytes 2 s) _ e in
    let (a, b) = length-read_body (get_or head 0 0) (get_or head 1 0) s' i in
    let (c, d) = length-read_bytes 2 s g in omega (arith, a, b, c)

write-input : (e : Net) (c : WsConn) (b : Bytes) → (write e c b).0.input ≡ c.input
unfolding write
write-input e c b = ground arith

write_masked-input :
    (e : Net) (r : WsConn × Option Error) (p : Bytes) → (write_masked e r p).0.input ≡ r.0.input
unfolding write_masked
write_masked-input e (c, some x) p = refl
write_masked-input e (c, none) [] = refl
write_masked-input e (c, none) (b ∷ p) = write-input e c (b ∷ p)

pub write_frame-input :
    (e : Net) (c : WsConn) (op : ℕ) (p : Bytes) → (write_frame e c op p).0.input ≡ c.input
unfolding write_frame
write_frame-input e c op p = elim (Option-cases (e.entropy c.draws)) [
  | inl n ↦ rw (n, write_frame)
  | inr (m, d) ↦
      let c' = record c { draws = c.draws + 1 } in
      let head = write_head op (length p) m in
      rw (d, write_frame)
        (write_masked-input e (write e c' head) (xor_mask m 0 p) ∙ write-input e c' head)
]

answer_ping_again :
    (r : WsConn × Option Error) (op : ℕ) (buf : Bytes) {c' : WsConn} {op' : ℕ} {buf' : Bytes}
    → answer_ping r op buf ≡ again c' op' buf'
    → length c'.input ≡ length r.0.input
unfolding answer_ping
answer_ping_again (c, some x) op buf g = absurd (cc)
answer_ping_again (c, none) op buf g = ground arith

on_frame_again :
    (e : Net) (c : WsConn) (op : ℕ) (buf : Bytes) (f : Frame) {c' : WsConn} {op' : ℕ} {buf' : Bytes}
    → on_frame e c op buf f ≡ again c' op' buf'
    → length c'.input ≡ length c.input
unfolding on_frame
on_frame_again e c op buf f {c'} {op'} {buf'} g = ground (
  arith,
  answer_ping_again (write_frame e c op_pong f.payload) op buf {c' = c'} {op' = op'} {buf' = buf'},
  write_frame-input e c op_pong f.payload,
)

-- A round that goes on has taken something off the input.
round_again :
    (e : Net) (c : WsConn) (op : ℕ) (buf : Bytes) {c' : WsConn} {op' : ℕ} {buf' : Bytes}
    → round e c op buf ≡ again c' op' buf'
    → length c'.input < length c.input
unfolding round
round_again e c op buf g = elim (Result-cases (read_frame c.input)) [
  | inl ((f, rest), r) ↦
      let (b, _) = read_frame_bounds c.input r in
      omega (arith, on_frame_again e (record c { input = rest }) op buf f (rw (r, round) at g), b)
  | inr (x, r) ↦ absurd (cc (rw (r, round) at g))
]

Round-cases :
    (r : Round)
    → ((c : WsConn) × (op : ℕ) × (buf : Bytes) × (r ≡ again c op buf))
      ⊎ ((c : WsConn) × (x : Result Error Bytes) × (r ≡ done c x))
Round-cases (again c op buf) = inl (c, op, buf, refl)
Round-cases (done c x) = inr (c, x, refl)

read_loop_total :
    (e : Net) (fuel : ℕ) (c : WsConn) (op : ℕ) (buf : Bytes)
    → length c.input < fuel
    → (r : WsConn × Result Error Bytes) × (read_loop e fuel c op buf ≡ some r)
unfolding read_loop
read_loop_total e zero c op buf h = absurd (omega arith)
read_loop_total e (suc fuel) c op buf h = elim (Round-cases (round e c op buf)) [
  | inl (c', op', buf', g) ↦
      rw (g, read_loop)
        (read_loop_total e fuel c' op' buf' (omega (arith, round_again e c op buf g)))
  | inr (c', x, g) ↦ ((c', x), rw (g, read_loop))
]

-- Whatever the peer sends before it ends the stream, `ReadMessage` comes back with a message or
-- an error: its loop never runs out of the fuel that the input's length gives.
pub read_message_total :
    (e : Net) (c : WsConn) → (r : WsConn × Result Error Bytes) × (read_message e c ≡ some r)
unfolding read_message
read_message_total e c = read_loop_total e (suc (length c.input)) c 0 [] (omega arith)
