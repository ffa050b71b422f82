-- ===== src/Codexmsg/Ws/Spec.antt =====
-- RFC 6455's frame layout in plain arithmetic, and `writeFrame` and `readFrame` against it.
use Prim.Native.Nat.{bit_and}
use harness_transport.Codexmsg.Ws.{
  Frame, xor_mask, write_head, max_frame, read_frame, read_word, read_length, read_payload,
  read_bytes, read_body, flag,
}
use harness_transport.Go.Binary.{put_be, length-put_be, get_be-put_be, read_full-append}
use harness_transport.Prelude.{
  ℕ, suc, ◌+◌, ◌%◌, ◌^◌, ◌≤◌, ◌<◌, ◌≡◌, refl, ap, Bool, true, false, Bytes, [], ◌∷◌, ◌++◌, Option,
  none, some, ltb, leb, if◌then◌else◌, length, get_or, arith, append_assoc, ok, le→ltb_false,
}
use harness_transport.Prelude.Bits.{bit_or_0x80, or_0x80, bit_and_0x7f, bit_and_0x80, bit_and_0x0f}
use harness_transport.Prelude.Xor.{bit_xor_twice}

-- FIN is bit 7 of the first byte, MASK of the second; lengths above 125 follow in 2 or 8 bytes.
abbrev pub bit7 : Bool → ℕ
bit7 true = 128
bit7 false = 0

abbrev pub length_field : ℕ → ℕ
length_field n = if ltb n 126 then n else if leb n 0xFFFF then 126 else 127

abbrev pub extended : ℕ → Bytes
extended n = if ltb n 126 then [] else if leb n 0xFFFF then put_be 2 n [] else put_be 8 n []

abbrev pub is_masked : Option Bytes → Bool
is_masked none = false
is_masked (some _) = true

abbrev pub masked_payload : Option Bytes → Bytes → Bytes
masked_payload none p = p
masked_payload (some m) p = m ++ xor_mask m 0 p

pub encode : Option Bytes → Frame → Bytes
encode m f =
    (f.opcode + bit7 f.fin)
    ∷ (length_field (length f.payload) + bit7 (is_masked m))
    ∷ (extended (length f.payload) ++ masked_payload m f.payload)

pub xor_mask_twice : (m : Bytes) (i : ℕ) (p : Bytes) → xor_mask m i (xor_mask m i p) ≡ p
unfolding xor_mask
xor_mask_twice m i [] = refl
xor_mask_twice m i (b ∷ p) = cc (bit_xor_twice b (get_or m (i % 4) 0), xor_mask_twice m (i + 1) p)

pub length-xor_mask : (m : Bytes) (i : ℕ) (p : Bytes) → length (xor_mask m i p) ≡ length p
unfolding xor_mask
length-xor_mask m i [] = refl
length-xor_mask m i (b ∷ p) = ap suc (length-xor_mask m (i + 1) p)

-- `head[:n]` and the masked payload are the frame that the layout asks for.
pub write_head-encode :
    (op : ℕ) (m p : Bytes)
    → op < 16
    → write_head op (length p) m ++ xor_mask m 0 p
      ≡ encode (some m) (record { opcode = op; payload = p; fin = true })
unfolding write_head encode
write_head-encode op m p h = ground (
  arith,
  or_0x80 op,
  bit_or_0x80 (length p),
  append_assoc (put_be 2 (length p) []) m (xor_mask m 0 p),
  append_assoc (put_be 8 (length p) []) m (xor_mask m 0 p),
)

read_bytes-append : (n : ℕ) (a s : Bytes) → length a ≡ n → read_bytes n (a ++ s) ≡ ok (a, s)
unfolding read_bytes
read_bytes-append n a s h = rw (read_full-append n a s h, read_bytes)

-- The length comes back from any of its three forms.
read_length-extended :
    (n : ℕ) (s : Bytes) → n < 2 ^ 64 → read_length (length_field n) (extended n ++ s) ≡ ok (n, s)
unfolding read_length read_word
read_length-extended n s h = ground (
  arith,
  read_bytes-append 2 (put_be 2 n []) s (length-put_be 2 n []),
  read_bytes-append 8 (put_be 8 n []) s (length-put_be 8 n []),
  get_be-put_be 2 n,
  get_be-put_be 8 n,
)

abbrev pub IsMask : Option Bytes → Type 0
IsMask none = Unit
IsMask (some m) = length m ≡ 4

read_payload-masked_payload :
    (m : Option Bytes) (p s : Bytes)
    → IsMask m
    → read_payload (is_masked m) (length p) (masked_payload m p ++ s) ≡ ok (p, s)
unfolding read_payload
read_payload-masked_payload none p s h = rw (read_bytes-append (length p) p s refl)
read_payload-masked_payload (some m) p s h = rw (
  append_assoc m (xor_mask m 0 p) s,
  read_bytes-append 4 m (xor_mask m 0 p ++ s) h,
  read_bytes-append (length p) (xor_mask m 0 p) s (length-xor_mask m 0 p),
  xor_mask_twice m 0 p,
)

first_byte :
    (op : ℕ) (fin : Bool)
    → op < 16
    → (bit_and (op + bit7 fin) 0x0F ≡ op) × (flag (op + bit7 fin) ≡ fin)
first_byte op true h = ground (arith, bit_and_0x0f (op + 128), bit_and_0x80 (op + 128))
first_byte op false h = ground (arith, bit_and_0x0f (op + 0), bit_and_0x80 (op + 0))

second_byte :
    (n : ℕ) (m : Option Bytes)
    → (bit_and (length_field n + bit7 (is_masked m)) 0x7F ≡ length_field n)
      × (flag (length_field n + bit7 (is_masked m)) ≡ is_masked m)
second_byte n (some m) =
    ground (arith, bit_and_0x7f (length_field n + 128), bit_and_0x80 (length_field n + 128))
second_byte n none =
    ground (arith, bit_and_0x7f (length_field n + 0), bit_and_0x80 (length_field n + 0))

read_body-encode :
    (b0 b1 : ℕ) (m : Option Bytes) (p rest : Bytes)
    → bit_and b1 0x7F ≡ length_field (length p)
    → flag b1 ≡ is_masked m
    → IsMask m
    → length p ≤ max_frame
    → read_body b0 b1 (extended (length p) ++ (masked_payload m p ++ rest))
      ≡ ok (record { opcode = bit_and b0 0x0F; payload = p; fin = flag b0 }, rest)
unfolding read_body
read_body-encode b0 b1 m p rest hl hf hm hp = rw (
  hl,
  read_length-extended (length p) (masked_payload m p ++ rest) (omega arith),
  le→ltb_false max_frame (length p) hp,
  hf,
  read_payload-masked_payload m p rest hm,
)

-- `readFrame` takes exactly one frame in the layout off the input, masked with four bytes or not, final
-- or not, whose opcode has four bits and whose payload is within the cap, and leaves what follows it.
pub read_frame-encode :
    (m : Option Bytes) (f : Frame) (rest : Bytes)
    → IsMask m
    → f.opcode < 16
    → length f.payload ≤ max_frame
    → read_frame (encode m f ++ rest) ≡ ok (f, rest)
unfolding read_frame encode
read_frame-encode m f rest hm ho hp =
    let b0 = f.opcode + bit7 f.fin in
    let b1 = length_field (length f.payload) + bit7 (is_masked m) in
    let body = extended (length f.payload) ++ (masked_payload m f.payload ++ rest) in
    let (e0, e1) = first_byte f.opcode f.fin ho in
    let (e2, e3) = second_byte (length f.payload) m in
    rw (
      append_assoc (extended (length f.payload)) (masked_payload m f.payload) rest,
      read_bytes-append 2 (b0 ∷ b1 ∷ []) body refl,
      read_body-encode b0 b1 m f.payload rest e2 e3 hm hp,
      e0,
      e1,
    )

-- A frame takes a byte at least.
pub length-encode : (f : Frame) → 1 ≤ length (encode none f)
unfolding encode
length-encode f = omega arith
