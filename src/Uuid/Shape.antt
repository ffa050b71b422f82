-- ===== src/Uuid/Shape.antt =====
-- The generated ids have the shape that `BuildUserFrame` asks for.
use Prim.Native.Nat.{bit_and, bit_or}
use harness_transport.Go.Binary.{put_be, length-put_be, put_be-bytes}
use harness_transport.Go.Strconv.{length-hex_string, hex_digit, hex_string}
use harness_transport.Prelude.Bits.{
  bit_and_0x0f, bit_and_0x3f, bit_or_0x80, bit_or_0x40, bit_or_0x70,
}
use harness_transport.Prelude.{
  ℕ, zero, suc, ◌+◌, ◌*◌, ◌/◌, ◌%◌, ◌^◌, ◌≤◌, ◌<◌, ◌≡◌, refl, ◌∙◌, true, Bool, Bytes, List, [], ◌∷◌,
  ◌++◌, length, take, drop, get_or, length-take, length-drop, length-append, all, all-take,
  all-append, ltb, ltb→lt, arith, sym,
}
use harness_transport.Udsmsg.Client.{is_hex_char, hex_groups, is_msg_id}
use harness_transport.Uuid.{uuid_text, set_at, stamped, new_uuid, new_uuid_v7}

abbrev pub is_byte : ℕ → Bool
is_byte b = ltb b 256

hex_digit-hex : (d : ℕ) → d < 16 → is_hex_char (hex_digit d) ≡ true
unfolding hex_digit
hex_digit-hex d h = ground arith

hex_string-hex : (s : Bytes) → all is_byte s ≡ true → all is_hex_char (hex_string s) ≡ true
unfolding hex_string
hex_string-hex [] h = refl
hex_string-hex (b ∷ s) h =
    ground (arith, hex_string-hex s, hex_digit-hex (b / 16), hex_digit-hex (b % 16))

all-drop : (p : ℕ → Bool) (n : ℕ) (s : Bytes) → all p s ≡ true → all p (drop n s) ≡ true
all-drop p zero s h = h
all-drop p (suc n) [] h = refl
all-drop p (suc n) (x ∷ s) h = all-drop p n s (ground arith)

-- A group of digits of the right size is passed.
hex_groups-append :
    (a : Bytes) (ns : List ℕ) (s : Bytes)
    → all is_hex_char a ≡ true
    → hex_groups (length a) ns (a ++ s) ≡ hex_groups 0 ns s
unfolding hex_groups
hex_groups-append [] ns s h = refl
hex_groups-append (c ∷ a) ns s h = ground (arith, hex_groups-append a ns s)

hex_group :
    (k : ℕ) (a : Bytes) (ns : List ℕ) (s : Bytes)
    → length a ≡ k
    → all is_hex_char a ≡ true
    → hex_groups k ns (a ++ s) ≡ hex_groups 0 ns s
hex_group k a ns s e h = rw (sym e) (hex_groups-append a ns s h)

hex_last : (k : ℕ) (a : Bytes) → length a ≡ k → all is_hex_char a ≡ true → hex_groups k [] a ≡ true
unfolding hex_groups
hex_last k [] e h = rw (sym e) refl
hex_last zero (c ∷ a) e h = absurd (omega (arith, e))
hex_last (suc k) (c ∷ a) e h = ground (arith, hex_last k a (omega arith))

-- A part of the digits.
part_length : (i k : ℕ) (h : Bytes) → i + k ≤ length h → length (take k (drop i h)) ≡ k
part_length i k h le = omega (arith, length-take k (drop i h), length-drop i h)

part_hex :
    (i k : ℕ) (h : Bytes) → all is_hex_char h ≡ true → all is_hex_char (take k (drop i h)) ≡ true
part_hex i k h a = all-take is_hex_char k (drop i h) (all-drop is_hex_char i h a)

-- The text of any sixteen bytes is a message id.
pub uuid_text-is_msg_id :
    (b : Bytes) → length b ≡ 16 → all is_byte b ≡ true → is_msg_id (uuid_text b) ≡ true
unfolding uuid_text is_msg_id hex_groups
uuid_text-is_msg_id b n bytes =
    let h = hex_string b in
    let long : length h ≡ 32 = omega (arith, length-hex_string b) in
    let hex = hex_string-hex b bytes in
    let fifth =
      hex_last 12 (take 12 (drop 20 h)) (part_length 20 12 h (omega arith))
        (part_hex 20 12 h hex) in
    let tail4 = b'-' ∷ take 12 (drop 20 h) in
    let tail3 = b'-' ∷ (take 4 (drop 16 h) ++ tail4) in
    let tail2 = b'-' ∷ (take 4 (drop 12 h) ++ tail3) in
    let tail1 = b'-' ∷ (take 4 (drop 8 h) ++ tail2) in
    hex_group 8 (take 8 h) (4 ∷ 4 ∷ 4 ∷ 12 ∷ []) tail1 (part_length 0 8 h (omega arith))
      (part_hex 0 8 h hex)
    ∙ hex_group 4 (take 4 (drop 8 h)) (4 ∷ 4 ∷ 12 ∷ []) tail2 (part_length 8 4 h (omega arith))
        (part_hex 8 4 h hex)
    ∙ hex_group 4 (take 4 (drop 12 h)) (4 ∷ 12 ∷ []) tail3 (part_length 12 4 h (omega arith))
        (part_hex 12 4 h hex)
    ∙ hex_group 4 (take 4 (drop 16 h)) (12 ∷ []) tail4 (part_length 16 4 h (omega arith))
        (part_hex 16 4 h hex)
    ∙ fifth

get_or-byte : (i : ℕ) (b : Bytes) → all is_byte b ≡ true → get_or b i 0 < 256
get_or-byte i [] h = omega arith
get_or-byte zero (x ∷ b) h = ltb→lt x 256 (ground arith)
get_or-byte (suc i) (x ∷ b) h = get_or-byte i b (ground arith)

set_at-bytes :
    (i x : ℕ) (b : Bytes) → x < 256 → all is_byte b ≡ true → all is_byte (set_at i x b) ≡ true
unfolding set_at
set_at-bytes i x [] hx h = refl
set_at-bytes zero x (y ∷ b) hx h = ground arith
set_at-bytes (suc i) x (y ∷ b) hx h = ground (arith, set_at-bytes i x b hx)

length-set_at : (i x : ℕ) (b : Bytes) → length (set_at i x b) ≡ length b
unfolding set_at
length-set_at i x [] = refl
length-set_at zero x (y ∷ b) = refl
length-set_at (suc i) x (y ∷ b) = omega (arith, length-set_at i x b)

variant_byte : (x : ℕ) → x < 256 → bit_or (bit_and x 0x3F) 0x80 < 256
variant_byte x h =
    omega (arith, bit_and_0x3f x h, bit_or_0x80 (bit_and x 0x3F) (omega (arith, bit_and_0x3f x h)))

-- A version that keeps the low half of a byte a byte.
abbrev IsVersion : ℕ → Type 0
IsVersion v = (x : ℕ) → x < 16 → bit_or x v < 256

four-IsVersion : IsVersion 0x40
four-IsVersion x h = omega (arith, bit_or_0x40 x h)

seven-IsVersion : IsVersion 0x70
seven-IsVersion x h = omega (arith, bit_or_0x70 x h)

stamped-is_msg_id :
    (v : ℕ) (b : Bytes)
    → IsVersion v
    → length b ≡ 16
    → all is_byte b ≡ true
    → is_msg_id (uuid_text (stamped v b)) ≡ true
unfolding stamped
stamped-is_msg_id v b hv n h =
    let x = bit_or (bit_and (get_or b 6 0) 0x0F) v in
    let low : bit_and (get_or b 6 0) 0x0F < 16 =
      omega (arith, bit_and_0x0f (get_or b 6 0) (get_or-byte 6 b h)) in
    let b' = set_at 6 x b in
    let bytes = set_at-bytes 6 x b (hv (bit_and (get_or b 6 0) 0x0F) low) h in
    let y = bit_or (bit_and (get_or b' 8 0) 0x3F) 0x80 in
    uuid_text-is_msg_id (set_at 8 y b') (length-set_at 8 y b' ∙ (length-set_at 6 x b ∙ n))
      (set_at-bytes 8 y b' (variant_byte (get_or b' 8 0) (get_or-byte 8 b' bytes)) bytes)

timed-bytes :
    (t : ℕ) (random : Bytes)
    → all is_byte random ≡ true
    → all is_byte (take 6 (put_be 8 t []) ++ drop 6 random) ≡ true
timed-bytes t random h =
    all-append is_byte (take 6 (put_be 8 t [])) (drop 6 random)
    ∙ rw (all-take is_byte 6 (put_be 8 t []) (put_be-bytes 8 t), all-drop is_byte 6 random h) refl

length-timed :
    (t : ℕ) (random : Bytes)
    → length random ≡ 16
    → length (take 6 (put_be 8 t []) ++ drop 6 random) ≡ 16
length-timed t random n = omega (
  arith,
  length-append (take 6 (put_be 8 t [])) (drop 6 random),
  length-take 6 (put_be 8 t []),
  length-put_be 8 t [],
  length-drop 6 random,
)

-- From any sixteen random bytes, and at any time, both generators make an id of the shape that is
-- checked on a user frame.
pub new_uuid-is_msg_id :
    (random : Bytes) (ms : ℕ)
    → length random ≡ 16
    → all is_byte random ≡ true
    → (is_msg_id (new_uuid random) ≡ true) × (is_msg_id (new_uuid_v7 ms random) ≡ true)
unfolding new_uuid new_uuid_v7
new_uuid-is_msg_id random ms n h =
    let t = ms * 2 ^ 16 % 2 ^ 64 in
    (
      stamped-is_msg_id 0x40 random four-IsVersion n h,
      stamped-is_msg_id 0x70 (take 6 (put_be 8 t []) ++ drop 6 random) seven-IsVersion
          (length-timed t random n) (timed-bytes t random h),
    )
