-- ===== src/Uuid/Order.antt =====
-- The ids of `NewUUIDv7` are ordered by the time at which they were made.
use harness_transport.Go.Binary.{put_be, length-put_be}
use harness_transport.Go.Compare.{str_lt, str_lt-put_be, str_lt-hex_string, str_lt_insert}
use harness_transport.Go.Strconv.{hex_string, length-hex_string}
use harness_transport.Prelude.{
  ℕ, ◌*◌, ◌/◌, ◌%◌, ◌^◌, ◌<◌, ◌≡◌, refl, ap, true, Bytes, [], ◌∷◌, ◌++◌, length, take, drop, arith,
}
use harness_transport.Uuid.{uuid_text, stamped, new_uuid_v7}

-- The digits of the time.
abbrev time_digits : ℕ → Bytes
time_digits ms = hex_string (put_be 6 ms [])

-- The time takes the first six bytes.
time_bytes : (ms : ℕ) → ms < 2 ^ 48 → take 6 (put_be 8 (ms * 2 ^ 16 % 2 ^ 64) []) ≡ put_be 6 ms []
unfolding put_be
time_bytes ms h =
    let two : ms * 2 ^ 16 % 2 ^ 64 / 256 / 256 ≡ ms = omega arith in ap (λ t. put_be 6 t []) two

-- The digits of the time stand in front, with a dash behind the eighth.
time_first :
    (ms : ℕ) (random : Bytes)
    → (rest : Bytes) × (uuid_text (stamped 0x70 (put_be 6 ms [] ++ random))
        ≡ take 8 (time_digits ms) ++ b'-' ∷ (drop 8 (time_digits ms) ++ rest))
unfolding put_be stamped uuid_text hex_string
time_first ms random = (_, refl)

-- An id that was made at an earlier millisecond is, as a text, before one made at a later
-- millisecond, whatever their random bytes, if the later time is below 2⁴⁸.
pub new_uuid_v7-str_lt :
    (s t : ℕ) (random_s random_t : Bytes)
    → s < t
    → t < 2 ^ 48
    → str_lt (new_uuid_v7 s random_s) (new_uuid_v7 t random_t) ≡ true
unfolding new_uuid_v7
new_uuid_v7-str_lt s t random_s random_t h w =
    let (rest_s, e) = time_first s (drop 6 random_s) in
    let (rest_t, f) = time_first t (drop 6 random_t) in
    let same_length : length (time_digits s) ≡ length (time_digits t) = omega (
      arith,
      length-hex_string (put_be 6 s []),
      length-hex_string (put_be 6 t []),
      length-put_be 6 s [],
      length-put_be 6 t [],
    ) in
    rw (time_bytes s (omega arith), time_bytes t w, e, f)
      (str_lt_insert 8 b'-' (time_digits s) (time_digits t) rest_s rest_t same_length
        (str_lt-hex_string (put_be 6 s []) (put_be 6 t []) (str_lt-put_be 6 s t [] [] h w)))
