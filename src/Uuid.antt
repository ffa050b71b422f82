-- ===== src/Uuid.antt =====
-- Message ids: `newUUID` of udsmsg/session.go and `NewUUIDv7` of codexmsg/uuid.go. The random bytes
-- and the time are parameters.
pub mod Shape
pub mod Order
mod Examples
use Prim.Native.Nat.{bit_and, bit_or}
use harness_transport.Go.Binary.{put_be}
use harness_transport.Go.Strconv.{hex_string}
use harness_transport.Prelude.{
  ℕ, zero, suc, ◌*◌, ◌%◌, ◌^◌, Bytes, [], ◌∷◌, ◌++◌, take, drop, get_or, codes,
}

-- `h[0:8]-h[8:12]-h[12:16]-h[16:20]-h[20:32]` of the hexadecimal digits.
unfoldable pub uuid_text : Bytes → Bytes
uuid_text b =
    let h = hex_string b in
    take 8 h
    ++ b'-'
      ∷ (take 4 (drop 8 h)
          ++ b'-'
            ∷ (take 4 (drop 12 h) ++ b'-' ∷ (take 4 (drop 16 h) ++ b'-' ∷ take 12 (drop 20 h))))

-- `b[i] = x`
unfoldable pub set_at : ℕ → ℕ → Bytes → Bytes
set_at i x [] = []
set_at zero x (b ∷ s) = x ∷ s
set_at (suc i) x (b ∷ s) = b ∷ set_at i x s

-- The version in the high half of byte 6, and the variant in byte 8.
unfoldable pub stamped : ℕ → Bytes → Bytes
unfolding set_at
stamped version b =
    let b' = set_at 6 (bit_or (bit_and (get_or b 6 0) 0x0F) version) b in
    set_at 8 (bit_or (bit_and (get_or b' 8 0) 0x3F) 0x80) b'

-- `newUUID` of sixteen random bytes.
unfoldable pub new_uuid : Bytes → Bytes
new_uuid random = uuid_text (stamped 0x40 random)

-- `NewUUIDv7` of sixteen random bytes at a time in milliseconds.
unfoldable pub new_uuid_v7 : ℕ → Bytes → Bytes
new_uuid_v7 ms random =
    uuid_text (stamped 0x70 (take 6 (put_be 8 (ms * 2 ^ 16 % 2 ^ 64) []) ++ drop 6 random))
