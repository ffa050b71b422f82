-- ===== src/Udsmsg/KeyFile/Decoded.antt =====
-- A key that is written is read as itself.
use harness_transport.Go.Json.Read.Objects.{Field, tree, object-Reads}
use harness_transport.Go.Json.Read.{quote-Reads, parse-whole}
use harness_transport.Go.Json.Store.Laws.{IsText, ascii-IsText}
use harness_transport.Go.Json.Store.{store_text, store_member, store_members, name_of, exact_name}
use harness_transport.Go.Json.Value.{text, object_of, parse, ◌>>=◌}
use harness_transport.Go.Json.{quote}
use harness_transport.Go.Strconv.{hex_digit, hex_string}
use harness_transport.Prelude.{
  ℕ, ◌/◌, ◌%◌, ◌<◌, ltb, all, arith, ◌≡◌, refl, ap, true, Bytes, [], ◌∷◌, some, codes, str_eq,
}
use harness_transport.Udsmsg.KeyFile.{
  Key, new_token, marshal_key, key_member, store_key, unmarshal_key,
}

-- What a key holds is UTF-8.
pub record AreTexts (k : Key) : Type 0 where
  pub peer_token : IsText k.peer_token
  pub proc_start : IsText k.proc_start
  pub pid_domain : IsText k.pid_domain

abbrev field : Bytes → Bytes → Field
field k v = (k, quote v, text v)

-- The JSON of a key whose texts are UTF-8 is decoded to the key.
pub unmarshal_key-marshal_key : (k : Key) → AreTexts k → unmarshal_key (marshal_key k) ≡ some k
unfolding unmarshal_key marshal_key store_key store_text store_member store_members key_member
    name_of exact_name str_eq
unmarshal_key-marshal_key k h =
    let token = field (codes "peerToken") k.peer_token in
    let others =
      field (codes "procStart") k.proc_start ∷ field (codes "pidDomain") k.pid_domain ∷ [] in
    let read : parse (marshal_key k) ≡ some (object_of (tree (token ∷ others))) =
      parse-whole (marshal_key k) (
        object-Reads 9999 token others [] (
          (ascii-IsText (codes "peerToken") refl, quote-Reads 9999 k.peer_token h.peer_token),
          (
            (ascii-IsText (codes "procStart") refl, quote-Reads 9999 k.proc_start h.proc_start),
            (
              (ascii-IsText (codes "pidDomain") refl, quote-Reads 9999 k.pid_domain h.pid_domain),
              tt,
            ),
          ),
        )) in
    ap (λ o. o >>= store_key) read

hex_digit-ascii : (d : ℕ) → d < 16 → ltb (hex_digit d) 0x80 ≡ true
unfolding hex_digit
hex_digit-ascii d h = ground arith

hex_string-ascii :
    (s : Bytes) → all (λ b. ltb b 256) s ≡ true → all (λ c. ltb c 0x80) (hex_string s) ≡ true
unfolding hex_string
hex_string-ascii [] h = refl
hex_string-ascii (b ∷ s) h =
    ground (arith, hex_string-ascii s, hex_digit-ascii (b / 16), hex_digit-ascii (b % 16))

-- A new token is ASCII.
pub new_token-IsText : (s : Bytes) → all (λ b. ltb b 256) s ≡ true → IsText (new_token s)
unfolding new_token
new_token-IsText s h = ascii-IsText (hex_string s) (hex_string-ascii s h)
