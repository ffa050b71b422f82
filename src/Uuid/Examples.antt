-- ===== src/Uuid/Examples.antt =====
-- The theorem on message ids at concrete bytes, and an id as it is printed.
use harness_transport.Go.Strconv.{hex_string}
use harness_transport.Prelude.{arith, ◌≡◌, refl, true, Bytes, [], ◌∷◌, codes}
use harness_transport.Udsmsg.Client.{is_msg_id}
use harness_transport.Uuid.Order.{new_uuid_v7-str_lt}
use harness_transport.Go.Compare.{str_lt}
use harness_transport.Uuid.Shape.{new_uuid-is_msg_id}
use harness_transport.Uuid.{uuid_text, stamped, new_uuid, new_uuid_v7}

abbrev random : Bytes
random = 0 ∷ 1 ∷ 2 ∷ 3 ∷ 4 ∷ 5 ∷ 255 ∷ 7 ∷ 255 ∷ 9 ∷ 10 ∷ 11 ∷ 12 ∷ 13 ∷ 14 ∷ 255 ∷ []

printed : new_uuid random ≡ codes "00010203-0405-4f07-bf09-0a0b0c0d0eff"
unfolding new_uuid uuid_text stamped hex_string
printed = refl

new_uuid-is_msg_id_example :
    (is_msg_id (new_uuid random) ≡ true) × (is_msg_id (new_uuid_v7 1700000000000 random) ≡ true)
new_uuid-is_msg_id_example = new_uuid-is_msg_id random 1700000000000 refl refl

new_uuid_v7-str_lt_example :
    str_lt (new_uuid_v7 1700000000000 random) (new_uuid_v7 1700000000001 []) ≡ true
new_uuid_v7-str_lt_example =
    new_uuid_v7-str_lt 1700000000000 1700000000001 random [] (omega arith) (omega arith)
