-- ===== src/Udsmsg/Frame/Decode/Examples.antt =====
-- Lines as other programs write them, decoded.
use harness_transport.Go.Json.Text.{unicode_unit}
use harness_transport.Go.Json.Value.{
  read_value, parse, skip_white, read_object, expect, read_members, scalar, read_array, read_items,
}
use harness_transport.Go.Strconv.{digits_value}
use harness_transport.Go.Utf8.{runes_from, decode_rune, encode_rune}
use harness_transport.Prelude.Find.{span, cut_prefix}
use harness_transport.Prelude.Int.{negsuc}
use harness_transport.Prelude.{◌≡◌, refl, Bytes, [], ◌∷◌, ◌++◌, none, some, codes, str_eq, is_empty}
use harness_transport.Go.Json.Store.{fold_rune, int_of}
use harness_transport.Udsmsg.Frame.Decode.{unmarshal_frame, empty_frame}

-- White space, a name in capitals, an unknown member with nested values, and a surrogate pair.
abbrev foreign : Bytes
foreign =
    codes " { \"TYPE\" : \"user\" , \"extra\" : [ 1.5e3 , { \"a\" : null } , true ] ,"
    ++ codes "\"msgV\":-2,\"message\":{\"content\":\"\\ud83d\\ude00\"} } "

foreign_decoded :
    unmarshal_frame foreign
    ≡ some (record empty_frame {
      msg_v = negsuc 1;
      type = codes "user";
      message = some (record { role = []; content = 0xF0 ∷ 0x9F ∷ 0x98 ∷ 0x80 ∷ [] });
    })
unfolding unmarshal_frame parse read_value skip_white runes_from encode_rune span cut_prefix str_eq
    is_empty fold_rune int_of digits_value read_object expect read_members scalar read_array
    read_items unicode_unit
foreign_decoded = refl

-- A number where a text belongs.
mistyped_refused : unmarshal_frame (codes "{\"type\":7}") ≡ none
unfolding unmarshal_frame parse read_value skip_white span str_eq is_empty read_object expect
    read_members decode_rune scalar encode_rune
mistyped_refused = refl

-- A trailing comma.
comma_refused : unmarshal_frame (codes "{\"type\":\"a\",}") ≡ none
unfolding unmarshal_frame parse read_value skip_white runes_from encode_rune str_eq is_empty
    read_object expect read_members scalar
comma_refused = refl
