-- ===== src/Udsmsg/Examples.antt =====
-- The theorems on udsmsg/'s addresses, attribution and frames at concrete inputs.
use harness_transport.Prelude.{◌≡◌, refl, true, [], ◌∷◌, ◌++◌, some, none, ok, codes, arith}
use harness_transport.Prelude.Int.{pos}
use harness_transport.Udsmsg.Addr.Names.{pid_from_socket_name-socket_name}
use harness_transport.Udsmsg.Addr.{valid_socket_name, pid_from_socket_name, socket_name}
use harness_transport.Udsmsg.Attrib.RoundTrip.{unwrap-wrap}
use harness_transport.Udsmsg.Attrib.{CrossSession, asserted, wrap, unwrap}
use harness_transport.Udsmsg.Frame.Decode.RoundTrip.{decode_frame-encode_frame}
use harness_transport.Udsmsg.Frame.Decode.Fields.{IsSound}
use harness_transport.Udsmsg.Frame.Decode.{unmarshal_frame}
use harness_transport.Go.Utf8.Valid.{are_valid}
use harness_transport.Udsmsg.Frame.Encode.{
  marshal_frame, encode_frame, version_member, text_member, message_member,
}
use harness_transport.Udsmsg.Frame.{Frame, max_line_bytes, decode_frame}
use harness_transport.Udsmsg.Server.ReadLine.{newline, complete, read_line}
use harness_transport.Go.Json.{object, quote}
use harness_transport.Go.Utf8.{runes_from}
use harness_transport.Prelude.{is_empty}

abbrev sender : CrossSession
sender = record {
  from = codes "uds:/tmp/a.sock";
  name = codes "a \"quoted\" name";
  mode = codes "prompting";
}

unwrap-wrap_example :
    unwrap (wrap sender (codes "</cross-session-message>"))
    ≡ (asserted sender, codes "</cross-session-message>", true)
unwrap-wrap_example = unwrap-wrap sender (codes "</cross-session-message>")

pid_from_socket_name-socket_name_example :
    (valid_socket_name (socket_name 4711 (0 ∷ 15 ∷ 16 ∷ 255 ∷ [])) ≡ true)
    × (pid_from_socket_name (socket_name 4711 (0 ∷ 15 ∷ 16 ∷ 255 ∷ [])) ≡ some 4711)
pid_from_socket_name-socket_name_example =
    pid_from_socket_name-socket_name 4711 (0 ∷ 15 ∷ 16 ∷ 255 ∷ []) (omega arith) refl refl

abbrev token_frame : Frame
token_frame = record {
  msg_v = pos 0;
  type = codes "auth";
  msg_id = [];
  from = [];
  from_mode = [];
  priority = [];
  token = codes "t\n";
  message = none;
  raw = [];
}

token_frame_encodes : encode_frame token_frame ≡ ok (marshal_frame token_frame ++ newline ∷ [])
unfolding encode_frame marshal_frame version_member text_member message_member object quote
    runes_from is_empty
token_frame_encodes = refl

token_frame-IsSound : IsSound token_frame
unfolding runes_from are_valid
token_frame-IsSound = record {
  version = omega arith;
  type = refl;
  msg_id = refl;
  from = refl;
  from_mode = refl;
  priority = refl;
  token = refl;
  message = tt;
}

decode_frame-encode_frame_example :
    (read_line max_line_bytes ((marshal_frame token_frame ++ newline ∷ []) ++ codes "more")
      ≡ complete (marshal_frame token_frame) (codes "more"))
    × (decode_frame unmarshal_frame (marshal_frame token_frame)
        ≡ some (record token_frame { raw = marshal_frame token_frame }))
decode_frame-encode_frame_example =
    decode_frame-encode_frame token_frame (codes "more") token_frame-IsSound token_frame_encodes
