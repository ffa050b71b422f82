-- ===== src/Udsmsg/Delivered/Examples.antt =====
-- A message between two concrete sessions.
use harness_transport.Go.Json.{object, quote, number}
use harness_transport.Go.Space.{trim_space, is_control}
use harness_transport.Go.Strconv.{itoa}
use harness_transport.Go.Utf8.{runes_from, encode_rune}
use harness_transport.Prelude.{
  ◌≡◌, refl, true, false, Bytes, [], ◌∷◌, ◌++◌, none, some, str_eq, is_empty, ok, codes,
}
use harness_transport.Udsmsg.Attrib.{CrossSession, asserted, unwrap, wrap, scrub_name, is_from}
use harness_transport.Udsmsg.Client.{
  User, Conn, Target, completed, content_of, frame_of, is_msg_id, hex_groups, build_user_frame,
  send, send_user, auth_frame, authenticate_to, dial,
}
use harness_transport.Go.Utf8.Valid.{are_valid}
use harness_transport.Udsmsg.Delivered.Decoded.{decoding, AreTexts, handle_conn-send_user_decoded}
use harness_transport.Go.Json.Store.Laws.{IsText}
use harness_transport.Udsmsg.Delivered.{sent_frame, new_conn}
use harness_transport.Udsmsg.Frame.{text}
use harness_transport.Udsmsg.Frame.Encode.{
  text_member, version_member, marshal_message, message_member, marshal_frame, encode_frame,
}
use harness_transport.Udsmsg.Server.{
  Server, Ucred, user, deadline_set, deadline_cleared, at_eof, handle_conn, peer_of,
}

abbrev fresh : Bytes
fresh = codes "00000000-0000-4000-8000-000000000000"

abbrev attribution : CrossSession
attribution = record { from = []; name = codes "me"; mode = [] }

abbrev message : User
message = record {
  text = codes "hi";
  from = [];
  from_mode = [];
  msg_id = [];
  attribution = some attribution;
  priority = [];
}

abbrev target : Target
target = record {
  pid = 0;
  proc_start = [];
  socket_path = codes "/s";
  token = codes "t";
  unauthenticated = false;
}

abbrev inbox : Server
inbox = record {
  unmarshal = λ _. none;
  token = codes "t";
  path = codes "/s";
  require_auth = true;
  allow_unidentified = false;
  has_user = true;
  has_unknown = false;
}

abbrev sender : Ucred
sender = record { pid = 7; uid = 0; gid = 0 }

abbrev dialled_conn : Conn
dialled_conn = record {
  output = marshal_frame (auth_frame (codes "t")) ++ (b'\n' ∷ []);
  accepts = λ _. true;
}

abbrev sent_conn : Conn
sent_conn = record {
  output = dialled_conn.output ++ (marshal_frame (sent_frame fresh message) ++ (b'\n' ∷ []));
  accepts = λ _. true;
}

dialled : dial (λ _ _. true) (λ _. some new_conn) target ≡ ok dialled_conn
unfolding dial authenticate_to send encode_frame marshal_frame object quote runes_from text_member
    version_member message_member is_empty
dialled = refl

sent : send_user fresh dialled_conn message ≡ (sent_conn, ok fresh)
unfolding send_user build_user_frame completed frame_of content_of is_msg_id hex_groups send
    encode_frame marshal_frame object quote number itoa runes_from text_member version_member
    message_member marshal_message wrap scrub_name is_from is_empty trim_space is_control
    encode_rune str_eq
sent = refl

token-IsText : IsText (codes "t")
unfolding runes_from are_valid
token-IsText = refl

message-AreTexts : AreTexts (completed fresh message)
unfolding runes_from are_valid completed content_of wrap scrub_name is_from is_empty trim_space
    is_control encode_rune str_eq
message-AreTexts = record { from = refl; from_mode = refl; priority = refl; content = refl }

handle_conn-send_user_decoded_example :
    (handle_conn (decoding inbox) (λ _. none) (some sender) sent_conn.output at_eof
      ≡ deadline_set
        ∷ deadline_cleared
        ∷ user
            (record (peer_of (λ _. none) sender) { addr = codes "/s"; authed = true })
            (record (sent_frame fresh message) { raw = marshal_frame (sent_frame fresh message) })
        ∷ [])
    × (unwrap (text (sent_frame fresh message)) ≡ (asserted attribution, codes "hi", true))
unfolding is_empty
handle_conn-send_user_decoded_example =
    handle_conn-send_user_decoded inbox (λ _. none) sender (λ _ _. true) fresh target message refl
      refl refl refl dialled sent token-IsText message-AreTexts
