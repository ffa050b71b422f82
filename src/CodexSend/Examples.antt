-- ===== src/CodexSend/Examples.antt =====
-- The theorem on cmd/codex-send/main.go at a concrete daemon, and tests of its functions.
use harness_transport.Go.Strings.{join, equal_fold, fold_rune}
use harness_transport.CodexSend.{World, Options, run, exit_no_target}
use harness_transport.CodexSend.Exits.{calls_of, Ends, run-Ends}
use harness_transport.Codexmsg.Dial
use harness_transport.Codexmsg.Dial.{
  DialError, Stat, found, dial, socket_of, checked, check_socket_path, default_socket, home,
  control_socket_path,
}
use harness_transport.Codexmsg.Handshake.{request, ws_handshake, check_response, ws_accept}
use harness_transport.Codexmsg.Handshake
use harness_transport.Codexmsg.Jsonrpc.{
  rpc, as_error, is_method_not_found, is_code_method_not_found, code_method_not_found,
}
use harness_transport.Codexmsg.Methods.{Daemon, QueuedSubmission, explain}
use harness_transport.Go.Utf8.{runes_from}
use harness_transport.Prelude.{
  ◌≡◌, ◌⊎◌, refl, true, false, Bytes, [], ◌∷◌, some, none, ok, err, codes, str_eq, is_empty,
}

abbrev upgrade : Handshake.Peer
upgrade = record {
  nonce = some (1 ∷ []);
  sha1 = λ s. s;
  base64 = λ s. s;
  writes = true;
  answer = λ _. some (record { status = 101; upgrade = codes "WebSocket"; accept = 1 ∷ guid });
}
  where
    guid : Bytes
    guid = codes "258EAFA5-E914-47DA-95CA-C5AB0DC85B11"

-- An answer in capitals is taken for a WebSocket.
upgraded : (ws_handshake upgrade (codes "localhost") (codes "/")).1 ≡ none
unfolding ws_handshake check_response ws_accept equal_fold fold_rune runes_from str_eq
upgraded = refl

-- The Kelvin sign folds to a letter k.
folded : equal_fold ((0x212A, []) ∷ []) (codes "k") ≡ true
unfolding equal_fold fold_rune
folded = refl

abbrev host : Dial.Host
host = record {
  env_home = codes "/c";
  user_home = none;
  join = λ _. codes "/c/s";
  stat = λ _. found true;
  connect = λ _. some upgrade;
}

abbrev submission : QueuedSubmission
submission = record { id = codes "q1"; input = []; message_id = [] }

abbrev daemon : Daemon
daemon = record { answer = λ _. ok (codes "{}"); unmarshal = λ _. ok submission }

abbrev world : World
world = record { host = host; daemon = daemon; fresh = codes "u"; marshal_result = λ _. codes "{}" }

abbrev options : Options
options = record { to = codes "t"; socket = []; name = codes "codex-send"; json_out = false }

dialled_default : dial host (record { socket_path = []; path = [] }) ≡ ok (codes "/c/s")
unfolding dial socket_of default_socket home control_socket_path checked check_socket_path
    ws_handshake check_response ws_accept equal_fold fold_rune runes_from str_eq is_empty
dialled_default = refl

-- The daemon's own error stays within reach of a caller.
explained :
    is_method_not_found
      (explain (rpc (record { code = code_method_not_found; message = []; data_of = [] })))
    ≡ true
unfolding explain is_method_not_found as_error is_code_method_not_found
explained = refl

run-Ends_example :
    let (es, exit) = run world options (codes "hi" ∷ []) in
    ((exit ≡ exit_no_target)
      × (calls_of es ≡ [])
      × ((e : DialError) × (dial world.host (record { socket_path = options.socket; path = [] })
            ≡ err e)))
    ⊎ Ends world options (join (codes " ") (codes "hi" ∷ [])) (calls_of es) exit
run-Ends_example = run-Ends world options (codes "hi" ∷ [])
