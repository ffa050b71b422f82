-- ===== src/Codexmsg/Handshake.antt =====
-- codexmsg/ws.go: the HTTP upgrade (`wsHandshake`). SHA-1, base64 and what `http.ReadResponse` makes of
-- the answer are parameters; the deadline is left out.
use harness_transport.Go.Strings.{equal_fold}
use harness_transport.Go.Utf8.{runes}
use harness_transport.Prelude.{
  ℕ, ◌==◌, Bool, not, Bytes, [], ◌++◌, Option, none, some, codes, str_eq, if◌then◌else◌,
}

abbrev pub ws_guid : Bytes
ws_guid = codes "258EAFA5-E914-47DA-95CA-C5AB0DC85B11"

-- An answer: its status, and its `Upgrade` and `Sec-WebSocket-Accept` headers.
pub record Response : Type 0 where
  pub status : ℕ
  pub upgrade : Bytes
  pub accept : Bytes

-- The nonce, the digest and its text, whether the request is written, and the answer to it.
pub record Peer : Type 0 where
  pub nonce : Option Bytes
  pub sha1 : Bytes → Bytes
  pub base64 : Bytes → Bytes
  pub writes : Bool
  pub answer : Bytes → Option Response

-- `wsAccept`
unfoldable pub ws_accept : Peer → Bytes → Bytes
ws_accept p key = p.base64 (p.sha1 (key ++ ws_guid))

unfoldable pub request : Bytes → Bytes → Bytes → Bytes
request host path key =
    codes "GET "
    ++ (path
        ++ (codes " HTTP/1.1\r\nHost: "
            ++ (host
                ++ (codes "\r\nUpgrade: websocket\r\nConnection: Upgrade\r\nSec-WebSocket-Key: "
                    ++ (key ++ codes "\r\nSec-WebSocket-Version: 13\r\n\r\n")))))

pub data HandshakeError : Type 0 where
  no_nonce not_sent no_response refused not_websocket wrong_token : HandshakeError

-- The checks of the answer.
unfoldable pub check_response : Peer → Bytes → Response → Option HandshakeError
check_response p key r =
    if not (r.status == 101)
    then some refused
    else if not (equal_fold (runes r.upgrade) (codes "websocket"))
    then some not_websocket
    else if not (str_eq r.accept (ws_accept p key))
    then some wrong_token
    else none

-- `wsHandshake`: the request where it was written, and the error.
unfoldable pub ws_handshake : Peer → Bytes → Bytes → Bytes × Option HandshakeError
ws_handshake p host path = elim p.nonce [
  | none ↦ ([], some no_nonce)
  | some n ↦
      let sent = request host path (p.base64 n) in
      if not p.writes then ([], some not_sent) else elim (p.answer sent) [
        | none ↦ (sent, some no_response)
        | some r ↦ (sent, check_response p (p.base64 n) r)
      ]
]
