-- ===== src/Codexmsg.antt =====
-- codexmsg/: the client of the Codex app-server daemon.
pub mod Ws
pub mod Jsonrpc
pub mod Client
pub mod Handshake
pub mod Dial
pub mod Methods
