-- ===== src/Lib.antt =====
-- A model of harness-transport: two transports that push a message into a running agent session,
-- and the package that delivers into the harness that launched the process.
--
-- The parts and how they interact. udsmsg speaks newline-delimited JSON frames over a Unix socket:
-- udsmsg/frame.go is Udsmsg/Frame (encodeFrame in Udsmsg/Frame/Encode, decodeFrame with
-- encoding/json in Udsmsg/Frame/Decode), udsmsg/attrib.go is Udsmsg/Attrib (Wrap, Unwrap and their
-- patterns), udsmsg/addr.go is Udsmsg/Addr, udsmsg/client.go is Udsmsg/Client (BuildUserFrame,
-- Send, SendUser, Dial), and the connection handling of udsmsg/server.go and peer.go is
-- Udsmsg/Server, with readLine in Udsmsg/Server/ReadLine and Serve in Udsmsg/Server/Accepting;
-- Listen and Close are Udsmsg/Listen, udsmsg/discover.go is Udsmsg/Discover, udsmsg/proc.go is
-- Udsmsg/Proc, udsmsg/keyfile.go is Udsmsg/KeyFile and udsmsg/session.go is Udsmsg/Session.
-- Udsmsg/Delivered joins the client and the inbox. Udsmsg/Platform has peerCred and ownerUID as
-- peer_linux.go, peer_darwin.go, peer_other.go, owner_unix.go and owner_other.go in udsmsg have
-- them; the inbox takes the credentials of Udsmsg/Server. codexmsg reaches a daemon over a
-- WebSocket: codexmsg/ws.go is Codexmsg/Ws with its upgrade in Codexmsg/Handshake,
-- codexmsg/jsonrpc.go is Codexmsg/Jsonrpc, and codexmsg/client.go is Codexmsg/Client, whose
-- actions are the critical sections of Call, readLoop and fail, and Codexmsg/Client/Fate what a
-- single call sees of them; codexmsg/discover.go and Dial are Codexmsg/Dial, codexmsg/methods.go
-- is Codexmsg/Methods. deliver sits on both: deliver/deliver.go is Deliver (compose,
-- threadIDFromMeta) and Deliver/Open (the options, Open, the environment), with the backend for no
-- harness in Deliver/Unavailable, deliver/codex.go is Deliver/Codex and deliver/claude.go is
-- Deliver/Claude. The message ids of both transports, newUUID of udsmsg/session.go and
-- codexmsg/uuid.go, are Uuid. The commands stand on the transports: cmd/claude-send/main.go is
-- ClaudeSend (accepter in ClaudeSend/Accept, await in ClaudeSend/Await, resolve and the message in
-- ClaudeSend/Message, send and run in ClaudeSend/Run), and cmd/codex-send/main.go is CodexSend.
--
-- Prelude holds the shared types, tests, list lemmas and results; Go holds the parts of Go's
-- standard library that the code relies on, written from their documentation: big-endian words and
-- io.ReadFull (Binary), JSON as encoding/json writes it (Json) and reads it (Json/Text for
-- strings, Json/Value for values), UTF-8 (Utf8), spaces and control characters (Space),
-- strings.Fields (Fields), other functions of package strings (Strings), decimal and hexadecimal
-- numbers (Strconv), the order of strings (Compare).
--
-- Disk is the file system as the registry and the key files use it: an unknown state, the calls of
-- package os, and what is documented of them; Disk/Replace is the write through a temporary name,
-- and Disk/Memory a disk that meets the laws.
--
-- State is passed explicitly. A connection is the bytes still to be read and the bytes written;
-- what a server does is a list of events, and what the Codex backend asks of the daemon a list of
-- calls. Everything outside the code is a parameter: the random source, the outcome of writes, the
-- daemon's answers, SHA-256, json.Unmarshal of anything but a frame and a key, the kernel's
-- credentials, and what other callers do to a backend while its lock is free. What EvalSymlinks
-- answers is a function of the path while the files stay; Close looks its key up with the socket gone.
--
-- Numbers are natural numbers; frame lengths are at most 2^20 or 2^24, well within an int. Fuel:
-- the message loop of Ws takes a byte of its input in every round and readLine takes bytes or
-- ends, so both are given the input's length and one more; the attribute scan is given the tag's
-- length. The fuel of decimal printing is the number itself and one more. A JSON value is read by
-- recursion on the depth that is left of encoding/json's ten thousand, and the members of an
-- object on the length of what follows its brace and one more, since each takes a byte at least.
--
-- Not modelled: timeouts beyond the points where the deadline is set and cleared, the parsing of
-- flags and the usage texts, and the texts of most errors.
pub mod ClaudeSend
pub mod CodexSend
pub mod Codexmsg
pub mod Deliver
pub mod Disk
pub mod Go
pub mod Prelude
pub mod Udsmsg
pub mod Uuid
