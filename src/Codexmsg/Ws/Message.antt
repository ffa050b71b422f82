-- ===== src/Codexmsg/Ws/Message.antt =====
-- `ReadMessage` over the frames of a message, with control frames in between.
pub mod Whole
use harness_transport.Codexmsg.Ws.{
  WsConn, Net, Error, Frame, max_frame, read_frame, write_frame, again, done, collect, on_frame,
  round, read_loop, read_message, op_continuation, op_text, op_binary, op_ping, op_pong,
}
use harness_transport.Codexmsg.Ws.Spec.{encode, length-encode, read_frame-encode}
use harness_transport.Codexmsg.Ws.RoundTrip.{final, IsHealthy, write_frame_ok, write_frame_passing}
use harness_transport.Prelude.{
  ℕ, zero, suc, ◌+◌, ◌≤◌, ◌<◌, ◌≡◌, ◌≢◌, ◌⊎◌, refl, ap, ◌∙◌, sym, Bool, true, false, Bytes, List,
  [], ◌∷◌, ◌++◌, none, some, length, arith, append_assoc, append-nil, ok, length-append, ◌==◌,
  if◌then◌else◌, Result,
}

-- The frames of a server, which masks none.
abbrev pub wire : List Frame → Bytes
wire [] = []
wire (f ∷ fs) = encode none f ++ wire fs

-- `opcode` continues, or is told apart from data.
abbrev pub frame : ℕ → Bool → Bytes → Frame
frame op fin p = record { opcode = op; payload = p; fin = fin }

abbrev pub IsSmall : Bytes → Type 0
IsSmall p = length p ≤ max_frame

-- The frames that bring the rest `d` of a message that is open.
pub data Rest : List Frame → Bytes → Type 0 where
  last : (p : Bytes) → IsSmall p → Rest (frame op_continuation true p ∷ []) p
  more :
      {fs : List Frame} {d : Bytes} (p : Bytes)
      → IsSmall p
      → Rest fs d
      → Rest (frame op_continuation false p ∷ fs) (p ++ d)
  ping :
      {fs : List Frame} {d : Bytes} (fin : Bool) (p : Bytes)
      → IsSmall p
      → Rest fs d
      → Rest (frame op_ping fin p ∷ fs) d
  pong :
      {fs : List Frame} {d : Bytes} (fin : Bool) (p : Bytes)
      → IsSmall p
      → Rest fs d
      → Rest (frame op_pong fin p ∷ fs) d

abbrev pub IsData : ℕ → Type 0
IsData op = (op ≡ op_text) ⊎ (op ≡ op_binary)

-- The frames of one whole message with the content `d`.
pub data Message : List Frame → Bytes → Type 0 where
  whole : (op : ℕ) (p : Bytes) → IsData op → IsSmall p → Message (frame op true p ∷ []) p
  open_with :
      {fs : List Frame} {d : Bytes} (op : ℕ) (p : Bytes)
      → IsData op
      → IsSmall p
      → Rest fs d
      → Message (frame op false p ∷ fs) (p ++ d)
  ping :
      {fs : List Frame} {d : Bytes} (fin : Bool) (p : Bytes)
      → IsSmall p
      → Message fs d
      → Message (frame op_ping fin p ∷ fs) d
  pong :
      {fs : List Frame} {d : Bytes} (fin : Bool) (p : Bytes)
      → IsSmall p
      → Message fs d
      → Message (frame op_pong fin p ∷ fs) d

-- The answers to the pings among the frames, in order.
abbrev pub pongs : (ℕ → Bytes) → ℕ → List Frame → Bytes
pongs mask d [] = []
pongs mask d (f ∷ fs) =
    if f.opcode == op_ping
    then encode (some (mask d)) (final op_pong f.payload) ++ pongs mask (d + 1) fs
    else pongs mask d fs

pub round_frame :
    (e : Net) (c : WsConn) (op : ℕ) (buf : Bytes) (f : Frame) (rest : Bytes)
    → f.opcode < 16
    → IsSmall f.payload
    → c.input ≡ encode none f ++ rest
    → round e c op buf ≡ on_frame e (record c { input = rest }) op buf f
unfolding round
round_frame e c op buf f rest ho hp i =
    let reading = ap read_frame i ∙ read_frame-encode none f rest tt ho hp in rw (reading, round)

-- The connection after the answer to a ping.
pub round_ping :
    (e : Net) (h : IsHealthy e) (c : WsConn) (op : ℕ) (buf p : Bytes) (fin : Bool)
    → (c' : WsConn) × (on_frame e c op buf (frame op_ping fin p) ≡ again c' op buf)
      × (c'.output ≡ c.output ++ encode (some (h.mask c.draws)) (final op_pong p))
      × (c'.input ≡ c.input)
      × (c'.draws ≡ c.draws + 1)
unfolding on_frame
round_ping e h c op buf p fin =
    let (sent, d) = write_frame_passing e h c op_pong p in
    let (m, g, out, i) = write_frame_ok e c op_pong p (omega arith) sent in
    let same : some m ≡ some (h.mask c.draws) = sym g ∙ h.drawn_as c.draws in
    ((write_frame e c op_pong p).0, ground (arith, sent), ground (arith, out, same), i, d)

-- What the loop is to do with the frames `fs` and then `rest`: return `text`, with every ping
-- answered in order and with `rest` unread.
abbrev pub Reads :
    (e : Net) → IsHealthy e → ℕ → WsConn → ℕ → Bytes → List Frame → Bytes → Bytes → Type 0
Reads e h fuel c op buf fs rest text =
    (c' : WsConn) × (read_loop e fuel c op buf ≡ some (c', ok text))
    × (c'.output ≡ c.output ++ pongs h.mask c.draws fs)
    × (c'.input ≡ rest)

pub loop_again :
    (e : Net) (fuel : ℕ) (c : WsConn) (op : ℕ) (buf : Bytes) {c' : WsConn} {op' : ℕ} {buf' : Bytes}
    → round e c op buf ≡ again c' op' buf'
    → read_loop e (suc fuel) c op buf ≡ read_loop e fuel c' op' buf'
unfolding read_loop
loop_again e fuel c op buf r = rw (r, read_loop)

pub loop_done :
    (e : Net) (fuel : ℕ) (c : WsConn) (op : ℕ) (buf : Bytes) {c' : WsConn} {r : Result Error Bytes}
    → round e c op buf ≡ done c' r
    → read_loop e (suc fuel) c op buf ≡ some (c', r)
unfolding read_loop
loop_done e fuel c op buf r = rw (r, read_loop)

abbrev pub InputIs : WsConn → Frame → List Frame → Bytes → Type 0
InputIs c f fs rest = c.input ≡ wire (f ∷ fs) ++ rest
