-- ===== src/Codexmsg/Ws/Examples.antt =====
-- The theorems on codexmsg/ws.go at concrete inputs, and tests of its functions.
use harness_transport.Codexmsg.Ws.{
  WsConn, Net, Error, Frame, closed, write_frame, read_frame, read_message, read_loop, round,
  op_text, op_ping, op_continuation,
}
use harness_transport.Codexmsg.Ws.Fragments.{read_message_interrupted}
use harness_transport.Codexmsg.Ws.Message.Whole.{read_message_whole}
use harness_transport.Codexmsg.Ws.Message.{Message, Rest, open_with, last, frame, wire, pongs}
use harness_transport.Codexmsg.Ws.RoundTrip.{IsHealthy, final, read_frame-write_frame}
use harness_transport.Codexmsg.Ws.Spec.{encode, read_frame-encode}
use harness_transport.Codexmsg.Ws.Termination.{read_frame_bounds, read_message_total}
use harness_transport.Go.Binary.{read_full}
use harness_transport.Prelude.{
  ◌+◌, ◌≤◌, ◌≡◌, refl, true, false, Bytes, List, [], ◌∷◌, ◌++◌, none, some, arith, ok, err, inl,
  ◌*◌, ◌^◌, codes, Result,
}

-- A network that always gives this mask and takes every write.
abbrev fixed_mask : Bytes
fixed_mask = 0x37 ∷ 0xfa ∷ 0x21 ∷ 0x3d ∷ []

abbrev net : Net
net = record { entropy = λ k. some fixed_mask; accepts = λ k. true }

abbrev net-IsHealthy : IsHealthy net
net-IsHealthy = record {
  mask = λ k. fixed_mask;
  drawn_as = λ k. refl;
  mask_size = λ k. refl;
  passes = λ k. refl;
}

abbrev conn : Bytes → WsConn
conn s = record { input = s; output = []; draws = 0; writes = 0 }

-- RFC 6455's example: a masked "Hello".
abbrev hello : Bytes
hello = codes "Hello"

masked_hello :
    (write_frame net (conn []) op_text hello).0.output
    ≡ 0x81 ∷ 0x85 ∷ 0x37 ∷ 0xfa ∷ 0x21 ∷ 0x3d ∷ 0x7f ∷ 0x9f ∷ 0x4d ∷ 0x51 ∷ 0x58 ∷ []
unfolding write_frame
masked_hello = refl

close_frame :
    read_message net (conn (0x88 ∷ 0 ∷ []))
    ≡ some (
      record { input = []; output = 0x88 ∷ 0x80 ∷ fixed_mask; draws = 1; writes = 1 },
      err closed,
    )
unfolding read_message read_loop round read_frame read_full write_frame
close_frame = refl

-- "Hel" and "lo" with a ping between, and a byte that follows.
abbrev fragments : List Frame
fragments =
    frame op_text false (codes "Hel")
    ∷ frame op_ping true (codes "hi")
    ∷ frame op_continuation true (codes "lo")
    ∷ []

fragments-Message : Message fragments hello
fragments-Message =
    open_with op_text (codes "Hel") (inl refl) (omega arith)
      (Rest.ping true (codes "hi") (omega arith) (last (codes "lo") (omega arith)))

read_message_whole_example :
    (c' : WsConn) × (read_message net (conn (wire fragments ++ 7 ∷ [])) ≡ some (c', ok hello))
    × (c'.output ≡ [] ++ pongs (λ k. fixed_mask) 0 fragments)
    × (c'.input ≡ 7 ∷ [])
read_message_whole_example =
    read_message_whole net net-IsHealthy (conn (wire fragments ++ 7 ∷ [])) fragments hello (7 ∷ [])
      fragments-Message refl

read_frame-encode_example :
    read_frame (encode (some fixed_mask) (final op_text hello) ++ 7 ∷ [])
    ≡ ok (final op_text hello, 7 ∷ [])
read_frame-encode_example =
    read_frame-encode (some fixed_mask) (final op_text hello) (7 ∷ []) refl (omega arith)
      (omega arith)

read_frame-write_frame_example :
    ((write_frame net (conn []) op_text hello).1 ≡ none)
    × (read_frame ((write_frame net (conn []) op_text hello).0.output ++ 7 ∷ [])
        ≡ ok (final op_text hello, 7 ∷ []))
read_frame-write_frame_example =
    read_frame-write_frame net net-IsHealthy (conn []) op_text hello (7 ∷ []) refl (omega arith)
      (omega arith)

read_frame_bounds_example : (2 + 2 + 1 ≤ 5) × (2 ≤ 16 * 2 ^ 20)
unfolding read_frame read_full
read_frame_bounds_example =
    read_frame_bounds (0x89 ∷ 2 ∷ 104 ∷ 105 ∷ 7 ∷ []) {f = frame op_ping true (codes "hi")}
      {rest = 7 ∷ []} refl

read_message_total_example :
    (r : WsConn × Result Error Bytes) × (read_message net (conn (0x81 ∷ [])) ≡ some r)
read_message_total_example = read_message_total net (conn (0x81 ∷ []))

read_message_interrupted_example :
    read_message net (
      conn (
        encode none (frame op_text false []) ++ (encode none (frame op_text true hello) ++ 7 ∷ [])))
    ≡ some (conn (7 ∷ []), ok hello)
read_message_interrupted_example =
    read_message_interrupted net _ op_text op_text [] hello (7 ∷ []) (inl refl) (inl refl)
      (omega arith) (omega arith) refl
