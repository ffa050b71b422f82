-- ===== src/Codexmsg/Ws/Message/Whole.antt =====
-- `ReadMessage` on the frames of one whole message.
use harness_transport.Codexmsg.Ws.{
  WsConn, Net, Frame, collect, on_frame, round, read_message, op_continuation, op_ping, op_pong,
}
use harness_transport.Codexmsg.Ws.Spec.{encode, length-encode}
use harness_transport.Codexmsg.Ws.RoundTrip.{final, IsHealthy}
use harness_transport.Prelude.{
  ℕ, zero, suc, ◌≤◌, ◌<◌, ◌≡◌, ◌≢◌, refl, ap, ◌∙◌, sym, Bool, true, false, Bytes, List, [], ◌∷◌,
  ◌++◌, none, some, length, arith, append_assoc, append-nil, ok, length-append,
}
use harness_transport.Codexmsg.Ws.Message.{
  wire, frame, IsSmall, Rest, last, more, ping, pong, IsData, Message, whole, open_with, pongs,
  round_frame, round_ping, Reads, loop_again, loop_done, InputIs,
}

module _ (e : Net) (h : IsHealthy e) (rest : Bytes) where
  -- One frame off the input, the others and `rest` behind it.
  next :
      (c : WsConn) (op : ℕ) (buf : Bytes) (f : Frame) (fs : List Frame)
      → f.opcode < 16
      → IsSmall f.payload
      → InputIs c f fs rest
      → round e c op buf ≡ on_frame e (record c { input = wire fs ++ rest }) op buf f
  next c op buf f fs ho hp i =
      round_frame e c op buf f (wire fs ++ rest) ho hp
        (i ∙ append_assoc (encode none f) (wire fs) rest)

  -- A ping costs a round, and its answer goes out.
  past_ping :
      (fuel : ℕ) (c : WsConn) (op : ℕ) (buf text p : Bytes) (fin : Bool) (fs : List Frame)
      → IsSmall p
      → InputIs c (frame op_ping fin p) fs rest
      → ((c' : WsConn) → c'.input ≡ wire fs ++ rest → Reads e h fuel c' op buf fs rest text)
      → Reads e h (suc fuel) c op buf (frame op_ping fin p ∷ fs) rest text
  past_ping fuel c op buf text p fin fs hp i k =
      let (c1, r, out, inp, d) =
        round_ping e h (record c { input = wire fs ++ rest }) op buf p fin in
      let (c2, l, out', inp') = k c1 inp in
      let r' = next c op buf (frame op_ping fin p) fs (omega arith) hp i ∙ r in
      let answer = encode (some (h.mask c.draws)) (final op_pong p) in
      (
        c2,
        loop_again e fuel c op buf r' ∙ l,
        out'
            ∙ ap (λ x. x ++ pongs h.mask c1.draws fs) out
            ∙ append_assoc c.output answer (pongs h.mask c1.draws fs)
            ∙ ap (λ x. c.output ++ (answer ++ pongs h.mask x fs)) d,
        inp',
      )

  past_pong :
      (fuel : ℕ) (c : WsConn) (op : ℕ) (buf text p : Bytes) (fin : Bool) (fs : List Frame)
      → IsSmall p
      → InputIs c (frame op_pong fin p) fs rest
      → ((c' : WsConn) → c'.input ≡ wire fs ++ rest → Reads e h fuel c' op buf fs rest text)
      → Reads e h (suc fuel) c op buf (frame op_pong fin p ∷ fs) rest text
  unfolding on_frame
  past_pong fuel c op buf text p fin fs hp i k =
      let c1 = record c { input = wire fs ++ rest } in
      let (c2, l, out, inp) = k c1 refl in
      (
        c2,
        loop_again e fuel c op buf (next c op buf (frame op_pong fin p) fs (omega arith) hp i) ∙ l,
        out,
        inp,
      )

  -- Data frames, once their opcode is settled.
  round_more :
      (c : WsConn) (op : ℕ) (buf p : Bytes) (fin : Bool) (fs : List Frame)
      → op ≢ 0
      → IsSmall p
      → InputIs c (frame op_continuation fin p) fs rest
      → round e c op buf ≡ collect (record c { input = wire fs ++ rest }) op (buf ++ p) fin
  unfolding on_frame
  round_more c op buf p fin fs ne hp i =
      next c op buf (frame op_continuation fin p) fs (omega arith) hp i ∙ ground arith

  round_data :
      (c : WsConn) (op0 op : ℕ) (p : Bytes) (fin : Bool) (fs : List Frame)
      → IsData op
      → IsSmall p
      → InputIs c (frame op fin p) fs rest
      → round e c op0 [] ≡ collect (record c { input = wire fs ++ rest }) op p fin
  unfolding on_frame
  round_data c op0 op p fin fs hd hp i =
      next c op0 [] (frame op fin p) fs (omega arith) hp i ∙ ground arith

  Rest-Reads :
      {fs : List Frame} {d : Bytes} (r : Rest fs d) (fuel : ℕ) (c : WsConn) (op : ℕ) (buf : Bytes)
      → op ≢ 0
      → length fs ≤ fuel
      → c.input ≡ wire fs ++ rest
      → Reads e h fuel c op buf fs rest (buf ++ d)
  unfolding collect
  Rest-Reads (last p hp) (suc fuel) c op buf ne hf i =
      let c1 = record c { input = rest } in
      (
        c1,
        loop_done e fuel c op buf (round_more c op buf p true [] ne hp i),
        sym (append-nil _),
        refl,
      )
  Rest-Reads (more {fs} {d} p hp r) (suc fuel) c op buf ne hf i =
      let c1 = record c { input = wire fs ++ rest } in
      let (c2, l, out, inp) = Rest-Reads r fuel c1 op (buf ++ p) ne (omega arith) refl in
      (
        c2,
        loop_again e fuel c op buf (round_more c op buf p false fs ne hp i)
            ∙ l
            ∙ ap (λ x. some (c2, ok x)) (append_assoc buf p d),
        out,
        inp,
      )
  Rest-Reads (ping {fs} {d} fin p hp r) (suc fuel) c op buf ne hf i =
      past_ping fuel c op buf (buf ++ d) p fin fs hp i
        (λ c' i'. Rest-Reads r fuel c' op buf ne (omega arith) i')
  Rest-Reads (pong {fs} {d} fin p hp r) (suc fuel) c op buf ne hf i =
      past_pong fuel c op buf (buf ++ d) p fin fs hp i
        (λ c' i'. Rest-Reads r fuel c' op buf ne (omega arith) i')
  Rest-Reads (last p hp) zero c op buf ne hf i = absurd (omega arith)
  Rest-Reads (more p hp r) zero c op buf ne hf i = absurd (omega arith)
  Rest-Reads (ping fin p hp r) zero c op buf ne hf i = absurd (omega arith)
  Rest-Reads (pong fin p hp r) zero c op buf ne hf i = absurd (omega arith)

  Message-Reads :
      {fs : List Frame} {d : Bytes} (r : Message fs d) (fuel : ℕ) (c : WsConn) (op : ℕ)
      → length fs ≤ fuel
      → c.input ≡ wire fs ++ rest
      → Reads e h fuel c op [] fs rest d
  unfolding collect
  Message-Reads (whole o p hd hp) (suc fuel) c op hf i =
      let c1 = record c { input = rest } in
      (
        c1,
        loop_done e fuel c op [] (round_data c op o p true [] hd hp i),
        ground (arith, hd, append-nil c.output),
        refl,
      )
  Message-Reads (open_with {fs} {d} o p hd hp r) (suc fuel) c op hf i =
      let c1 = record c { input = wire fs ++ rest } in
      let (c2, l, out, inp) = Rest-Reads r fuel c1 o p (ground (arith, hd)) (omega arith) refl in
      (
        c2,
        loop_again e fuel c op [] (round_data c op o p false fs hd hp i) ∙ l,
        ground (arith, hd, out),
        inp,
      )
  Message-Reads (ping {fs} {d} fin p hp r) (suc fuel) c op hf i =
      past_ping fuel c op [] d p fin fs hp i (λ c' i'. Message-Reads r fuel c' op (omega arith) i')
  Message-Reads (pong {fs} {d} fin p hp r) (suc fuel) c op hf i =
      past_pong fuel c op [] d p fin fs hp i (λ c' i'. Message-Reads r fuel c' op (omega arith) i')
  Message-Reads (whole o p hd hp) zero c op hf i = absurd (omega arith)
  Message-Reads (open_with o p hd hp r) zero c op hf i = absurd (omega arith)
  Message-Reads (ping fin p hp r) zero c op hf i = absurd (omega arith)
  Message-Reads (pong fin p hp r) zero c op hf i = absurd (omega arith)

length-wire : (fs : List Frame) → length fs ≤ length (wire fs)
length-wire [] = omega arith
length-wire (f ∷ fs) =
    omega (arith, length-encode f, length-append (encode none f) (wire fs), length-wire fs)

-- Where every mask can be drawn and every write passes, and the input begins with the frames of one
-- message, none masked and each with a payload within the cap of a frame, however the message is
-- fragmented and whatever pings and pongs stand among its frames, `ReadMessage` returns the message's
-- content, has written a pong with its payload for every ping, in order, and leaves what follows
-- unread.
pub read_message_whole :
    (e : Net) (h : IsHealthy e) (c : WsConn) (fs : List Frame) (d rest : Bytes)
    → Message fs d
    → c.input ≡ wire fs ++ rest
    → (c' : WsConn) × (read_message e c ≡ some (c', ok d))
      × (c'.output ≡ c.output ++ pongs h.mask c.draws fs)
      × (c'.input ≡ rest)
unfolding read_message
read_message_whole e h c fs d rest m i =
    Message-Reads e h rest m (suc (length c.input)) c 0
      (omega (arith, length-wire fs, ap length i, length-append (wire fs) rest)) i
