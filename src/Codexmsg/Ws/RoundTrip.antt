-- ===== src/Codexmsg/Ws/RoundTrip.antt =====
-- What `writeFrame` hands to the connection, and `readFrame` on it.
use harness_transport.Codexmsg.Ws.{
  WsConn, Net, Error, Frame, xor_mask, write_head, max_frame, read_frame, write, write_masked,
  write_frame,
}
use harness_transport.Codexmsg.Ws.Spec.{encode, write_head-encode, read_frame-encode}
use harness_transport.Prelude.{
  ℕ, ◌+◌, ◌≤◌, ◌<◌, ◌≡◌, ap, ◌∙◌, sym, true, Bytes, [], ◌∷◌, ◌++◌, Option, none, some, length,
  arith, append_assoc, append-nil, ok, inl, inr, Option-cases,
}

-- A sender's frame: final, with the payload given.
abbrev pub final : ℕ → Bytes → Frame
final op p = record { opcode = op; payload = p; fin = true }

-- A nil error means that both parts were taken.
writes_joined :
    (e : Net) (c : WsConn) (head p : Bytes)
    → (write_masked e (write e c head) p).1 ≡ none
    → ((write_masked e (write e c head) p).0.output ≡ c.output ++ (head ++ p))
      × ((write_masked e (write e c head) p).0.input ≡ c.input)
unfolding write_masked write
writes_joined e c head [] h = ground (arith, append-nil head)
writes_joined e c head (b ∷ p) h = ground (arith, append_assoc c.output head (b ∷ p))

-- The two writes behind a drawn mask.
abbrev drawn : WsConn → WsConn
drawn c = record c { draws = c.draws + 1 }

abbrev both_writes : Net → WsConn → ℕ → Bytes → Bytes → WsConn × Option Error
both_writes e c op p m =
    write_masked e (write e (drawn c) (write_head op (length p) m)) (xor_mask m 0 p)

write_frame_drawn :
    (e : Net) (c : WsConn) (op : ℕ) (p : Bytes) {m : Bytes}
    → e.entropy c.draws ≡ some m
    → write_frame e c op p ≡ both_writes e c op p m
unfolding write_frame
write_frame_drawn e c op p d = rw (d, write_frame)

-- Where `writeFrame` returns nil, exactly the RFC's frame for this opcode and payload, masked with
-- the four bytes drawn for it, was appended to what the peer gets; nothing was read.
pub write_frame_ok :
    (e : Net) (c : WsConn) (op : ℕ) (p : Bytes)
    → op < 16
    → (write_frame e c op p).1 ≡ none
    → (m : Bytes) × (e.entropy c.draws ≡ some m)
      × ((write_frame e c op p).0.output ≡ c.output ++ encode (some m) (final op p))
      × ((write_frame e c op p).0.input ≡ c.input)
unfolding write_frame
write_frame_ok e c op p ho h = elim (Option-cases (e.entropy c.draws)) [
  | inl n ↦ absurd (cc (rw (n, write_frame) at h))
  | inr (m, d) ↦
      let same = write_frame_drawn e c op p d in
      let (o, i) =
        writes_joined e (drawn c) (write_head op (length p) m) (xor_mask m 0 p) (rw same at h) in
      (m, d, rw same (o ∙ ap (λ x. c.output ++ x) (write_head-encode op m p ho)), rw same i)
]

-- A connection on which every draw gives a mask and every write passes.
pub record IsHealthy (e : Net) : Type 0 where
  pub mask : ℕ → Bytes
  pub drawn_as : (k : ℕ) → e.entropy k ≡ some (mask k)
  pub mask_size : (k : ℕ) → length (mask k) ≡ 4
  pub passes : (k : ℕ) → e.accepts k ≡ true

both_writes_passing :
    (e : Net) (c : WsConn) (op : ℕ) (p m : Bytes)
    → ((k : ℕ) → e.accepts k ≡ true)
    → (both_writes e c op p m).1 ≡ none
unfolding write_masked write
both_writes_passing e c op [] m h = unfold xor_mask in ground (arith, h c.writes)
both_writes_passing e c op (b ∷ p) m h =
    unfold xor_mask in ground (arith, h c.writes, h (c.writes + 1))

both_writes-draws :
    (e : Net) (c : WsConn) (op : ℕ) (p m : Bytes) → (both_writes e c op p m).0.draws ≡ c.draws + 1
unfolding write_masked write
both_writes-draws e c op [] m = unfold xor_mask in ground arith
both_writes-draws e c op (b ∷ p) m = unfold xor_mask in ground arith

-- On a healthy connection a write does not fail, and uses up one draw.
pub write_frame_passing :
    (e : Net) (h : IsHealthy e) (c : WsConn) (op : ℕ) (p : Bytes)
    → ((write_frame e c op p).1 ≡ none) × ((write_frame e c op p).0.draws ≡ c.draws + 1)
write_frame_passing e h c op p =
    let same = write_frame_drawn e c op p (h.drawn_as c.draws) in
    let m = h.mask c.draws in
    (rw same (both_writes_passing e c op p m h.passes), rw same (both_writes-draws e c op p m))

-- On a healthy connection, `writeFrame` returns nil and the peer that had got nothing before reads
-- one final frame with the opcode and the payload given, and then what follows, for every payload
-- that fits the reader's cap.
pub read_frame-write_frame :
    (e : Net) (h : IsHealthy e) (c : WsConn) (op : ℕ) (p rest : Bytes)
    → c.output ≡ []
    → op < 16
    → length p ≤ max_frame
    → ((write_frame e c op p).1 ≡ none)
      × (read_frame ((write_frame e c op p).0.output ++ rest) ≡ ok (final op p, rest))
read_frame-write_frame e h c op p rest o ho hp =
    let (sent, _) = write_frame_passing e h c op p in
    let (m, d, out, _) = write_frame_ok e c op p ho sent in
    let same : some m ≡ some (h.mask c.draws) = sym d ∙ h.drawn_as c.draws in
    let four : length m ≡ 4 = ground (arith, same, h.mask_size c.draws) in
    let joined = out ∙ ap (λ x. x ++ encode (some m) (final op p)) o in
    (sent, rw joined (read_frame-encode (some m) (final op p) rest four ho hp))
