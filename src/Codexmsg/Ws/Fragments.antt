-- ===== src/Codexmsg/Ws/Fragments.antt =====
-- A data frame inside a fragmented message.
use harness_transport.Codexmsg.Ws.{
  WsConn, Net, inside_fragment, done, collect, on_frame, round, read_loop, read_message,
}
use harness_transport.Codexmsg.Ws.Message.{frame, IsSmall, IsData, round_frame}
use harness_transport.Codexmsg.Ws.Spec.{encode, length-encode}
use harness_transport.Prelude.{
  ℕ, zero, suc, ◌≤◌, ◌≡◌, refl, ap, ◌∙◌, Bool, true, false, Bytes, [], ◌++◌, none, some, length,
  arith, ok, err, inl, inr, Bool-cases, ltb, if◌then◌else◌, length-append,
}

data_round :
    (e : Net) (c : WsConn) (op0 op : ℕ) (buf p rest : Bytes) (fin : Bool)
    → IsData op
    → IsSmall p
    → c.input ≡ encode none (frame op fin p) ++ rest
    → round e c op0 buf ≡ (
        if ltb 0 (length buf)
        then done (record c { input = rest }) (err inside_fragment)
        else collect (record c { input = rest }) op p fin)
unfolding on_frame
data_round e c op0 op buf p rest fin hd hp i =
    round_frame e c op0 buf (frame op fin p) rest (ground (arith, hd)) hp i ∙ ground (arith, hd)

two_rounds :
    (e : Net) (fuel : ℕ) (c : WsConn) (op op' : ℕ) (p q rest : Bytes)
    → IsData op
    → IsData op'
    → IsSmall p
    → IsSmall q
    → c.input ≡ encode none (frame op false p) ++ (encode none (frame op' true q) ++ rest)
    → 2 ≤ fuel
    → read_loop e fuel c 0 []
      ≡ some (record c { input = rest }, if ltb 0 (length p) then err inside_fragment else ok q)
unfolding read_loop collect
two_rounds e zero c op op' p q rest hd hd' hp hq i h = absurd (omega arith)
two_rounds e (suc zero) c op op' p q rest hd hd' hp hq i h = absurd (omega arith)
two_rounds e (suc (suc fuel)) c op op' p q rest hd hd' hp hq i h =
    let c1 = record c { input = encode none (frame op' true q) ++ rest } in
    rw (data_round e c 0 op [] p (encode none (frame op' true q) ++ rest) false hd hp i, read_loop)
      (rw (data_round e c1 op op' p q rest true hd' hq refl, read_loop)
        (elim (Bool-cases (ltb 0 (length p))) [ inl h ↦ rw h | inr h ↦ rw h ]))

-- A final data frame behind an unfinished data frame, at the start of a message, neither masked and
-- both payloads within the cap: where the first carried bytes, `ReadMessage` returns the error; where
-- the first was empty, it drops it and returns the second frame's payload as a whole message.
pub read_message_interrupted :
    (e : Net) (c : WsConn) (op op' : ℕ) (p q rest : Bytes)
    → IsData op
    → IsData op'
    → IsSmall p
    → IsSmall q
    → c.input ≡ encode none (frame op false p) ++ (encode none (frame op' true q) ++ rest)
    → read_message e c
      ≡ some (record c { input = rest }, if ltb 0 (length p) then err inside_fragment else ok q)
unfolding read_message
read_message_interrupted e c op op' p q rest hd hd' hp hq i =
    two_rounds e (suc (length c.input)) c op op' p q rest hd hd' hp hq i (
      omega (
        arith,
        ap length i,
        length-append (encode none (frame op false p)) (encode none (frame op' true q) ++ rest),
        length-encode (frame op false p),
      ))
