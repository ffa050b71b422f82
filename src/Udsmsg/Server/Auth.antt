-- ===== src/Udsmsg/Server/Auth.antt =====
-- What an inbox that requires authentication lets through.
use harness_transport.Udsmsg.Server.ReadLine.{newline, Line-cases, read_line}
use harness_transport.Udsmsg.Server.ReadLine.ByByte.{
  no_newline, read_line_complete, read_line_partial,
}
use harness_transport.Udsmsg.Frame.{decode_frame, is_auth, max_line_bytes}
use harness_transport.Udsmsg.Server.{
  Server, Peer, no_peer, Event, user, unknown, Outcome, Ending, dispatch, on_line, last_line,
  conn_loop, handle_conn, Ucred,
}
use harness_transport.Prelude.Find.{span, span-append, span-all}
use harness_transport.Prelude.{
  ℕ, zero, suc, ◌≡◌, ◌⊎◌, refl, Bool, true, false, not, ◌&&◌, Bytes, List, [], ◌∷◌, ◌++◌, Option,
  none, some, str_eq, is_empty, if◌then◌else◌, length, All, All-append, arith, inl, inr, Bool-cases,
  ◌==◌,
}

-- The event does not hand a frame to a handler.
abbrev pub NotDelivered : Event → Type 0
NotDelivered (user p f) = ⊥
NotDelivered (unknown p f) = ⊥
NotDelivered _ = Unit

-- The line is an auth frame with the inbox's token.
unfoldable pub authenticates : Server → Bytes → Bool
unfolding decode_frame is_auth
authenticates s line = elim (decode_frame s.unmarshal line) [
  | none ↦ false
  | some f ↦ is_auth f && str_eq f.token s.token
]

-- The first line of the input that is not empty.
unfoldable pub first_line : Bytes → Bytes
first_line [] = []
first_line (c ∷ s) =
    let later = first_line s in
    if c == newline then later else (span (λ b. not (b == newline)) (c ∷ s)).0

-- The outcome of a line that does not authenticate.
abbrev Refuses : Outcome → Type 0
Refuses o = All NotDelivered o.events × (o.peer.authed ≡ false)

dispatch-Refuses :
    (s : Server) (p : Peer) (line : Bytes) (first : Bool)
    → s.require_auth ≡ true
    → p.authed ≡ false
    → (first && authenticates s line) ≡ false
    → Refuses (dispatch s p line first)
unfolding dispatch authenticates
dispatch-Refuses s p line first h a n = ground arith

on_line-Refuses :
    (s : Server) (p : Peer) (line : Bytes) (first : Bool)
    → s.require_auth ≡ true
    → p.authed ≡ false
    → is_empty line ≡ true ⊎ ((first && authenticates s line) ≡ false)
    → Refuses (on_line s p line first)
unfolding on_line
on_line-Refuses s p line first h a n = ground (arith, dispatch-Refuses s p line first h a)

last_line-Refuses :
    (s : Server) (end : Ending) (p : Peer) (line : Bytes) (first : Bool)
    → s.require_auth ≡ true
    → p.authed ≡ false
    → is_empty line ≡ true ⊎ ((first && authenticates s line) ≡ false)
    → All NotDelivered (last_line s end p line first)
unfolding last_line
last_line-Refuses s end p line first h a n =
    All-append NotDelivered (on_line s p line first).events _
      (on_line-Refuses s p line first h a n).0 (ground arith)

-- A complete line, and then what the loop does behind it.
complete-NotDelivered :
    (o : Outcome) (later : List Event)
    → All NotDelivered o.events
    → All NotDelivered later
    → All NotDelivered (o.events ++ (if o.goes_on then later else []))
complete-NotDelivered o later h k =
    All-append NotDelivered o.events (if o.goes_on then later else []) h (ground arith)

-- Nothing is delivered once a line has been read and the peer is not authenticated.
conn_loop-NotDelivered :
    (s : Server) (end : Ending) (fuel : ℕ) (p : Peer) (input : Bytes)
    → s.require_auth ≡ true
    → p.authed ≡ false
    → All NotDelivered (conn_loop s end fuel p false input)
unfolding conn_loop
conn_loop-NotDelivered s end zero p input h a = tt
conn_loop-NotDelivered s end (suc fuel) p input h a =
    elim (Line-cases (read_line max_line_bytes input)) [
      | inl e ↦ rw (e, conn_loop) (tt, tt)
      | inr (inl (line, e)) ↦
          rw (e, conn_loop) (last_line-Refuses s end p line false h a (inr refl))
      | inr (inr (line, rest, e)) ↦
          let r = on_line-Refuses s p line false h a (inr refl) in
          rw (e, conn_loop)
            (complete-NotDelivered (on_line s p line false) _ r.0
              (conn_loop-NotDelivered s end fuel (on_line s p line false).peer rest h r.1))
    ]

first_line_complete :
    (line rest : Bytes)
    → no_newline line ≡ true
    → is_empty line ≡ false
    → first_line (line ++ newline ∷ rest) ≡ line
unfolding first_line is_empty
first_line_complete [] rest n e = absurd (cc)
first_line_complete (c ∷ line) rest n e =
    ground (arith, span-append (λ b. not (b == newline)) (c ∷ line) newline rest n refl)

first_line_partial : (line : Bytes) → no_newline line ≡ true → first_line line ≡ line
unfolding first_line span
first_line_partial [] n = refl
first_line_partial (c ∷ line) n = ground (arith, span-all (λ b. not (b == newline)) (c ∷ line) n)

first_line_blank :
    (line rest : Bytes)
    → is_empty line ≡ true
    → first_line (line ++ newline ∷ rest) ≡ first_line rest
unfolding first_line is_empty
first_line_blank [] rest e = refl
first_line_blank (c ∷ line) rest e = absurd (cc)

-- The loop from its start on: either the line is empty, or it is the first and does not authenticate.
first_loop-NotDelivered :
    (s : Server) (end : Ending) (fuel : ℕ) (p : Peer) (input : Bytes)
    → s.require_auth ≡ true
    → p.authed ≡ false
    → authenticates s (first_line input) ≡ false
    → All NotDelivered (conn_loop s end fuel p true input)
unfolding conn_loop
first_loop-NotDelivered s end zero p input h a n = tt
first_loop-NotDelivered s end (suc fuel) p input h a n =
    elim (Line-cases (read_line max_line_bytes input)) [
      | inl e ↦ rw (e, conn_loop) (tt, tt)
      | inr (inl (line, e)) ↦
          let (same, nn, _) = read_line_partial max_line_bytes input e in
          rw (e, conn_loop)
            (last_line-Refuses s end p line true h a
              (inr (ground (arith, first_line_partial line nn))))
      | inr (inr (line, rest, e)) ↦
          let (same, nn, _) = read_line_complete max_line_bytes input e in
          let o = on_line s p line true in
          elim (Bool-cases (is_empty line)) [
            | inl b ↦
                let r = on_line-Refuses s p line true h a (inl b) in
                let n' : authenticates s (first_line rest) ≡ false =
                  ground (arith, same, first_line_blank line rest b) in
                rw (e, b, conn_loop)
                  (complete-NotDelivered o _ r.0
                    (first_loop-NotDelivered s end fuel o.peer rest h r.1 n'))
            | inr b ↦
                let n' : (true && authenticates s line) ≡ false =
                  ground (arith, same, first_line_complete line rest nn b) in
                let r = on_line-Refuses s p line true h a (inr n') in
                rw (e, b, conn_loop)
                  (complete-NotDelivered o _ r.0
                    (conn_loop-NotDelivered s end fuel o.peer rest h r.1))
          ]
    ]

-- On an inbox that requires authentication, where the first line of the connection that is not
-- empty is no auth frame with the inbox's token, no frame of the connection reaches a handler,
-- whoever is connected and whatever else is sent.
pub handle_conn-NotDelivered :
    (s : Server) (start : ℕ → Option Bytes) (cred : Option Ucred) (input : Bytes) (end : Ending)
    → s.require_auth ≡ true
    → authenticates s (first_line input) ≡ false
    → All NotDelivered (handle_conn s start cred input end)
unfolding handle_conn
handle_conn-NotDelivered s start (some c) input end h n =
    (tt, first_loop-NotDelivered s end _ _ input h refl n)
handle_conn-NotDelivered s start none input end h n = ground (
  arith,
  first_loop-NotDelivered s end (suc (length input)) (record no_peer { addr = s.path }) input h refl
      n,
)
