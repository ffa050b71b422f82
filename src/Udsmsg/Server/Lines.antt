-- ===== src/Udsmsg/Server/Lines.antt =====
-- A connection as the lines that it carries.
use harness_transport.Udsmsg.Server.ReadLine.{newline}
use harness_transport.Udsmsg.Server.ReadLine.ByByte.{no_newline, read_line_cases}
use harness_transport.Udsmsg.Frame.{Frame, is_auth, type_user, max_line_bytes}
use harness_transport.Udsmsg.Server.{
  Server, Peer, Event, user, dropped, line_too_long, deadline_set, deadline_cleared, Ending,
  at_error, dispatch, accept_frame, on_line, last_line, conn_loop, serve_peer, still_first,
}
use harness_transport.Prelude.{
  ℕ, zero, suc, ◌+◌, ◌≤◌, ◌<◌, ◌≡◌, refl, Bool, true, false, Bytes, List, [], ◌∷◌, ◌++◌, some,
  str_eq, is_empty, if◌then◌else◌, leb, le→leb, length, length-append, map, All, arith, Bool-cases,
  inl, inr, ap, ◌⊎◌, ◌≢◌, ◌∙◌,
}

-- The lines, each with its newline, and then `tail`, which has none.
abbrev pub unlines : List Bytes → Bytes → Bytes
unlines [] tail = tail
unlines (l ∷ ls) tail = l ++ newline ∷ unlines ls tail

abbrev pub NoNewline : Bytes → Type 0
NoNewline l = no_newline l ≡ true

-- What is to happen on these lines: each in turn, until one closes the connection or is too long.
unfoldable pub run_lines : Server → Ending → Peer → Bool → List Bytes → Bytes → List Event
run_lines s end p first [] tail =
    if leb (length tail) max_line_bytes
    then last_line s end p tail first
    else dropped p [] line_too_long ∷ []
run_lines s end p first (l ∷ ls) tail =
    let o = on_line s p l first in
    let later = run_lines s end o.peer (still_first first l) ls tail in
    if leb (length l + 1) max_line_bytes
    then o.events ++ (if o.goes_on then later else [])
    else dropped p [] line_too_long ∷ []

conn_loop-run_lines :
    (s : Server) (end : Ending) (fuel : ℕ) (p : Peer) (first : Bool) (ls : List Bytes)
    (tail : Bytes)
    → All NoNewline ls
    → NoNewline tail
    → length ls < fuel
    → conn_loop s end fuel p first (unlines ls tail) ≡ run_lines s end p first ls tail
unfolding conn_loop run_lines
conn_loop-run_lines s end zero p first ls tail h t f = absurd (omega arith)
conn_loop-run_lines s end (suc fuel) p first [] tail h t f =
    let (_, r) = read_line_cases max_line_bytes tail [] t in
    elim (Bool-cases (leb (length tail) max_line_bytes)) [
      | inl b ↦ rw (rw b at r, conn_loop) (rw b)
      | inr b ↦ rw (rw b at r, conn_loop) (rw b)
    ]
conn_loop-run_lines s end (suc fuel) p first (l ∷ ls) tail h t f =
    let (r, _) = read_line_cases max_line_bytes l (unlines ls tail) h.0 in
    let o = on_line s p l first in
    elim (Bool-cases (leb (length l + 1) max_line_bytes)) [
      | inl b ↦
          rw (rw b at r, conn_loop)
            (rw (
              b,
              conn_loop-run_lines s end fuel o.peer (still_first first l) ls tail h.1 t
                  (omega arith),
            ))
      | inr b ↦ rw (rw b at r, conn_loop) (rw b)
    ]

length-unlines : (ls : List Bytes) (tail : Bytes) → length ls ≤ length (unlines ls tail)
length-unlines [] tail = omega arith
length-unlines (l ∷ ls) tail =
    omega (arith, length-unlines ls tail, length-append l (newline ∷ unlines ls tail))

-- A connection is its lines: what `handleConn` does from the deadline on is what is to happen on
-- each line in turn, the unfinished last one included, for every way the stream ends.
pub serve_peer-run_lines :
    (s : Server) (end : Ending) (p : Peer) (ls : List Bytes) (tail : Bytes)
    → All NoNewline ls
    → NoNewline tail
    → serve_peer s end p (unlines ls tail)
      ≡ deadline_set ∷ run_lines s end (record p { addr = s.path }) true ls tail
serve_peer-run_lines s end p ls tail h t = ap (◌∷◌ deadline_set) (
    conn_loop-run_lines s end (suc (length (unlines ls tail))) (record p { addr = s.path }) true ls
      tail h t (omega (arith, length-unlines ls tail)))

-- The line decodes to this frame, which is a user frame.
pub record Sends (s : Server) (line : Bytes) (f : Frame) : Type 0 where
  pub decoded : s.unmarshal line ≡ some f
  pub is_user : f.type ≡ type_user
  pub fits : length line + 1 ≤ max_line_bytes
  pub one_line : NoNewline line
  pub not_empty : is_empty line ≡ false

-- Lines, each with the frame that it decodes to.
abbrev pub AllSend : Server → List (Bytes × Frame) → Type 0
AllSend s [] = Unit
AllSend s ((line, f) ∷ r) = Sends s line f × AllSend s r

abbrev pub sent_lines : List (Bytes × Frame) → List Bytes
sent_lines = map (λ x. x.0)

-- The callback for each, with the line as received in `Raw`.
abbrev pub callbacks : Peer → List (Bytes × Frame) → List Event
callbacks p = map (λ x. user p (record x.1 { raw = x.0 }))

abbrev pub cleared : Bool → List Event
cleared first = if first then deadline_cleared ∷ [] else []

accept_user :
    (s : Server) (p : Peer) (line : Bytes) (first : Bool) (f : Frame)
    → s.has_user ≡ true
    → (s.require_auth ≡ false) ⊎ (p.authed ≡ true)
    → f.type ≡ type_user
    → accept_frame s p line first f ≡ record { peer = p; goes_on = true; events = user p f ∷ [] }
unfolding accept_frame is_auth str_eq is_empty
accept_user s p line first f hu ha t = rw (accept_frame, t) (ground arith)

on_line_user :
    (s : Server) (p : Peer) (line : Bytes) (first : Bool) (f : Frame)
    → s.has_user ≡ true
    → (s.require_auth ≡ false) ⊎ (p.authed ≡ true)
    → Sends s line f
    → on_line s p line first ≡ record {
      peer = p;
      goes_on = true;
      events = cleared first ++ user p (record f { raw = line }) ∷ [];
    }
unfolding on_line dispatch
on_line_user s p line first f hu ha h =
    ground (arith, accept_user s p line first (record f { raw = line }) hu ha h.is_user)

pub run_lines_users :
    (s : Server) (end : Ending) (p : Peer) (sent : List (Bytes × Frame))
    → s.has_user ≡ true
    → (s.require_auth ≡ false) ⊎ (p.authed ≡ true)
    → end ≢ at_error
    → AllSend s sent
    → run_lines s end p false (sent_lines sent) [] ≡ callbacks p sent
unfolding run_lines last_line on_line is_empty
run_lines_users s end p [] hu ha ne h = ground arith
run_lines_users s end p ((line, f) ∷ sent) hu ha ne h =
    rw (le→leb (length line + 1) max_line_bytes h.0.fits, on_line_user s p line false f hu ha h.0)
      (ap (◌∷◌ (user p (record f { raw = line }))) (run_lines_users s end p sent hu ha ne h.1))

AllSend-NoNewline :
    (s : Server) (sent : List (Bytes × Frame)) → AllSend s sent → All NoNewline (sent_lines sent)
AllSend-NoNewline s [] h = tt
AllSend-NoNewline s ((line, f) ∷ sent) h = (h.0.one_line, AllSend-NoNewline s sent h.1)

-- Where no authentication is required and there is a callback for user frames, and a connection
-- carries one line or more, each ended by its newline, not empty, within the cap and decoding to a
-- user frame, and ends behind the last of them without a read error: every line reaches the callback
-- once, in order, with the line as received in `Raw`, and nothing else happens but the deadline being
-- set, and cleared at the first line.
pub serve_peer-callbacks :
    (s : Server) (end : Ending) (p : Peer) (line : Bytes) (f : Frame) (sent : List (Bytes × Frame))
    → s.has_user ≡ true
    → s.require_auth ≡ false
    → end ≢ at_error
    → AllSend s ((line, f) ∷ sent)
    → serve_peer s end p (unlines (sent_lines ((line, f) ∷ sent)) [])
      ≡ deadline_set ∷ deadline_cleared ∷ callbacks (record p { addr = s.path }) ((line, f) ∷ sent)
unfolding run_lines
serve_peer-callbacks s end p line f sent hu ha ne h =
    let p' = record p { addr = s.path } in
    serve_peer-run_lines s end p (sent_lines ((line, f) ∷ sent)) []
      (AllSend-NoNewline s ((line, f) ∷ sent) h) refl
    ∙ ap (◌∷◌ deadline_set) (
        rw
          (
            le→leb (length line + 1) max_line_bytes h.0.fits,
            on_line_user s p' line true f hu (inl ha) h.0,
            h.0.not_empty,
          )
          (ap (λ r. deadline_cleared ∷ user p' (record f { raw = line }) ∷ r)
            (run_lines_users s end p' sent hu (inl ha) ne h.1)))
