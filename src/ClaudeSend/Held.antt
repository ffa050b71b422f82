-- ===== src/ClaudeSend/Held.antt =====
-- What a run of the command holds of the machine, and that its printing changes nothing of it.
use harness_transport.ClaudeSend.Await.{progress, at_end, show_answer, show_frame, await, collected}
use harness_transport.ClaudeSend.Run.{progress_all}
use harness_transport.ClaudeSend.{
  Effect, printed, bound, unbound, announced, withdrawn, connected, disconnected, Options,
}
use harness_transport.Prelude.{
  ℕ, ◌+◌, ◌==◌, ◌≡◌, refl, ◌∙◌, Bool, true, false, Bytes, List, [], ◌∷◌, ◌++◌, Option, none, some,
  codes, if◌then◌else◌, arith, Option-cases, inl, inr,
}
use harness_transport.Udsmsg.Attrib.{CrossSession, unwrap}
use harness_transport.Udsmsg.Frame.{Frame, text}

-- What a run holds of the machine.
pub data Held : Type 0 where
  inbox connection : Held
  entry : ℕ → Held

is_same : Held → Held → Bool
is_same inbox inbox = true
is_same connection connection = true
is_same (entry m) (entry n) = m == n
is_same _ _ = false

-- What was taken last is given back; anything else is no proper end.
release : Held → List Held → Option (List Held)
release h [] = none
release h (x ∷ xs) = if is_same h x then some xs else none

-- What an effect takes and gives back, the last taken in front.
unfoldable pub hold : List Held → Effect → Option (List Held)
unfolding release is_same
hold hs (bound _) = some (inbox ∷ hs)
hold hs (announced e) = some (entry e.pid ∷ hs)
hold hs connected = some (connection ∷ hs)
hold hs unbound = release inbox hs
hold hs disconnected = release connection hs
hold hs (withdrawn pid) = release (entry pid) hs
hold hs _ = some hs

unfoldable pub held_after : List Held → List Effect → Option (List Held)
unfolding hold
held_after hs [] = some hs
held_after hs (e ∷ es) = elim (hold hs e) [ none ↦ none | some r ↦ held_after r es ]

-- The effects give back all that they take.
abbrev pub IsClean : List Effect → Type 0
IsClean es = (hs : List Held) → held_after hs es ≡ some hs

held_after-append :
    (es later : List Effect) (hs : List Held)
    → held_after hs (es ++ later)
      ≡ elim (held_after hs es) [ none ↦ none | some r ↦ held_after r later ]
unfolding held_after
held_after-append [] later hs = refl
held_after-append (e ∷ es) later hs = elim (Option-cases (hold hs e)) [
  | inl n ↦ rw (n, held_after) refl
  | inr (r, n) ↦ rw (n, held_after) (held_after-append es later r)
]

pub append-IsClean : (es later : List Effect) → IsClean es → IsClean later → IsClean (es ++ later)
append-IsClean es later h k hs = ground (arith, held_after-append es later hs, h hs, k hs)

pub progress-IsClean : (o : Options) (line : Bytes) → IsClean (progress o line)
unfolding held_after progress
progress-IsClean o line hs = ground arith

pub progress_all-IsClean : (o : Options) (lines : List Bytes) → IsClean (progress_all o lines)
unfolding held_after progress_all
progress_all-IsClean o [] = λ hs. refl
progress_all-IsClean o (line ∷ lines) =
    append-IsClean (progress o line) (progress_all o lines) (progress-IsClean o line)
      (progress_all-IsClean o lines)

show_answer-IsClean : (o : Options) (c : CrossSession × Bytes × Bool) → IsClean (show_answer o c)
unfolding show_answer held_after
show_answer-IsClean o (cs, body, is_wrapped) hs = ground (
  arith,
  held_after-append (progress o (codes "reply from " ++ cs.name)) (printed body ∷ []) hs,
  progress-IsClean o (codes "reply from " ++ cs.name) hs,
)

show_frame-IsClean : (o : Options) (f : Frame) → IsClean (show_frame o f)
unfolding show_frame held_after
show_frame-IsClean o f hs = ground (arith, show_answer-IsClean o (unwrap (text f)) hs)

pub await-IsClean : (o : Options) (n : ℕ) (fs : List Frame) → IsClean (await o n fs).0
unfolding await at_end
await-IsClean o n [] hs = ground (
  arith,
  progress-IsClean o (collected n o.timeout) hs,
  progress-IsClean o (codes "timed out after " ++ o.timeout) hs,
)
await-IsClean o n (f ∷ fs) hs =
    let shown = show_frame-IsClean o f in
    let once = append-IsClean (show_frame o f) _ shown (await-IsClean o n fs) hs in
    let more = append-IsClean (show_frame o f) _ shown (await-IsClean o (n + 1) fs) hs in
    ground (arith, once, more, shown hs)

-- A deferred call that gives back what the first effect took.
abbrev pub Undoes : Effect → Effect → Type 0
Undoes first last =
    (h : Held) × ((hs : List Held)
      → (hold hs first ≡ some (h ∷ hs)) × (hold (h ∷ hs) last ≡ some hs))

pub around-IsClean :
    (first last : Effect) (es : List Effect)
    → Undoes first last
    → IsClean es
    → IsClean (first ∷ (es ++ last ∷ []))
unfolding held_after
around-IsClean first last es (h, u) k hs =
    rw ((u hs).0, held_after)
      (held_after-append es (last ∷ []) (h ∷ hs) ∙ rw (k (h ∷ hs), (u hs).1, held_after) refl)
