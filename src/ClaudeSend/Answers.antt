-- ===== src/ClaudeSend/Answers.antt =====
-- What the wait for answers shows, and when it is a success.
use harness_transport.ClaudeSend.Await.{
  progress, is_waiting, collected, at_end, show_answer, show_frame, await,
}
use harness_transport.ClaudeSend.{Effect, printed, noted, Options, exit_ok, exit_timeout}
use harness_transport.Prelude.{
  ℕ, ◌+◌, ◌==◌, ◌≡◌, refl, ap, Bool, false, not, ◌&&◌, ◌||◌, Bytes, List, [], ◌∷◌, ◌++◌, map, codes,
  str_eq, if◌then◌else◌, arith,
}
use harness_transport.Udsmsg.Attrib.{CrossSession, unwrap}
use harness_transport.Udsmsg.Frame.{Frame, type_user, text}

-- The lines on standard output.
unfoldable pub output : List Effect → List Bytes
output [] = []
output (printed line ∷ es) = line ∷ output es
output (_ ∷ es) = output es

abbrev pub is_answer : Frame → Bool
is_answer f = str_eq f.type type_user

-- The frames up to the first answer, and that one.
unfoldable pub through_first : List Frame → List Frame
through_first [] = []
through_first (f ∷ fs) = let rest = through_first fs in if is_answer f then f ∷ [] else f ∷ rest

-- The frames that are read: all of them, or those up to the first answer.
unfoldable pub read_frames : Options → List Frame → List Frame
read_frames o fs = if is_waiting o (codes "replies") then fs else through_first fs

unfoldable pub answers : List Frame → List Frame
answers [] = []
answers (f ∷ fs) = let rest = answers fs in if is_answer f then f ∷ rest else rest

unfoldable pub has_answer : List Frame → Bool
has_answer [] = false
has_answer (f ∷ fs) = is_answer f || has_answer fs

-- The text of an answer without its wrapper.
unfoldable pub body_of : Frame → Bytes
body_of f = (unwrap (text f)).1

-- What standard output has to hold: with `--json` the frames that are read as they came, without it
-- the answers among them.
unfoldable pub wanted_output : Options → List Frame → List Bytes
wanted_output o fs =
    if o.json_out
    then map (λ f. f.raw) (read_frames o fs)
    else map body_of (answers (read_frames o fs))

output-append : (es later : List Effect) → output (es ++ later) ≡ output es ++ output later
unfolding output
output-append [] later = refl
output-append (printed line ∷ es) later = ap (◌∷◌ line) (output-append es later)
output-append (noted _ ∷ es) later = output-append es later
output-append (_ ∷ es) later = output-append es later

output-progress : (o : Options) (line : Bytes) → output (progress o line) ≡ []
unfolding output progress
output-progress o line = ground arith

output-show_answer :
    (o : Options) (c : CrossSession × Bytes × Bool) → output (show_answer o c) ≡ c.1 ∷ []
unfolding output show_answer
output-show_answer o (cs, body, is_wrapped) = ground (
  arith,
  output-progress o (codes "reply from " ++ cs.name),
  output-append (progress o (codes "reply from " ++ cs.name)) (printed body ∷ []),
)

output-show_frame :
    (o : Options) (f : Frame)
    → output (show_frame o f)
      ≡ (if o.json_out then f.raw ∷ [] else if is_answer f then body_of f ∷ [] else [])
unfolding output show_frame body_of
output-show_frame o f = ground (arith, output-show_answer o (unwrap (text f)))

output-at_end : (o : Options) (n : ℕ) → output (at_end o n).0 ≡ []
unfolding at_end
output-at_end o n = ground (
  arith,
  output-progress o (collected n o.timeout),
  output-progress o (codes "timed out after " ++ o.timeout),
)

output-await :
    (o : Options) (n : ℕ) (fs : List Frame) → output (await o n fs).0 ≡ wanted_output o fs
unfolding await wanted_output read_frames answers through_first
output-await o n [] = ground (arith, output-at_end o n)
output-await o n (f ∷ fs) = ground (
  arith,
  output-await o n fs,
  output-await o (n + 1) fs,
  output-append (show_frame o f) (await o n fs).0,
  output-append (show_frame o f) (await o (n + 1) fs).0,
  output-show_frame o f,
)

exit-await :
    (o : Options) (n : ℕ) (fs : List Frame)
    → (await o n fs).1 ≡ (
        if has_answer fs || is_waiting o (codes "replies") && not (n == 0)
        then exit_ok
        else exit_timeout)
unfolding await at_end has_answer
exit-await o n [] = ground arith
exit-await o n (f ∷ fs) = ground (arith, exit-await o n fs, exit-await o (n + 1) fs)

-- Whatever frames are heard before the wait ends, standard output holds exactly the texts of the
-- answers without their wrappers (with `--json`: the frames as they came), all of them with
-- `--wait replies` and else those up to the first answer; and the exit code is 0 if there was an
-- answer and 4 if there was none.
pub await-answers :
    (o : Options) (fs : List Frame)
    → (output (await o 0 fs).0 ≡ wanted_output o fs)
      × ((await o 0 fs).1 ≡ (if has_answer fs then exit_ok else exit_timeout))
await-answers o fs = (output-await o 0 fs, ground (arith, exit-await o 0 fs))
