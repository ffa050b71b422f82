-- ===== src/ClaudeSend/Await.antt =====
-- cmd/claude-send/main.go: the loop that waits for answers (`await`).
use harness_transport.ClaudeSend.{Effect, printed, noted, Options, exit_ok, exit_timeout}
use harness_transport.Go.Strconv.{itoa}
use harness_transport.Prelude.{
  ℕ, ◌+◌, ◌==◌, Bool, not, ◌&&◌, Bytes, List, [], ◌∷◌, ◌++◌, codes, str_eq, is_empty, if◌then◌else◌,
}
use harness_transport.Udsmsg.Attrib.{CrossSession, unwrap}
use harness_transport.Udsmsg.Frame.{Frame, type_user, text}

-- A line of progress, which `--quiet` suppresses.
unfoldable pub progress : Options → Bytes → List Effect
progress o line = if o.quiet then [] else noted line ∷ []

unfoldable pub is_waiting : Options → Bytes → Bool
is_waiting o mode = str_eq o.wait mode

-- `plural`
unfoldable pub plural : ℕ → Bytes
plural n = if n == 1 then codes "y" else codes "ies"

unfoldable pub collected : ℕ → Bytes → Bytes
collected n timeout =
    codes "collected " ++ (itoa n ++ (codes " repl" ++ (plural n ++ (codes " in " ++ timeout))))

-- The branch of `ctx.Done()`.
unfoldable pub at_end : Options → ℕ → List Effect × ℕ
at_end o received =
    if is_waiting o (codes "replies")
    then (
      progress o (collected received o.timeout),
      if received == 0 then exit_timeout else exit_ok,
    )
    else (progress o (codes "timed out after " ++ o.timeout), exit_timeout)

-- An answer without its wrapper, and whom it is from.
unfoldable pub show_answer : Options → CrossSession × Bytes × Bool → List Effect
show_answer o (cs, body, is_wrapped) =
    (if is_wrapped && not (is_empty cs.name)
      then progress o (codes "reply from " ++ cs.name)
      else [])
    ++ (printed body ∷ [])

-- What is shown of a frame.
unfoldable pub show_frame : Options → Frame → List Effect
show_frame o f =
    if o.json_out
    then printed f.raw ∷ []
    else if str_eq f.type type_user
    then show_answer o (unwrap (text f))
    else []

-- `await`: `replies` are the frames that `select` takes before it takes `ctx.Done()`.
unfoldable pub await : Options → ℕ → List Frame → List Effect × ℕ
await o received [] = at_end o received
await o received (f ∷ rest) =
    let (others, exit) = await o received rest in
    let (more, exit') = await o (received + 1) rest in
    if not (str_eq f.type type_user)
    then (show_frame o f ++ others, exit)
    else if is_waiting o (codes "replies")
    then (show_frame o f ++ more, exit')
    else (show_frame o f, exit_ok)
