-- ===== src/ClaudeSend/Exits.antt =====
-- What the exit code of the command says.
use harness_transport.Disk.{Disk}
use harness_transport.Udsmsg.Listen.{reply_address}
use harness_transport.Udsmsg.Proc.{alive}
use harness_transport.ClaudeSend.Accept.{accepter}
use harness_transport.ClaudeSend.Answers.{has_answer, await-answers}
use harness_transport.ClaudeSend.Await.{is_waiting}
use harness_transport.ClaudeSend.Message.{World, resolve, with_auth, is_recycled, user_of}
use harness_transport.ClaudeSend.Run.{
  heard, await_replies, transmit, dial_and_send, announce_and_send, listened, entry_for, published,
  send_with_inbox, send_to, send, check_and_send, Outcome, progress_all, after, text_of, run,
}
use harness_transport.ClaudeSend.{Options, exit_ok, exit_error, exit_timeout, exit_no_target}
use harness_transport.Prelude.{
  ℕ, ◌==◌, ◌≡◌, ◌⊎◌, refl, Bool, true, false, not, ◌&&◌, ◌||◌, Bytes, List, [], some, codes,
  if◌then◌else◌, arith, is_empty, inl, inr, Option-cases, Result-cases, Bool-cases, ok, err,
}
use harness_transport.Udsmsg.Client.{Target, Conn, send_user, dial}
use harness_transport.Udsmsg.Discover.{ResolveError}

module _ {D : Disk} (w : World D) (o : Options) where
  -- No process is there that published the target's socket.
  abbrev pub IsNotFound : Type 0
  IsNotFound =
      ((e : ResolveError) × (resolve w o ≡ err e))
      ⊎ ((t : Target) × (resolve w o ≡ ok t) × (is_recycled w (with_auth o t) ≡ true))

  -- The message went to the target.
  abbrev pub IsSent : Bytes → Target → Type 0
  IsSent body t =
      (conn : Conn) × (from : Bytes) × (id : Bytes) × (dial (alive w.system) w.connect t ≡ ok conn)
      × ((send_user w.fresh_id conn (user_of w o body from)).1 ≡ ok id)

  -- The code of a run that sent its message.
  unfoldable pub sent_exit : Target → ℕ
  sent_exit t =
      if is_waiting o (codes "none")
      then exit_ok
      else if has_answer (heard w o t).0
      then exit_ok
      else exit_timeout

  -- An error, or the message sent.
  abbrev pub Ends : Bytes → Target → ℕ → Type 0
  Ends body t exit = (exit ≡ exit_error) ⊎ (IsSent body t × (exit ≡ sent_exit t))

  -- The three kinds of end: an error, no target, or a message sent.
  abbrev pub EndsAs : Bytes → ℕ → Type 0
  EndsAs body exit =
      (exit ≡ exit_error)
      ⊎ (IsNotFound × (exit ≡ exit_no_target))
      ⊎ ((t : Target) × (resolve w o ≡ ok t)
          × IsSent body (with_auth o t)
          × (exit ≡ sent_exit (with_auth o t)))

  dial_and_send-Ends :
      (t : Target) (body from : Bytes) → Ends body t (dial_and_send w o t body from).1
  unfolding dial_and_send transmit await_replies sent_exit
  dial_and_send-Ends t body from = elim (Result-cases (dial (alive w.system) w.connect t)) [
    | inr (e, r) ↦ inl (rw (r, dial_and_send) refl)
    | inl (conn, r) ↦ elim (Result-cases (send_user w.fresh_id conn (user_of w o body from)).1) [
      | inr (e, s) ↦ inl (rw (r, s, dial_and_send) refl)
      | inl (id, s) ↦ inr (
        (conn, from, id, r, s),
        rw (r, s, dial_and_send) (ground (arith, (await-answers o (heard w o t).0).1)),
      )
    ]
  ]

  send_with_inbox-Ends : (t : Target) (body : Bytes) → Ends body t (send_with_inbox w o t body).1
  unfolding send_with_inbox announce_and_send
  send_with_inbox-Ends t body = elim (Result-cases (listened w o).1) [
    | inr (f, n) ↦ inl (rw (n, send_with_inbox) refl)
    | inl (i, n) ↦
        let sent = dial_and_send-Ends t body (reply_address i) in
        rw (n, send_with_inbox)
          (elim (Bool-cases (is_empty o.announce)) [
            | inl b ↦ rw b sent
            | inr b ↦ elim (Result-cases (entry_for w o i)) [
              | inr (f, m) ↦ inl (rw (b, m) refl)
              | inl (e, m) ↦ elim (Result-cases (published w o e)) [
                | inl (_, p) ↦ rw (b, m, p) sent
                | inr (f, p) ↦ inl (rw (b, m, p) refl)
              ]
            ]
          ])
  ]

  if-Ends :
      (body : Bytes) (t : Target) (b : Bool) (r r' : Outcome)
      → Ends body t r.1
      → Ends body t r'.1
      → Ends body t (if b then r else r').1
  if-Ends body t true r r' h k = h
  if-Ends body t false r r' h k = k

  send-EndsAs : (body : Bytes) → EndsAs body (send w o body).1
  unfolding send send_to
  send-EndsAs body = elim (Result-cases (resolve w o)) [
    | inr (e, r) ↦ inr (inl (inl (e, r), rw (r, send) refl))
    | inl (t, r) ↦ elim (Bool-cases (is_recycled w (with_auth o t))) [
      | inl b ↦ inr (inl (inr (t, r, b), rw (r, b, send) refl))
      | inr b ↦
          let t' = with_auth o t in
          let plain = dial_and_send-Ends t' body [] in
          let boxed = send_with_inbox-Ends t' body in
          let ends : Ends body t' (send w o body).1 =
            rw (r, b, send)
              (if-Ends body t' (is_waiting o (codes "none")) (dial_and_send w o t' body [])
                (after (progress_all o (accepter w.base t' o.any_sender).1)
                  (send_with_inbox w o t' body))
                plain boxed) in
          elim ends [ inl e ↦ inl e | inr (s, e) ↦ inr (inr (t, r, s, e)) ]
    ]
  ]

  check_and_send-EndsAs : (body : Bytes) → EndsAs body (check_and_send w o body).1
  unfolding check_and_send
  check_and_send-EndsAs body =
      elim (Bool-cases (o.to == 0 && is_empty o.to_socket || is_empty body)) [
        | inl b ↦ inl (rw b refl)
        | inr b ↦ elim (Bool-cases (not (o.to == 0) && not (is_empty o.to_socket))) [
          | inl c ↦ inl (rw (b, c) refl)
          | inr c ↦
              elim (Bool-cases (
                is_waiting o (codes "reply")
                || is_waiting o (codes "replies")
                || is_waiting o (codes "none"))) [
                  | inl d ↦ rw (b, c, d) (send-EndsAs body)
                  | inr d ↦ inl (rw (b, c, d) refl)
                ]
        ]
      ]

-- The exit code tells the outcomes apart. It is 1; or it is 6, and the target was not resolved or its
-- pid is not the process that published the socket; or the text was sent to the target, and then it
-- is 0 if nothing is waited for, and else 0 if an answer was heard and 4 if none was. So it is never
-- 3 or 5.
pub run-EndsAs :
    {D : Disk} (w : World D) (o : Options) (args : List Bytes)
    → ((run w o args).1 ≡ exit_error)
      ⊎ ((body : Bytes) × (text_of w args ≡ some body) × EndsAs w o body (run w o args).1)
unfolding run
run-EndsAs w o args = elim (Option-cases (text_of w args)) [
  | inl n ↦ inl (rw (n, run) refl)
  | inr (body, n) ↦ inr (body, n, rw (n, run) (check_and_send-EndsAs w o body))
]
