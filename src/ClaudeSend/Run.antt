-- ===== src/ClaudeSend/Run.antt =====
-- cmd/claude-send/main.go: `run` and `send`. What is deferred stands at the end of the
-- effects in the order in which it is run; the interrupt that ends the wait early is an end of the
-- arrivals.
use harness_transport.Go.Strings.{join, trim_right}
use harness_transport.Disk.{Disk, last_state}
use harness_transport.Udsmsg.Listen.{Inbox, ListenError, listen, reply_address}
use harness_transport.Udsmsg.Proc.{alive}
use harness_transport.ClaudeSend.Message.{World, resolve, user_of, with_auth, is_recycled}
use harness_transport.ClaudeSend.Accept.{accepter, hear}
use harness_transport.ClaudeSend.Await.{progress, is_waiting, await}
use harness_transport.ClaudeSend.{
  Effect, stopped, bound, unbound, announced, withdrawn, connected, disconnected, wrote, Stop,
  bad_stdin, bad_usage, two_targets, bad_wait, no_target, recycled_pid, no_inbox, no_entry,
  not_published, not_dialled, not_sent, Options, exit_ok, exit_error, exit_no_target,
}
use harness_transport.Go.Strconv.{itoa}
use harness_transport.Prelude.{
  Result, ℕ, ◌==◌, false, not, ◌&&◌, ◌||◌, Bytes, List, [], ◌∷◌, ◌++◌, Option, none, some, codes,
  str_eq, is_empty, if◌then◌else◌, ok, err,
}
use harness_transport.Udsmsg.Client.{Target, Conn, send_user, dial}
use harness_transport.Udsmsg.Frame.{Frame}
use harness_transport.Udsmsg.Session.{
  SessionEntry, EntryError, PublishError, new_session_entry, publish_session,
}

-- What a run did, and its exit code.
abbrev pub Outcome : Type 0
Outcome = List Effect × ℕ

abbrev pub stop : Stop → ℕ → Outcome
stop why exit = (stopped why ∷ [], exit)

abbrev pub after : List Effect → Outcome → Outcome
after es (later, exit) = (es ++ later, exit)

-- A deferred call: what it undoes stands in front, and it stands at the end.
abbrev pub around : Effect → Effect → Outcome → Outcome
around first last (es, exit) = (first ∷ (es ++ (last ∷ [])), exit)

-- What is said of a frame that was sent.
unfoldable pub sent_note : Target → Bytes → Bytes
sent_note t id =
    codes "sent "
    ++ (id
        ++ (codes " to "
            ++ (t.socket_path
                ++ (if is_empty t.token
                    then codes " (unauthenticated)"
                    else codes " (authenticated)"))))

unfoldable pub progress_all : Options → List Bytes → List Effect
progress_all o [] = []
progress_all o (line ∷ lines) = progress o line ++ progress_all o lines

-- The frames that are heard, with the progress.
abbrev pub heard : {D : Disk} → World D → Options → Target → List Frame × List Bytes
heard w o t = hear (accepter w.base t o.any_sender).0 false w.arrivals

-- The wait for a reply.
unfoldable pub await_replies : {D : Disk} → World D → Options → Target → Outcome
await_replies w o t =
    let (frames, notes) = heard w o t in after (progress_all o notes) (await o 0 frames)

-- Behind the message: what the connection wrote, and the wait.
unfoldable pub transmit : {D : Disk} → World D → Options → Target → Bytes → Bytes → Conn → Outcome
transmit w o t text from conn =
    let (conn', r) = send_user w.fresh_id conn (user_of w o text from) in
    after (wrote conn'.output ∷ []) (elim r [
      | err _ ↦ stop not_sent exit_error
      | ok id ↦
          after (progress o (sent_note t id))
            (if is_waiting o (codes "none") then ([], exit_ok) else await_replies w o t)
    ])

-- From the connection on.
unfoldable pub dial_and_send : {D : Disk} → World D → Options → Target → Bytes → Bytes → Outcome
dial_and_send w o t text from = elim (dial (alive w.system) w.connect t) [
  | err _ ↦ stop not_dialled exit_error
  | ok conn ↦ around connected disconnected (transmit w o t text from conn)
]

unfoldable pub announced_note : {D : Disk} → World D → SessionEntry → Bytes
announced_note w e =
    codes "announced as "
    ++ (w.quoted e.name
        ++ (codes " (pid " ++ (itoa e.pid ++ (codes ", session " ++ (e.session_id ++ codes ")")))))

-- What `Listen` leaves: the states of the disk, and the inbox.
abbrev pub listened : {D : Disk} → World D → Options → List D.State × Result ListenError Inbox
listened {D} w o =
    let (_, states, r) =
      listen w.machine D w.key_host w.disk w.socket_dirs
        (record { path = []; publish_key = o.publish_key; derives_mode = false }) in
    (states, r)

-- The entry of the inbox, and what becomes of it in the registry.
abbrev pub entry_for : {D : Disk} → World D → Options → Inbox → Result EntryError SessionEntry
entry_for w o i = new_session_entry w.process i.path o.announce (codes "cli") (codes "cli")

abbrev pub published :
    {D : Disk} → World D → Options → SessionEntry → Result PublishError (Unit {0})
published {D} w o e =
    (publish_session D w.in_sessions (last_state D w.disk (listened w o).0) w.random_suffix e).1

-- The registry entry of the inbox, if one is wanted.
unfoldable pub announce_and_send : {D : Disk} → World D → Options → Target → Bytes → Inbox → Outcome
announce_and_send w o t text i =
    if is_empty o.announce
    then dial_and_send w o t text (reply_address i)
    else elim (entry_for w o i) [
      | err _ ↦ stop no_entry exit_error
      | ok e ↦ elim (published w o e) [
        | err _ ↦ stop not_published exit_error
        | ok _ ↦
            around (announced e) (withdrawn e.pid)
              (after (progress o (announced_note w e)) (dial_and_send w o t text (reply_address i)))
      ]
    ]

-- The inbox for the reply.
unfoldable pub send_with_inbox : {D : Disk} → World D → Options → Target → Bytes → Outcome
send_with_inbox w o t text = elim (listened w o).1 [
  | err _ ↦ stop no_inbox exit_error
  | ok i ↦
      around (bound i.path) unbound
        (after (progress o (codes "inbox " ++ i.path)) (announce_and_send w o t text i))
]

-- A target that was found.
unfoldable pub send_to : {D : Disk} → World D → Options → Bytes → Target → Outcome
send_to w o text t =
    if is_recycled w t
    then stop recycled_pid exit_no_target
    else if is_waiting o (codes "none")
    then dial_and_send w o t text []
    else after (progress_all o (accepter w.base t o.any_sender).1) (send_with_inbox w o t text)

-- `send`
unfoldable pub send : {D : Disk} → World D → Options → Bytes → Outcome
send w o text = elim (resolve w o) [
  | err _ ↦ stop no_target exit_no_target
  | ok t ↦ send_to w o text (with_auth o t)
]

-- `run` behind the text: the flags that do not go together.
unfoldable pub check_and_send : {D : Disk} → World D → Options → Bytes → Outcome
check_and_send w o text =
    if o.to == 0 && is_empty o.to_socket || is_empty text
    then stop bad_usage exit_error
    else if not (o.to == 0) && not (is_empty o.to_socket)
    then stop two_targets exit_error
    else if is_waiting o (codes "reply")
        || is_waiting o (codes "replies")
        || is_waiting o (codes "none")
    then send w o text
    else stop bad_wait exit_error

-- The text: the arguments, or standard input where they ask for it or are empty.
unfoldable pub text_of : {D : Disk} → World D → List Bytes → Option Bytes
text_of w args =
    if str_eq (join (codes " ") args) (codes "-")
      || is_empty (join (codes " ") args) && not w.is_terminal
    then elim w.stdin [ none ↦ none | some b ↦ some (trim_right b'\n' b) ]
    else some (join (codes " ") args)

-- `run` behind the flags.
unfoldable pub run : {D : Disk} → World D → Options → List Bytes → Outcome
run w o args = elim (text_of w args) [
  | none ↦ stop bad_stdin exit_error
  | some text ↦ check_and_send w o text
]
