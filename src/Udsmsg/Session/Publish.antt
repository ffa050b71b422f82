-- ===== src/Udsmsg/Session/Publish.antt =====
-- What `PublishSession` shows to readers, and the names it publishes.
use harness_transport.Disk.Replace.{IsAtomic, untouched-IsAtomic, after-IsAtomic, replace-IsAtomic}
use harness_transport.Disk.{Disk, IsLawful}
use harness_transport.Go.Strconv.{hex_string}
use harness_transport.Prelude.{
  ◌≢◌, ap, Bytes, ◌++◌, Option, length, length-append, codes, arith, Bool-cases, Option-cases, inl,
  inr,
}
use harness_transport.Udsmsg.Session.{
  SessionEntry, PublishError, marshal_entry, session_entry_path, tmp_path, publish_at,
  publish_session,
}

tmp_path-ne : (final suffix : Bytes) → final ≢ final ++ (codes ".tmp." ++ hex_string suffix)
tmp_path-ne final suffix e =
    omega (arith, ap length e, length-append final (codes ".tmp." ++ hex_string suffix))

module _ (D : Disk) (L : IsLawful D) (in_sessions : Bytes → Bytes) where
  publish_at-IsAtomic :
      (s : D.State) (final : Bytes) (suffix : Option Bytes) (b : Bytes)
      → IsAtomic PublishError D s final b
          (publish_at D in_sessions s final suffix b).0
          (publish_at D in_sessions s final suffix b).1
  unfolding publish_at
  publish_at-IsAtomic s final suffix b = elim (Option-cases suffix) [
    | inl e ↦ rw e (untouched-IsAtomic PublishError D s final b _)
    | inr (r, e) ↦ rw e (
        replace-IsAtomic PublishError D s (tmp_path D in_sessions final r) final b _ L
          (tmp_path-ne final r))
  ]

  -- Whichever of its calls fail, and whatever the entry holds: in every state of the disk during
  -- `PublishSession` a reader of the entry's file finds what was there before or the whole new entry,
  -- after it the new entry where no error was returned, and what was there before where one was.
  pub publish_session-IsAtomic :
      (s : D.State) (suffix : Option Bytes) (e : SessionEntry)
      → IsAtomic PublishError D s
          (session_entry_path D in_sessions e.pid)
          (marshal_entry e)
          (publish_session D in_sessions s suffix e).0
          (publish_session D in_sessions s suffix e).1
  unfolding publish_session
  publish_session-IsAtomic s suffix e =
      let s1 = (D.make_dir s).0 in
      let p = session_entry_path D in_sessions e.pid in
      let b = marshal_entry e in
      let same = L.read-make_dir s p in
      elim (Bool-cases (D.make_dir s).1) [
        | inl y ↦
            rw y
              (after-IsAtomic PublishError D s s1 p b _ _ same (publish_at-IsAtomic s1 p suffix b))
        | inr n ↦ rw n (
            after-IsAtomic PublishError D s s1 p b _ _ same
              (untouched-IsAtomic PublishError D s1 p b _))
      ]
