-- ===== src/Udsmsg/Listen/Published.antt =====
-- The key file of an inbox, from `Listen` to `Close`.
use harness_transport.Disk.{Disk, IsLawful, last_state}
use harness_transport.Prelude.{
  all, ltb, ◌≡◌, ◌≢◌, refl, sym, ◌∙◌, ap, true, false, Bytes, List, [], some, ok, arith,
  Result-cases, inl, inr,
}
use harness_transport.Udsmsg.KeyFile.Decoded.{AreTexts, new_token-IsText}
use harness_transport.Go.Json.Store.Laws.{IsText}
use harness_transport.Udsmsg.KeyFile.Atomic.{read_key-write_key}
use harness_transport.Udsmsg.KeyFile.Names.{IsDistinct, name-plain}
use harness_transport.Udsmsg.KeyFile.{
  Host, key_file_name, without_file, read_key, write_key, remove_key,
}
use harness_transport.Udsmsg.Listen.{
  Machine, Config, Inbox, socket_path, own_key, inbox_at, close, publish_key_of, listen_at, listen,
}

module _ (m : Machine) (D : Disk) (h : Host) (s : D.State) where
  publish_key_of-ok :
      (i : Inbox) {j : Inbox}
      → i.publish_key ≡ true
      → (publish_key_of m D h s i).2 ≡ ok j
      → let (states, r) = write_key D h s m.pid i.path m.random_suffix (own_key m) in
        (r ≡ ok tt) × ((publish_key_of m D h s i).1 ≡ states) × (i ≡ j)
  unfolding publish_key_of
  publish_key_of-ok i {j} p e =
      elim (Result-cases (write_key D h s m.pid i.path m.random_suffix (own_key m)).1) [
        | inl (_, r) ↦
            let e' = rw (p, r, publish_key_of) at e in (r, rw (p, r, publish_key_of) refl, cc e')
        | inr (f, r) ↦ absurd (cc (rw (p, r, publish_key_of) at e))
      ]

  listen_at-ok :
      (cfg : Config) (path : Bytes) {j : Inbox}
      → (listen_at m D h s cfg path).2 ≡ ok j
      → ((publish_key_of m D h s (inbox_at m cfg path)).2 ≡ ok j)
        × ((listen_at m D h s cfg path).1 ≡ (publish_key_of m D h s (inbox_at m cfg path)).1)
  unfolding listen_at
  listen_at-ok cfg path e = ground arith

  listen-ok :
      (dirs : List Bytes) (cfg : Config) {j : Inbox}
      → (listen m D h s dirs cfg).2 ≡ ok j
      → (path : Bytes) × ((listen_at m D h s cfg path).2 ≡ ok j)
        × ((listen m D h s dirs cfg).1 ≡ (listen_at m D h s cfg path).1)
  unfolding listen
  listen-ok dirs cfg e = elim (Result-cases (socket_path m dirs cfg).1) [
    | inl (path, r) ↦ (path, rw (r, listen) at e, rw (r, listen) refl)
    | inr (f, r) ↦ absurd (cc (rw (r, listen) at e))
  ]

module _ (m : Machine) (D : Disk) (L : IsLawful D) (h : Host) (distinct : IsDistinct h)
    (s : D.State) where
  -- What `Close` does to the key file of an open inbox that published one.
  close-key :
      (t : D.State) (i : Inbox) {name : Bytes}
      → i.publish_key ≡ true
      → i.is_closed ≡ false
      → key_file_name (without_file i.path h) m.pid i.path ≡ some name
      → last_state D t (close m D h t i).1 ≡ (D.remove t (h.in_sessions name)).0
  unfolding close remove_key last_state without_file
  close-key t i p o named = rw (p, o, close, named, remove_key, last_state) refl

  own_key-AreTexts :
      all (λ b. ltb b 256) m.random_token ≡ true
      → IsText (own_key m).proc_start
      → IsText (own_key m).pid_domain
      → AreTexts (own_key m)
  unfolding own_key
  own_key-AreTexts random started domain = record {
    peer_token = new_token-IsText m.random_token random;
    proc_start = started;
    pid_domain = domain;
  }

  -- What a key to be published becomes where `Listen` returns an inbox.
  published :
      (dirs : List Bytes) (cfg : Config) {i : Inbox} {name : Bytes}
      → cfg.publish_key ≡ true
      → (listen m D h s dirs cfg).2 ≡ ok i
      → key_file_name h m.pid i.path ≡ some name
      → AreTexts (own_key m)
      → let t = last_state D s (listen m D h s dirs cfg).1 in
        (read_key D h t t m.pid i.path ≡ ok (some (own_key m)))
        × (i.publish_key ≡ true)
        × (i.is_closed ≡ false)
        × ((own_key m).peer_token ≡ i.token)
  unfolding inbox_at own_key
  published dirs cfg {i} p e named texts =
      let (path, e1, same1) = listen-ok m D h s dirs cfg e in
      let (e2, same2) = listen_at-ok m D h s cfg path e1 in
      let (written, same3, made) = publish_key_of-ok m D h s (inbox_at m cfg path) p e2 in
      let same = same1 ∙ same2 ∙ same3 in
      let at_path : i.path ≡ path = ap (λ j. j.path) (sym made) in
      let named' = rw at_path at named in
      let found =
        read_key-write_key D L h distinct s m.pid path m.random_suffix (own_key m) named' texts
          written in
      (
        rw (same, at_path) found,
        ap (λ j. j.publish_key) (sym made) ∙ p,
        ap (λ j. j.is_closed) (sym made),
        ap (λ j. j.token) made,
      )

  -- Where a key is to be published, this process's start time and domain are UTF-8, the random token
  -- is made of bytes and `Listen` returns an inbox, and the key's name is another one when the socket
  -- is gone, as it is where a link is on the path: a `Close` that removes the socket leaves the
  -- published key file as it was, and `ReadKey` finds the key of the closed inbox for a socket that
  -- is bound at the same path again.
  pub close-leaves :
      (dirs : List Bytes) (cfg : Config) {i : Inbox} {name other : Bytes}
      → cfg.publish_key ≡ true
      → (listen m D h s dirs cfg).2 ≡ ok i
      → key_file_name h m.pid i.path ≡ some name
      → key_file_name (without_file i.path h) m.pid i.path ≡ some other
      → name ≢ other
      → all (λ b. ltb b 256) m.random_token ≡ true
      → IsText (own_key m).proc_start
      → IsText (own_key m).pid_domain
      → let t = last_state D s (listen m D h s dirs cfg).1 in
        let u = last_state D t (close m D h t i).1 in
        (D.read u (h.in_sessions name) ≡ D.read t (h.in_sessions name))
        × (read_key D h u u m.pid i.path ≡ ok (some (own_key m)))
  unfolding without_file read_key
  close-leaves dirs cfg {i} {name} {other} p e named renamed differs random started domain =
      let t = last_state D s (listen m D h s dirs cfg).1 in
      let (found, key, open_, _) =
        published dirs cfg p e named (own_key-AreTexts random started domain) in
      let g = without_file i.path h in
      let (plain, _) = name-plain h m.pid i.path named [] in
      let (plain_other, _) = name-plain g m.pid i.path renamed [] in
      let apart : h.in_sessions name ≢ h.in_sessions other =
        λ same. differs (distinct name other plain plain_other same) in
      let last = close-key t i key open_ renamed in
      let u = last_state D t (close m D h t i).1 in
      let kept : D.read u (h.in_sessions name) ≡ D.read t (h.in_sessions name) =
        rw last (L.read-remove_other t (h.in_sessions other) (h.in_sessions name) apart) in
      (kept, rw (named, read_key, kept) (rw (named, read_key) at found))
