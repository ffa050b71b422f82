-- ===== src/Udsmsg/KeyFile/Atomic.antt =====
-- What `writeKey` shows to readers, and leaves for `ReadKey`.
use harness_transport.Disk.Replace.{after-IsAtomic, IsAtomic, untouched-IsAtomic, replace-IsAtomic}
use harness_transport.Disk.{Disk, IsLawful, last_state}
use harness_transport.Prelude.{
  ◌≡◌, ◌≢◌, ℕ, inl, inr, refl, false, Bytes, Option, some, length, ltb, ok, Bool-cases,
  Option-cases,
}
use harness_transport.Udsmsg.KeyFile.Decoded.{AreTexts, unmarshal_key-marshal_key}
use harness_transport.Udsmsg.KeyFile.Names.{IsDistinct, apart}
use harness_transport.Udsmsg.KeyFile.{
  Host, Key, KeyError, key_file_name, marshal_key, max_key_file_bytes, tmp_name, read_key,
  check_size, parse_key, publish, write_named, write_key,
}

module _ (D : Disk) (L : IsLawful D) (h : Host) (distinct : IsDistinct h) where
  publish-IsAtomic :
      (s : D.State) (name r b : Bytes)
      → h.in_sessions name ≢ h.in_sessions (tmp_name name r)
      → IsAtomic KeyError D s
          (h.in_sessions name)
          b
          (publish D h s name r b).0
          (publish D h s name r b).1
  unfolding publish
  publish-IsAtomic s name r b other =
      replace-IsAtomic KeyError D s (h.in_sessions (tmp_name name r)) (h.in_sessions name) b _ L
        other

  write_named-IsAtomic :
      (s : D.State) (name : Bytes) (suffix : Option Bytes) (b : Bytes)
      → ((r : Bytes) → h.in_sessions name ≢ h.in_sessions (tmp_name name r))
      → IsAtomic KeyError D s
          (h.in_sessions name)
          b
          (write_named D h s name suffix b).0
          (write_named D h s name suffix b).1
  unfolding write_named
  write_named-IsAtomic s name suffix b other =
      elim (Bool-cases (ltb max_key_file_bytes (length b))) [
        | inl y ↦ rw y (untouched-IsAtomic KeyError D s (h.in_sessions name) b _)
        | inr n ↦ elim (Option-cases suffix) [
          | inl e ↦ rw (n, e) (untouched-IsAtomic KeyError D s (h.in_sessions name) b _)
          | inr (r, e) ↦ rw (n, e) (publish-IsAtomic s name r b (other r))
        ]
      ]

  -- Whichever of its calls fail, and whatever the key holds: in every state of the disk during
  -- `writeKey` a reader of the key's file finds what was there before or the whole new key, after it
  -- the new key where no error was returned, and what was there before where one was.
  pub write_key-IsAtomic :
      (s : D.State) (pid : ℕ) (path : Bytes) (suffix : Option Bytes) (k : Key) {name : Bytes}
      → key_file_name h pid path ≡ some name
      → IsAtomic KeyError D s
          (h.in_sessions name)
          (marshal_key k)
          (write_key D h s pid path suffix k).0
          (write_key D h s pid path suffix k).1
  unfolding write_key
  write_key-IsAtomic s pid path suffix k {name} named =
      let s1 = (D.make_dir s).0 in
      let p = h.in_sessions name in
      let same = L.read-make_dir s p in
      let other = apart h pid path named distinct in
      elim (Bool-cases (D.make_dir s).1) [
        | inl y ↦
            rw (named, write_key, y)
              (after-IsAtomic KeyError D s s1 p (marshal_key k) _ _ same
                (write_named-IsAtomic s1 name suffix (marshal_key k) other))
        | inr n ↦
            rw (named, write_key, n)
              (after-IsAtomic KeyError D s s1 p (marshal_key k) _ _ same
                (untouched-IsAtomic KeyError D s1 p (marshal_key k) _))
      ]

  written_fits :
      (s : D.State) (pid : ℕ) (path : Bytes) (suffix : Option Bytes) (k : Key)
      → (write_key D h s pid path suffix k).1 ≡ ok tt
      → ltb max_key_file_bytes (length (marshal_key k)) ≡ false
  unfolding write_key write_named
  written_fits s pid path suffix k e =
      elim (Bool-cases (ltb max_key_file_bytes (length (marshal_key k)))) [
        | inr n ↦ n
        | inl y ↦ elim (Option-cases (key_file_name h pid path)) [
          | inl f ↦ absurd (cc (rw (f, write_key) at e))
          | inr (name, f) ↦ elim (Bool-cases (D.make_dir s).1) [
            | inl made ↦ absurd (cc (rw (f, write_key, y, made) at e))
            | inr not_made ↦ absurd (cc (rw (f, write_key, not_made) at e))
          ]
        ]
      ]

  -- A key whose texts are UTF-8 and that `writeKey` wrote without an error is the one that `ReadKey`
  -- finds: what is written is never over the size that is read.
  pub read_key-write_key :
      (s : D.State) (pid : ℕ) (path : Bytes) (suffix : Option Bytes) (k : Key) {name : Bytes}
      → key_file_name h pid path ≡ some name
      → AreTexts k
      → (write_key D h s pid path suffix k).1 ≡ ok tt
      → let t = last_state D s (write_key D h s pid path suffix k).0 in
        read_key D h t t pid path ≡ ok (some k)
  unfolding read_key check_size parse_key
  read_key-write_key s pid path suffix k named texts done =
      let a = write_key-IsAtomic s pid path suffix k named in
      rw
        (
          named,
          read_key,
          a.replaced done,
          check_size,
          written_fits s pid path suffix k done,
          parse_key,
          unmarshal_key-marshal_key k texts,
        )
        refl
