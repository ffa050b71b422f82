-- ===== src/Disk/Replace.antt =====
-- A write through a temporary name is never seen half done.
use harness_transport.Disk.{Disk, IsLawful, replace, last_state}
use mathlib.Core.Path.{subst}
use harness_transport.Prelude.{
  ◌≡◌, ◌≢◌, ◌⊎◌, inl, inr, refl, ◌∙◌, true, false, Bytes, List, [], ◌∷◌, Result, ok, err,
  if◌then◌else◌, All, Bool-cases,
}

module _ (D : Disk) (L : IsLawful D) (s : D.State) (tmp final content : Bytes)
    (apart : final ≢ tmp) where
  -- What a reader of `final` finds: what was there before, or the new content.
  abbrev pub IsOldOrNew : D.State → Type 0
  IsOldOrNew t = (D.read t final ≡ D.read s final) ⊎ (D.read t final ≡ ok content)

  written : D.read (D.write s tmp content).0 final ≡ D.read s final
  written = L.read-write_other s tmp content final apart

  pub replace-IsOldOrNew : All IsOldOrNew (replace D s tmp final content).0
  unfolding replace
  replace-IsOldOrNew =
      let s1 = (D.write s tmp content).0 in
      let s2 = (D.rename s1 tmp final).0 in
      elim (Bool-cases (D.write s tmp content).1) [
        | inr failed ↦ rw failed (inl written, tt)
        | inl wrote ↦ elim (Bool-cases (D.rename s1 tmp final).1) [
          | inl moved ↦
              rw (wrote, moved)
                (
                  inl written,
                  (inr (L.read-rename s1 tmp final moved ∙ L.read-write s tmp content wrote), tt),
                )
          | inr stayed ↦
              let same = L.read-rename_failed s1 tmp final final stayed ∙ written in
              rw (wrote, stayed)
                (inl written, (inl same, (inl (L.read-remove_other s2 tmp final apart ∙ same), tt)))
        ]
      ]

  pub replace-true :
      (replace D s tmp final content).1 ≡ true
      → D.read (last_state D s (replace D s tmp final content).0) final ≡ ok content
  unfolding replace last_state
  replace-true h =
      let s1 = (D.write s tmp content).0 in
      elim (Bool-cases (D.write s tmp content).1) [
        | inr failed ↦ absurd (cc (rw failed at h))
        | inl wrote ↦ elim (Bool-cases (D.rename s1 tmp final).1) [
          | inr stayed ↦ absurd (cc (rw (wrote, stayed) at h))
          | inl moved ↦
              rw (wrote, moved)
                (L.read-rename s1 tmp final moved ∙ L.read-write s tmp content wrote)
        ]
      ]

  -- A failed replacement leaves what was there.
  pub replace-false :
      (replace D s tmp final content).1 ≡ false
      → D.read (last_state D s (replace D s tmp final content).0) final ≡ D.read s final
  unfolding replace last_state
  replace-false h =
      let s1 = (D.write s tmp content).0 in
      let s2 = (D.rename s1 tmp final).0 in
      elim (Bool-cases (D.write s tmp content).1) [
        | inr failed ↦ rw failed written
        | inl wrote ↦ elim (Bool-cases (D.rename s1 tmp final).1) [
          | inl moved ↦ absurd (cc (rw (wrote, moved) at h))
          | inr stayed ↦
              rw (wrote, stayed)
                (L.read-remove_other s2 tmp final apart
                  ∙ (L.read-rename_failed s1 tmp final final stayed ∙ written))
        ]
      ]

-- What readers of the file `p` find while its content is being put in place, and after that: in each
-- state what was there in `s` or the content `b`, at the end `b` where no error was returned and what
-- was there otherwise.
pub record IsAtomic (E : Type 0) (D : Disk) (s : D.State) (p b : Bytes) (states : List D.State)
    (r : Result E (Unit {0})) : Type 0 where
  pub shows : All (λ t. (D.read t p ≡ D.read s p) ⊎ (D.read t p ≡ ok b)) states
  pub replaced : r ≡ ok tt → D.read (last_state D s states) p ≡ ok b
  pub kept : (e : E) → r ≡ err e → D.read (last_state D s states) p ≡ D.read s p

-- An operation that ends early, having touched nothing.
pub untouched-IsAtomic :
    (E : Type 0) (D : Disk) (s : D.State) (p b : Bytes) (e : E) → IsAtomic E D s p b [] (err e)
unfolding last_state
untouched-IsAtomic E D s p b e = record {
  shows = tt;
  replaced = λ h. absurd (cc h);
  kept = λ x h. refl;
}

-- The same behind a call that leaves the file as it was.
pub after-IsAtomic :
    (E : Type 0) (D : Disk) (s t : D.State) (p b : Bytes) (states : List D.State)
    (r : Result E (Unit {0}))
    → D.read t p ≡ D.read s p
    → IsAtomic E D t p b states r
    → IsAtomic E D s p b (t ∷ states) r
unfolding last_state
after-IsAtomic E D s t p b states r same a = record {
  shows = (
    inl same,
    subst (λ v. All (λ u. (D.read u p ≡ v) ⊎ (D.read u p ≡ ok b)) states) same a.shows,
  );
  replaced = a.replaced;
  kept = λ x e. a.kept x e ∙ same;
}

-- A replacement, with an error of its caller's.
pub replace-IsAtomic :
    (E : Type 0) (D : Disk) (s : D.State) (tmp final content : Bytes) (e : E)
    → IsLawful D
    → final ≢ tmp
    → IsAtomic E D s final content
        (replace D s tmp final content).0
        (if (replace D s tmp final content).1 then ok tt else err e)
replace-IsAtomic E D s tmp final content e L apart =
    let seen = replace-IsOldOrNew D L s tmp final content apart in
    elim (Bool-cases (replace D s tmp final content).1) [
      | inl y ↦ rw y (record {
        shows = seen;
        replaced = λ _. replace-true D L s tmp final content apart y;
        kept = λ x h. absurd (cc h);
      })
      | inr n ↦ rw n (record {
        shows = seen;
        replaced = λ h. absurd (cc h);
        kept = λ x h. replace-false D L s tmp final content apart n;
      })
    ]
