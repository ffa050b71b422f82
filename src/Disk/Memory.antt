-- ===== src/Disk/Memory.antt =====
-- A disk in memory, on which every call succeeds where its file is there.
use harness_transport.Disk.{Disk, IsLawful, FileError, not_exist}
use harness_transport.Prelude.{
  ◌≡◌, ◌≢◌, refl, Bool, true, false, Bytes, Option, none, some, Result, ok, err, str_eq, str_eq_iff,
  str_eq_self, if◌then◌else◌, Bool-cases, Option-cases, inl, inr,
}

abbrev Files : Type 0
Files = Bytes → Option Bytes

abbrev set_file : Files → Bytes → Option Bytes → Files
set_file f p v q = if str_eq q p then v else f q

abbrev as_read : Option Bytes → Result FileError Bytes
as_read none = err not_exist
as_read (some b) = ok b

abbrev moved : Files → Bytes → Bytes → Option Bytes → Files × Bool
moved f p q none = (f, false)
moved f p q (some b) = (set_file (set_file f p none) q (some b), true)

abbrev removed : Files → Bytes → Option Bytes → Files × Result FileError (Unit {0})
removed f p none = (f, err not_exist)
removed f p (some _) = (set_file f p none, ok tt)

abbrev pub memory_disk : Disk
memory_disk = record {
  State = Files;
  read = λ f p. as_read (f p);
  make_dir = λ f. (f, true);
  write = λ f p b. (set_file f p (some b), true);
  rename = λ f p q. moved f p q (f p);
  remove = λ f p. removed f p (f p);
}

abbrev pub empty_disk : Bytes → Option Bytes
empty_disk _ = none

differs : (p q : Bytes) → p ≢ q → str_eq p q ≡ false
differs p q h = elim (Bool-cases (str_eq p q)) [
  | inl e ↦ absurd (h ((str_eq_iff p q).0 e))
  | inr e ↦ e
]

pub memory_disk-IsLawful : IsLawful memory_disk
memory_disk-IsLawful = record {
  read-make_dir = λ f q. refl;
  read-write = λ f p b h. rw (str_eq_self p) refl;
  read-write_other = λ f p b q h. rw (differs q p h) refl;
  read-rename = λ f p q h. elim (Option-cases (f p)) [
    | inl e ↦ absurd (cc (rw e at h))
    | inr (b, e) ↦ rw (e, str_eq_self q) refl
  ];
  read-rename_other = λ f p q r hp hq. elim (Option-cases (f p)) [
    | inl e ↦ rw e refl
    | inr (b, e) ↦ rw (e, differs r p hp, differs r q hq) refl
  ];
  read-rename_failed = λ f p q r h. elim (Option-cases (f p)) [
    | inl e ↦ rw e refl
    | inr (b, e) ↦ absurd (cc (rw e at h))
  ];
  read-remove_other = λ f p q h. elim (Option-cases (f p)) [
    | inl e ↦ rw e refl
    | inr (b, e) ↦ rw (e, differs q p h) refl
  ];
  read-remove = λ f p h. elim (Option-cases (f p)) [
    | inl e ↦ absurd (cc (rw e at h))
    | inr (b, e) ↦ rw (e, str_eq_self p) refl
  ];
}
