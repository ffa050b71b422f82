-- ===== src/Disk.antt =====
-- The file system as the registry and the key files use it: the calls of package os over an unknown
-- state, what is assumed of them, and the write through a temporary name.
pub mod Replace
pub mod Memory
use harness_transport.Prelude.{
  ◌≡◌, ◌≢◌, Bool, true, false, Bytes, List, [], ◌∷◌, Result, ok, err, if◌then◌else◌,
}

pub data FileError : Type 0 where
  not_exist io_failed : FileError

-- `MkdirAll` of the one directory that is used, `ReadFile`, `WriteFile`, `Rename` and `Remove`. The
-- Boolean says that a call returned no error.
pub record Disk : Type 1 where
  pub State : Type 0
  pub read : State → Bytes → Result FileError Bytes
  pub make_dir : State → State × Bool
  pub write : State → Bytes → Bytes → State × Bool
  pub rename : State → Bytes → Bytes → State × Bool
  pub remove : State → Bytes → State × Result FileError (Unit {0})

-- What is documented of these calls: a write touches its file alone and leaves it with the content
-- where it succeeds, a rename that succeeds moves the file whole and one that fails moves nothing, a
-- removal takes its file away or changes nothing, and making the directory changes no file in it.
pub record IsLawful (D : Disk) : Type 0 where
  pub read-make_dir : (s : D.State) (q : Bytes) → D.read (D.make_dir s).0 q ≡ D.read s q
  pub read-write :
      (s : D.State) (p b : Bytes) → (D.write s p b).1 ≡ true → D.read (D.write s p b).0 p ≡ ok b
  pub read-write_other :
      (s : D.State) (p b q : Bytes) → q ≢ p → D.read (D.write s p b).0 q ≡ D.read s q
  pub read-rename :
      (s : D.State) (p q : Bytes)
      → (D.rename s p q).1 ≡ true
      → D.read (D.rename s p q).0 q ≡ D.read s p
  pub read-rename_other :
      (s : D.State) (p q r : Bytes) → r ≢ p → r ≢ q → D.read (D.rename s p q).0 r ≡ D.read s r
  pub read-rename_failed :
      (s : D.State) (p q r : Bytes)
      → (D.rename s p q).1 ≡ false
      → D.read (D.rename s p q).0 r ≡ D.read s r
  pub read-remove_other :
      (s : D.State) (p q : Bytes) → q ≢ p → D.read (D.remove s p).0 q ≡ D.read s q
  pub read-remove :
      (s : D.State) (p : Bytes)
      → (D.remove s p).1 ≡ ok tt
      → D.read (D.remove s p).0 p ≡ err not_exist

module _ (D : Disk) where
  -- The states that a reader may see while `content` is put in the place of `final`, in order, and
  -- whether it was: it is written under the name `tmp`, which is then renamed, or removed again.
  unfoldable pub replace : D.State → Bytes → Bytes → Bytes → List D.State × Bool
  replace s tmp final content =
      let (s1, is_written) = D.write s tmp content in
      let (s2, is_moved) = D.rename s1 tmp final in
      if is_written
      then (if is_moved then (s1 ∷ s2 ∷ [], true) else (s1 ∷ s2 ∷ (D.remove s2 tmp).0 ∷ [], false))
      else (s1 ∷ [], false)

  -- The state after the last of the calls.
  unfoldable pub last_state : D.State → List D.State → D.State
  last_state s [] = s
  last_state s (t ∷ ts) = last_state t ts
