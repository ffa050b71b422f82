-- ===== src/Udsmsg/Discover/Dedup.antt =====
-- `dedup` of the directories.
use harness_transport.Prelude.{
  ℕ, ◌+◌, ◌≡◌, refl, not, ◌&&◌, Bytes, List, [], ◌∷◌, str_eq, str_eq_iff, if◌then◌else◌, arith,
  Bool-cases, inl, inr, ap,
}
use harness_transport.Udsmsg.Discover.{is_seen, dedup_from, dedup}

-- How often a string stands in a list.
unfoldable pub occurrences : Bytes → List Bytes → ℕ
occurrences s [] = 0
occurrences s (x ∷ xs) = (if str_eq s x then 1 else 0) + occurrences s xs

occurrences-dedup_from :
    (s : Bytes) (seen xs : List Bytes)
    → occurrences s (dedup_from seen xs) ≡ (if is_seen s xs && not (is_seen s seen) then 1 else 0)
unfolding occurrences dedup_from is_seen
occurrences-dedup_from s seen [] = refl
occurrences-dedup_from s seen (x ∷ xs) = elim (Bool-cases (str_eq s x)) [
  | inl e ↦
      let same = ap (λ y. is_seen y seen) ((str_eq_iff s x).0 e) in
      ground
        (arith, e, same, occurrences-dedup_from s seen xs, occurrences-dedup_from s (x ∷ seen) xs)
  | inr e ↦
      ground (arith, e, occurrences-dedup_from s seen xs, occurrences-dedup_from s (x ∷ seen) xs)
]

-- Whatever the list, `dedup` keeps each string of it exactly once, and adds none.
pub occurrences-dedup :
    (s : Bytes) (xs : List Bytes) → occurrences s (dedup xs) ≡ (if is_seen s xs then 1 else 0)
unfolding dedup is_seen
occurrences-dedup s xs = ground (arith, occurrences-dedup_from s [] xs)
