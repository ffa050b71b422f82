-- ===== src/Udsmsg/Attrib/Matching.antt =====
-- The matches of the attribute pattern in what `Wrap` writes.
use harness_transport.Prelude.Find.{cut_prefix-append, span, span-append}
use harness_transport.Prelude.{
  ℕ, zero, suc, ◌+◌, ◌≤◌, ◌≡◌, refl, true, false, Bytes, [], ◌∷◌, ◌++◌, none, some, if◌then◌else◌,
  length, length-append, all, codes, str_eq, is_empty, arith, Bool-cases, inl, inr,
}
use harness_transport.Udsmsg.Attrib.{
  attr_from, attr_name, attr_mode, CrossSession, attr, attrs, is_key_char, not_quote, attr_value,
  attr_at, find_attrs, set_attr, set_attrs, nothing,
}
use harness_transport.Udsmsg.Attrib.Plain.{ArePlain}

-- Wherever the fuel allows for the whole string, the matches in it lead from `cs` to `cs'`.
abbrev pub Collects : CrossSession → Bytes → CrossSession → Type 0
Collects cs s cs' = (fuel : ℕ) → length s ≤ fuel → set_attrs cs (find_attrs fuel s) ≡ cs'

Collects-nil : (cs : CrossSession) → Collects cs [] cs
unfolding find_attrs set_attrs
Collects-nil cs zero h = refl
Collects-nil cs (suc fuel) h = refl

-- A key that the pattern takes whole.
abbrev IsKey : Bytes → Type 0
IsKey k = (all is_key_char k ≡ true) × (is_empty k ≡ false)

attr_value_quoted :
    (k v rest : Bytes)
    → all not_quote v ≡ true
    → attr_value k (some (v ++ (codes "\"" ++ rest))) ≡ some (k, v, rest)
unfolding attr_value
attr_value_quoted k v rest hv = ground (arith, span-append not_quote v b'"' rest hv refl)

attr_at_key :
    (k v rest : Bytes)
    → IsKey k
    → all not_quote v ≡ true
    → attr_at (k ++ (codes "=\"" ++ (v ++ (codes "\"" ++ rest)))) ≡ some (k, v, rest)
unfolding attr_at is_key_char
attr_at_key k v rest hk hv =
    let s = v ++ (codes "\"" ++ rest) in
    rw (span-append is_key_char k b'=' (b'"' ∷ s) hk.0 refl, hk.1)
      (rw (cut_prefix-append (codes "=\"") s) (attr_value_quoted k v rest hv))

attr_at_space : (s : Bytes) → attr_at (b' ' ∷ s) ≡ none
unfolding attr_at is_key_char span is_empty
attr_at_space s = refl

find_attr_key :
    (fuel : ℕ) (k v rest : Bytes)
    → IsKey k
    → all not_quote v ≡ true
    → find_attrs (suc fuel) (k ++ (codes "=\"" ++ (v ++ (codes "\"" ++ rest))))
      ≡ (k, v) ∷ find_attrs fuel rest
unfolding find_attrs is_empty
find_attr_key fuel [] v rest hk hv = absurd (cc (hk.1))
find_attr_key fuel (c ∷ k) v rest hk hv = rw (attr_at_key (c ∷ k) v rest hk hv, find_attrs)

abbrev spelled : Bytes → Bytes → Bytes → Bytes
spelled k v rest = codes " " ++ (k ++ (codes "=\"" ++ (v ++ (codes "\"" ++ rest))))

find_attr :
    (fuel : ℕ) (k v rest : Bytes)
    → IsKey k
    → all not_quote v ≡ true
    → find_attrs (suc (suc fuel)) (spelled k v rest) ≡ (k, v) ∷ find_attrs fuel rest
unfolding find_attrs
find_attr fuel k v rest hk hv =
    let s = k ++ (codes "=\"" ++ (v ++ (codes "\"" ++ rest))) in
    rw (attr_at_space s, find_attrs) (find_attr_key fuel k v rest hk hv)

length-spelled :
    (k v rest : Bytes) → length (spelled k v rest) ≡ 4 + length k + length v + length rest
length-spelled k v rest = omega (
  arith,
  length-append k (codes "=\"" ++ (v ++ (codes "\"" ++ rest))),
  length-append v (codes "\"" ++ rest),
)

Collects-spelled :
    (cs cs' : CrossSession) (k v rest : Bytes)
    → IsKey k
    → all not_quote v ≡ true
    → Collects (set_attr cs (k, v)) rest cs'
    → Collects cs (spelled k v rest) cs'
unfolding set_attrs
Collects-spelled cs cs' k v rest hk hv h zero f = absurd (omega (arith, length-spelled k v rest))
Collects-spelled cs cs' k v rest hk hv h (suc zero) f =
    absurd (omega (arith, length-spelled k v rest))
Collects-spelled cs cs' k v rest hk hv h (suc (suc fuel)) f =
    rw (find_attr fuel k v rest hk hv, set_attrs) (h fuel (omega (arith, length-spelled k v rest)))

Collects-attr :
    (cs cs' : CrossSession) (k v rest : Bytes)
    → IsKey k
    → all not_quote v ≡ true
    → Collects (if is_empty v then cs else set_attr cs (k, v)) rest cs'
    → Collects cs (attr k v rest) cs'
unfolding attr
Collects-attr cs cs' k v rest hk hv h = elim (Bool-cases (is_empty v)) [
  | inl e ↦ rw e (rw e at h)
  | inr e ↦ rw e (Collects-spelled cs cs' k v rest hk hv (rw e at h))
]

abbrev made : Bytes → Bytes → Bytes → CrossSession
made f n m = record { from = f; name = n; mode = m }

-- Each attribute sets its field, and an empty one leaves it empty.
set_from :
    (v : Bytes) → (if is_empty v then nothing else set_attr nothing (attr_from, v)) ≡ made v [] []
unfolding set_attr str_eq is_empty
set_from [] = refl
set_from (c ∷ v) = refl

set_name :
    (f v : Bytes)
    → (if is_empty v then made f [] [] else set_attr (made f [] []) (attr_name, v)) ≡ made f v []
unfolding set_attr str_eq is_empty
set_name f [] = refl
set_name f (c ∷ v) = refl

set_mode :
    (f n v : Bytes)
    → (if is_empty v then made f n [] else set_attr (made f n []) (attr_mode, v)) ≡ made f n v
unfolding set_attr str_eq is_empty
set_mode f n [] = refl
set_mode f n (c ∷ v) = refl

pub attrs-Collects : (a : CrossSession) → ArePlain a → Collects nothing (attrs a) a
unfolding attrs is_key_char is_empty
attrs-Collects a h =
    Collects-attr nothing a attr_from a.from _ (refl, refl) h.0.0
      (rw (set_from a.from) (
        Collects-attr (made a.from [] []) a attr_name a.name _ (refl, refl) h.1.0
          (rw (set_name a.from a.name) (
            Collects-attr (made a.from a.name []) a attr_mode a.mode [] (refl, refl) h.2.0
              (rw (set_mode a.from a.name a.mode) (Collects-nil a))))))
