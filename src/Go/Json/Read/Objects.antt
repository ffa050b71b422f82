-- ===== src/Go/Json/Read/Objects.antt =====
-- An object that `object` writes is read back, member by member.
use harness_transport.Go.Json.{quote, object, members}
use harness_transport.Go.Json.Read.{Reads, is_end, quoted-quote}
use harness_transport.Go.Json.Value.{
  Json, object_of, Members, no_members, member, ◌>>=◌, is_white, skip_white, expect, Reader,
  read_members, read_object, read_with, read_value,
}
use harness_transport.Go.Utf8.Valid.{is_valid}
use harness_transport.Prelude.{
  ℕ, zero, suc, ◌≤◌, ◌<◌, ◌≡◌, refl, ap, ◌∙◌, true, Bytes, List, [], ◌∷◌, ◌++◌, map, append_assoc,
  none, some, length, length-append, codes, arith, All,
}

-- A member: its key, the bytes of its value, and the value.
abbrev pub Field : Type 0
Field = Bytes × Bytes × Json

abbrev pub printed : List Field → List (Bytes × Bytes)
printed = map (λ m. (quote m.0, m.1))

abbrev pub tree : List Field → Members
tree [] = no_members
tree (m ∷ fs) = member m.0 m.2 (tree fs)

-- The key is a valid string, and the reader takes the bytes for the value.
abbrev pub IsField : Reader → Field → Type 0
IsField value m = (is_valid m.0 ≡ true) × Reads value m.1 m.2

ends_member : (w : Bytes) → (is_end (b',' ∷ w) ≡ true) × (is_end (b'}' ∷ w) ≡ true)
unfolding is_end
ends_member w = (refl, refl)

read_members-more :
    (value : Reader) (n : ℕ) (m : Field) (w : Bytes)
    → IsField value m
    → read_members value (suc n) (quote m.0 ++ b':' ∷ (m.1 ++ b',' ∷ w))
      ≡ (read_members value n w >>= λ (ms, rest). some (member m.0 m.2 ms, rest))
unfolding read_members expect skip_white is_white
read_members-more value n m w h =
    rw
      (
        quoted-quote m.0 (b':' ∷ (m.1 ++ b',' ∷ w)) h.0,
        read_members,
        h.1 (b',' ∷ w) ((ends_member w).0),
      )
      refl

read_members-last :
    (value : Reader) (n : ℕ) (m : Field) (w : Bytes)
    → IsField value m
    → read_members value (suc n) (quote m.0 ++ b':' ∷ (m.1 ++ b'}' ∷ w))
      ≡ some (member m.0 m.2 no_members, w)
unfolding read_members expect skip_white is_white
read_members-last value n m w h =
    rw
      (
        quoted-quote m.0 (b':' ∷ (m.1 ++ b'}' ∷ w)) h.0,
        read_members,
        h.1 (b'}' ∷ w) ((ends_member w).1),
      )
      refl

-- The members of an object that has some, up to its closing brace.
read_members-printed :
    (value : Reader) (n : ℕ) (m : Field) (fs : List Field) (w : Bytes)
    → length fs < n
    → All (IsField value) (m ∷ fs)
    → read_members value n (members (printed (m ∷ fs)) ++ b'}' ∷ w) ≡ some (tree (m ∷ fs), w)
unfolding members
read_members-printed value zero m fs w lt h = absurd (omega arith)
read_members-printed value (suc n) m [] w lt h =
    ap (read_members value (suc n)) (append_assoc (quote m.0) (b':' ∷ m.1) (b'}' ∷ w))
    ∙ read_members-last value n m w h.0
read_members-printed value (suc n) m (m' ∷ fs) w lt h =
    let later = members (printed (m' ∷ fs)) in
    ap (read_members value (suc n)) (
      append_assoc (quote m.0) (b':' ∷ (m.1 ++ b',' ∷ later)) (b'}' ∷ w)
      ∙ ap (λ x. quote m.0 ++ b':' ∷ x) (append_assoc m.1 (b',' ∷ later) (b'}' ∷ w)))
    ∙ read_members-more value n m (later ++ b'}' ∷ w) h.0
    ∙ ap (λ o. o >>= λ (ms, rest). some (member m.0 m.2 ms, rest))
        (read_members-printed value n m' fs w (omega arith) h.1)

length-printed : (m : Field) (fs : List Field) → length fs ≤ length (members (printed (m ∷ fs)))
unfolding members
length-printed m [] = omega arith
length-printed m (m' ∷ fs) = omega (
  arith,
  length-printed m' fs,
  length-append (quote m.0) (b':' ∷ (m.1 ++ b',' ∷ members (printed (m' ∷ fs)))),
  length-append m.1 (b',' ∷ members (printed (m' ∷ fs))),
)

-- No member starts with a closing brace.
not_closed :
    (m : Field) (fs : List Field) (w : Bytes) → expect b'}' (members (printed (m ∷ fs)) ++ w) ≡ none
unfolding expect members quote skip_white is_white
not_closed m [] w = refl
not_closed m (m' ∷ fs) w = refl

read_object-members :
    (value : Reader) (n : ℕ) (s : Bytes) {ms : Members} {rest : Bytes}
    → expect b'}' s ≡ none
    → read_members value n s ≡ some (ms, rest)
    → read_object value n s ≡ some (object_of ms, rest)
unfolding read_object
read_object-members value n s e f = rw (e, read_object, f) refl

read_value-object :
    (depth : ℕ) (t : Bytes)
    → read_value (suc depth) (b'{' ∷ t) ≡ read_object (read_value depth) (suc (length t)) t
unfolding read_value read_with skip_white is_white
read_value-object depth t = refl

-- An object of one member or more is read at any depth but the greatest, whatever follows.
pub object-Reads :
    (depth : ℕ) (m : Field) (fs : List Field) (rest : Bytes)
    → All (IsField (read_value depth)) (m ∷ fs)
    → read_value (suc depth) (object (printed (m ∷ fs)) ++ rest)
      ≡ some (object_of (tree (m ∷ fs)), rest)
unfolding object
object-Reads depth m fs rest h =
    let body = members (printed (m ∷ fs)) in
    let t = (body ++ codes "}") ++ rest in
    let joined : t ≡ body ++ b'}' ∷ rest = append_assoc body (codes "}") rest in
    let enough : length fs < suc (length t) = omega (
      arith,
      length-printed m fs,
      length-append body (codes "}"),
      length-append (body ++ codes "}") rest,
    ) in
    read_value-object depth t
    ∙ read_object-members (read_value depth) (suc (length t)) t
        (ap (expect b'}') joined ∙ not_closed m fs (b'}' ∷ rest))
        (ap (read_members (read_value depth) (suc (length t))) joined
          ∙ read_members-printed (read_value depth) (suc (length t)) m fs rest enough h)

pub object-Reads_some :
    (depth : ℕ) (fs : List Field) (rest : Bytes)
    → 0 < length fs
    → All (IsField (read_value depth)) fs
    → read_value (suc depth) (object (printed fs) ++ rest) ≡ some (object_of (tree fs), rest)
object-Reads_some depth [] rest n h = absurd (omega arith)
object-Reads_some depth (m ∷ fs) rest n h = object-Reads depth m fs rest h
