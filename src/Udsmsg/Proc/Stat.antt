-- ===== src/Udsmsg/Proc/Stat.antt =====
-- The start time in a stat line.
use harness_transport.Go.Fields.{IsWord, spaced, fields-spaced}
use harness_transport.Prelude.Find.{after_last-append}
use harness_transport.Prelude.{
  ℕ, ◌≡◌, refl, ap, true, not, Bytes, List, [], ◌∷◌, ◌++◌, get_elem?, all, all-append, All, arith,
  ◌==◌,
}
use harness_transport.Udsmsg.Proc.{start_time}

-- A field of the line behind the command: a word without a closing parenthesis.
abbrev pub IsField : Bytes → Type 0
IsField f = IsWord f × (all (λ c. not (c == b')')) f ≡ true)

fields-IsWord : (fs : List Bytes) → All IsField fs → All IsWord fs
fields-IsWord [] h = tt
fields-IsWord (f ∷ fs) h = (h.0.0, fields-IsWord fs h.1)

spaced_no_parenthesis :
    (fs : List Bytes) → All IsField fs → all (λ c. not (c == b')')) (spaced fs) ≡ true
spaced_no_parenthesis [] h = refl
spaced_no_parenthesis (f ∷ fs) h = ground (
  arith,
  all-append (λ (c : ℕ). not (c == b')')) f (spaced fs),
  spaced_no_parenthesis fs h.1,
  h.0.1,
)

-- Whatever the pid and the command in front hold, spaces and parentheses included, the start time of
-- a stat line is its twentieth field behind the command's last parenthesis, or none where the line
-- has fewer.
pub start_time-fields :
    (front : Bytes) (fs : List Bytes)
    → All IsField fs
    → start_time (front ++ b')' ∷ spaced fs) ≡ get_elem? fs 19
unfolding start_time
start_time-fields front fs h =
    rw (after_last-append b')' front (spaced fs) (spaced_no_parenthesis fs h), start_time)
      (ap (λ xs. get_elem? xs 19) (fields-spaced fs (fields-IsWord fs h)))
