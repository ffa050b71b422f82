-- ===== src/Deliver/Codex/Latch.antt =====
-- `Adopt` over a whole run of requests: which thread the backend ends up with.
use harness_transport.Deliver.{
  Meta, meta_thread_id, Value, string, other, no_meta, not_a_thread_id, id_of_value,
  thread_id_from_meta,
}
use harness_transport.Deliver.Codex.{Backend, new_codex, adopt_id, adopt}
use harness_transport.Go.Space.{trim_space, trim_space-nil}
use harness_transport.Prelude.{
  ◌≡◌, refl, Bool, true, false, ◌&&◌, Bytes, List, [], ◌∷◌, none, some, if◌then◌else◌, str_eq,
  is_empty, ok, err, arith, Option-cases, inl, inr, Result-cases,
}

-- The ids that a run of requests names.
unfoldable pub ids_seen : List Meta → List Bytes
ids_seen [] = []
ids_seen (m ∷ ms) =
    let rest = ids_seen ms in elim (thread_id_from_meta m) [ ok id ↦ id ∷ rest | err _ ↦ rest ]

-- `Adopt` on each request.
unfoldable pub adopt_all : Backend → List Meta → Backend
adopt_all c [] = c
adopt_all c (m ∷ ms) = adopt_all (adopt c m).0 ms

unfoldable pub all_are : Bytes → List Bytes → Bool
all_are id [] = true
all_are id (x ∷ xs) = str_eq id x && all_are id xs

-- What the ids make of a new backend: the one thread that they all name, or none for ever.
unfoldable pub latched : Backend → List Bytes → Backend
unfolding all_are
latched c [] = c
latched c (id ∷ ids) =
    if all_are id ids then record c { thread = id } else record c { thread = []; disabled = true }

id_of_value_not_empty : (v : Value) {id : Bytes} → id_of_value v ≡ ok id → is_empty id ≡ false
unfolding id_of_value trim_space is_empty
id_of_value_not_empty other e = ground arith
id_of_value_not_empty (string []) e = absurd (cc (rw (trim_space-nil, is_empty) at e))
id_of_value_not_empty (string (x ∷ s)) e = ground arith

thread_id_not_empty : (m : Meta) {id : Bytes} → thread_id_from_meta m ≡ ok id → is_empty id ≡ false
unfolding thread_id_from_meta
thread_id_not_empty none e = ground arith
thread_id_not_empty (some m) {id} e = elim (Option-cases (m meta_thread_id)) [
  | inl h ↦ ground arith
  | inr (v, h) ↦ id_of_value_not_empty v (rw h at e)
]

disabled_stays : (c : Backend) (ms : List Meta) → c.disabled ≡ true → adopt_all c ms ≡ c
unfolding adopt_all adopt adopt_id
disabled_stays c [] h = refl
disabled_stays c (m ∷ ms) h = ground (arith, disabled_stays c ms)

second_disables :
    (c : Backend) (ms : List Meta) (id : Bytes)
    → is_empty id ≡ false
    → c.disabled ≡ false
    → adopt_all (record c { thread = id }) ms ≡ (
        if all_are id (ids_seen ms)
        then record c { thread = id }
        else record c { thread = []; disabled = true })
unfolding adopt_all adopt adopt_id ids_seen all_are
second_disables c [] id ne h = refl
second_disables c (m ∷ ms) id ne h = ground (
  arith,
  second_disables c ms id ne h,
  disabled_stays (record c { thread = []; disabled = true }) ms refl,
)

-- After any run of requests, a new backend holds the one thread that the requests naming a thread
-- agree on, holds none where no request named one, and is disabled, with no thread, where two of
-- them differ, whatever came between and after them.
pub adopt_all-latched :
    (default_name name : Bytes) (ms : List Meta)
    → adopt_all (new_codex default_name name) ms
      ≡ latched (new_codex default_name name) (ids_seen ms)
unfolding adopt_all adopt adopt_id ids_seen latched new_codex is_empty
adopt_all-latched default_name name [] = refl
adopt_all-latched default_name name (m ∷ ms) = elim (Result-cases (thread_id_from_meta m)) [
  | inl (id, e) ↦
      let ne = thread_id_not_empty m e in
      ground (arith, second_disables (new_codex default_name name) ms id ne refl)
  | inr (no_meta, e) ↦ rw (e, adopt, ids_seen) (adopt_all-latched default_name name ms)
  | inr (not_a_thread_id, e) ↦ rw (e, adopt, ids_seen) (adopt_all-latched default_name name ms)
]
