-- ===== src/Mctpd/EidPool/Queue.antt =====
-- The pool of mctpd/src/utils/eid_pool.cpp as a first-in first-out queue of free endpoint ids.
use pmci.Prelude.{
  ℕ, ◌≤◌, ◌≡◌, refl, ap, ◌&&◌, Bool, true, false, not, List, [], ◌∷◌, ◌++◌, Option, none, some,
  arith, length, ltb, ◌==◌, if◌then◌else◌,
}
use pmci.Mctpd.EidPool.{
  EidPool, keep_entry, remove_eid, update_eid_status, get_available_eid_from_pool,
}
use mathlib.Core.List.{append-nil}

-- The ids that are not assigned, in the order in which they will be handed out.
abbrev pub free : EidPool → List ℕ
free [] = []
free ((e, true) ∷ pool) = free pool
free ((e, false) ∷ pool) = e ∷ free pool

-- What the pool holds for an id: nothing, or whether it is assigned.
abbrev pub status : ℕ → EidPool → Option Bool
status k [] = none
status k ((e, a) ∷ pool) = if e == k then some a else status k pool

abbrev pub without : ℕ → List ℕ → List ℕ
without k [] = []
without k (e ∷ es) = if e == k then without k es else e ∷ without k es

free-append : (p q : EidPool) → free (p ++ q) ≡ free p ++ free q
free-append [] q = refl
free-append ((e, true) ∷ p) q = free-append p q
free-append ((e, false) ∷ p) q = ap (◌∷◌ e) (free-append p q)

free-remove_eid : (k : ℕ) (p : EidPool) → free (remove_eid k p) ≡ without k (free p)
unfolding remove_eid
free-remove_eid k [] = refl
free-remove_eid k ((e, true) ∷ p) = ground (arith, free-remove_eid k p)
free-remove_eid k ((e, false) ∷ p) = ground (arith, free-remove_eid k p)

length-remove_eid : (k : ℕ) (p : EidPool) → length (remove_eid k p) ≤ length p
unfolding remove_eid
length-remove_eid k [] = omega arith
length-remove_eid k ((e, a) ∷ p) = ground (arith, length-remove_eid k p)

-- The size falls exactly when the id is present.
abbrev is_present : Option Bool → Bool
is_present none = false
is_present (some a) = true

remove_eid-present :
    (k : ℕ) (p : EidPool) → ltb (length (remove_eid k p)) (length p) ≡ is_present (status k p)
unfolding remove_eid
remove_eid-present k [] = refl
remove_eid-present k ((e, a) ∷ p) = ground (arith, remove_eid-present k p, length-remove_eid k p)

status-remove_eid :
    (k j : ℕ) (p : EidPool) → status j (remove_eid k p) ≡ (if j == k then none else status j p)
unfolding remove_eid
status-remove_eid k j [] = ground arith
status-remove_eid k j ((e, a) ∷ p) = ground (arith, status-remove_eid k j p)

status-append :
    (j : ℕ) (p q : EidPool)
    → status j (p ++ q) ≡ elim (status j p) [ none ↦ status j q | some a ↦ some a ]
status-append j [] q = refl
status-append j ((e, a) ∷ p) q = ground (arith, status-append j p q)

-- Setting the status of an id takes it out of the queue of free ids, and puts it at the
-- end when the pool has it and it becomes free.
pub free-update_eid_status :
    (k : ℕ) (a : Bool) (p : EidPool)
    → free (update_eid_status k a p)
      ≡ without k (free p) ++ (if is_present (status k p) && not a then k ∷ [] else [])
unfolding update_eid_status
free-update_eid_status k a p = ground (
  arith,
  remove_eid-present k p,
  free-append (remove_eid k p) ((k, a) ∷ []),
  free-remove_eid k p,
  append-nil (without k (free p)),
)

-- Setting the status of an id that the pool has sets that status, and leaves every other id as it
-- was; of an id that the pool does not have it changes nothing that can be looked up.
pub status-update_eid_status :
    (k j : ℕ) (a : Bool) (p : EidPool)
    → status j (update_eid_status k a p)
      ≡ (if j == k && is_present (status k p) then some a else status j p)
unfolding update_eid_status
status-update_eid_status k j a p = ground (
  arith,
  remove_eid-present k p,
  status-append j (remove_eid k p) ((k, a) ∷ []),
  status-remove_eid k j p,
)

-- What an allocation must do: on an empty queue it fails; otherwise it takes the id at the front and
-- leaves the others in the queue.
abbrev pub Allocates : EidPool → List ℕ → Option (ℕ × EidPool) → Type 0
Allocates p [] r = r ≡ none
Allocates p (e ∷ es) r = (q : EidPool) × (r ≡ some (e, q)) × (free q ≡ es)

Allocates-cons_assigned :
    (e : ℕ) (p : EidPool) (es : List ℕ) (r : Option (ℕ × EidPool))
    → Allocates p es r
    → Allocates ((e, true) ∷ p) es (keep_entry (e, true) r)
unfolding keep_entry
Allocates-cons_assigned e p [] r h = rw h
Allocates-cons_assigned e p (f ∷ es) r (q, h, g) = ((e, true) ∷ q, rw h, g)

-- Allocation takes the front of the queue of free ids, and fails exactly when that is empty.
pub get_available-Allocates : (p : EidPool) → Allocates p (free p) (get_available_eid_from_pool p)
unfolding get_available_eid_from_pool
get_available-Allocates [] = refl
get_available-Allocates ((e, true) ∷ p) =
    Allocates-cons_assigned e p (free p) (get_available_eid_from_pool p) (get_available-Allocates p)
get_available-Allocates ((e, false) ∷ p) = ((e, true) ∷ p, refl, refl)

-- No id stands in the pool twice.
abbrev pub IsUnique : EidPool → Type 0
IsUnique [] = Unit {0}
IsUnique ((e, a) ∷ p) = (status e p ≡ none) × IsUnique p

keep_entry-eq-some :
    (x : ℕ × Bool) (o : Option (ℕ × EidPool)) (e : ℕ) (q : EidPool)
    → keep_entry x o ≡ some (e, q)
    → (q' : EidPool) × (o ≡ some (e, q')) × (q ≡ x ∷ q')
unfolding keep_entry
keep_entry-eq-some x none e q h = cc
keep_entry-eq-some x (some (f, r)) e q h = (r, cc, cc)

abbrev Allocated : EidPool → EidPool → ℕ → ℕ → Type 0
Allocated p q e j =
    (status e p ≡ some false) × (status j q ≡ (if e == j then some true else status j p))

available_status :
    (p q : EidPool) (e j : ℕ)
    → IsUnique p
    → get_available_eid_from_pool p ≡ some (e, q)
    → (status e p ≡ some false) × (status j q ≡ (if e == j then some true else status j p))
unfolding get_available_eid_from_pool
available_status [] q e j u h = cc
available_status ((f, true) ∷ p) q e j u h =
    let (q', g, eq) = keep_entry-eq-some (f, true) (get_available_eid_from_pool p) e q h in
    let ih : Allocated p q' e j = available_status p q' e j u.1 g in
    (ground (arith, u.0, ih.0), rw eq (ground (arith, u.0, ih.0, ih.1)))
available_status ((f, false) ∷ p) q e j u h = ground arith

get_available-IsUnique :
    (p q : EidPool) (e : ℕ) → IsUnique p → get_available_eid_from_pool p ≡ some (e, q) → IsUnique q
unfolding get_available_eid_from_pool
get_available-IsUnique [] q e u h = cc
get_available-IsUnique ((f, true) ∷ p) q e u h =
    let (q', g, eq) = keep_entry-eq-some (f, true) (get_available_eid_from_pool p) e q h in
    let st : Allocated p q' e f = available_status p q' e f u.1 g in
    rw eq (ground (arith, u.0, st.0, st.1), get_available-IsUnique p q' e u.1 g)
get_available-IsUnique ((f, false) ∷ p) q e u h = ground arith

remove_eid-IsUnique : (k : ℕ) (p : EidPool) → IsUnique p → IsUnique (remove_eid k p)
unfolding remove_eid
remove_eid-IsUnique k [] u = tt
remove_eid-IsUnique k ((e, a) ∷ p) u =
    ground (arith, remove_eid-IsUnique k p u.1, status-remove_eid k e p)

snoc-IsUnique :
    (k : ℕ) (a : Bool) (p : EidPool) → IsUnique p → status k p ≡ none → IsUnique (p ++ (k, a) ∷ [])
snoc-IsUnique k a [] u h = (refl, tt)
snoc-IsUnique k a ((e, b) ∷ p) u h =
    (ground (arith, status-append e p ((k, a) ∷ [])), snoc-IsUnique k a p u.1 (ground arith))

-- From a pool of distinct ids, the id that is allocated was free, it is assigned afterwards, every
-- other id keeps its status, and the ids stay distinct.
pub get_available-status :
    (p q : EidPool) (e j : ℕ)
    → IsUnique p
    → get_available_eid_from_pool p ≡ some (e, q)
    → (status e p ≡ some false)
      × (status j q ≡ (if e == j then some true else status j p))
      × IsUnique q
get_available-status p q e j u h =
    let s : Allocated p q e j = available_status p q e j u h in
    (s.0, s.1, get_available-IsUnique p q e u h)

-- Setting a status keeps the ids of the pool distinct.
pub update_eid_status-IsUnique :
    (p : EidPool) (k : ℕ) (a : Bool) → IsUnique p → IsUnique (update_eid_status k a p)
unfolding update_eid_status
update_eid_status-IsUnique p k a u = ground (
  arith,
  remove_eid-IsUnique k p u,
  snoc-IsUnique k a (remove_eid k p) (remove_eid-IsUnique k p u),
  status-remove_eid k k p,
)
