-- ===== src/Mctpd/EidPool.antt =====
-- mctpd/src/utils/eid_pool.cpp: the pool of endpoint ids that a bus owner hands out.
-- The vector of pairs is a list, its front first. A throw is `none`.
pub mod Queue
mod Tests
use pmci.Prelude.{
  ℕ, Bool, true, false, List, [], ◌∷◌, ◌++◌, Option, none, some, length, ltb, ◌==◌, if◌then◌else◌,
}

-- An endpoint id, and whether it is assigned.
abbrev pub EidPool : Type 0
EidPool = List (ℕ × Bool)

-- The set is given in ascending order, as it is walked.
pub initialize_eid_pool : List ℕ → EidPool → EidPool
initialize_eid_pool [] pool = pool
initialize_eid_pool (eid ∷ eids) pool = initialize_eid_pool eids (pool ++ (eid, false) ∷ [])

-- `erase(remove_if(...))`.
remove_eid : ℕ → EidPool → EidPool
remove_eid eid [] = []
remove_eid eid ((e, a) ∷ pool) =
    if e == eid then remove_eid eid pool else (e, a) ∷ remove_eid eid pool

pub update_eid_status : ℕ → Bool → EidPool → EidPool
update_eid_status eid assigned pool =
    let rest = remove_eid eid pool in
    let eid_present = ltb (length rest) (length pool) in
    if eid_present then rest ++ (eid, assigned) ∷ [] else rest

-- The entries that the walk has passed stay in front of what it returns.
unfoldable pub keep_entry : ℕ × Bool → Option (ℕ × EidPool) → Option (ℕ × EidPool)
keep_entry x none = none
keep_entry x (some (e, q)) = some (e, x ∷ q)

unfoldable pub get_available_eid_from_pool : EidPool → Option (ℕ × EidPool)
unfolding keep_entry
get_available_eid_from_pool [] = none
get_available_eid_from_pool ((eid, true) ∷ pool) =
    keep_entry (eid, true) (get_available_eid_from_pool pool)
get_available_eid_from_pool ((eid, false) ∷ pool) = some (eid, (eid, true) ∷ pool)
