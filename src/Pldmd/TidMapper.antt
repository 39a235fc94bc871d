-- ===== src/Pldmd/TidMapper.antt =====
-- pldmd/src/pldmd.cpp, struct TIDMapper: which endpoint (EID) each PLDM terminus (TID) stands behind.
pub mod Bijection
mod Tests
use pmci.Prelude.{ℕ, Bool, true, false, List, [], ◌∷◌, Option, none, some, ◌==◌, if◌then◌else◌}
use pmci.Prelude.Map.{Map, find, erase, assign}

-- The keys are TIDs and the values EIDs.
abbrev pub TidMap : Type 0
TidMap = Map ℕ

unfoldable pub get_mapped_tid : ℕ → TidMap → Option ℕ
get_mapped_tid eid [] = none
get_mapped_tid eid ((t, e) ∷ m) = if e == eid then some t else get_mapped_tid eid m

is_eid_mapped : ℕ → TidMap → Bool
is_eid_mapped eid [] = false
is_eid_mapped eid ((t, e) ∷ m) = if e == eid then true else is_eid_mapped eid m

unfoldable pub add_entry : ℕ → ℕ → TidMap → TidMap × Bool
unfolding is_eid_mapped
add_entry tid eid m = if is_eid_mapped eid m then (m, false) else (assign tid eid m, true)

unfoldable pub remove_entry : ℕ → TidMap → TidMap
remove_entry tid m = erase tid m

unfoldable pub get_mapped_eid : ℕ → TidMap → Option ℕ
get_mapped_eid tid m = find tid m
