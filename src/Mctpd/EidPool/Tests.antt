-- ===== src/Mctpd/EidPool/Tests.antt =====
-- The pool of mctpd/src/utils/eid_pool.cpp on concrete pools.
use pmci.Prelude.{◌≡◌, refl, true, false, [], ◌∷◌, some}
use pmci.Mctpd.EidPool.{EidPool, keep_entry, get_available_eid_from_pool}
use pmci.Mctpd.EidPool.Queue.{Allocates, IsUnique, get_available-Allocates}

abbrev pool : EidPool
pool = (9, true) ∷ (10, false) ∷ (11, false) ∷ []

abbrev taken : EidPool
taken = (9, true) ∷ (10, true) ∷ (11, false) ∷ []

IsUnique-pool : IsUnique pool
IsUnique-pool = (refl, (refl, (refl, tt)))

pool_gives : get_available_eid_from_pool pool ≡ some (10, taken)
unfolding get_available_eid_from_pool keep_entry
pool_gives = refl

get_available-Allocates_example : Allocates pool (10 ∷ 11 ∷ []) (get_available_eid_from_pool pool)
get_available-Allocates_example = get_available-Allocates pool
