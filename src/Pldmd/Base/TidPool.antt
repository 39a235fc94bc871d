-- ===== src/Pldmd/Base/TidPool.antt =====
-- pldmd/src/base.cpp, struct TIDPool: the TIDs that can be assigned, in the order in which they are.
use pmci.Prelude.{
  ℕ, zero, suc, ◌+◌, ◌≤◌, ◌≡◌, refl, Bool, true, false, List, [], ◌∷◌, ◌++◌, Option, none, some,
  arith, ◌==◌, if◌then◌else◌, ◌&&◌,
}

-- A TID, and whether it is used.
abbrev pub FifoTidPool : Type 0
FifoTidPool = List (ℕ × Bool)

-- `n` unused TIDs from `tid` on.
abbrev tids_from : ℕ → ℕ → FifoTidPool
tids_from zero tid = []
tids_from (suc n) tid = (tid, false) ∷ tids_from n (tid + 1)

abbrev pub tid_pool : ℕ → FifoTidPool
tid_pool tid_range = tids_from tid_range 1

unfoldable pass_used : ℕ → Option (ℕ × FifoTidPool) → Option (ℕ × FifoTidPool)
pass_used tid none = none
pass_used tid (some (t, p)) = some (t, (tid, true) ∷ p)

unfoldable pub get_free_tid : FifoTidPool → Option (ℕ × FifoTidPool)
unfolding pass_used
get_free_tid [] = none
get_free_tid ((tid, false) ∷ pool) = some (tid, (tid, true) ∷ pool)
get_free_tid ((tid, true) ∷ pool) = pass_used tid (get_free_tid pool)

-- Whether `findUsedTID` finds the TID.
abbrev pub find_used_tid : ℕ → FifoTidPool → Bool
find_used_tid tid [] = false
find_used_tid tid ((t, used) ∷ pool) = if t == tid && used then true else find_used_tid tid pool

unfoldable pub push_front_unused_tid : ℕ → FifoTidPool → FifoTidPool
push_front_unused_tid tid [] = []
push_front_unused_tid tid ((t, used) ∷ pool) =
    if t == tid && used then (t, false) ∷ pool else (t, used) ∷ push_front_unused_tid tid pool

-- `erase` of what `findUsedTID` finds.
erase_used : ℕ → FifoTidPool → FifoTidPool
erase_used tid [] = []
erase_used tid ((t, used) ∷ pool) =
    if t == tid && used then pool else (t, used) ∷ erase_used tid pool

unfoldable pub push_back_freed_tid : ℕ → FifoTidPool → FifoTidPool
unfolding erase_used
push_back_freed_tid tid pool =
    if find_used_tid tid pool then erase_used tid pool ++ (tid, false) ∷ [] else pool

-- How often a TID stands in the pool.
abbrev pub count : ℕ → FifoTidPool → ℕ
count tid [] = 0
count tid ((t, used) ∷ pool) = if t == tid then suc (count tid pool) else count tid pool

-- No TID stands in the pool twice.
abbrev pub IsUnique : FifoTidPool → Type 0
IsUnique pool = (t : ℕ) → count t pool ≤ 1

pass_used-eq-some :
    (tid : ℕ) (o : Option (ℕ × FifoTidPool)) (t : ℕ) (p : FifoTidPool)
    → pass_used tid o ≡ some (t, p)
    → (p' : FifoTidPool) × (o ≡ some (t, p')) × (p ≡ (tid, true) ∷ p')
unfolding pass_used
pass_used-eq-some tid none t p h = cc
pass_used-eq-some tid (some (u, q)) t p h = (q, cc, cc)

pub count-get_free_tid :
    (pool p : FifoTidPool) (t j : ℕ) → get_free_tid pool ≡ some (t, p) → count j p ≡ count j pool
unfolding get_free_tid
count-get_free_tid [] p t j h = cc
count-get_free_tid ((u, false) ∷ pool) p t j h = ground arith
count-get_free_tid ((u, true) ∷ pool) p t j h =
    let (q, g, e) = pass_used-eq-some u (get_free_tid pool) t p h in
    rw e (ground (arith, count-get_free_tid pool q t j g))

count-push_front_unused_tid :
    (pool : FifoTidPool) (t j : ℕ) → count j (push_front_unused_tid t pool) ≡ count j pool
unfolding push_front_unused_tid
count-push_front_unused_tid [] t j = refl
count-push_front_unused_tid ((u, b) ∷ pool) t j =
    ground (arith, count-push_front_unused_tid pool t j)

count-append : (p q : FifoTidPool) (j : ℕ) → count j (p ++ q) ≡ count j p + count j q
count-append [] q j = omega arith
count-append ((u, b) ∷ p) q j = ground (arith, count-append p q j)

count-erase_used :
    (pool : FifoTidPool) (t j : ℕ)
    → find_used_tid t pool ≡ true
    → count j (erase_used t pool) + (if t == j then 1 else 0) ≡ count j pool
unfolding erase_used
count-erase_used [] t j h = cc
count-erase_used ((u, b) ∷ pool) t j h = ground (arith, count-erase_used pool t j)

count-push_back_freed_tid :
    (pool : FifoTidPool) (t j : ℕ) → count j (push_back_freed_tid t pool) ≡ count j pool
unfolding push_back_freed_tid
count-push_back_freed_tid pool t j =
    ground (arith, count-append (erase_used t pool) ((t, false) ∷ []) j, count-erase_used pool t j)

used_counts : (pool : FifoTidPool) (t : ℕ) → find_used_tid t pool ≡ true → 1 ≤ count t pool
used_counts [] t h = cc
used_counts ((u, b) ∷ pool) t h = ground (arith, used_counts pool t)

unused : (pool : FifoTidPool) (t : ℕ) → count t pool ≡ 0 → find_used_tid t pool ≡ false
unused [] t h = refl
unused ((u, b) ∷ pool) t h = ground (arith, unused pool t)

IsUnique-tail : (u : ℕ) (b : Bool) (pool : FifoTidPool) → IsUnique ((u, b) ∷ pool) → IsUnique pool
IsUnique-tail u b pool w t = ground (arith, w t)

-- The TID that is taken was not used, and is the only one whose use changes.
pub used-get_free_tid :
    (pool p : FifoTidPool) (t : ℕ)
    → IsUnique pool
    → get_free_tid pool ≡ some (t, p)
    → (find_used_tid t pool ≡ false)
      × ((j : ℕ) → find_used_tid j p ≡ (if j == t then true else find_used_tid j pool))
unfolding get_free_tid
used-get_free_tid [] p t w h = cc
used-get_free_tid ((u, false) ∷ pool) p t w h =
    (ground (arith, w u, unused pool u), λ j. ground arith)
used-get_free_tid ((u, true) ∷ pool) p t w h =
    let (q, g, e) = pass_used-eq-some u (get_free_tid pool) t p h in
    let (a, b) = used-get_free_tid pool q t (IsUnique-tail u true pool w) g in
    (
      ground (arith, a, b t, used_counts q t, count-get_free_tid pool q t t g, w t),
      λ j. rw e (ground (arith, b j)),
    )

used-push_front_unused_tid :
    (pool : FifoTidPool) (t j : ℕ)
    → IsUnique pool
    → find_used_tid j (push_front_unused_tid t pool)
      ≡ (if j == t then false else find_used_tid j pool)
unfolding push_front_unused_tid
used-push_front_unused_tid [] t j w = ground arith
used-push_front_unused_tid ((u, b) ∷ pool) t j w =
    ground
      (arith, used-push_front_unused_tid pool t j (IsUnique-tail u b pool w), w u, unused pool u)

-- A TID that was taken and is given back unused leaves the pool as it was.
pub push_front-get_free :
    (pool p : FifoTidPool) (t : ℕ)
    → IsUnique pool
    → get_free_tid pool ≡ some (t, p)
    → push_front_unused_tid t p ≡ pool
unfolding get_free_tid push_front_unused_tid
push_front-get_free [] p t w h = cc
push_front-get_free ((u, false) ∷ pool) p t w h = ground arith
push_front-get_free ((u, true) ∷ pool) p t w h =
    let (q, g, e) = pass_used-eq-some u (get_free_tid pool) t p h in
    let (a, b) = used-get_free_tid pool q t (IsUnique-tail u true pool w) g in
    rw e (
      ground (
        arith,
        b t,
        used_counts q t,
        count-get_free_tid pool q t t g,
        w t,
        push_front-get_free pool q t (IsUnique-tail u true pool w) g,
      ))

used-append :
    (p : FifoTidPool) (t j : ℕ) → find_used_tid j (p ++ (t, false) ∷ []) ≡ find_used_tid j p
used-append [] t j = ground arith
used-append ((u, b) ∷ p) t j = ground (arith, used-append p t j)

used-erase_used :
    (pool : FifoTidPool) (t j : ℕ)
    → IsUnique pool
    → find_used_tid j (erase_used t pool) ≡ (if j == t then false else find_used_tid j pool)
unfolding erase_used
used-erase_used [] t j w = ground arith
used-erase_used ((u, b) ∷ pool) t j w =
    ground (arith, used-erase_used pool t j (IsUnique-tail u b pool w), w u, unused pool u)

used-push_back_freed_tid :
    (pool : FifoTidPool) (t j : ℕ)
    → IsUnique pool
    → find_used_tid j (push_back_freed_tid t pool)
      ≡ (if j == t then false else find_used_tid j pool)
unfolding push_back_freed_tid
used-push_back_freed_tid pool t j w =
    ground (arith, used-append (erase_used t pool) t j, used-erase_used pool t j w)

-- What the pool's three operations do: none adds or drops a TID; a TID that is taken was not used; and
-- of the others no operation changes the use.
pub record KeepsTids (pool : FifoTidPool) (t : ℕ) : Type 0 where
  pub kept :
      (j : ℕ)
      → (count j (push_front_unused_tid t pool) ≡ count j pool)
        × (count j (push_back_freed_tid t pool) ≡ count j pool)
  pub freed :
      (j : ℕ)
      → (find_used_tid j (push_front_unused_tid t pool)
          ≡ (if j == t then false else find_used_tid j pool))
        × (find_used_tid j (push_back_freed_tid t pool)
            ≡ (if j == t then false else find_used_tid j pool))
  pub taken :
      (p : FifoTidPool)
      → get_free_tid pool ≡ some (t, p)
      → (find_used_tid t pool ≡ false)
        × (push_front_unused_tid t p ≡ pool)
        × ((j : ℕ)
            → (count j p ≡ count j pool)
              × (find_used_tid j p ≡ (if j == t then true else find_used_tid j pool)))

-- In a pool without repetitions, taking a TID, giving it back unused and freeing it neither add nor
-- drop a TID, and change the use of that TID only; a TID that is taken was not used, and giving it
-- back unused leaves the pool as it was before.
pub tid_pool-KeepsTids : (pool : FifoTidPool) (t : ℕ) → IsUnique pool → KeepsTids pool t
tid_pool-KeepsTids pool t w = record {
  kept = λ j. (count-push_front_unused_tid pool t j, count-push_back_freed_tid pool t j);
  freed = λ j. (used-push_front_unused_tid pool t j w, used-push_back_freed_tid pool t j w);
  taken = λ p h.
      let (a, b) = used-get_free_tid pool p t w h in
      (a, push_front-get_free pool p t w h, λ j. (count-get_free_tid pool p t j h, b j));
}
