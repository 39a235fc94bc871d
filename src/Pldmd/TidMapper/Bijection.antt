-- ===== src/Pldmd/TidMapper/Bijection.antt =====
-- The map of pldmd/src/pldmd.cpp, struct TIDMapper, pairs TIDs and EIDs one to one.
use pmci.Prelude.{
  ℕ, ◌<◌, ◌≡◌, refl, ◌≢◌, ◌↔◌, ◌&&◌, inl, inr, Bool-cases, Bool, true, false, [], ◌∷◌, Option, none,
  some, arith, ◌==◌, if◌then◌else◌,
}
use pmci.Prelude.Map.{
  find, erase, assign, Above, IsSorted, find-assign, erase-IsSorted, assign-IsSorted,
}
use pmci.Pldmd.TidMapper.{
  TidMap, get_mapped_tid, is_eid_mapped, add_entry, remove_entry, get_mapped_eid,
}

-- No EID stands behind two TIDs, and the keys are in order.
abbrev pub Fresh : ℕ → TidMap → Type 0
Fresh eid [] = Unit {0}
Fresh eid ((t, e) ∷ m) = (eid ≢ e) × Fresh eid m

abbrev pub Distinct : TidMap → Type 0
Distinct [] = Unit {0}
Distinct ((t, e) ∷ m) = Fresh e m × Distinct m

pub record IsOneToOne (m : TidMap) : Type 0 where
  pub sorted : IsSorted m
  pub distinct : Distinct m

Fresh-of_unmapped : (eid : ℕ) (m : TidMap) → is_eid_mapped eid m ≡ false → Fresh eid m
unfolding is_eid_mapped
Fresh-of_unmapped eid [] h = tt
Fresh-of_unmapped eid ((t, e) ∷ m) h = (ground arith, Fresh-of_unmapped eid m (ground arith))

assign-Fresh : (e k v : ℕ) (m : TidMap) → e ≢ v → Fresh e m → Fresh e (assign k v m)
unfolding assign
assign-Fresh e k v [] h f = ground arith
assign-Fresh e k v ((j, w) ∷ m) h f = ground (arith, assign-Fresh e k v m)

assign-Distinct : (k v : ℕ) (m : TidMap) → Fresh v m → Distinct m → Distinct (assign k v m)
unfolding assign
assign-Distinct k v [] f d = ground arith
assign-Distinct k v ((j, w) ∷ m) f d = ground (
  arith,
  assign-Distinct k v m,
  assign-Fresh w k v m (λ e. f.0 (let p : v ≡ w = omega arith in p)),
)

erase-Fresh : (e k : ℕ) (m : TidMap) → Fresh e m → Fresh e (erase k m)
unfolding erase
erase-Fresh e k [] f = tt
erase-Fresh e k ((j, w) ∷ m) f = ground (arith, erase-Fresh e k m f.1)

erase-Distinct : (k : ℕ) (m : TidMap) → Distinct m → Distinct (erase k m)
unfolding erase
erase-Distinct k [] d = tt
erase-Distinct k ((j, w) ∷ m) d = ground (arith, erase-Distinct k m d.1, erase-Fresh w k m d.0)

-- Adding and removing entries keeps the pairing one to one, whatever is added.
pub tid_mapper-IsOneToOne :
    (m : TidMap) (tid eid : ℕ)
    → IsOneToOne m
    → IsOneToOne (add_entry tid eid m).0 × IsOneToOne (remove_entry tid m)
unfolding add_entry remove_entry
tid_mapper-IsOneToOne m tid eid o = (
  elim (Bool-cases (is_eid_mapped eid m)) [
    | inl e ↦ rw e o
    | inr e ↦ rw e (record {
      sorted = assign-IsSorted tid eid m o.sorted;
      distinct = assign-Distinct tid eid m (Fresh-of_unmapped eid m e) o.distinct;
    })
  ],
  record { sorted = erase-IsSorted tid m o.sorted; distinct = erase-Distinct tid m o.distinct },
)

mapped_tid-Fresh : (e : ℕ) (m : TidMap) → Fresh e m → get_mapped_tid e m ≡ none
unfolding get_mapped_tid
mapped_tid-Fresh e [] f = refl
mapped_tid-Fresh e ((t, w) ∷ m) f = ground (arith, mapped_tid-Fresh e m f.1)

mapped_eid-Fresh : (e t : ℕ) (m : TidMap) → Fresh e m → find t m ≢ some e
unfolding find
mapped_eid-Fresh e t [] f h = cc
mapped_eid-Fresh e t ((u, w) ∷ m) f h = ground (arith, mapped_eid-Fresh e t m f.1)

tid_of_eid :
    (m : TidMap) (n t e : ℕ)
    → Above n m
    → Distinct m
    → find t m ≡ some e
    → get_mapped_tid e m ≡ some t
unfolding find get_mapped_tid
tid_of_eid [] n t e a d h = cc
tid_of_eid ((u, w) ∷ m) n t e a d h =
    ground (arith, tid_of_eid m u t e a.1 d.1, mapped_eid-Fresh w t m d.0)

Above-tid : (m : TidMap) (n t e : ℕ) → Above n m → get_mapped_tid e m ≡ some t → n < t
unfolding get_mapped_tid
Above-tid [] n t e a h = cc
Above-tid ((u, w) ∷ m) n t e a h = ground (arith, Above-tid m u t e a.1)

eid_of_tid : (m : TidMap) (n t e : ℕ) → Above n m → get_mapped_tid e m ≡ some t → find t m ≡ some e
unfolding find get_mapped_tid
eid_of_tid [] n t e a h = cc
eid_of_tid ((u, w) ∷ m) n t e a h = ground (arith, eid_of_tid m u t e a.1, Above-tid m u t e a.1)

tid_of_eid_sorted :
    (m : TidMap) (t e : ℕ)
    → IsSorted m
    → Distinct m
    → find t m ≡ some e
    → get_mapped_tid e m ≡ some t
unfolding find get_mapped_tid
tid_of_eid_sorted [] t e a d h = cc
tid_of_eid_sorted ((u, w) ∷ m) t e a d h =
    ground (arith, tid_of_eid m u t e a d.1, mapped_eid-Fresh w t m d.0)

eid_of_tid_sorted :
    (m : TidMap) (t e : ℕ) → IsSorted m → get_mapped_tid e m ≡ some t → find t m ≡ some e
unfolding find get_mapped_tid
eid_of_tid_sorted [] t e a h = cc
eid_of_tid_sorted ((u, w) ∷ m) t e a h = ground (arith, eid_of_tid m u t e a, Above-tid m u t e a)

-- In a one-to-one map the two look-ups are inverse to one another.
pub mapped_eid-mapped_tid :
    (m : TidMap) (t e : ℕ)
    → IsOneToOne m
    → (get_mapped_eid t m ≡ some e) ↔ (get_mapped_tid e m ≡ some t)
unfolding get_mapped_eid
mapped_eid-mapped_tid m t e o =
    (tid_of_eid_sorted m t e o.sorted o.distinct, eid_of_tid_sorted m t e o.sorted)

abbrev pub is_none : Option ℕ → Bool
is_none none = true
is_none (some t) = false

mapped_is_none :
    (e : ℕ) (m : TidMap)
    → is_eid_mapped e m ≡ (if is_none (get_mapped_tid e m) then false else true)
unfolding is_eid_mapped get_mapped_tid
mapped_is_none e [] = refl
mapped_is_none e ((t, w) ∷ m) = ground (arith, mapped_is_none e m)

-- An entry is added exactly when its EID is not mapped yet: then its TID gets that EID and the other
-- TIDs keep theirs; otherwise no TID's EID changes.
pub get_mapped_eid-add_entry :
    (m : TidMap) (tid eid t : ℕ)
    → ((add_entry tid eid m).1 ≡ is_none (get_mapped_tid eid m))
      × (get_mapped_eid t (add_entry tid eid m).0
          ≡ (if is_none (get_mapped_tid eid m) && t == tid then some eid else get_mapped_eid t m))
unfolding add_entry get_mapped_eid
get_mapped_eid-add_entry m tid eid t = ground (arith, mapped_is_none eid m, find-assign tid t eid m)
