-- ===== src/Pldmd/Pdr/Names/Shared.antt =====
-- pldmd/src/pdr_manager.cpp, parseEntityAuxNamesPDR: names that a range of entities shares.
use pmci.Prelude.{
  ℕ, zero, suc, ◌+◌, ◌%◌, ◌≤◌, ◌<◌, ◌≡◌, refl, true, [], ◌∷◌, ◌++◌, Option, none, some, Bytes,
  arith, leb, Bool-cases, inl, inr, if◌then◌else◌,
}
use pmci.Pldmd.Pdr.Association.{Entity, same_entity}
use pmci.Pldmd.Pdr.Association.Search.{same_entity_refl, same_entity→eq}
use pmci.Pldmd.Pdr.Names.{text, to_string, EntityMap, find_entity, emplace_entity, share_name}

pub or_else : Option Bytes → Bytes → Bytes
or_else none w = w
or_else (some v) w = v

pub find-emplace_entity :
    (e f : Entity) (v : Bytes) (m : EntityMap)
    → find_entity f (emplace_entity e v m)
      ≡ (if same_entity e f then some (or_else (find_entity e m) v) else find_entity f m)
unfolding find_entity emplace_entity or_else
find-emplace_entity e f v [] = refl
find-emplace_entity e f v ((g, w) ∷ m) = elim (Bool-cases (same_entity g e)) [
  | inl h ↦ rw (same_entity→eq g e h) (ground (arith, same_entity_refl e))
  | inr h ↦ elim (Bool-cases (same_entity e f)) [
    | inl k ↦
        rw (h, emplace_entity)
          (ground (arith, h, k, same_entity→eq e f k, find-emplace_entity e f v m))
    | inr k ↦ rw (h, emplace_entity) (ground (arith, h, k, find-emplace_entity e f v m))
  ]
]

emplace_twice :
    (e : Entity) (v w : Bytes) (m : EntityMap)
    → emplace_entity e w (emplace_entity e v m) ≡ emplace_entity e v m
unfolding emplace_entity
emplace_twice e v w [] = ground (arith, same_entity_refl e)
emplace_twice e v w ((g, u) ∷ m) = ground (arith, emplace_twice e v w m)

-- Below the largest instance number the loop ends, and adds no further name.
share_name-rest :
    (left instance last count : ℕ) (name v : Bytes) (e : Entity) (m : EntityMap)
    → last < 65535
    → instance ≤ last + 1
    → last + 1 ≡ instance + left
    → share_name (suc left) instance last count name e (emplace_entity e v m)
      ≡ some (emplace_entity e v m)
unfolding share_name
share_name-rest zero instance last count name v e m h i l = ground arith
share_name-rest (suc left) instance last count name v e m h i l =
    let k : leb instance last ≡ true = ground arith in
    let w = name ++ (text "_" ++ to_string count) in
    let ih =
      share_name-rest left (instance + 1) last ((count + 1) % 65536) name v e m h (omega arith)
        (omega arith) in
    let u : (instance + 1) % 65536 ≡ instance + 1 = omega arith in
    rw (k, share_name) (rw (emplace_twice e v w m) (rw u ih))

share_name-first :
    (name : Bytes) (e : Entity) (shared : ℕ) (m : EntityMap)
    → e.entity_instance_num + shared < 65535
    → share_name (shared + 2) e.entity_instance_num (e.entity_instance_num + shared) 0 name e m
      ≡ some (emplace_entity e (name ++ (text "_" ++ to_string 0)) m)
unfolding share_name
share_name-first name e shared m h =
    let i = e.entity_instance_num in
    let v = name ++ (text "_" ++ to_string 0) in
    let k : leb i (i + shared) ≡ true = ground arith in
    let u : (i + 1) % 65536 ≡ i + 1 = omega arith in
    let f : shared + 2 ≡ suc (suc shared) = omega arith in
    rw f (
      rw (k, share_name)
        (rw u
          (share_name-rest shared (i + 1) (i + shared) 1 name v e m h (omega arith) (omega arith))))

share_name-endless :
    (fuel instance last count : ℕ) (name : Bytes) (e : Entity) (m : EntityMap)
    → 65535 ≤ last
    → instance < 65536
    → share_name fuel instance last count name e m ≡ none
unfolding share_name
share_name-endless zero instance last count name e m h i = refl
share_name-endless (suc fuel) instance last count name e m h i =
    let ih =
      share_name-endless fuel ((instance + 1) % 65536) last ((count + 1) % 65536) name e
        (emplace_entity e (name ++ (text "_" ++ to_string count)) m) h (omega arith) in
    let k : leb instance last ≡ true = ground arith in rw (k, share_name) ih

-- A name that a range of entities shares is given to the first of them only, with the suffix _0,
-- when the last instance number of the range is below 65535; otherwise the loop over the range never
-- ends. The first instance number has sixteen bits.
pub share_name-result :
    (name : Bytes) (e : Entity) (shared : ℕ) (m : EntityMap)
    → e.entity_instance_num < 65536
    → let last = e.entity_instance_num + shared in
      (last < 65535
        → share_name (shared + 2) e.entity_instance_num last 0 name e m
          ≡ some (emplace_entity e (name ++ (text "_" ++ to_string 0)) m))
      × (65535 ≤ last → (fuel : ℕ) → share_name fuel e.entity_instance_num last 0 name e m ≡ none)
share_name-result name e shared m i = (
  share_name-first name e shared m,
  λ h fuel.
      share_name-endless fuel e.entity_instance_num (e.entity_instance_num + shared) 0 name e m h i,
)
