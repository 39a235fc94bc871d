-- ===== src/Pldmd/Base/Discovery/Outcome.antt =====
-- pldmd/src/base.cpp: what a registration leaves behind, whether it gives a TID or not.
use pmci.Prelude.{
  ℕ, ◌≡◌, refl, [], ◌∷◌, Option, none, some, arith, Bool-cases, inl, inr, ◌∙◌, ◌⊎◌, ==_refl,
}
use pmci.Prelude.Map.{Map, find, emplace, find-assign, find-emplace}
use pmci.Pldmd.TidMapper.{add_entry, get_mapped_eid}
use pmci.Pldmd.TidMapper.Bijection.{get_mapped_eid-add_entry}
use pmci.Pldmd.Base.TidPool.{
  FifoTidPool, get_free_tid, push_front_unused_tid, IsUnique, push_front-get_free,
}
use pmci.Pldmd.Base.Requests.{BaseCodec, set_tid}
use pmci.Pldmd.Base.Tables.{CommandSupportTable, is_supported}
use pmci.Pldmd.Base.Discovery.{
  Base, pldm_base, pldm_set_tid, unused_again, map_uuid, enter, assign_tid, register, tid_of_uuid,
  assign_new,
}

-- What discovery keeps of the termini, apart from the bus.
abbrev pub Same : Base → Base → Type 0
Same s s' =
    (s'.pool ≡ s.pool)
    × (s'.uuid_mapping ≡ s.uuid_mapping)
    × (s'.reclaim_timers ≡ s.reclaim_timers)
    × (s'.discovery_data_table ≡ s.discovery_data_table)

-- An assignment that fails gives the TID back unused.
abbrev pub GivesBack : ℕ → Base → Base → Type 0
GivesBack tid s s' =
    (s'.pool ≡ push_front_unused_tid tid s.pool)
    × (s'.uuid_mapping ≡ s.uuid_mapping)
    × (s'.reclaim_timers ≡ s.reclaim_timers)
    × (s'.discovery_data_table ≡ s.discovery_data_table)

enter-fails :
    (eid : ℕ) (uuid : Option ℕ) (table : CommandSupportTable) (tid : ℕ) (s : Base)
    → (enter eid uuid table tid s).1 ≡ none
    → GivesBack tid s (enter eid uuid table tid s).0
unfolding enter unused_again
enter-fails eid uuid table tid s h = elim (Bool-cases (add_entry tid eid s.bus.tid_mapper).1) [
  | inl a ↦ ground arith
  | inr a ↦ ground arith
]

pub assign_tid-fails :
    (lib : BaseCodec) (eid : ℕ) (uuid : Option ℕ) (table : CommandSupportTable) (tid : ℕ) (s : Base)
    → (assign_tid lib eid uuid table tid s).1 ≡ none
    → GivesBack tid s (assign_tid lib eid uuid table tid s).0
unfolding assign_tid unused_again
assign_tid-fails lib eid uuid table tid s h =
    let r = set_tid lib eid tid s.bus in
    ground (
      arith,
      enter-fails eid uuid table tid s,
      enter-fails eid uuid table tid (record s { bus = r.0 }),
    )

assign_new-Same :
    (lib : BaseCodec) (eid : ℕ) (uuid : Option ℕ) (table : CommandSupportTable)
    (o : Option (ℕ × FifoTidPool)) (s : Base)
    → IsUnique s.pool
    → get_free_tid s.pool ≡ o
    → (assign_new lib eid uuid table o s).1 ≡ none
    → Same s (assign_new lib eid uuid table o s).0
unfolding assign_new
assign_new-Same lib eid uuid table none s w e h = (refl, refl, refl, refl)
assign_new-Same lib eid uuid table (some (tid, p)) s w e h =
    let (a, b, c, d) = assign_tid-fails lib eid uuid table tid (record s { pool = p }) h in
    (a ∙ push_front-get_free s.pool p tid w e, b, c, d)

-- With a pool that has each TID once at most, the registration of a terminus whose UUID is not known,
-- when it fails, leaves the pool of TIDs, the UUIDs, the timers and the table of termini as they were.
pub failed_registration-Same :
    (lib : BaseCodec) (eid : ℕ) (uuid : Option ℕ) (assigned : ℕ) (table : CommandSupportTable)
    (s : Base)
    → IsUnique s.pool
    → (register lib eid uuid none assigned table s).1 ≡ none
    → Same s (register lib eid uuid none assigned table s).0
unfolding register
failed_registration-Same lib eid uuid assigned table s w h =
    assign_new-Same lib eid uuid table (get_free_tid s.pool) s w refl h

-- The UUID, if there is one, leads to the TID.
abbrev pub LeadsTo : Option ℕ → ℕ → Map ℕ → Type 0
LeadsTo none tid m = Unit {0}
LeadsTo (some uuid) tid m = find uuid m ≡ some tid

-- The UUID, if there is one, leads to no other TID.
abbrev pub NoOther : Option ℕ → ℕ → Map ℕ → Type 0
NoOther none tid m = Unit {0}
NoOther (some uuid) tid m = (find uuid m ≡ none) ⊎ (find uuid m ≡ some tid)

find-emplace_same :
    (uuid tid : ℕ) (m : Map ℕ) → find uuid m ≡ some tid → find uuid (emplace uuid tid m) ≡ some tid
unfolding find emplace
find-emplace_same uuid tid [] h = cc
find-emplace_same uuid tid ((u, t) ∷ m) h = ground (arith, find-emplace_same uuid tid m)

map_uuid-LeadsTo :
    (uuid : Option ℕ) (tid : ℕ) (m : Map ℕ)
    → NoOther uuid tid m
    → LeadsTo uuid tid (map_uuid uuid tid m)
unfolding map_uuid
map_uuid-LeadsTo none tid m h = tt
map_uuid-LeadsTo (some u) tid m (inl h) = find-emplace u u tid m h ∙ rw (==_refl u) refl
map_uuid-LeadsTo (some u) tid m (inr h) = find-emplace_same u tid m h

-- What a registration that gives a TID has entered.
abbrev pub Registered : ℕ → ℕ → Option ℕ → CommandSupportTable → Base → Type 0
Registered eid tid uuid table s =
    (get_mapped_eid tid s.bus.tid_mapper ≡ some eid)
    × (find tid s.discovery_data_table ≡ some table)
    × LeadsTo uuid tid s.uuid_mapping

enter-Registered :
    (eid : ℕ) (uuid : Option ℕ) (table : CommandSupportTable) (tid t : ℕ) (s : Base)
    → NoOther uuid tid s.uuid_mapping
    → (enter eid uuid table tid s).1 ≡ some t
    → (t ≡ tid) × Registered eid tid uuid table (enter eid uuid table tid s).0
unfolding enter unused_again
enter-Registered eid uuid table tid t s n h =
    elim (Bool-cases (add_entry tid eid s.bus.tid_mapper).1) [
      | inl a ↦
          let m = s.bus.tid_mapper in
          let (x, y) = get_mapped_eid-add_entry m tid eid tid in
          let l = map_uuid-LeadsTo uuid tid s.uuid_mapping n in
          (
            ground arith,
            (
              ground (arith, x, y),
              ground (arith, find-assign tid tid table s.discovery_data_table),
              rw a l,
            ),
          )
      | inr a ↦ ground arith
    ]

pub assign_tid-Registered :
    (lib : BaseCodec) (eid : ℕ) (uuid : Option ℕ) (table : CommandSupportTable) (tid t : ℕ)
    (s : Base)
    → NoOther uuid tid s.uuid_mapping
    → (assign_tid lib eid uuid table tid s).1 ≡ some t
    → (t ≡ tid) × Registered eid tid uuid table (assign_tid lib eid uuid table tid s).0
unfolding assign_tid unused_again
assign_tid-Registered lib eid uuid table tid t s n h =
    let r = set_tid lib eid tid s.bus in
    elim (Bool-cases (is_supported table pldm_base pldm_set_tid)) [
      | inr p ↦ rw p (enter-Registered eid uuid table tid t s n (ground arith))
      | inl p ↦ elim (Bool-cases r.1) [
        | inl q ↦
            rw (p, q)
              (enter-Registered eid uuid table tid t (record s { bus = r.0 }) n (ground arith))
        | inr q ↦ ground arith
      ]
    ]

assign_new-Registered :
    (lib : BaseCodec) (eid : ℕ) (uuid : Option ℕ) (table : CommandSupportTable)
    (o : Option (ℕ × FifoTidPool)) (t : ℕ) (s : Base)
    → ((tid : ℕ) → NoOther uuid tid s.uuid_mapping)
    → (assign_new lib eid uuid table o s).1 ≡ some t
    → Registered eid t uuid table (assign_new lib eid uuid table o s).0
unfolding assign_new
assign_new-Registered lib eid uuid table none t s n h = cc
assign_new-Registered lib eid uuid table (some (tid, p)) t s n h =
    let (e, r) = assign_tid-Registered lib eid uuid table tid t (record s { pool = p }) (n tid) h in
    rw e r

NoOther-of_none :
    (uuid : Option ℕ) (tid : ℕ) (m : Map ℕ) → tid_of_uuid uuid m ≡ none → NoOther uuid tid m
NoOther-of_none none tid m h = tt
NoOther-of_none (some u) tid m h = inl h

NoOther-of_some :
    (uuid : Option ℕ) (tid : ℕ) (m : Map ℕ) → tid_of_uuid uuid m ≡ some tid → NoOther uuid tid m
NoOther-of_some none tid m h = tt
NoOther-of_some (some u) tid m h = inr h

-- When the UUID of a terminus, if it has one, leads to no TID, a registration that gives a TID has
-- mapped it to the endpoint, listed what the terminus supports, and made the UUID lead to the TID.
pub new_registration-Registered :
    (lib : BaseCodec) (eid : ℕ) (uuid : Option ℕ) (assigned : ℕ) (table : CommandSupportTable)
    (t : ℕ) (s : Base)
    → tid_of_uuid uuid s.uuid_mapping ≡ none
    → (register lib eid uuid none assigned table s).1 ≡ some t
    → Registered eid t uuid table (register lib eid uuid none assigned table s).0
unfolding register
new_registration-Registered lib eid uuid assigned table t s n h =
    assign_new-Registered lib eid uuid table (get_free_tid s.pool) t s
      (λ tid. NoOther-of_none uuid tid s.uuid_mapping n) h
