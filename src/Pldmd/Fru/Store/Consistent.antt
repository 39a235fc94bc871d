-- ===== src/Pldmd/Fru/Store/Consistent.antt =====
-- pldmd/src/fru.cpp: what holds of the maps of FRU data in every state, and what a removal leaves.
use pmci.Prelude.{
  ℕ, ◌≡◌, refl, sym, ◌∙◌, Bool, true, false, none, some, inl, inr, [], Option, Bytes, arith, ◌==◌,
  ==_refl, if◌then◌else◌, Bool-cases,
}
use pmci.Prelude.Map.{Map, find, erase, assign, find-assign, find-erase}
use pmci.Pldmd.Transport.Bus.{Bus, create_instance_id}
use pmci.Pldmd.Pdr.Transfer.{exchange}
use pmci.Pldmd.Fru.Table.{Parsed, properties, refused, overrun, wild_read, parse_table}
use pmci.Pldmd.Fru.Transfer.{FruMetadata, FruCodec, get_fru_record_table_metadata_cmd, fetch_table}
use pmci.Pldmd.Fru.Store.{
  FruStore, is_some, remove_first, accepted, fits, finish_run, add_fru_object_to_dbus, keep_table,
  run_with, run_get_fru_commands, delete_fru_device, cleared, requery, set_fru_record_table_cmd,
}

-- A terminus has metadata just if it has properties, and then it has data.
abbrev IsConsistentAt : ℕ → FruStore → Type 0
IsConsistentAt k s =
    (is_some (find k s.terminus_fru_metadata) ≡ is_some (find k s.terminus_fru_properties))
    × (is_some (find k s.terminus_fru_metadata) ≡ true → is_some (find k s.fru_data) ≡ true)

abbrev IsConsistent : FruStore → Type 0
IsConsistent s = (k : ℕ) → IsConsistentAt k s

abbrev pub no_fru : FruStore
no_fru = record {
  terminus_fru_metadata = [];
  terminus_fru_properties = [];
  fru_data = [];
  fru_interface = [];
}

-- The states that runs, removals and new tables lead to.
pub data Reachable (lib : FruCodec) : FruStore → Type 0 where
  start : Reachable lib no_fru
  ran :
      (tid : ℕ) (b : Bus) (s : FruStore)
      → Reachable lib s
      → Reachable lib (run_get_fru_commands lib tid b s).1
  deleted : (tid : ℕ) (s : FruStore) → Reachable lib s → Reachable lib (delete_fru_device tid s).0
  was_set :
      (tid : ℕ) (new_data : Bytes) (b : Bus) (s : FruStore)
      → Reachable lib s
      → Reachable lib (set_fru_record_table_cmd lib tid new_data b s).1

is_some-assign :
    {V : Type 0} (tid k : ℕ) (v : V) (m : Map V)
    → is_some (find k (assign tid v m)) ≡ (if k == tid then true else is_some (find k m))
is_some-assign tid k v m =
    rw (find-assign tid k v m)
      (elim (Bool-cases (k == tid)) [ inl e ↦ rw e refl | inr e ↦ rw e refl ])

is_some-erase :
    {V : Type 0} (tid k : ℕ) (m : Map V)
    → is_some (find k (erase tid m)) ≡ (if k == tid then false else is_some (find k m))
is_some-erase tid k m =
    rw (find-erase tid k m) (elim (Bool-cases (k == tid)) [ inl e ↦ rw e refl | inr e ↦ rw e refl ])

data_kept :
    (tid : ℕ) (table : Bytes) (s : FruStore)
    → IsConsistent s
    → IsConsistent (record s { fru_data = assign tid table s.fru_data })
data_kept tid table s c k =
    ((c k).0, λ h. ground (arith, is_some-assign tid k table s.fru_data, (c k).1 h))

finish-IsConsistent :
    (tid : ℕ) (metadata : FruMetadata) (table : Bytes) (p : Parsed) (s : FruStore)
    → IsConsistent s
    → IsConsistent
        (finish_run tid metadata p (record s { fru_data = assign tid table s.fru_data })).0
unfolding finish_run add_fru_object_to_dbus
finish-IsConsistent tid metadata table (properties props) s c = λ k.
    let m = is_some-assign tid k metadata s.terminus_fru_metadata in
    let p = is_some-assign tid k props s.terminus_fru_properties in
    let d = is_some-assign tid k table s.fru_data in
    elim (Bool-cases (k == tid)) [
      | inl e ↦ (rw (m, p, e) refl, λ h. rw (d, e) refl)
      | inr e ↦ (
        rw (m, p, e) (c k).0,
        λ h.
            let g : is_some (find k s.terminus_fru_metadata) ≡ true = cc (m, e, h) in
            rw (d, e) ((c k).1 g),
      )
    ]
finish-IsConsistent tid metadata table refused s c = data_kept tid table s c
finish-IsConsistent tid metadata table overrun s c = data_kept tid table s c
finish-IsConsistent tid metadata table wild_read s c = data_kept tid table s c

keep-IsConsistent :
    (tid : ℕ) (metadata : FruMetadata) (o : Option Bytes) (s : FruStore)
    → IsConsistent s
    → IsConsistent (keep_table tid metadata o s).0
unfolding keep_table
keep-IsConsistent tid metadata none s c = c
keep-IsConsistent tid metadata (some table) s c =
    finish-IsConsistent tid metadata table (parse_table table) s c

with-IsConsistent :
    (lib : FruCodec) (tid : ℕ) (s : FruStore) (b : Bus) (o : Option FruMetadata)
    → IsConsistent s
    → IsConsistent (run_with lib tid s b o).1
unfolding run_with
with-IsConsistent lib tid s b none c = c
with-IsConsistent lib tid s b (some metadata) c =
    keep-IsConsistent tid metadata (fetch_table lib tid metadata b).1 s c

run-IsConsistent :
    (lib : FruCodec) (tid : ℕ) (b : Bus) (s : FruStore)
    → IsConsistent s
    → IsConsistent (run_get_fru_commands lib tid b s).1
unfolding run_get_fru_commands
run-IsConsistent lib tid b s c =
    let m = get_fru_record_table_metadata_cmd lib tid b in with-IsConsistent lib tid s m.0 m.1 c

-- A removal is complete: it finds all that there is of the terminus, or nothing.
abbrev pub IsDeleted : ℕ → FruStore → Type 0
IsDeleted tid s =
    let r = delete_fru_device tid s in
    (r.1 ≡ is_some (find tid s.terminus_fru_metadata))
    × (is_some (find tid r.0.terminus_fru_metadata) ≡ false)
    × (is_some (find tid r.0.terminus_fru_properties) ≡ false)
    × ((r.1 ≡ true) → is_some (find tid r.0.fru_data) ≡ false)

abbrev removed : ℕ → FruStore → FruStore
removed tid s = record s {
  terminus_fru_metadata = erase tid s.terminus_fru_metadata;
  terminus_fru_properties = erase tid s.terminus_fru_properties;
  fru_data = erase tid s.fru_data;
  fru_interface = remove_first tid s.fru_interface;
}

delete-known :
    (tid : ℕ) (s : FruStore)
    → IsConsistent s
    → is_some (find tid s.terminus_fru_metadata) ≡ true
    → delete_fru_device tid s ≡ (removed tid s, true)
unfolding delete_fru_device
delete-known tid s c a =
    let p : is_some (find tid s.terminus_fru_properties) ≡ true = sym (c tid).0 ∙ a in
    rw (a, p, (c tid).1 a) refl

delete-unknown :
    (tid : ℕ) (s : FruStore)
    → is_some (find tid s.terminus_fru_metadata) ≡ false
    → delete_fru_device tid s ≡ (s, false)
unfolding delete_fru_device
delete-unknown tid s a = rw a refl

removed-IsConsistent : (tid : ℕ) (s : FruStore) → IsConsistent s → IsConsistent (removed tid s)
removed-IsConsistent tid s c k =
    let m = is_some-erase tid k s.terminus_fru_metadata in
    let p = is_some-erase tid k s.terminus_fru_properties in
    let d = is_some-erase tid k s.fru_data in
    elim (Bool-cases (k == tid)) [
      | inl e ↦ (rw (m, p, e) refl, λ h. let g : true ≡ false = cc (m, e, h) in cc g)
      | inr e ↦ (
        rw (m, p, e) (c k).0,
        λ h.
            let g : is_some (find k s.terminus_fru_metadata) ≡ true = cc (m, e, h) in
            rw (d, e) ((c k).1 g),
      )
    ]

delete-IsConsistent :
    (tid : ℕ) (s : FruStore) → IsConsistent s → IsConsistent (delete_fru_device tid s).0
delete-IsConsistent tid s c = elim (Bool-cases (is_some (find tid s.terminus_fru_metadata))) [
  | inl a ↦ rw (delete-known tid s c a) (removed-IsConsistent tid s c)
  | inr a ↦ rw (delete-unknown tid s a) c
]

cleared-IsConsistent : (tid : ℕ) (s : FruStore) → IsConsistent s → IsConsistent (cleared tid s).0
unfolding cleared
cleared-IsConsistent tid s c = elim (Bool-cases (is_some (find tid s.terminus_fru_metadata))) [
  | inl a ↦ rw a (delete-IsConsistent tid s c)
  | inr a ↦ rw a c
]

requery-IsConsistent :
    (lib : FruCodec) (tid : ℕ) (b : Bus) (s : FruStore) (k : Bool)
    → IsConsistent s
    → IsConsistent (requery lib tid b (s, k)).1
unfolding requery
requery-IsConsistent lib tid b s true c = run-IsConsistent lib tid b s c
requery-IsConsistent lib tid b s false c = c

set-IsConsistent :
    (lib : FruCodec) (tid : ℕ) (new_data : Bytes) (b : Bus) (s : FruStore)
    → IsConsistent s
    → IsConsistent (set_fru_record_table_cmd lib tid new_data b s).1
unfolding set_fru_record_table_cmd
set-IsConsistent lib tid new_data b s c =
    let (b', instance_id) = create_instance_id tid b in
    let r = exchange tid (lib.encode_set_req instance_id 1 5 new_data) b' in
    let q = cleared tid s in
    elim (Bool-cases (fits new_data (find tid s.terminus_fru_metadata))) [
      | inr f ↦ rw f c
      | inl f ↦ elim (Bool-cases (accepted lib r.1)) [
        | inr a ↦ rw (f, a) c
        | inl a ↦
            rw (f, a) (requery-IsConsistent lib tid r.0 q.0 q.1 (cleared-IsConsistent tid s c))
      ]
    ]

reachable-IsConsistent : {lib : FruCodec} (s : FruStore) → Reachable lib s → IsConsistent s
reachable-IsConsistent _ start =
    λ k. unfold find in (refl, λ h. let g : true ≡ false = sym h in cc g)
reachable-IsConsistent _ (ran tid b s r) = run-IsConsistent _ tid b s (reachable-IsConsistent s r)
reachable-IsConsistent _ (deleted tid s r) = delete-IsConsistent tid s (reachable-IsConsistent s r)
reachable-IsConsistent _ (was_set tid d b s r) =
    set-IsConsistent _ tid d b s (reachable-IsConsistent s r)

-- In each state that runs, removals and new tables lead to, deleteFRUDevice returns true just if
-- there are metadata of the terminus, and then neither metadata nor properties nor data of it are
-- left; otherwise there were no properties either.
pub reachable-IsDeleted :
    (lib : FruCodec) (tid : ℕ) (s : FruStore) → Reachable lib s → IsDeleted tid s
reachable-IsDeleted lib tid s r =
    let c = reachable-IsConsistent s r in
    let e = ==_refl tid in
    elim (Bool-cases (is_some (find tid s.terminus_fru_metadata))) [
      | inl a ↦ rw (delete-known tid s c a) (
        sym a,
        is_some-erase tid tid s.terminus_fru_metadata ∙ rw e refl,
        is_some-erase tid tid s.terminus_fru_properties ∙ rw e refl,
        λ h. is_some-erase tid tid s.fru_data ∙ rw e refl,
      )
      | inr a ↦
          rw (delete-unknown tid s a)
            (sym a, a, sym (c tid).0 ∙ a, λ h. let g : true ≡ false = sym h in cc g)
    ]
