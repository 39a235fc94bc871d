-- ===== src/Pldmd/Fru/Store/Stored.antt =====
-- pldmd/src/fru.cpp, runGetFRUCommands: what is kept after a run.
use pmci.Prelude.{
  ℕ, ◌-◌, ◌%◌, ◌≡◌, ◌⊎◌, inl, inr, refl, ap, ◌∙◌, true, false, none, some, Option, Bytes, arith,
  length, length-append, length-replicate, replicate, ◌==◌, ==→eq, ==_refl, if◌then◌else◌,
  Bool-cases,
}
use pmci.Prelude.Map.{Map, find, assign, find-assign}
use pmci.Pldmd.Transport.Bus.{Bus}
use pmci.Pldmd.Fru.Table.{
  FruProperties, Parsed, properties, refused, overrun, wild_read, parse_table,
}
use pmci.Pldmd.Fru.Transfer.{
  FruMetadata, FruCodec, get_fru_record_table_metadata_cmd, fetch_table, padded, verified,
  verify_crc,
}
use pmci.Pldmd.Fru.Store.{
  FruStore, RunResult, succeeded, failed, undefined, get_properties, get_pldm_fru_record_data,
  finish_run, add_fru_object_to_dbus, keep_table, run_with, run_get_fru_commands,
}

abbrev pub Same : ℕ → FruStore → FruStore → Type 0
Same k s s' =
    (find k s'.terminus_fru_metadata ≡ find k s.terminus_fru_metadata)
    × (get_properties k s' ≡ get_properties k s)

-- A table of whole words that has the checksum which its metadata gives.
abbrev IsChecked : FruCodec → FruMetadata → Bytes → Type 0
IsChecked lib metadata table = (metadata.checksum ≡ lib.crc32 table) × (length table % 4 ≡ 0)

-- Why a run fails: no metadata came, or no table with their checksum, or it has an empty record.
abbrev IsRefused : Option FruMetadata → (FruMetadata → Option Bytes) → Type 0
IsRefused none fetched = Unit {0}
IsRefused (some metadata) fetched =
    (fetched metadata ≡ none)
    ⊎ ((table : Bytes) × (fetched metadata ≡ some table) × (parse_table table ≡ refused))

-- The metadata and the table that come make the outcome. After a success the data, the properties
-- and the metadata belong together; after a failure the metadata and the properties are those from
-- before.
abbrev pub IsStored :
    FruCodec
    → ℕ
    → Option FruMetadata
    → (FruMetadata → Option Bytes)
    → FruStore
    → FruStore
    → RunResult
    → Type 0
IsStored lib tid came fetched s s' succeeded =
    (metadata : FruMetadata) × (table : Bytes) × (props : FruProperties) × (came ≡ some metadata)
    × (fetched metadata ≡ some table)
    × (find tid s'.terminus_fru_metadata ≡ some metadata)
    × (get_pldm_fru_record_data tid s' ≡ some table)
    × (get_properties tid s' ≡ some props)
    × (parse_table table ≡ properties props)
    × IsChecked lib metadata table
IsStored lib tid came fetched s s' failed = ((k : ℕ) → Same k s s') × IsRefused came fetched
IsStored lib tid came fetched s s' undefined =
    (metadata : FruMetadata) × (table : Bytes) × (came ≡ some metadata)
    × (fetched metadata ≡ some table)
    × ((parse_table table ≡ overrun) ⊎ (parse_table table ≡ wild_read))

-- Nothing changes for the other termini.
abbrev pub IsLocal : ℕ → FruStore → FruStore → Type 0
IsLocal tid s s' =
    (k : ℕ) → (k == tid) ≡ false → Same k s s' × (find k s'.fru_data ≡ find k s.fru_data)

found : {V : Type 0} (k : ℕ) (v : V) (m : Map V) → find k (assign k v m) ≡ some v
found k v m = find-assign k k v m ∙ ap (λ b. if b then some v else find k m) (==_refl k)

others :
    {V : Type 0} (tid k : ℕ) (v : V) (m : Map V)
    → (k == tid) ≡ false
    → find k (assign tid v m) ≡ find k m
others tid k v m h = find-assign tid k v m ∙ ap (λ b. if b then some v else find k m) h

finish-IsStored :
    (lib : FruCodec) (tid : ℕ) (metadata : FruMetadata) (fetched : FruMetadata → Option Bytes)
    (table : Bytes) (s : FruStore) (p : Parsed)
    → fetched metadata ≡ some table
    → parse_table table ≡ p
    → IsChecked lib metadata table
    → let r = finish_run tid metadata p (record s { fru_data = assign tid table s.fru_data }) in
      IsStored lib tid (some metadata) fetched s r.0 r.1 × IsLocal tid s r.0
unfolding finish_run add_fru_object_to_dbus get_properties get_pldm_fru_record_data
finish-IsStored lib tid metadata fetched table s (properties props) f h c =
    let m = found tid metadata s.terminus_fru_metadata in
    let d = found tid table s.fru_data in
    let p = found tid props s.terminus_fru_properties in
    (
      (metadata, table, props, refl, f, m, rw (m, d) refl, p, h, c),
      λ k n. (
        (
          others tid k metadata s.terminus_fru_metadata n,
          others tid k props s.terminus_fru_properties n,
        ),
        others tid k table s.fru_data n,
      ),
    )
finish-IsStored lib tid metadata fetched table s refused f h c =
    ((λ k. (refl, refl), inr (table, f, h)), λ k n. ((refl, refl), others tid k table s.fru_data n))
finish-IsStored lib tid metadata fetched table s overrun f h c =
    ((metadata, table, refl, f, inl h), λ k n. ((refl, refl), others tid k table s.fru_data n))
finish-IsStored lib tid metadata fetched table s wild_read f h c =
    ((metadata, table, refl, f, inr h), λ k n. ((refl, refl), others tid k table s.fru_data n))

padded_len : (table : Bytes) → length (padded table) % 4 ≡ 0
unfolding padded
padded_len table =
    let n = (4 - length table % 4) % 4 in
    let a = length-append table (replicate n 0) in
    let b = length-replicate {A = ℕ} n 0 in omega (arith, a, b)

verified-IsChecked :
    (lib : FruCodec) (metadata : FruMetadata) (table : Bytes)
    → verify_crc lib metadata table ≡ true
    → IsChecked lib metadata (padded table)
unfolding verify_crc
verified-IsChecked lib metadata table c =
    (==→eq metadata.checksum (lib.crc32 (padded table)) c, padded_len table)

keep-IsStored :
    (lib : FruCodec) (tid : ℕ) (metadata : FruMetadata) (fetched : FruMetadata → Option Bytes)
    (o : Option Bytes) (s : FruStore)
    → fetched metadata ≡ verified lib metadata o
    → let r = keep_table tid metadata (verified lib metadata o) s in
      IsStored lib tid (some metadata) fetched s r.0 r.1 × IsLocal tid s r.0
unfolding keep_table
keep-IsStored lib tid metadata fetched none s f =
    ((λ k. (refl, refl), inl f), λ k n. ((refl, refl), refl))
keep-IsStored lib tid metadata fetched (some table) s f =
    elim (Bool-cases (verify_crc lib metadata table)) [
      | inl c ↦
          let whole = padded table in
          let g : fetched metadata ≡ some whole = f ∙ rw c refl in
          rw c (
            finish-IsStored lib tid metadata fetched whole s (parse_table whole) g refl
              (verified-IsChecked lib metadata table c))
      | inr c ↦
          let g : fetched metadata ≡ none = f ∙ rw c refl in
          rw c ((λ k. (refl, refl), inl g), λ k n. ((refl, refl), refl))
    ]

with-IsStored :
    (lib : FruCodec) (tid : ℕ) (s : FruStore) (b : Bus) (o : Option FruMetadata)
    → let r = run_with lib tid s b o in
      IsStored lib tid o (λ m. (fetch_table lib tid m b).1) s r.1 r.2 × IsLocal tid s r.1
unfolding run_with fetch_table
with-IsStored lib tid s b none = ((λ k. (refl, refl), tt), λ k n. ((refl, refl), refl))
with-IsStored lib tid s b (some metadata) =
    keep-IsStored lib tid metadata (λ m. (fetch_table lib tid m b).1) _ s refl

-- A run of the commands for a terminus leaves the data of the others as it is. It succeeds if
-- metadata come, a table with their checksum, and it parses. Then the table that
-- getPLDMFruRecordData gives is that one, of whole words, and parses to the properties that
-- getProperties gives. It fails if one of the two does not come or a record is empty, and then
-- metadata and properties are as before. Otherwise the parser reads outside of the table.
pub run-IsStored :
    (lib : FruCodec) (tid : ℕ) (b : Bus) (s : FruStore)
    → let m = get_fru_record_table_metadata_cmd lib tid b in
      let r = run_get_fru_commands lib tid b s in
      IsStored lib tid m.1 (λ n. (fetch_table lib tid n m.0).1) s r.1 r.2 × IsLocal tid s r.1
unfolding run_get_fru_commands
run-IsStored lib tid b s =
    let m = get_fru_record_table_metadata_cmd lib tid b in with-IsStored lib tid s m.0 m.1
