-- ===== src/Pldmd/Pdr/Repository.antt =====
-- pldmd/src/pdr_manager.cpp: the repository of the records of one terminus. libpldm's repository is
-- an unknown type with the operations that the source uses.
pub mod Locator
use pmci.Prelude.{
  ℕ, zero, suc, Bool, true, false, ◌&&◌, List, [], ◌∷◌, Option, none, some, Bytes, get_or, ◌==◌,
  if◌then◌else◌,
}
use pmci.Prelude.Map.{Map}
use pmci.Pldmd.PackageImage.Components.{u16_at}
use pmci.Pldmd.Transport.Bus.{Bus}
use pmci.Pldmd.Pdr.Association.{Entity}
use pmci.Pldmd.Pdr.Transfer.{PdrCodec, RepositoryInfo, fetch_records}

-- What libpldm makes of a numeric sensor or effecter PDR.
pub record NumericPdr : Type 0 where
  pub id : ℕ
  pub entity : Entity
  pub has_aux_names : Bool
  pub content : Bytes

-- `of_type` are the records that pldm_pdr_find_record_by_type gives, one call after the other, and
-- `in_order` the order in which a range-based for goes through an unordered_map.
pub record PdrLib (R : Type 0) : Type 0 where
  pub codec : PdrCodec
  pub init : R
  pub add : Bytes → ℕ → R → R
  pub count : R → ℕ
  pub of_type : ℕ → R → List Bytes
  pub extract_entities : Bytes → List Entity
  pub parse_numeric_sensor : Bytes → Option NumericPdr
  pub parse_numeric_effecter : Bytes → Option NumericPdr
  pub in_order : Map Bytes → List (ℕ × Bytes)

pub record Repository (R : Type 0) : Type 0 where
  pub container_id : ℕ
  pub pdr_repo : R

unfoldable pub is_valid_locator : Bytes → Bool
is_valid_locator pdr_record = (get_or pdr_record 5 0 == 1) && (get_or pdr_record 12 0 == 1)

abbrev pub set : Bytes → ℕ → ℕ → Bytes
set [] i v = []
set (x ∷ xs) zero v = v ∷ xs
set (x ∷ xs) (suc i) v = x ∷ set xs i v

module _ {R : Type 0} (lib : PdrLib R) (tid : ℕ) where
  -- The records that are left; `found` says that a valid terminus locator has been seen.
  unfoldable pub add_records : List (ℕ × Bytes) → Bool → Repository R → Repository R × Bool
  add_records [] found s = (s, true)
  add_records ((handle, pdr_record) ∷ rest) found s =
      let locator = add_records rest true (record {
        container_id = u16_at 14 pdr_record;
        pdr_repo = lib.add (set pdr_record 13 tid) handle s.pdr_repo;
      }) in
      let other =
        add_records rest found (record s { pdr_repo = lib.add pdr_record handle s.pdr_repo }) in
      if is_valid_locator pdr_record then (if found then (s, false) else locator) else other

  unfoldable pub add_device_pdr_to_repo : Map Bytes → Repository R → Repository R × Bool
  unfolding add_records
  add_device_pdr_to_repo device_pdrs s = add_records (lib.in_order device_pdrs) false s

  -- As many records as were announced.
  abbrev pub all_added : ℕ → Repository R × Bool → Repository R × Bool
  all_added record_count (s, false) = (s, false)
  all_added record_count (s, true) = (s, lib.count s.pdr_repo == record_count)

  unfoldable pub construct_pdr_repo :
      RepositoryInfo → Repository R → Bus → Bus × (Repository R × Bool)
  unfolding add_device_pdr_to_repo
  construct_pdr_repo info s b =
      let r = fetch_records lib.codec tid info b in
      elim r.1 [
        | none ↦ (r.0, (s, false))
        | some device_pdrs ↦
            (r.0, all_added info.record_count (add_device_pdr_to_repo device_pdrs s))
      ]
