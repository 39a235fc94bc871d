-- ===== src/Pldmd/PackageImage/Header/Accepted.antt =====
-- How pldmd/src/pldm_fwu_image.cpp comes to accept the header of a package.
use pmci.Prelude.{
  ℕ, ◌≡◌, ◌≢◌, refl, Bool, true, false, List, Option, none, some, Bytes, arith, drop, sym,
}
use pmci.Pldmd.PackageImage.Image.{PldmImg, read_data}
use pmci.Pldmd.PackageImage.Components.{u8_at, u16_at, process_comp_img_info, advance_hdr_itr}
use pmci.Pldmd.PackageImage.Devices.{
  DescriptorsMap, Devices, process_dev_identification_info, dev_table, is_empty,
}
use pmci.Pldmd.PackageImage.Devices.Registered.{AllMatched}
use pmci.Pldmd.PackageImage.Devices.Pairs.{process_dev-AllMatched}
use pmci.Pldmd.PackageImage.Devices.Matched.{AllRecorded, process_dev-AllRecorded}
use pmci.Pldmd.PackageImage.Header.{
  get_hdr_len, verify_pkg_hdr_checksum, process_pkg_hdr_info, with_components, with_devices,
  with_info, header_read, accepted, len_result, process_pkg_hdr, min_pkg_header_len, result_of,
}

-- What an accepted package was made of: its header's bytes, and the devices and components in it.
pub record From (crc32 : Bytes → ℕ) (memory : ℕ) (termini : List (ℕ × DescriptorsMap))
    (file : Bytes) (img : PldmImg) : Type 0 where
  pub hdr : Bytes
  pub good : Bool
  pub devices : Devices
  pub read : (read_data file 0 img.pkg_hdr_len good).0 ≡ some hdr
  pub len : get_hdr_len file ≡ (img.pkg_hdr_len, good)
  pub longer : img.pkg_hdr_len ≢ min_pkg_header_len
  pub sum : verify_pkg_hdr_checksum crc32 file hdr ≡ true
  pub info : process_pkg_hdr_info hdr ≢ none
  pub matched : is_empty img.matched_termini ≡ false
  pub registered :
      AllMatched
        (u16_at 32 hdr)
        memory
        termini
        (drop 1 (drop (u8_at 35 hdr) (drop 36 hdr)))
        img.matched_termini
  pub recorded : AllRecorded img.matched_termini img.pkg_dev_id_records
  pub components :
      process_comp_img_info devices.itr ≡ (img.total_comp_count, img.pkg_comp_properties, true)

with_devices-some :
    (file : Bytes) (len : ℕ) (o : Option Devices) (img : PldmImg)
    → with_devices file len o ≡ some img
    → (d : Devices) × (o ≡ some d)
      × (img.pkg_hdr_len ≡ len)
      × (img.matched_termini ≡ d.matched_termini)
      × (img.pkg_dev_id_records ≡ d.records)
      × (process_comp_img_info d.itr ≡ (img.total_comp_count, img.pkg_comp_properties, true))
unfolding with_devices with_components
with_devices-some file len none img h = cc
with_devices-some file len (some d) img h =
    (d, refl, ground arith, ground arith, ground arith, ground arith)

process_dev-matched :
    (len bits memory : ℕ) (termini : List (ℕ × DescriptorsMap)) (itr : Bytes) (d : Devices)
    → process_dev_identification_info len bits memory termini itr ≡ some d
    → is_empty d.matched_termini ≡ false
unfolding process_dev_identification_info dev_table
process_dev-matched len bits memory termini itr d h = ground arith

with_info-some :
    (file : Bytes) (len memory : ℕ) (termini : List (ℕ × DescriptorsMap))
    (o : Option (ℕ × ℕ × Bytes)) (img : PldmImg)
    → with_info file len memory termini o ≡ some img
    → (i : ℕ × ℕ × Bytes) × (o ≡ some i)
      × (with_devices file len (process_dev_identification_info i.0 i.1 memory termini i.2)
          ≡ some img)
unfolding with_info
with_info-some file len memory termini none img h = cc
with_info-some file len memory termini (some i) img h = (i, refl, h)

header_read-some :
    (crc32 : Bytes → ℕ) (memory : ℕ) (termini : List (ℕ × DescriptorsMap)) (file : Bytes) (len : ℕ)
    (o : Option Bytes × Bool) (img : PldmImg)
    → header_read crc32 memory termini file len o ≡ some img
    → (hdr : Bytes) × (o.0 ≡ some hdr)
      × (verify_pkg_hdr_checksum crc32 file hdr ≡ true)
      × (with_info file len memory termini (process_pkg_hdr_info hdr) ≡ some img)
unfolding header_read
header_read-some crc32 memory termini file len (none, good) img h = cc
header_read-some crc32 memory termini file len (some hdr, good) img h =
    (hdr, refl, ground arith, ground arith)

result_of-accepted :
    (o : Option PldmImg) (img : PldmImg) → result_of o ≡ accepted img → o ≡ some img
result_of-accepted none img h = cc
result_of-accepted (some i) img h = cc

len_result-accepted :
    (crc32 : Bytes → ℕ) (memory : ℕ) (termini : List (ℕ × DescriptorsMap)) (file : Bytes)
    (img : PldmImg) (len : ℕ) (good : Bool)
    → len_result crc32 memory termini file (len, good) ≡ accepted img
    → (len ≢ min_pkg_header_len)
      × (header_read crc32 memory termini file len (read_data file 0 len good) ≡ some img)
unfolding len_result
len_result-accepted crc32 memory termini file img len good h = ground (
  arith,
  result_of-accepted (header_read crc32 memory termini file len (read_data file 0 len good)) img,
)

-- The iterator, behind the structure at the front of the header.
info_read :
    (hdr : Bytes) (i : ℕ × ℕ × Bytes)
    → process_pkg_hdr_info hdr ≡ some i
    → (i.0 ≡ u8_at 35 hdr) × (i.1 ≡ u16_at 32 hdr) × (i.2 ≡ drop 36 hdr)
unfolding process_pkg_hdr_info advance_hdr_itr
info_read hdr i h = (ground arith, ground arith, ground arith)

pub accepted-From :
    (crc32 : Bytes → ℕ) (memory : ℕ) (termini : List (ℕ × DescriptorsMap)) (file : Bytes)
    (img : PldmImg)
    → process_pkg_hdr crc32 memory termini file ≡ accepted img
    → From crc32 memory termini file img
unfolding process_pkg_hdr
accepted-From crc32 memory termini file img h =
    let len = (get_hdr_len file).0 in
    let good = (get_hdr_len file).1 in
    let (longer, a) = len_result-accepted crc32 memory termini file img len good h in
    let (hdr, read, sum, b) =
      header_read-some crc32 memory termini file len (read_data file 0 len good) img a in
    let (i, info, c) = with_info-some file len memory termini (process_pkg_hdr_info hdr) img b in
    let o = process_dev_identification_info i.0 i.1 memory termini i.2 in
    let (d, e, same, termini_same, records_same, table) = with_devices-some file len o img c in
    let (v, w, x) = info_read hdr i info in
    let m = process_dev-AllMatched i.0 i.1 memory termini i.2 d e in
    record {
      hdr = hdr;
      good = good;
      devices = d;
      read = rw same read;
      len = ground arith;
      longer = ground arith;
      sum = sum;
      info = ground arith;
      matched = rw termini_same (process_dev-matched i.0 i.1 memory termini i.2 d e);
      registered = rw (termini_same, sym v, sym w, sym x) m;
      recorded =
          rw (termini_same, records_same) (process_dev-AllRecorded i.0 i.1 memory termini i.2 d e);
      components = table;
    }
