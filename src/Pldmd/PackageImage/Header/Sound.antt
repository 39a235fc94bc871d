-- ===== src/Pldmd/PackageImage/Header/Sound.antt =====
-- What holds of a package whose header pldmd/src/pldm_fwu_image.cpp accepts.
use pmci.Prelude.{
  ℕ, zero, suc, ◌+◌, ◌<◌, ◌≡◌, ◌≢◌, true, List, [], none, Bytes, drop, arith, Option-cases, inl,
  inr,
}
use pmci.Prelude.Map.{Map, find, assign, find-assign}
use pmci.Pldmd.PackageImage.Image.{PldmImg, CompProperties, get_comp_properties}
use pmci.Pldmd.PackageImage.Components.{
  u8_at, u16_at, comp_round, comp_rounds, comp_table, process_comp_img_info, advance_hdr_itr,
}
use pmci.Pldmd.PackageImage.Devices.{DescriptorsMap}
use pmci.Pldmd.PackageImage.Header.{accepted, process_pkg_hdr}
use pmci.Pldmd.PackageImage.Devices.Matched.{AllRecorded}
use pmci.Pldmd.PackageImage.Header.Accepted.{accepted-From}

-- The rounds that are left give every number they are asked for a component, if all are found, and
-- the components from before stay.
comp_rounds-find :
    (missing found : ℕ) (itr : Bytes) (m : Map CompProperties) (n : ℕ)
    → (comp_rounds missing found itr m).1 ≡ found + missing
    → n < found + missing
    → (n < found → find n m ≢ none)
    → find n (comp_rounds missing found itr m).0 ≢ none
unfolding comp_rounds
comp_rounds-find zero found itr m n all h old = old (omega arith)
comp_rounds-find (suc missing) found itr m n all h old = elim (Option-cases (comp_round itr)) [
  | inl e ↦ ground (arith, e)
  | inr (r, e) ↦ ground (
    arith,
    e,
    find-assign found n r.0 m,
    comp_rounds-find missing (found + 1) r.1 (assign found r.0 m) n,
  )
]

comp_table-find :
    (itr : Bytes) (total n : ℕ) (m : Map CompProperties)
    → process_comp_img_info itr ≡ (total, m, true)
    → n < total
    → find n m ≢ none
unfolding process_comp_img_info comp_table advance_hdr_itr
comp_table-find itr total n m h k =
    ground (arith, comp_rounds-find (u16_at 0 itr) 0 (drop 2 itr) [] n)

-- Every component that an accepted package announces can be looked up.
pub accepted-components :
    (crc32 : Bytes → ℕ) (memory : ℕ) (termini : List (ℕ × DescriptorsMap)) (file : Bytes)
    (img : PldmImg) (n : ℕ)
    → process_pkg_hdr crc32 memory termini file ≡ accepted img
    → n < img.total_comp_count
    → get_comp_properties img n ≢ none
accepted-components crc32 memory termini file img n h k =
    let f = accepted-From crc32 memory termini file img h in
    comp_table-find f.devices.itr img.total_comp_count n img.pkg_comp_properties f.components k

-- The first device record of the header.
abbrev pub first_record : Bytes → Bytes
first_record hdr = drop 1 (drop (u8_at 35 hdr) (drop 36 hdr))

-- An accepted package has the device record of every terminus that it is to be installed on.
accepted-AllRecorded :
    (crc32 : Bytes → ℕ) (memory : ℕ) (termini : List (ℕ × DescriptorsMap)) (file : Bytes)
    (img : PldmImg)
    → process_pkg_hdr crc32 memory termini file ≡ accepted img
    → AllRecorded img.matched_termini img.pkg_dev_id_records
accepted-AllRecorded crc32 memory termini file img h =
    (accepted-From crc32 memory termini file img h).recorded
