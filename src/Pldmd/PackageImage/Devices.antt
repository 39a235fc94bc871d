-- ===== src/Pldmd/PackageImage/Devices.antt =====
-- The device records of a package header: processDevIdentificationInfo of pldmd/src/pldm_fwu_image.cpp
-- and unpackDescriptors of pldmd/src/fwu_utils.cpp.
pub mod Matched
pub mod Registered
pub mod Pairs
use pmci.Prelude.{
  ℕ, zero, suc, ◌+◌, ◌-◌, ◌*◌, ◌/◌, ◌%◌, ◌^◌, Bool, true, false, not, ◌&&◌, ◌||◌, List, [], ◌∷◌,
  ◌++◌, Option, none, some, Bytes, length, take, drop, ltb, leb, ◌==◌, if◌then◌else◌,
}
use pmci.Prelude.Map.{Map, assign}
use pmci.Pldmd.PackageImage.Image.{DevIdProperties}
use pmci.Pldmd.PackageImage.Components.{u8_at, u16_at, u32_at, advance_hdr_itr}

-- A std::variant of uint8_t, uint16_t and uint32_t, as the width and the value; a map names each
-- descriptor by its type, where the source has a string for each.
abbrev pub DescriptorsMap : Type 0
DescriptorsMap = Map (ℕ × ℕ)

-- The types that have a name.
abbrev pub is_named : ℕ → Bool
is_named type = type == 0 || (leb 0x100 type && leb type 0x103)

unfoldable pub process_descriptor : ℕ → ℕ → Bytes → DescriptorsMap → DescriptorsMap
process_descriptor type size itr m =
    if not (is_named type)
    then m
    else if size == 1
    then assign type (1, u8_at 0 itr) m
    else if size == 2
    then assign type (2, u16_at 0 itr) m
    else if size == 4
    then assign type (4, u32_at 0 itr) m
    else m

-- sizeof(DescriptorHeader).
abbrev pub descriptor_header_size : ℕ
descriptor_header_size = 4

-- The loop of unpackDescriptors, with the descriptors that are still missing. The first descriptor that
-- is unpacked sets the initial type.
unfoldable pub unpack_rounds : ℕ → Bool → Bytes → ℕ → DescriptorsMap → ℕ × DescriptorsMap
unpack_rounds zero first bytes initial m = (initial, m)
unpack_rounds (suc missing) first bytes initial m =
    let type = u16_at 0 bytes in
    let size = u16_at 2 bytes in
    let rest = drop descriptor_header_size bytes in
    let initial' = if first then type else initial in
    let later =
      unpack_rounds missing false (drop size rest) initial' (process_descriptor type size rest m) in
    if leb (length bytes) descriptor_header_size
    then (initial, m)
    else if ltb (length rest) size
    then (initial, m)
    else later

unfoldable pub unpack_descriptors : ℕ → Bytes → ℕ → ℕ × DescriptorsMap
unpack_descriptors count bytes initial = unpack_rounds count true bytes initial []

-- `pkgDescriptors == fdDescriptors`.
unfoldable pub same_descriptors : DescriptorsMap → DescriptorsMap → Bool
same_descriptors [] [] = true
same_descriptors [] (y ∷ ys) = false
same_descriptors (x ∷ xs) [] = false
same_descriptors ((k, v) ∷ xs) ((j, w) ∷ ys) =
    k == j && v.0 == w.0 && v.1 == w.1 && same_descriptors xs ys

-- The registered termini whose descriptors are those of the record, paired with it.
unfoldable pub find_matched_terminus : ℕ → DescriptorsMap → List (ℕ × DescriptorsMap) → List (ℕ × ℕ)
find_matched_terminus dev_id_record pkg_descriptors [] = []
find_matched_terminus dev_id_record pkg_descriptors ((tid, fd_descriptors) ∷ termini) =
    let rest = find_matched_terminus dev_id_record pkg_descriptors termini in
    if same_descriptors pkg_descriptors fd_descriptors then (dev_id_record, tid) ∷ rest else rest

-- sizeof(FWDevIdRecord).
abbrev pub fw_dev_id_record_size : ℕ
fw_dev_id_record_size = 11

-- The length of the descriptors is what the other parts leave of the record's length, as a size_t.
unfoldable pub get_descriptor_data_len : Bytes → ℕ → ℕ
get_descriptor_data_len info applicable_components_len =
    let parts = fw_dev_id_record_size + applicable_components_len + u8_at 8 info + u16_at 9 info in
    (u16_at 0 info + 2 ^ 64 - parts) % 2 ^ 64

-- What one round reads: the record, the descriptors, and the iterator behind it. `matched` is what the
-- record's descriptors match, which counts although the round may break after it.
pub record DevRound : Type 0 where
  pub found : Option (DevIdProperties × Bytes)
  pub matched : List (ℕ × ℕ)

-- copyDevIdentificationInfoToMap.
unfoldable pub dev_properties_of : Bytes → ℕ → ℕ → Bytes → Bytes → Bytes → DevIdProperties
dev_properties_of info count initial applicable_components ver_str pkg_data = record {
  initial_descriptor_type = initial;
  device_id_record_count = count;
  record_length = u16_at 0 info;
  descriptor_count = u8_at 2 info;
  device_update_option_flags = u32_at 3 info;
  com_img_set_ver_str_type = u8_at 7 info;
  com_img_set_ver_str_len = u8_at 8 info;
  fw_dev_pkg_data_len = u16_at 9 info;
  applicable_components = applicable_components;
  comp_img_set_ver_str = ver_str;
  fw_device_package_data = pkg_data;
}

abbrev broken : DevRound
broken = record { found = none; matched = [] }

-- From the package data on, behind the descriptors.
unfoldable pub dev_pkg_data : Bytes → ℕ → ℕ → Bytes → Bytes → List (ℕ × ℕ) → Option Bytes → DevRound
unfolding dev_properties_of
dev_pkg_data info count initial applicable ver_str matched none = record {
  found = none;
  matched = matched;
}
dev_pkg_data info count initial applicable ver_str matched (some itr) =
    let len = u16_at 9 info in
    record {
      found =
          some
            (dev_properties_of info count initial applicable ver_str (take len itr), drop len itr);
      matched = matched;
    }

unfoldable pub dev_descriptors :
    Bytes → ℕ → ℕ → ℕ → List (ℕ × DescriptorsMap) → Bytes → Bytes → Option Bytes → DevRound
unfolding dev_pkg_data
dev_descriptors info count len memory termini applicable ver_str none = broken
dev_descriptors info count len memory termini applicable ver_str (some itr) =
    let (initial, m) = unpack_descriptors (u8_at 2 info) (take len itr) memory in
    dev_pkg_data info count initial applicable ver_str (find_matched_terminus count m termini)
      (advance_hdr_itr len (u16_at 9 info) itr)

unfoldable pub dev_ver_str :
    Bytes → ℕ → ℕ → ℕ → List (ℕ × DescriptorsMap) → Bytes → Option Bytes → DevRound
unfolding dev_descriptors
dev_ver_str info count applicable_len memory termini applicable none = broken
dev_ver_str info count applicable_len memory termini applicable (some itr) =
    let len = get_descriptor_data_len info applicable_len in
    dev_descriptors info count len memory termini applicable (take (u8_at 8 info) itr)
      (advance_hdr_itr (u8_at 8 info) len itr)

unfoldable pub dev_applicable :
    Bytes → ℕ → ℕ → ℕ → List (ℕ × DescriptorsMap) → Option Bytes → DevRound
unfolding dev_ver_str
dev_applicable info count applicable_len memory termini none = broken
dev_applicable info count applicable_len memory termini (some itr) =
    dev_ver_str info count applicable_len memory termini (take applicable_len itr)
      (advance_hdr_itr applicable_len (u8_at 8 info) itr)

-- One round of the loop. `memory` is what the initial descriptor type holds if no descriptor sets it.
unfoldable pub dev_round : ℕ → ℕ → ℕ → List (ℕ × DescriptorsMap) → Bytes → DevRound
unfolding dev_applicable
dev_round comp_bitmap_bit_length count memory termini itr =
    let applicable_len = comp_bitmap_bit_length / 8 in
    if ltb (length itr) fw_dev_id_record_size
    then broken
    else dev_applicable itr count applicable_len memory termini
        (advance_hdr_itr fw_dev_id_record_size applicable_len itr)

-- The records that were found, the termini that match, and the iterator.
pub record Devices : Type 0 where
  pub records : Map DevIdProperties
  pub matched_termini : List (ℕ × ℕ)
  pub found : ℕ
  pub itr : Bytes

-- The loop, with the records that are still missing. Where a round breaks, the iterator is not read
-- any more.
unfoldable pub dev_rounds : ℕ → ℕ → ℕ → List (ℕ × DescriptorsMap) → Devices → Devices
dev_rounds zero bits memory termini d = d
dev_rounds (suc missing) bits memory termini d =
    let r = dev_round bits d.found memory termini d.itr in
    let d' = record d { matched_termini = d.matched_termini ++ r.matched } in
    elim (r.found) [
      | none ↦ d'
      | some p ↦
          dev_rounds missing bits memory termini
            (record d' { records = assign d.found (p.0) d.records; found = d.found + 1; itr = p.1 })
    ]

abbrev pub is_empty : List (ℕ × ℕ) → Bool
is_empty [] = true
is_empty (t ∷ ts) = false

unfoldable pub dev_table : ℕ → ℕ → List (ℕ × DescriptorsMap) → Option Bytes → Option Devices
dev_table bits memory termini none = none
dev_table bits memory termini (some itr) =
    let count = u8_at 0 itr in
    let d =
      dev_rounds count bits memory termini
        (record { records = []; matched_termini = []; found = 0; itr = drop 1 itr }) in
    if not (d.found == count) then none else if is_empty d.matched_termini then none else some d

unfoldable pub process_dev_identification_info :
    ℕ → ℕ → ℕ → List (ℕ × DescriptorsMap) → Bytes → Option Devices
unfolding dev_table
process_dev_identification_info pkg_version_string_len bits memory termini itr =
    dev_table bits memory termini (advance_hdr_itr pkg_version_string_len 1 itr)
