-- ===== src/Pldmd/PackageImage/Header.antt =====
-- pldmd/src/pldm_fwu_image.cpp: the header of a package, processPkgHdr. `crc32` is libpldm's.
pub mod Accepted
pub mod Sound
use pmci.Prelude.{
  ℕ, ◌+◌, ◌-◌, Bool, true, false, not, ◌&&◌, List, [], ◌∷◌, Option, none, some, Bytes, length, take,
  drop, ltb, ◌==◌, if◌then◌else◌,
}
use pmci.Prelude.Map.{Map}
use pmci.Pldmd.PackageImage.Image.{PldmImg, CompProperties, read_data}
use pmci.Pldmd.PackageImage.Components.{
  u8_at, u16_at, u32_at, advance_hdr_itr, process_comp_img_info, comp_img_info_size,
}
use pmci.Pldmd.PackageImage.Devices.{
  DescriptorsMap, Devices, process_dev_identification_info, fw_dev_id_record_size,
}

abbrev pub pkg_hdr_identifier : Bytes
pkg_hdr_identifier =
    0xf0 ∷ 0x18 ∷ 0x87 ∷ 0x8c ∷ 0xcb ∷ 0x7d ∷ 0x49 ∷ 0x43 ∷ 0x98 ∷ 0x00 ∷ 0xa0 ∷ 0x2f ∷ 0x05 ∷ 0x9a
    ∷ 0xca ∷ 0x02 ∷ []

-- memcmp.
unfoldable pub same_bytes : Bytes → Bytes → Bool
same_bytes [] [] = true
same_bytes [] (y ∷ ys) = false
same_bytes (x ∷ xs) [] = false
same_bytes (x ∷ xs) (y ∷ ys) = x == y && same_bytes xs ys

unfoldable pub match_pkg_hdr_identifier : Bytes → Bool
match_pkg_hdr_identifier hdr_data = same_bytes (take 16 hdr_data) pkg_hdr_identifier

-- sizeof(PLDMPkgHeaderInfo), and that of the checksum.
abbrev pub pkg_header_info_size : ℕ
pkg_header_info_size = 36

abbrev pub pkg_hdr_checksum_size : ℕ
pkg_hdr_checksum_size = 4

abbrev pub min_pkg_header_len : ℕ
min_pkg_header_len = pkg_header_info_size + fw_dev_id_record_size + comp_img_info_size

unfoldable pub len_read : Option Bytes × Bool → ℕ × Bool
len_read (none, good) = (0, good)
len_read (some bytes, good) = (u16_at 0 bytes, good)

-- The two bytes at 17; the stream is not good after a read past the end of the file.
unfoldable pub get_hdr_len : Bytes → ℕ × Bool
unfolding len_read
get_hdr_len file =
    if ltb (length file) (17 + 2) then (0, false) else len_read (read_data file 17 2 true)

unfoldable pub checksum_read : (Bytes → ℕ) → Bytes → Option Bytes × Bool → Bool
checksum_read crc32 hdr_data (none, good) = false
checksum_read crc32 hdr_data (some checksum, good) =
    u32_at 0 checksum == crc32 (take (length hdr_data - pkg_hdr_checksum_size) hdr_data)

-- In a header of less than four bytes the address wraps to one that cannot be read.
unfoldable pub verify_pkg_hdr_checksum : (Bytes → ℕ) → Bytes → Bytes → Bool
unfolding checksum_read
verify_pkg_hdr_checksum crc32 file hdr_data =
    if ltb (length hdr_data) pkg_hdr_checksum_size
    then false
    else checksum_read crc32 hdr_data
        (read_data file (length hdr_data - pkg_hdr_checksum_size) pkg_hdr_checksum_size true)

-- The length of the version string and of the component bitmap, and the iterator behind the structure.
unfoldable pub process_pkg_hdr_info : Bytes → Option (ℕ × ℕ × Bytes)
process_pkg_hdr_info hdr_data =
    let pkg_version_string_len = u8_at 35 hdr_data in
    if ltb (length hdr_data) pkg_header_info_size
    then none
    else if not (match_pkg_hdr_identifier hdr_data)
    then none
    else elim (advance_hdr_itr pkg_header_info_size pkg_version_string_len hdr_data) [
      | none ↦ none
      | some itr ↦ some (pkg_version_string_len, u16_at 32 hdr_data, itr)
    ]

unfoldable pub with_components :
    Bytes → ℕ → Devices → ℕ × Map CompProperties × Bool → Option PldmImg
with_components file pkg_hdr_len d (total_comp_count, components, all_found) =
    if not all_found
    then none
    else some (record {
      file = file;
      pkg_hdr_len = pkg_hdr_len;
      total_comp_count = total_comp_count;
      pkg_dev_id_records = d.records;
      pkg_comp_properties = components;
      matched_termini = d.matched_termini;
    })

unfoldable pub with_devices : Bytes → ℕ → Option Devices → Option PldmImg
unfolding with_components
with_devices file pkg_hdr_len none = none
with_devices file pkg_hdr_len (some d) =
    with_components file pkg_hdr_len d (process_comp_img_info d.itr)

unfoldable pub with_info :
    Bytes → ℕ → ℕ → List (ℕ × DescriptorsMap) → Option (ℕ × ℕ × Bytes) → Option PldmImg
unfolding with_devices
with_info file pkg_hdr_len memory termini none = none
with_info file pkg_hdr_len memory termini (some (version_len, bits, itr)) =
    with_devices file pkg_hdr_len
      (process_dev_identification_info version_len bits memory termini itr)

unfoldable pub header_read :
    (Bytes → ℕ) → ℕ → List (ℕ × DescriptorsMap) → Bytes → ℕ → Option Bytes × Bool → Option PldmImg
unfolding with_info
header_read crc32 memory termini file pkg_hdr_len (none, good) = none
header_read crc32 memory termini file pkg_hdr_len (some hdr_data, good) =
    if not (verify_pkg_hdr_checksum crc32 file hdr_data)
    then none
    else with_info file pkg_hdr_len memory termini (process_pkg_hdr_info hdr_data)

-- How the header of a package ends: the assertion fails, it is refused, or it is accepted.
pub data HeaderResult : Type 0 where
  aborted : HeaderResult
  refused : HeaderResult
  accepted : PldmImg → HeaderResult

abbrev pub result_of : Option PldmImg → HeaderResult
result_of none = refused
result_of (some img) = accepted img

unfoldable pub len_result :
    (Bytes → ℕ) → ℕ → List (ℕ × DescriptorsMap) → Bytes → ℕ × Bool → HeaderResult
unfolding header_read
len_result crc32 memory termini file (pkg_hdr_len, good) =
    if pkg_hdr_len == min_pkg_header_len
    then aborted
    else result_of
        (header_read crc32 memory termini file pkg_hdr_len (read_data file 0 pkg_hdr_len good))

unfoldable pub process_pkg_hdr : (Bytes → ℕ) → ℕ → List (ℕ × DescriptorsMap) → Bytes → HeaderResult
unfolding len_result
process_pkg_hdr crc32 memory termini file = len_result crc32 memory termini file (get_hdr_len file)
