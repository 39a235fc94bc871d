-- ===== src/Pldmd/PackageImage/Components.antt =====
-- pldmd/src/pldm_fwu_image.cpp: the component table of a package header, processCompImgInfo. The header
-- iterator is the bytes from it to the end of the header.
pub mod RoundTrip
use pmci.Prelude.{
  ℕ, zero, suc, ◌+◌, ◌*◌, Bool, true, false, not, List, [], ◌∷◌, Option, none, some, Bytes, length,
  take, drop, ltb, leb, ◌==◌, if◌then◌else◌, get_or,
}
use pmci.Prelude.Map.{Map, assign}
use pmci.Pldmd.PackageImage.Image.{CompProperties}

-- Fields of a packed structure; numbers are little-endian.
abbrev pub u8_at : ℕ → Bytes → ℕ
u8_at i bytes = get_or bytes i 0

abbrev pub u16_at : ℕ → Bytes → ℕ
u16_at i bytes = get_or bytes i 0 + 256 * get_or bytes (i + 1) 0

abbrev pub u32_at : ℕ → Bytes → ℕ
u32_at i bytes = u16_at i bytes + 65536 * u16_at (i + 2) bytes

-- What is left after a step of the iterator, if the next piece of data lies in it.
unfoldable pub advance_hdr_itr : ℕ → ℕ → Bytes → Option Bytes
advance_hdr_itr data_size next_data_size itr =
    let rest = drop data_size itr in if ltb (length rest) next_data_size then none else some rest

-- sizeof(CompImgInfo).
abbrev pub comp_img_info_size : ℕ
comp_img_info_size = 22

-- copyCompImgInfoToMap.
unfoldable pub comp_properties_of : Bytes → Bytes → CompProperties
comp_properties_of comp_info comp_ver_str = record {
  comp_classification = u16_at 0 comp_info;
  comp_identifier = u16_at 2 comp_info;
  comp_comparison_stamp = u32_at 4 comp_info;
  comp_options = u16_at 8 comp_info;
  requested_comp_activation_method = u16_at 10 comp_info;
  comp_location_offset = u32_at 12 comp_info;
  comp_size = u32_at 16 comp_info;
  comp_ver_str_type = u8_at 20 comp_info;
  comp_ver_str_len = u8_at 21 comp_info;
  comp_ver_str = comp_ver_str;
}

unfoldable pub comp_advanced : Bytes → Option Bytes → Option (CompProperties × Bytes)
comp_advanced comp_info none = none
comp_advanced comp_info (some rest) =
    let comp_ver_str_len = u8_at 21 comp_info in
    some (comp_properties_of comp_info (take comp_ver_str_len rest), drop comp_ver_str_len rest)

-- One round of the loop; `none` where it breaks.
unfoldable pub comp_round : Bytes → Option (CompProperties × Bytes)
unfolding comp_advanced
comp_round itr =
    if leb (length itr) comp_img_info_size
    then none
    else comp_advanced itr (advance_hdr_itr comp_img_info_size (u8_at 21 itr) itr)

-- The loop, with the components that are still missing; the result says how many were found.
unfoldable pub comp_rounds : ℕ → ℕ → Bytes → Map CompProperties → Map CompProperties × ℕ
comp_rounds zero found itr m = (m, found)
comp_rounds (suc missing) found itr m = elim (comp_round itr) [
  | none ↦ (m, found)
  | some r ↦ comp_rounds missing (found + 1) (r.1) (assign found (r.0) m)
]

-- The number of components, the components, and whether all were found.
unfoldable pub comp_table : Option Bytes → ℕ × Map CompProperties × Bool
comp_table none = (0, [], false)
comp_table (some itr) =
    let total_comp_count = u16_at 0 itr in
    let (m, found) = comp_rounds total_comp_count 0 (drop 2 itr) [] in
    (total_comp_count, m, found == total_comp_count)

unfoldable pub process_comp_img_info : Bytes → ℕ × Map CompProperties × Bool
process_comp_img_info itr = comp_table (advance_hdr_itr 0 2 itr)
