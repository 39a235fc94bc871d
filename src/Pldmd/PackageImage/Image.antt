-- ===== src/Pldmd/PackageImage/Image.antt =====
-- pldmd/include/pldm_fwu_image.hpp: what the daemon keeps of a package, and how it reads the file.
-- A property map whose keys are all written together, each with one type, is a record.
use pmci.Prelude.{
  ℕ, ◌+◌, ◌-◌, ◌%◌, ◌^◌, Bool, true, false, not, ◌&&◌, List, Option, none, some, Bytes, length,
  take, drop, ltb, ◌==◌, if◌then◌else◌,
}
use pmci.Prelude.Map.{Map, find}

pub record CompProperties : Type 0 where
  pub comp_classification : ℕ
  pub comp_identifier : ℕ
  pub comp_comparison_stamp : ℕ
  pub comp_options : ℕ
  pub requested_comp_activation_method : ℕ
  pub comp_location_offset : ℕ
  pub comp_size : ℕ
  pub comp_ver_str_type : ℕ
  pub comp_ver_str_len : ℕ
  pub comp_ver_str : Bytes

pub record DevIdProperties : Type 0 where
  pub initial_descriptor_type : ℕ
  pub device_id_record_count : ℕ
  pub record_length : ℕ
  pub descriptor_count : ℕ
  pub device_update_option_flags : ℕ
  pub com_img_set_ver_str_type : ℕ
  pub com_img_set_ver_str_len : ℕ
  pub fw_dev_pkg_data_len : ℕ
  pub applicable_components : Bytes
  pub comp_img_set_ver_str : Bytes
  pub fw_device_package_data : Bytes

-- `file` is what the stream reads, `matched_termini` pairs a device record with a TID.
pub record PldmImg : Type 0 where
  pub file : Bytes
  pub pkg_hdr_len : ℕ
  pub total_comp_count : ℕ
  pub pkg_dev_id_records : Map DevIdProperties
  pub pkg_comp_properties : Map CompProperties
  pub matched_termini : List (ℕ × ℕ)

-- PLDM_FWU_BASELINE_TRANSFER_SIZE.
abbrev pub baseline_transfer_size : ℕ
baseline_transfer_size = 32

abbrev pub get_comp_properties : PldmImg → ℕ → Option CompProperties
get_comp_properties img comp = find comp img.pkg_comp_properties

abbrev pub get_dev_id_properties : PldmImg → ℕ → Option DevIdProperties
get_dev_id_properties img record_count = find record_count img.pkg_dev_id_records

unfoldable pub get_updatable_imagesize : PldmImg → ℕ
get_updatable_imagesize img = (length img.file + 2 ^ 64 - img.pkg_hdr_len) % 2 ^ 64

-- `pldmImg` is good until a read runs past the end of the file; then no seek or read works any more.
-- The result is the bytes read, and whether the stream is good after it.
unfoldable pub read_data : Bytes → ℕ → ℕ → Bool → Option Bytes × Bool
read_data file start_addr data_len good =
    if ltb (length file + baseline_transfer_size) (start_addr + data_len)
    then (none, good)
    else if not good
    then (none, false)
    else if not (data_len == 0) && ltb (length file) (start_addr + data_len)
    then (none, false)
    else (some (take data_len (drop start_addr file)), true)
