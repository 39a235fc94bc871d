-- ===== src/Pldmd/PackageImage/Tests.antt =====
-- The header of a package that pldmd/src/pldm_fwu_image.cpp reads, on concrete bytes. The checksum is the
-- number of bytes.
use pmci.Prelude.{ℕ, ◌≡◌, ◌≢◌, refl, true, List, [], ◌∷◌, ◌++◌, Bytes, none, length, arith}
use pmci.Prelude.Map.{assign}
use pmci.Pldmd.PackageImage.Image.{
  PldmImg, CompProperties, DevIdProperties, get_comp_properties, read_data,
}
use pmci.Pldmd.PackageImage.Components.{
  process_comp_img_info, advance_hdr_itr, comp_table, comp_rounds, comp_round, comp_advanced,
  comp_properties_of,
}
use pmci.Pldmd.PackageImage.Components.RoundTrip.{put_table, process_comp_img_info-put}
use pmci.Pldmd.PackageImage.Devices.{
  DescriptorsMap, process_dev_identification_info, dev_table, dev_rounds, dev_round, dev_applicable,
  dev_ver_str, dev_descriptors, dev_pkg_data, dev_properties_of, get_descriptor_data_len,
  unpack_descriptors, unpack_rounds, process_descriptor, find_matched_terminus, same_descriptors,
}
use pmci.Pldmd.PackageImage.Header.{
  pkg_hdr_identifier, match_pkg_hdr_identifier, process_pkg_hdr, accepted, len_result, get_hdr_len,
  len_read, header_read, verify_pkg_hdr_checksum, checksum_read, process_pkg_hdr_info, same_bytes,
  with_info, with_devices, with_components,
}
use pmci.Pldmd.PackageImage.Header.Sound.{accepted-components}

-- A record for the device with the PCI vendor 0x8086, and a component.
abbrev file : Bytes
file =
    pkg_hdr_identifier
    ++ 1 ∷ 86 ∷ 0 ∷ 0 ∷ 0 ∷ 0 ∷ 0 ∷ 0 ∷ 0 ∷ 0 ∷ 0 ∷ 0 ∷ 0 ∷ 0 ∷ 0 ∷ 0 ∷ 8 ∷ 0 ∷ 1 ∷ 1 ∷ 0x31 ∷ 1
      ∷ 19 ∷ 0 ∷ 1 ∷ 0 ∷ 0 ∷ 0 ∷ 0 ∷ 1 ∷ 1 ∷ 0 ∷ 0 ∷ 1 ∷ 0x32 ∷ 0 ∷ 0 ∷ 2 ∷ 0 ∷ 0x86 ∷ 0x80 ∷ 1 ∷ 0
      ∷ 10 ∷ 0 ∷ 100 ∷ 0 ∷ 0 ∷ 0 ∷ 0 ∷ 0 ∷ 0 ∷ 0 ∷ 0 ∷ 0 ∷ 86 ∷ 0 ∷ 0 ∷ 0 ∷ 2 ∷ 0 ∷ 0 ∷ 0 ∷ 1 ∷ 1
      ∷ 0x33 ∷ 82 ∷ 0 ∷ 0 ∷ 0 ∷ 7 ∷ 7 ∷ []

abbrev termini : List (ℕ × DescriptorsMap)
termini = (1, (0, (2, 0x8086)) ∷ []) ∷ (2, (0, (2, 0x1234)) ∷ []) ∷ []

abbrev component : CompProperties
component = record {
  comp_classification = 10;
  comp_identifier = 100;
  comp_comparison_stamp = 0;
  comp_options = 0;
  requested_comp_activation_method = 0;
  comp_location_offset = 86;
  comp_size = 2;
  comp_ver_str_type = 1;
  comp_ver_str_len = 1;
  comp_ver_str = 0x33 ∷ [];
}

abbrev device_record : DevIdProperties
device_record = record {
  initial_descriptor_type = 0;
  device_id_record_count = 0;
  record_length = 19;
  descriptor_count = 1;
  device_update_option_flags = 0;
  com_img_set_ver_str_type = 1;
  com_img_set_ver_str_len = 1;
  fw_dev_pkg_data_len = 0;
  applicable_components = 1 ∷ [];
  comp_img_set_ver_str = 0x32 ∷ [];
  fw_device_package_data = [];
}

abbrev img : PldmImg
img = record {
  file = file;
  pkg_hdr_len = 86;
  total_comp_count = 1;
  pkg_dev_id_records = (0, device_record) ∷ [];
  pkg_comp_properties = (0, component) ∷ [];
  matched_termini = (0, 1) ∷ [];
}

file_accepted : process_pkg_hdr length 0 termini file ≡ accepted img
unfolding process_pkg_hdr len_result get_hdr_len len_read read_data header_read
    verify_pkg_hdr_checksum checksum_read process_pkg_hdr_info match_pkg_hdr_identifier same_bytes
    advance_hdr_itr with_info with_devices with_components process_dev_identification_info dev_table
    dev_rounds dev_round dev_applicable dev_ver_str dev_descriptors dev_pkg_data dev_properties_of
    get_descriptor_data_len unpack_descriptors unpack_rounds process_descriptor
    find_matched_terminus same_descriptors process_comp_img_info comp_table comp_rounds comp_round
    comp_advanced comp_properties_of assign
file_accepted = refl

accepted-components_example : get_comp_properties img 0 ≢ none
accepted-components_example =
    accepted-components length 0 termini file img 0 file_accepted (omega arith)

process_comp_img_info-put_example :
    process_comp_img_info (put_table (component ∷ component ∷ []) (82 ∷ 0 ∷ 0 ∷ 0 ∷ []))
    ≡ (2, (0, component) ∷ (1, component) ∷ [], true)
unfolding assign
process_comp_img_info-put_example =
    process_comp_img_info-put (component ∷ component ∷ []) (82 ∷ 0 ∷ 0 ∷ 0 ∷ []) (refl, (refl, tt))
      (omega arith)
