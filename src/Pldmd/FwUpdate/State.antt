-- ===== src/Pldmd/FwUpdate/State.antt =====
-- pldmd/src/firmware_update.cpp: the state of an update, and what is read from the package for it.
use pmci.Prelude.{
  ℕ, zero, suc, ◌+◌, ◌-◌, ◌*◌, ◌/◌, ◌%◌, ◌^◌, Bool, true, false, List, [], ◌∷◌, Option, none, some,
  Bytes, ltb, ◌==◌, if◌then◌else◌, bit_and, bit_or,
}
use pmci.Pldmd.PackageImage.Image.{
  PldmImg, CompProperties, DevIdProperties, get_comp_properties, get_dev_id_properties,
  baseline_transfer_size,
}
use pmci.Pldmd.FwUpdate.Codec.{
  FdState, UpdateProperties, PassComponentTableReq, UpdateComponentReq, pldm_start, pldm_middle,
  pldm_end, pldm_start_and_end,
}
use pmci.Pldmd.FwUpdate.Link.{Link, suspend}

-- `progress` and `activation` are what was last written to D-Bus, newest first.
pub record Fwu : Type 0 where
  pub link : Link
  pub stream_good : Bool
  pub pass_comp_count : ℕ
  pub is_component_available_for_update : Bool
  pub current_device_id_record : ℕ
  pub update_mode : Bool
  pub fd_state : FdState
  pub fw_device_meta_data_len : ℕ
  pub current_comp : ℕ
  pub comp_count : ℕ
  pub fd_will_send_get_pkg_data_cmd : ℕ
  pub applicable_components_val : ℕ
  pub component_image_set_version_string : Bytes
  pub completion_code : ℕ
  pub update_properties : UpdateProperties
  pub package_data : Bytes
  pub fw_device_meta_data : Bytes
  pub progress : List ℕ

-- `val &= (val - 1)` until no bit is left; the bits of a uint64_t bound the rounds.
bit_rounds : ℕ → ℕ → ℕ → ℕ
bit_rounds zero val count = count
bit_rounds (suc left) val count = elim (val == 0) [
  | true ↦ count
  | false ↦ bit_rounds left (bit_and val (val - 1)) ((count + 1) % 2 ^ 16)
]

unfoldable pub get_applicable_components_count : ℕ → ℕ
unfolding bit_rounds
get_applicable_components_count val = bit_rounds 64 val 0

-- The bytes from the `byte_count`-th on, of which eight are read.
unfoldable pub applicable_bytes : ℕ → ℕ → Bytes → ℕ
applicable_bytes byte_count value [] = value
applicable_bytes byte_count value (byte ∷ bytes) =
    let value' = bit_or value (byte * 2 ^ (8 * byte_count)) in
    let rest = applicable_bytes (byte_count + 1) value' bytes in
    if ltb 7 (byte_count + 1) then value' else rest

abbrev applicable_of : Option DevIdProperties → Bytes
applicable_of none = []
applicable_of (some p) = p.applicable_components

unfoldable pub get_applicable_components : PldmImg → Fwu → ℕ
unfolding applicable_bytes
get_applicable_components img s =
    applicable_bytes 0 0 (applicable_of (get_dev_id_properties img s.current_device_id_record))

-- A shift by 64 or more is not defined in C++; here it gives 0.
unfoldable pub is_component_applicable : Fwu → Bool
is_component_applicable s = (s.applicable_components_val / 2 ^ s.current_comp) % 2 == 1

prepare_from : Option DevIdProperties → Fwu → Fwu × Bool
prepare_from none s = (s, false)
prepare_from (some p) s = (
  record s {
    update_properties = record (s.update_properties) {
      pkg_data_len = p.fw_dev_pkg_data_len;
      comp_image_set_ver_str_len = p.com_img_set_ver_str_len;
      comp_image_set_ver_str_type = p.com_img_set_ver_str_type;
    };
    component_image_set_version_string = p.comp_img_set_ver_str;
  },
  true,
)

unfoldable pub prepare_request_update_command : PldmImg → Fwu → Fwu × Bool
unfolding prepare_from
prepare_request_update_command img s =
    let val = get_applicable_components img s in
    prepare_from (get_dev_id_properties img s.current_device_id_record) (record s {
      applicable_components_val = val;
      update_properties = record (s.update_properties) {
        max_transfer_size = baseline_transfer_size;
        no_of_comp = get_applicable_components_count val;
        max_outstand_transfer_req = 1;
      };
    })

-- The flag of the component that is passed, if there is one to pass; and the count, a uint16_t, of
-- those passed.
unfoldable pub init_pass_component_table_transfer_flag : ℕ → ℕ → ℕ → Option ℕ × ℕ
init_pass_component_table_transfer_flag no_of_comp pass_comp_count flag =
    if no_of_comp == 1
    then (some pldm_start_and_end, pass_comp_count)
    else if ltb 1 no_of_comp
    then (
      some (
          if pass_comp_count == 0
          then pldm_start
          else if ltb (pass_comp_count + 1) no_of_comp
          then pldm_middle
          else if pass_comp_count + 1 == no_of_comp
          then pldm_end
          else flag),
      (pass_comp_count + 1) % 2 ^ 16,
    )
    else (none, pass_comp_count)

with_flag : CompProperties → Option ℕ × ℕ → Fwu → Fwu × Option (PassComponentTableReq × Bytes)
with_flag p (none, count) s = (record s { pass_comp_count = count }, none)
with_flag p (some flag, count) s = (
  record s { pass_comp_count = count },
  some (
    record {
      transfer_flag = flag;
      comp_classification = p.comp_classification;
      comp_identifier = p.comp_identifier;
      comp_classification_index = 0;
      comp_comparison_stamp = p.comp_comparison_stamp;
      comp_ver_str_type = p.comp_ver_str_type;
      comp_ver_str_len = p.comp_ver_str_len;
    },
    p.comp_ver_str,
  ),
)

pass_request_from : Option CompProperties → Fwu → Fwu × Option (PassComponentTableReq × Bytes)
unfolding with_flag
pass_request_from none s = (s, none)
pass_request_from (some p) s =
    with_flag p
      (init_pass_component_table_transfer_flag s.update_properties.no_of_comp s.pass_comp_count 0) s

unfoldable pub prepare_pass_component_request :
    PldmImg → ℕ → Fwu → Fwu × Option (PassComponentTableReq × Bytes)
unfolding pass_request_from
prepare_pass_component_request img comp_cnt s =
    pass_request_from (get_comp_properties img comp_cnt) s

update_request_from : Option CompProperties → Option (UpdateComponentReq × Bytes)
update_request_from none = none
update_request_from (some p) = some (
  record {
    comp_classification = p.comp_classification;
    comp_identifier = p.comp_identifier;
    comp_classification_index = 0;
    comp_comparison_stamp = p.comp_comparison_stamp;
    comp_image_size = p.comp_size;
    update_option_flags = 0;
    comp_ver_str_type = p.comp_ver_str_type;
    comp_ver_str_len = p.comp_ver_str_len;
  },
  p.comp_ver_str,
)

unfoldable pub prepare_update_component_request :
    PldmImg → Fwu → Option (UpdateComponentReq × Bytes)
unfolding update_request_from
prepare_update_component_request img s =
    update_request_from (get_comp_properties img s.current_comp)

-- The progress in percent, as a uint8_t; its write to D-Bus is a wait.
unfoldable pub comp_update_progress : Fwu → Fwu
comp_update_progress s = record s {
  progress = ((s.current_comp + 1) * 100 / s.comp_count) % 2 ^ 8 ∷ s.progress;
  link = suspend s.link;
}
