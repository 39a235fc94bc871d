-- ===== src/Pldmd/FwUpdate/Tests.antt =====
-- A firmware update of pldmd/src/firmware_update.cpp on concrete input: a package with one component, a
-- device that answers every command, and an encoding of its own in place of libpldm's.
mod Runs
mod Starts
use pmci.Prelude.{
  ℕ, ◌+◌, ◌≡◌, refl, Bool, true, false, List, [], ◌∷◌, ◌++◌, Option, none, some, Bytes, get_or,
  replicate, length, arith,
}
use pmci.Prelude.Map.{find, erase}
use pmci.Pldmd.PackageImage.Image.{PldmImg, CompProperties, DevIdProperties}
use pmci.Pldmd.Transport.Bus.{Bus, Reply, get_instance_id, validate_reserve_bw}
use pmci.Pldmd.TidMapper.{get_mapped_eid}
use pmci.Pldmd.Transport.Exchange.{send_pldm_message, post_at, post_rounds}
use pmci.Pldmd.FwUpdate.Codec.{
  Libpldm, FdState, fd_idle, fd_download, fd_ready_xfer, fd_verify, fd_apply, apply_complete,
  cmd_apply_complete, cmd_verify_complete, pldm_error_invalid_data, command_not_expected,
  cmd_request_firmware_data, pldm_success,
}
use pmci.Pldmd.FwUpdate.Link.{
  Link, Happening, arrived, start_timer, suspend, happen_all, happen, pldm_msg_recv_fw_upd_callback,
  validate_req_for_fw_upd_cmd, note_transfer_complete, match_request, post, instance_of,
}
use pmci.Pldmd.FwUpdate.State.{Fwu}
use pmci.Pldmd.FwUpdate.Download.{process_request_firmware_data, read_portion}
use pmci.Pldmd.FwUpdate.Download.Portion.{
  read_portion-component, read_portion-outside, silent_download_succeeds,
}
use pmci.Pldmd.FwUpdate.Completions.{process_transfer_complete, process_verify_complete}
use pmci.Pldmd.FwUpdate.Start.{
  Daemon, opened, not_read, spawned, start_fw_update, delete_fw_device, set_matched_fd_descriptors,
}
use pmci.Pldmd.FwUpdate.Start.Outcome.{
  IsIdle, AllUnknown, starts, spawned-IsIdle, refused_update-Active, thrown_header-blocks,
  delete_fw_device-once,
}
use pmci.Pldmd.FwUpdate.Run.{run_update, run_components, verify_phase, apply_phase, await_report}
use pmci.Pldmd.FwUpdate.Run.Reports.{reports-guarded, failed_apply-counts}
use pmci.Pldmd.FwUpdate.Run.Phases.{Transfers, run_components-Transfers, missed_verify-stuck}
use pmci.Pldmd.FwUpdate.Run.Activation.{run_update-Activates, Activates}

abbrev pub toy : Libpldm
toy = record {
  encode_req = λ id req. (0, (0x80 + id) ∷ 5 ∷ []);
  encode_resp = λ id resp. (0, id ∷ 5 ∷ []);
  decode_request_update_resp = λ resp outs. (0, (get_or resp 3 1, 0, 0));
  decode_get_device_meta_data_resp = λ resp outs. (0, (get_or resp 3 1, 0, 5), []);
  decode_pass_component_table_resp = λ resp cc. (0, get_or resp 3 1);
  decode_update_component_resp = λ resp outs. (0, (get_or resp 3 1, get_or resp 4 0));
  decode_activate_firmware_resp = λ resp cc. (0, get_or resp 3 1);
  decode_cancel_update_component_resp = λ resp cc. (0, get_or resp 3 1);
  decode_cancel_update_resp = λ resp cc. (0, get_or resp 3 1);
  decode_get_fd_data_req = λ req outs. (0, (get_or req 3 0, get_or req 4 0));
  decode_request_firmware_data_req = λ max size req outs. (0, (get_or req 3 0, get_or req 4 0));
  decode_transfer_complete_req = λ req result. (0, get_or req 3 0);
  decode_verify_complete_req = λ req result. (0, get_or req 3 0);
  decode_apply_complete_req = λ req result. (0, get_or req 3 0);
}

abbrev pub component : CompProperties
component = record {
  comp_classification = 10;
  comp_identifier = 100;
  comp_comparison_stamp = 0;
  comp_options = 0;
  requested_comp_activation_method = 0;
  comp_location_offset = 4;
  comp_size = 40;
  comp_ver_str_type = 1;
  comp_ver_str_len = 1;
  comp_ver_str = 0x31 ∷ [];
}

abbrev pub device_record : DevIdProperties
device_record = record {
  initial_descriptor_type = 0;
  device_id_record_count = 1;
  record_length = 30;
  descriptor_count = 1;
  device_update_option_flags = 0;
  com_img_set_ver_str_type = 1;
  com_img_set_ver_str_len = 1;
  fw_dev_pkg_data_len = 0;
  applicable_components = 1 ∷ [];
  comp_img_set_ver_str = 0x31 ∷ [];
  fw_device_package_data = [];
}

abbrev pub image : PldmImg
image = record {
  file = 1 ∷ 2 ∷ 3 ∷ 4 ∷ replicate 40 7;
  pkg_hdr_len = 4;
  total_comp_count = 1;
  pkg_dev_id_records = (0, device_record) ∷ [];
  pkg_comp_properties = (0, component) ∷ [];
  matched_termini = (0, 1) ∷ [];
}

abbrev pub answer : ℕ → Reply
answer id = record { answer = some (1 ∷ id ∷ 5 ∷ 0 ∷ 0 ∷ []); removed = [] }

abbrev pub bus : Bus
bus = record {
  tid_mapper = (1, 8) ∷ [];
  rsv_bw_active = false;
  reserved_tid = 0;
  reserved_pldm_type = 0xff;
  instance_map = [];
  replies = answer 1 ∷ answer 2 ∷ answer 3 ∷ answer 4 ∷ [];
  posts = replicate 8 true;
  grants = true ∷ true ∷ [];
  wire = [];
}

-- What the device sends: a request for firmware data, and its three reports.
abbrev pub reports : List (List Happening)
reports =
    []
    ∷ []
    ∷ []
    ∷ []
    ∷ []
    ∷ (says 0x15 0 32 ∷ [])
    ∷ []
    ∷ (says 0x16 0 0 ∷ [])
    ∷ []
    ∷ []
    ∷ (says 0x17 0 0 ∷ [])
    ∷ []
    ∷ (says 0x18 0 0 ∷ [])
    ∷ []
  where
    says : ℕ → ℕ → ℕ → Happening
    says cmd x y = arrived 1 3 true (0x83 ∷ 5 ∷ cmd ∷ x ∷ y ∷ [])

abbrev pub link : Link
link = record {
  bus = bus;
  happenings = reports;
  current_tid = 1;
  expected_cmd = 0;
  msg_tag = 0;
  fd_req = [];
  fd_req_matched = false;
  fd_transfer_completed = false;
  is_reserve_bandwidth_active = false;
  reserve_bw_timer = false;
  reserve_eid_timeout = 0;
}

abbrev pub agent : Fwu
agent = record {
  link = link;
  stream_good = true;
  pass_comp_count = 0;
  is_component_available_for_update = false;
  current_device_id_record = 0;
  update_mode = false;
  fd_state = fd_idle;
  fw_device_meta_data_len = 0;
  current_comp = 0;
  comp_count = 0;
  fd_will_send_get_pkg_data_cmd = 0;
  applicable_components_val = 0;
  component_image_set_version_string = [];
  completion_code = 0;
  update_properties = record {
    max_transfer_size = 0;
    no_of_comp = 0;
    max_outstand_transfer_req = 0;
    pkg_data_len = 0;
    comp_image_set_ver_str_type = 0;
    comp_image_set_ver_str_len = 0;
  };
  package_data = [];
  fw_device_meta_data = [];
  progress = [];
}

-- The agent in the middle of an update.
abbrev pub in_state : FdState → Fwu
in_state st = record agent {
  update_mode = true;
  fd_state = st;
  comp_count = 1;
  applicable_components_val = 1;
  link = record link { expected_cmd = cmd_request_firmware_data; happenings = [] };
}
