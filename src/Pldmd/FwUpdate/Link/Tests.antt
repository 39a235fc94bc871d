-- ===== src/Pldmd/FwUpdate/Link/Tests.antt =====
-- Messages that reach the update of pldmd/src/firmware_update.cpp, on concrete input.
use pmci.Prelude.{true, false, [], ◌∷◌, Bytes}
use pmci.Pldmd.FwUpdate.Link.{Link}

-- The first terminus fetches its image.
abbrev fetching : Link
fetching = record {
  bus = record {
    tid_mapper = (1, 8) ∷ (2, 9) ∷ [];
    rsv_bw_active = false;
    reserved_tid = 0;
    reserved_pldm_type = 0xff;
    instance_map = [];
    replies = [];
    posts = [];
    grants = [];
    wire = [];
  };
  happenings = [];
  current_tid = 1;
  expected_cmd = 0x15;
  msg_tag = 0;
  fd_req = [];
  fd_req_matched = false;
  fd_transfer_completed = false;
  is_reserve_bandwidth_active = true;
  reserve_bw_timer = true;
  reserve_eid_timeout = 30;
}

abbrev transfer_complete : Bytes
transfer_complete = 0x80 ∷ 5 ∷ 0x16 ∷ 0 ∷ []

abbrev request_firmware_data : Bytes
request_firmware_data = 0x81 ∷ 5 ∷ 0x15 ∷ 0 ∷ 32 ∷ []
