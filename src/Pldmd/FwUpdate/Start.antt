-- ===== src/Pldmd/FwUpdate/Start.antt =====
-- pldmd/src/firmware_update.cpp: StartFWUpdate, initUpdate, and the removal of a firmware device.
pub mod Outcome
pub mod Status
use pmci.Prelude.{
  ℕ, Bool, true, false, not, List, [], ◌∷◌, Option, none, some, Bytes, length, ltb, ◌==◌,
  if◌then◌else◌,
}
use pmci.Prelude.Map.{Map, find, erase}
use pmci.Pldmd.Transport.Bus.{Bus}
use pmci.Pldmd.PackageImage.Image.{PldmImg}
use pmci.Pldmd.FwUpdate.Codec.{Libpldm, fd_idle, pldm_success, pldm_error}
use pmci.Pldmd.FwUpdate.Link.{Link, Happening}
use pmci.Pldmd.FwUpdate.State.{Fwu}
use pmci.Pldmd.FwUpdate.Components.{terminate_fw_update}
use pmci.Pldmd.FwUpdate.Run.{run_update}

-- The daemon around its updates. Of a terminus's firmware properties and D-Bus objects the presence
-- alone is read here. `memory` is what stands in the two fields that the constructor of FWUpdate does
-- not set; `activation` is what was reported on D-Bus, newest first: Active or Failed.
pub record Daemon : Type 0 where
  pub img : Option PldmImg
  pub update_mode : Bool
  pub terminus_fwu_properties : Map (Unit {0})
  pub fwu_iface : Map (Unit {0})
  pub inventory_paths : Map Bytes
  pub bus : Bus
  pub happenings : List (List Happening)
  pub stream_good : Bool
  pub memory : ℕ × ℕ
  pub sensor_polling : Bool
  pub activation : List Bool

-- The constructor of FWUpdate.
unfoldable pub new_fw_update : ℕ → ℕ → Daemon → Fwu
new_fw_update device_id_record tid d = record {
  link = record {
    bus = d.bus;
    happenings = d.happenings;
    current_tid = tid;
    expected_cmd = d.memory.0;
    msg_tag = d.memory.1;
    fd_req = [];
    fd_req_matched = false;
    fd_transfer_completed = false;
    is_reserve_bandwidth_active = false;
    reserve_bw_timer = false;
    reserve_eid_timeout = 0;
  };
  stream_good = d.stream_good;
  pass_comp_count = 0;
  is_component_available_for_update = false;
  current_device_id_record = device_id_record;
  update_mode = false;
  fd_state = fd_idle;
  fw_device_meta_data_len = 0;
  current_comp = 0;
  comp_count = 0;
  fd_will_send_get_pkg_data_cmd = 0;
  applicable_components_val = 0;
  component_image_set_version_string = [];
  completion_code = pldm_success;
  update_properties = record {
    max_transfer_size = 0;
    no_of_comp = 0;
    max_outstand_transfer_req = 0;
    pkg_data_len = 0;
    comp_image_set_ver_str_type = 0;
    comp_image_set_ver_str_len = 0;
  };
  package_data = [];
  fw_device_meta_data = [];
  progress = [];
}

abbrev pub is_some : {A : Type 0} → Option A → Bool
is_some none = false
is_some (some x) = true

unfoldable pub set_matched_fd_descriptors : ℕ → Daemon → Bool
set_matched_fd_descriptors tid d = is_some (find tid d.terminus_fwu_properties)

-- pauseSensorPolling, before a run.
unfoldable pub paused : Daemon → Daemon
paused d = record d { sensor_polling = false }

-- The end of a run: what it did to the shared state stays, and sensors are polled again.
unfoldable pub finished : Fwu → Daemon → Daemon
finished s d = record d {
  bus = s.link.bus;
  happenings = s.link.happenings;
  stream_good = s.stream_good;
  sensor_polling = true;
  update_mode = false;
}

-- One round of the loop over the matched termini, with the status of the rounds before.
unfoldable pub update_terminus : Libpldm → PldmImg → ℕ × ℕ → Daemon × Bool → Daemon × Bool
unfolding paused
update_terminus lib img (device_id_record, tid) (d, status) =
    let (s, rc) = run_update lib img (new_fw_update device_id_record tid d) in
    if not (set_matched_fd_descriptors tid d)
    then (d, status)
    else if not (rc == pldm_success)
    then (finished (terminate_fw_update lib s) (paused d), false)
    else (finished s (paused d), status)

unfoldable pub update_termini : List (ℕ × ℕ) → Libpldm → PldmImg → Daemon × Bool → Daemon × Bool
update_termini [] lib img r = r
update_termini (t ∷ ts) lib img r = update_termini ts lib img (update_terminus lib img t r)

unfoldable pub report : Daemon × Bool → Daemon
report (d, status) = record d { activation = status ∷ d.activation }

unfoldable pub init_update : Libpldm → PldmImg → Daemon → Daemon × ℕ
unfolding report
init_update lib img d =
    if d.update_mode
    then (d, pldm_error)
    else (report (update_termini img.matched_termini lib img (d, true)), pldm_success)

-- What comes of opening a package: the constructor throws, reading the header throws, or the header
-- is good or not.
pub data Opened : Type 0 where
  not_opened : Opened
  not_read : PldmImg → Opened
  opened : PldmImg → Bool → Opened

-- The coroutine that StartFWUpdate spawns.
unfoldable pub spawned : Libpldm → PldmImg → Daemon → Daemon
spawned lib img d = record (init_update lib img d).0 { img = none }

-- The result says whether the return code is 0, not -1; the last is the package to spawn with.
unfoldable pub start_opened : Opened → Daemon → Daemon × Bool × Option PldmImg
start_opened not_opened d = (d, false, none)
start_opened (not_read img) d = (record d { img = some img }, false, none)
start_opened (opened img good) d = (record d { img = some img }, good, some img)

unfoldable pub start_fw_update : Opened → Daemon → Daemon × Bool × Option PldmImg
unfolding start_opened
start_fw_update o d = if is_some d.img then (d, false, none) else start_opened o d

unfoldable pub delete_fw_device : ℕ → Daemon → Daemon × Bool
delete_fw_device tid d =
    let d1 = record d { terminus_fwu_properties = erase tid d.terminus_fwu_properties } in
    let d2 = record d1 { fwu_iface = erase tid d.fwu_iface } in
    let d3 = record d2 { inventory_paths = erase tid d.inventory_paths } in
    if not (is_some (find tid d.terminus_fwu_properties))
    then (d, false)
    else if not (is_some (find tid d.fwu_iface))
    then (d1, false)
    else if not (is_some (find tid d.inventory_paths))
    then (d2, false)
    else (d3, true)
