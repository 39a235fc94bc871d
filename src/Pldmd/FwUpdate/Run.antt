-- ===== src/Pldmd/FwUpdate/Run.antt =====
-- pldmd/src/firmware_update.cpp: runUpdate, from the first request to activation.
pub mod Steps
pub mod Phases
pub mod Activation
pub mod Reports
use pmci.Prelude.{
  ℕ, zero, suc, ◌+◌, ◌-◌, Bool, true, false, not, List, [], ◌∷◌, Bytes, ◌==◌, if◌then◌else◌,
}
use pmci.Pldmd.Transport.Bus.{trigger_device_discovery}
use pmci.Pldmd.PackageImage.Image.{PldmImg}
use pmci.Pldmd.FwUpdate.Codec.{
  Libpldm, FdState, fd_learn_components, fd_ready_xfer, fd_download, fd_verify, fd_apply,
  pldm_success, cmd_request_firmware_data, cmd_verify_complete, cmd_apply_complete,
}
use pmci.Pldmd.FwUpdate.Link.{
  Link, suspend, start_timer, activate_reserve_bandwidth, get_reserve_eid_timeout, release_reserved,
}
use pmci.Pldmd.FwUpdate.State.{Fwu, is_component_applicable, comp_update_progress}
use pmci.Pldmd.FwUpdate.Commands.{
  process_request_update, process_send_package_data, process_get_device_meta_data,
  process_send_meta_data,
}
use pmci.Pldmd.FwUpdate.Components.{
  process_pass_component_table, process_update_component, process_activate_firmware,
  do_cancel_update_component,
}
use pmci.Pldmd.FwUpdate.Download.{process_request_firmware_data}
use pmci.Pldmd.FwUpdate.Completions.{
  process_transfer_complete, process_verify_complete, process_apply_complete,
}

-- A phase failed: the component's update is cancelled, and the code of the failure is kept.
unfoldable pub cancel_component : Libpldm → ℕ → Fwu → Fwu × ℕ
cancel_component lib rc s = ((do_cancel_update_component lib s).0, rc)

-- Wait for the device's next report.
unfoldable pub await_report : FdState → ℕ → Fwu → Fwu
await_report st cmd s = record s {
  fd_state = st;
  link = start_timer (record (s.link) { expected_cmd = cmd });
}

unfoldable pub unmatched : Fwu → Fwu
unmatched s = record s { link = record (s.link) { fd_req_matched = false } }

-- From the wait for ApplyComplete to the end of the component. `rc` is the last return code.
unfoldable pub apply_phase : Libpldm → ℕ → Fwu → Fwu × ℕ
unfolding unmatched
apply_phase lib rc s =
    let s1 = await_report fd_apply cmd_apply_complete s in
    let s2 = unmatched s1 in
    let (l, rc') = process_apply_complete lib s2.link.fd_req 0 s2 in
    let s3 = record s2 { link = l } in
    if not s1.link.fd_req_matched
    then (s1, rc)
    else if not (rc' == pldm_success)
    then (s3, rc')
    else (
      record s3 { is_component_available_for_update = true; fd_state = fd_ready_xfer },
      pldm_success,
    )

unfoldable pub verify_phase : Libpldm → ℕ → Fwu → Fwu × ℕ
unfolding unmatched
verify_phase lib rc s =
    let s1 = await_report fd_verify cmd_verify_complete s in
    let s2 = unmatched s1 in
    let (l, rc') = process_verify_complete lib s2.link.fd_req 0 s2 in
    let s3 = record s2 { link = l } in
    if not s1.link.fd_req_matched
    then (s1, rc)
    else if not (rc' == pldm_success)
    then cancel_component lib rc' s3
    else apply_phase lib pldm_success s3

unfoldable pub transfer_phase : Libpldm → Fwu → Fwu × ℕ
transfer_phase lib s =
    let s1 = comp_update_progress s in
    let (l, rc') = process_transfer_complete lib s1.link.fd_req 0 s1 in
    let s2 = record s1 { link = l } in
    if not (rc' == pldm_success)
    then cancel_component lib rc' s2
    else verify_phase lib pldm_success s2

unfoldable pub download_phase : Libpldm → PldmImg → Fwu → Fwu × ℕ
download_phase lib img s =
    let s1 = record s {
      fd_state = fd_download;
      link = record (s.link) { expected_cmd = cmd_request_firmware_data };
    } in
    let (s2, rc) = process_request_firmware_data lib img s1 in
    if not (rc == pldm_success) then cancel_component lib rc s2 else transfer_phase lib s2

-- One round of the loop over the components.
unfoldable pub run_component : Libpldm → PldmImg → ℕ → ℕ → Fwu → Fwu × ℕ
run_component lib img count rc s =
    let s1 = record s { current_comp = count } in
    let (s2, rc', compat) = process_update_component lib img 0 s1 in
    if not (is_component_applicable s1)
    then (comp_update_progress s1, rc)
    else if not (rc' == pldm_success)
    then (s2, rc')
    else if not (compat == 0)
    then (comp_update_progress s2, pldm_success)
    else download_phase lib img s2

unfoldable pub run_components : ℕ → ℕ → Libpldm → PldmImg → ℕ → Fwu → Fwu × ℕ
run_components zero count lib img rc s = (s, rc)
run_components (suc left) count lib img rc s =
    let (s', rc') = run_component lib img count rc s in
    run_components left (count + 1) lib img rc' s'

activated : Fwu × ℕ → Fwu × ℕ
activated (s, rc) =
    if not (rc == pldm_success)
    then (s, rc)
    else (let l = start_timer s.link in
        (
          record s { link = record l { bus = trigger_device_discovery l.current_tid l.bus } },
          pldm_success,
        ))

unfoldable pub activation_phase : Libpldm → Fwu × ℕ → Fwu × ℕ
unfolding activated
activation_phase lib (s, rc) =
    let s' = record s { link = release_reserved s.link } in
    if not s.is_component_available_for_update
    then (s', rc)
    else activated (process_activate_firmware lib 1 s')

-- What follows the loop over the components.
unfoldable pub finish_update : Libpldm → Fwu × ℕ → Fwu × ℕ
finish_update lib (s, rc) =
    let (s', rc') = process_send_meta_data lib s in
    if s.fw_device_meta_data_len == 0
    then activation_phase lib (s, rc)
    else if not (rc' == pldm_success)
    then (s', rc')
    else activation_phase lib (s', rc')

unfoldable pub components_phase : Libpldm → PldmImg → Fwu → Fwu × ℕ
components_phase lib img s =
    let (s1, rc) = process_pass_component_table lib img s in
    if not (rc == pldm_success)
    then (s1, rc)
    else finish_update lib (
        run_components s1.comp_count 0 lib img pldm_success
          (record s1 { fd_state = fd_ready_xfer }))

unfoldable pub learn_phase : Libpldm → PldmImg → Fwu → Fwu × ℕ
learn_phase lib img s =
    let l = suspend s.link in
    let s1 = record s {
      link =
          activate_reserve_bandwidth
            (record l { reserve_eid_timeout = get_reserve_eid_timeout img });
    } in
    let (s2, rc) = process_send_package_data lib img s1 in
    let (s3, rc') = process_get_device_meta_data lib s2 in
    if not (rc == pldm_success)
    then (s2, rc)
    else if not (rc' == pldm_success)
    then (s3, rc')
    else components_phase lib img s3

unfoldable pub run_update : Libpldm → PldmImg → Fwu → Fwu × ℕ
run_update lib img s =
    let (s1, rc) =
      process_request_update lib img (record s { comp_count = img.total_comp_count }) in
    if not (rc == pldm_success)
    then (s1, rc)
    else learn_phase lib img (record s1 { update_mode = true; fd_state = fd_learn_components })
