-- ===== src/Pldmd/FwUpdate/Components.antt =====
-- pldmd/src/firmware_update.cpp: the commands for components, for activation and for cancelling.
use pmci.Prelude.{
  ℕ, zero, suc, ◌+◌, ◌%◌, ◌^◌, true, false, not, ◌||◌, Option, none, some, Bytes, ltb, ◌==◌,
  if◌then◌else◌,
}
use pmci.Pldmd.PackageImage.Image.{PldmImg}
use pmci.Pldmd.FwUpdate.Codec.{
  Libpldm, pass_component_table, update_component, activate_firmware, cancel_update_component,
  cancel_update, FdState, fd_idle, fd_ready_xfer, fd_activate, is_idle, is_learn_components,
  is_ready_xfer, is_download, is_verify, is_apply, is_activate, pldm_success, pldm_error,
  not_in_update_mode, command_not_expected, PassComponentTableReq, UpdateComponentReq,
}
use pmci.Pldmd.FwUpdate.Link.{Link, suspend, release_reserved}
use pmci.Pldmd.FwUpdate.State.{
  Fwu, prepare_pass_component_request, prepare_update_component_request, is_component_applicable,
}
use pmci.Pldmd.FwUpdate.Commands.{Outcome, not_encoded, no_response, responded, command, decoded}

-- Commands whose response has a completion code alone to read.
cc_outcome : (Bytes → ℕ → ℕ × ℕ) → Fwu → Link × Outcome → Fwu × ℕ
cc_outcome decode s (l, not_encoded rc) = (record s { link = l }, rc)
cc_outcome decode s (l, no_response) = (record s { link = l }, pldm_error)
cc_outcome decode s (l, responded resp) =
    let (rc, cc) = decode resp s.completion_code in
    (record s { link = l; completion_code = cc }, decoded rc cc)

unfoldable pub do_pass_component_table : Libpldm → PassComponentTableReq → Bytes → Fwu → Fwu × ℕ
unfolding cc_outcome
do_pass_component_table lib table version s =
    cc_outcome lib.decode_pass_component_table_resp s
      (command lib (pass_component_table table version) s.link)

unfoldable pub do_activate_firmware : Libpldm → ℕ → Fwu → Fwu × ℕ
unfolding cc_outcome
do_activate_firmware lib self_contained s =
    cc_outcome lib.decode_activate_firmware_resp s
      (command lib (activate_firmware self_contained) s.link)

unfoldable pub do_cancel_component : Libpldm → Fwu → Fwu × ℕ
unfolding cc_outcome
do_cancel_component lib s =
    cc_outcome lib.decode_cancel_update_component_resp s
      (command lib cancel_update_component s.link)

unfoldable pub do_cancel : Libpldm → Fwu → Fwu × ℕ
unfolding cc_outcome
do_cancel lib s = cc_outcome lib.decode_cancel_update_resp s (command lib cancel_update s.link)

-- The components from `count` on, of which `left` are left; `accepted` is a uint8_t.
unfoldable pub passed : Libpldm → Option (PassComponentTableReq × Bytes) → Fwu → Fwu × Option ℕ
passed lib none s = (s, none)
passed lib (some (table, version)) s =
    let (s', rc) = do_pass_component_table lib table version s in (s', some rc)

unfoldable pub pass_rounds : ℕ → ℕ → Libpldm → PldmImg → ℕ → Fwu → Fwu × ℕ
pass_rounds zero count lib img accepted s = (s, if ltb 0 accepted then pldm_success else pldm_error)
pass_rounds (suc left) count lib img accepted s =
    let s1 = record s { current_comp = count } in
    let (s2, req) = prepare_pass_component_request img count s1 in
    let (s3, rc) = passed lib req s2 in
    let skip = pass_rounds left (count + 1) lib img accepted s1 in
    let refused = pass_rounds left (count + 1) lib img accepted s3 in
    let taken =
      pass_rounds left (count + 1) lib img ((accepted + 1) % 2 ^ 8)
        (record s3 { link = suspend s3.link }) in
    if not (is_component_applicable s1) then skip else elim rc [
      | none ↦ (s3, pldm_error)
      | some code ↦ elim (code == pldm_success) [ true ↦ taken | false ↦ refused ]
    ]

unfoldable pub process_pass_component_table : Libpldm → PldmImg → Fwu → Fwu × ℕ
process_pass_component_table lib img s =
    if not s.update_mode
    then (s, not_in_update_mode)
    else if not (is_learn_components s.fd_state)
    then (s, command_not_expected)
    else pass_rounds s.comp_count 0 lib img 0 s

-- UpdateComponent; the compatibility response comes back with the return code.
update_outcome : Libpldm → ℕ → Fwu → Link × Outcome → Fwu × ℕ × ℕ
update_outcome lib compat s (l, not_encoded rc) = (record s { link = l }, rc, compat)
update_outcome lib compat s (l, no_response) = (record s { link = l }, pldm_error, compat)
update_outcome lib compat s (l, responded resp) =
    let (rc, (cc, compat')) = lib.decode_update_component_resp resp (s.completion_code, compat) in
    (record s { link = l; completion_code = cc }, decoded rc cc, compat')

update_prepared : Libpldm → ℕ → Option (UpdateComponentReq × Bytes) → Fwu → Fwu × ℕ × ℕ
unfolding update_outcome
update_prepared lib compat none s = (s, pldm_success, compat)
update_prepared lib compat (some (component, version)) s =
    update_outcome lib compat s (command lib (update_component component version) s.link)

unfoldable pub process_update_component : Libpldm → PldmImg → ℕ → Fwu → Fwu × ℕ × ℕ
unfolding update_prepared
process_update_component lib img compat s =
    if not s.update_mode
    then (s, not_in_update_mode, compat)
    else if not (is_ready_xfer s.fd_state)
    then (s, command_not_expected, compat)
    else update_prepared lib compat (prepare_update_component_request img s) s

-- The state that a command puts the device into if it succeeds.
moved : FdState → Fwu × ℕ → Fwu × ℕ
moved st (s, rc) =
    if not (rc == pldm_success) then (s, rc) else (record s { fd_state = st }, pldm_success)

unfoldable pub process_activate_firmware : Libpldm → ℕ → Fwu → Fwu × ℕ
unfolding moved
process_activate_firmware lib self_contained s =
    if not s.update_mode
    then (s, not_in_update_mode)
    else if not (is_ready_xfer s.fd_state)
    then (s, command_not_expected)
    else moved fd_activate (do_activate_firmware lib self_contained s)

unfoldable pub do_cancel_update_component : Libpldm → Fwu → Fwu × ℕ
unfolding moved
do_cancel_update_component lib s =
    if not s.update_mode
    then (s, not_in_update_mode)
    else if not (is_download s.fd_state || is_verify s.fd_state || is_apply s.fd_state)
    then (s, command_not_expected)
    else moved fd_ready_xfer (do_cancel_component lib s)

unfoldable pub do_cancel_update : Libpldm → Fwu → Fwu × ℕ
unfolding moved
do_cancel_update lib s =
    if not s.update_mode
    then (s, pldm_error)
    else if is_idle s.fd_state || is_activate s.fd_state
    then (s, command_not_expected)
    else moved fd_idle (do_cancel lib s)

unfoldable pub terminate_fw_update : Libpldm → Fwu → Fwu
terminate_fw_update lib s =
    let s' = (do_cancel_update lib s).0 in record s' { link = release_reserved s'.link }
