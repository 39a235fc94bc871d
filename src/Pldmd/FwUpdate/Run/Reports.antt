-- ===== src/Pldmd/FwUpdate/Run/Reports.antt =====
-- What the update of a component makes of the device's reports, in pldmd/src/firmware_update.cpp.
use pmci.Prelude.{ℕ, ◌≡◌, ◌≤◌, ◌<◌, ◌&&◌, true, false, Bytes, arith, if◌then◌else◌}
use pmci.Pldmd.FwUpdate.Codec.{
  Libpldm, fd_apply, fd_ready_xfer, apply_complete, pldm_success, pldm_error_invalid_data,
  command_not_expected, is_download, is_verify, cmd_apply_complete,
}
use pmci.Pldmd.FwUpdate.Link.{instance_of, post}
use pmci.Pldmd.FwUpdate.State.{Fwu}
use pmci.Pldmd.FwUpdate.Completions.{
  process_transfer_complete, process_verify_complete, process_apply_complete, apply_decoded, refuse,
  acknowledge, post_encoded, sent_code, validate_transfer_complete, validate_verify_complete,
  validate_apply_complete,
}
use pmci.Pldmd.FwUpdate.Run.{apply_phase, await_report, unmatched}

-- A report is taken only in its own state and in update mode: a TransferComplete and a
-- VerifyComplete that decode to a failure end with INVALID DATA there, and with COMMAND NOT
-- EXPECTED anywhere else.
pub reports-guarded :
    (lib : Libpldm) (req : Bytes) (old result : ℕ) (s : Fwu)
    → lib.decode_transfer_complete_req req old ≡ (pldm_success, result)
    → lib.decode_verify_complete_req req old ≡ (pldm_success, result)
    → 0 < result
    → ((process_transfer_complete lib req old s).1 ≡ (
        if s.update_mode && is_download s.fd_state
        then pldm_error_invalid_data
        else command_not_expected))
      × ((process_verify_complete lib req old s).1 ≡ (
          if s.update_mode && is_verify s.fd_state
          then pldm_error_invalid_data
          else command_not_expected))
unfolding process_transfer_complete process_verify_complete validate_transfer_complete
    validate_verify_complete refuse
reports-guarded lib req old result s transfer verify failed = ground arith

-- The bug: an ApplyComplete that reports a failure counts as a success. Where it comes in time and
-- decodes, and its answer is encoded and sent, the component is available for update and the device
-- is taken to be in READY XFER, with the return code of a success.
pub failed_apply-counts :
    (lib : Libpldm) (rc result : ℕ) (msg : Bytes) (s : Fwu)
    → let s1 = await_report fd_apply cmd_apply_complete s in
      s1.link.fd_req_matched ≡ true
      → s.update_mode ≡ true
      → lib.decode_apply_complete_req s1.link.fd_req 0 ≡ (pldm_success, result)
      → 2 ≤ result
      → lib.encode_resp (instance_of s1.link.fd_req) (apply_complete pldm_error_invalid_data)
        ≡ (pldm_success, msg)
      → (post msg (record (s1.link) { fd_req_matched = false })).1 ≡ true
      → let (t, rc') = apply_phase lib rc s in
        (t.is_component_available_for_update ≡ true)
        × (t.fd_state ≡ fd_ready_xfer)
        × (rc' ≡ pldm_success)
unfolding apply_phase await_report unmatched process_apply_complete apply_decoded
    validate_apply_complete acknowledge post_encoded sent_code
failed_apply-counts lib rc result msg s matched mode decodes failed encodes sent = ground arith
