-- ===== src/Pldmd/FwUpdate/Completions.antt =====
-- pldmd/src/firmware_update.cpp: the device's reports that a phase is complete.
use pmci.Prelude.{ℕ, Bool, not, ◌||◌, Bytes, ◌==◌, if◌then◌else◌}
use pmci.Pldmd.FwUpdate.Codec.{
  Libpldm, transfer_complete, verify_complete, apply_complete, Response, is_download, is_verify,
  is_apply, pldm_success, pldm_error, pldm_error_invalid_data, command_not_expected,
  cmd_transfer_complete, cmd_verify_complete, cmd_apply_complete,
}
use pmci.Pldmd.FwUpdate.Link.{Link, instance_of, post, send_error_completion_code}
use pmci.Pldmd.FwUpdate.State.{Fwu}

unfoldable pub validate_transfer_complete : ℕ → ℕ
validate_transfer_complete transfer_result =
    if transfer_result == 0 then pldm_success else pldm_error_invalid_data

unfoldable pub validate_verify_complete : ℕ → ℕ
validate_verify_complete verify_result =
    if verify_result == 0 then pldm_success else pldm_error_invalid_data

unfoldable pub validate_apply_complete : ℕ → ℕ
validate_apply_complete apply_result =
    if apply_result == 0 || apply_result == 1 then pldm_success else pldm_error_invalid_data

-- An error goes back to the device, and is what the caller gets.
unfoldable pub refuse : Libpldm → Bytes → ℕ → ℕ → Link → Link × ℕ
refuse lib req rc command l =
    ((send_error_completion_code lib (instance_of req) rc command l).0, rc)

unfoldable pub sent_code : Link × Bool → Link × ℕ
sent_code (l, sent) = (l, if sent then pldm_success else pldm_error)

unfoldable pub post_encoded : ℕ × Bytes → Link → Link × ℕ
unfolding sent_code
post_encoded (rc, msg) l = if not (rc == pldm_success) then (l, rc) else sent_code (post msg l)

-- The answer to a report; its completion code is the one given.
unfoldable pub acknowledge : Libpldm → Bytes → Response → Link → Link × ℕ
unfolding post_encoded
acknowledge lib req resp l = post_encoded (lib.encode_resp (instance_of req) resp) l

unfoldable pub transfer_decoded : Libpldm → Bytes → ℕ × ℕ → Link → Link × ℕ
transfer_decoded lib req (rc, result) l =
    if not (rc == pldm_success)
    then refuse lib req rc cmd_transfer_complete l
    else if not (validate_transfer_complete result == pldm_success)
    then refuse lib req (validate_transfer_complete result) cmd_transfer_complete l
    else acknowledge lib req (transfer_complete pldm_success) l

unfoldable pub process_transfer_complete : Libpldm → Bytes → ℕ → Fwu → Link × ℕ
unfolding transfer_decoded
process_transfer_complete lib req transfer_result s =
    if not s.update_mode || not (is_download s.fd_state)
    then refuse lib req command_not_expected cmd_transfer_complete s.link
    else transfer_decoded lib req (lib.decode_transfer_complete_req req transfer_result) s.link

unfoldable pub verify_decoded : Libpldm → Bytes → ℕ × ℕ → Link → Link × ℕ
verify_decoded lib req (rc, result) l =
    if not (rc == pldm_success)
    then refuse lib req rc cmd_verify_complete l
    else if not (validate_verify_complete result == pldm_success)
    then refuse lib req (validate_verify_complete result) cmd_verify_complete l
    else acknowledge lib req (verify_complete pldm_success) l

unfoldable pub process_verify_complete : Libpldm → Bytes → ℕ → Fwu → Link × ℕ
unfolding verify_decoded
process_verify_complete lib req verify_result s =
    if not s.update_mode || not (is_verify s.fd_state)
    then refuse lib req command_not_expected cmd_verify_complete s.link
    else verify_decoded lib req (lib.decode_verify_complete_req req verify_result) s.link

-- A result that is not valid is reported to the device alone: the caller gets the code of the send.
unfoldable pub apply_decoded : Libpldm → Bytes → ℕ × ℕ → Link → Link × ℕ
apply_decoded lib req (rc, result) l =
    if not (rc == pldm_success)
    then refuse lib req rc cmd_apply_complete l
    else acknowledge lib req (apply_complete (validate_apply_complete result)) l

unfoldable pub process_apply_complete : Libpldm → Bytes → ℕ → Fwu → Link × ℕ
unfolding apply_decoded
process_apply_complete lib req apply_result s =
    if not s.update_mode || not (is_apply s.fd_state)
    then refuse lib req command_not_expected cmd_apply_complete s.link
    else apply_decoded lib req (lib.decode_apply_complete_req req apply_result) s.link
