-- ===== src/Pldmd/FwUpdate/Tests/Runs.antt =====
-- Updates of pldmd/src/firmware_update.cpp and parts of them, on the concrete package and device.
use pmci.Prelude.{ℕ, ◌≡◌, refl, true, false, [], ◌∷◌, ◌++◌, some, replicate, length, arith}
use pmci.Prelude.Map.{find}
use pmci.Pldmd.Transport.Bus.{get_instance_id, validate_reserve_bw}
use pmci.Pldmd.TidMapper.{get_mapped_eid}
use pmci.Pldmd.Transport.Exchange.{send_pldm_message, post_at, post_rounds}
use pmci.Pldmd.FwUpdate.Codec.{
  fd_download, fd_ready_xfer, fd_verify, fd_apply, apply_complete, cmd_apply_complete,
  cmd_verify_complete, pldm_error_invalid_data, pldm_success,
}
use pmci.Pldmd.FwUpdate.Link.{
  arrived, start_timer, suspend, happen_all, happen, pldm_msg_recv_fw_upd_callback,
  validate_req_for_fw_upd_cmd, note_transfer_complete, match_request, post, instance_of,
}
use pmci.Pldmd.FwUpdate.State.{Fwu}
use pmci.Pldmd.FwUpdate.Download.{read_portion}
use pmci.Pldmd.FwUpdate.Download.Portion.{read_portion-component}
use pmci.Pldmd.FwUpdate.Run.{run_update, run_components, await_report}
use pmci.Pldmd.FwUpdate.Run.Phases.{Transfers, run_components-Transfers}
use pmci.Pldmd.FwUpdate.Run.Activation.{run_update-Activates, Activates}
use pmci.Pldmd.FwUpdate.Tests.{toy, image, bus, link, agent, in_state}

-- It ends with the new firmware activated.
abbrev updated : Fwu × ℕ
updated = run_update toy image agent

run_update-Activates_example : Activates updated
run_update-Activates_example = run_update-Activates toy image agent refl

run_components-Transfers_example :
    Transfers (in_state fd_ready_xfer) (run_components 1 0 toy image 0 (in_state fd_ready_xfer)).0
run_components-Transfers_example =
    run_components-Transfers 1 0 toy image 0 (in_state fd_ready_xfer) refl

silent :
    (start_timer
      (record ((in_state fd_download).link) { expected_cmd = cmd_verify_complete })).fd_req_matched
    ≡ false
unfolding start_timer suspend happen_all
silent = refl

silent_download : (start_timer (in_state fd_download).link).fd_req_matched ≡ false
unfolding start_timer suspend happen_all
silent_download = refl

read_portion-component_example :
    (read_portion image.file 16 32 40 4 true ≡ (some (replicate 24 7 ++ replicate 8 0), true))
    × (length {A = ℕ} (replicate 24 7) ≡ 24)
read_portion-component_example =
    read_portion-component image.file 16 32 40 4 (omega arith) (omega arith) (omega arith)
      (omega arith) (omega arith)

-- The device reports that applying the image failed.
abbrev apply_fails : Fwu
apply_fails = record (in_state fd_verify) {
  link = record link {
    happenings = (arrived 1 3 true (0x83 ∷ 5 ∷ 0x18 ∷ 2 ∷ []) ∷ []) ∷ [];
    bus = record bus { posts = true ∷ [] };
  };
}

failed_apply_rounds :
    let s1 = await_report fd_apply cmd_apply_complete apply_fails in
    (s1.link.fd_req_matched ≡ true)
    × (toy.decode_apply_complete_req s1.link.fd_req 0 ≡ (pldm_success, 2))
    × (toy.encode_resp (instance_of s1.link.fd_req) (apply_complete pldm_error_invalid_data)
        ≡ (pldm_success, 3 ∷ 5 ∷ []))
    × ((post (3 ∷ 5 ∷ []) (record (s1.link) { fd_req_matched = false })).1 ≡ true)
unfolding await_report start_timer suspend happen_all happen pldm_msg_recv_fw_upd_callback
    validate_req_for_fw_upd_cmd note_transfer_complete match_request get_instance_id post
    send_pldm_message validate_reserve_bw get_mapped_eid find post_at post_rounds
failed_apply_rounds = (refl, refl, refl, refl)
