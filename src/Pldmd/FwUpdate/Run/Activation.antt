-- ===== src/Pldmd/FwUpdate/Run/Activation.antt =====
-- When an update in pldmd/src/firmware_update.cpp activates the device's new firmware.
use pmci.Prelude.{ℕ, ◌≡◌, refl, true, false, arith, ◌==◌, ◌&&◌}
use pmci.Pldmd.PackageImage.Image.{PldmImg}
use pmci.Pldmd.FwUpdate.Codec.{
  Libpldm, fd_learn_components, fd_ready_xfer, is_activate, pldm_success,
}
use pmci.Pldmd.FwUpdate.Link.{
  release_reserved, suspend, activate_reserve_bandwidth, get_reserve_eid_timeout,
}
use pmci.Pldmd.FwUpdate.State.{Fwu}
use pmci.Pldmd.FwUpdate.Kept.{Kept}
use pmci.Pldmd.FwUpdate.Commands.{
  process_request_update, process_send_package_data, process_get_device_meta_data,
  process_send_meta_data,
}
use pmci.Pldmd.FwUpdate.Components.{
  process_pass_component_table, process_activate_firmware, do_activate_firmware,
}
use pmci.Pldmd.FwUpdate.Run.Steps.{
  process_request_update-Kept, process_send_package_data-Kept, process_get_device_meta_data-Kept,
  process_send_meta_data-Kept, process_pass_component_table-Kept,
}
use pmci.Pldmd.FwUpdate.Run.Phases.{is_transfer, run_components-Transfers}
use pmci.Pldmd.FwUpdate.Run.{
  run_components, activation_phase, finish_update, components_phase, learn_phase, run_update,
}

-- How an update ends: the device is in ACTIVATE exactly when a component has been updated and the
-- update succeeds.
abbrev pub Activates : Fwu × ℕ → Type 0
Activates (t, rc) =
    is_activate t.fd_state ≡ (t.is_component_available_for_update && (rc == pldm_success))

do_activate_firmware-Kept :
    (lib : Libpldm) (n : ℕ) (s : Fwu) → Kept s (do_activate_firmware lib n s).0
unfolding do_activate_firmware
do_activate_firmware-Kept lib n s = ground arith

activation_phase-Activates :
    (lib : Libpldm) (s : Fwu) (rc : ℕ)
    → is_activate s.fd_state ≡ false
    → Activates (activation_phase lib (s, rc))
unfolding activation_phase process_activate_firmware
activation_phase-Activates lib s rc h =
    ground (arith, do_activate_firmware-Kept lib 1 (record s { link = release_reserved s.link }))

finish_update-Activates :
    (lib : Libpldm) (s : Fwu) (rc : ℕ)
    → is_transfer s.fd_state ≡ true
    → Activates (finish_update lib (s, rc))
unfolding finish_update
finish_update-Activates lib s rc h = ground (
  arith,
  process_send_meta_data-Kept lib s,
  activation_phase-Activates lib s rc,
  activation_phase-Activates lib (process_send_meta_data lib s).0 (process_send_meta_data lib s).1,
)

components_phase-Activates :
    (lib : Libpldm) (img : PldmImg) (s : Fwu)
    → is_activate s.fd_state ≡ false
    → Activates (components_phase lib img s)
unfolding components_phase
components_phase-Activates lib img s h = ground (
  arith,
  process_pass_component_table-Kept lib img s,
  (run_components-Transfers (ready s).comp_count 0 lib img pldm_success (ready s) refl).state,
  finish_update-Activates lib (looped s).0 (looped s).1,
)
  where
    ready : Fwu → Fwu
    ready t = record (process_pass_component_table lib img t).0 { fd_state = fd_ready_xfer }

    looped : Fwu → Fwu × ℕ
    looped t = run_components (ready t).comp_count 0 lib img pldm_success (ready t)

learn_phase-Activates :
    (lib : Libpldm) (img : PldmImg) (s : Fwu)
    → is_activate s.fd_state ≡ false
    → Activates (learn_phase lib img s)
unfolding learn_phase
learn_phase-Activates lib img s h = ground (
  arith,
  process_send_package_data-Kept lib img (reserved s),
  process_get_device_meta_data-Kept lib (package_sent s),
  components_phase-Activates lib img (process_get_device_meta_data lib (package_sent s)).0,
)
  where
    reserved : Fwu → Fwu
    reserved t =
        let l = suspend t.link in
        record t {
          link =
              activate_reserve_bandwidth
                (record l { reserve_eid_timeout = get_reserve_eid_timeout img });
        }

    package_sent : Fwu → Fwu
    package_sent t = (process_send_package_data lib img (reserved t)).0

-- Whatever the package, the device's answers and the messages that arrive, an update that is not
-- started on a device in ACTIVATE ends with the device in ACTIVATE exactly when it succeeds and some
-- component is available for update.
pub run_update-Activates :
    (lib : Libpldm) (img : PldmImg) (s : Fwu)
    → is_activate s.fd_state ≡ false
    → Activates (run_update lib img s)
unfolding run_update
run_update-Activates lib img s h = ground (
  arith,
  process_request_update-Kept lib img (record s { comp_count = img.total_comp_count }),
  learn_phase-Activates lib img
      (record (requested s).0 { update_mode = true; fd_state = fd_learn_components }) refl,
)
  where
    requested : Fwu → Fwu × ℕ
    requested t = process_request_update lib img (record t { comp_count = img.total_comp_count })
