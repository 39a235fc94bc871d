-- ===== src/Pldmd/FwUpdate/Run/Phases.antt =====
-- Where the update of its components in pldmd/src/firmware_update.cpp leaves the device.
use pmci.Prelude.{ℕ, zero, suc, ◌+◌, ◌≡◌, ◌∙◌, ◌⊎◌, Bool, true, false, arith}
use pmci.Pldmd.PackageImage.Image.{PldmImg}
use pmci.Pldmd.FwUpdate.Codec.{
  Libpldm, FdState, fd_ready_xfer, fd_download, fd_verify, fd_apply, is_ready_xfer,
  cmd_verify_complete, cmd_request_firmware_data, pldm_success,
}
use pmci.Pldmd.FwUpdate.Link.{start_timer}
use pmci.Pldmd.FwUpdate.State.{Fwu, comp_update_progress}
use pmci.Pldmd.FwUpdate.Kept.{Kept, Kept-refl, Kept-trans}
use pmci.Pldmd.FwUpdate.Components.{
  process_update_component, do_cancel_update_component, do_cancel_component,
}
use pmci.Pldmd.FwUpdate.Download.{process_request_firmware_data}
use pmci.Pldmd.FwUpdate.Completions.{process_verify_complete, process_transfer_complete}
use pmci.Pldmd.FwUpdate.Run.{
  cancel_component, await_report, apply_phase, verify_phase, transfer_phase, download_phase,
  run_component, run_components,
}
use pmci.Pldmd.FwUpdate.Run.Steps.{
  process_request_firmware_data-Kept, process_update_component-Kept, comp_update_progress-Kept,
}

-- The states in which components are transferred.
abbrev pub is_transfer : FdState → Bool
is_transfer fd_ready_xfer = true
is_transfer fd_download = true
is_transfer fd_verify = true
is_transfer fd_apply = true
is_transfer _ = false

-- The device stays in these states, the agent in update mode, and no updated component is forgotten.
pub record Transfers (s t : Fwu) : Type 0 where
  pub state : is_transfer t.fd_state ≡ true
  pub mode : t.update_mode ≡ s.update_mode
  pub available :
      (s.is_component_available_for_update ≡ false) ⊎ (t.is_component_available_for_update ≡ true)

do_cancel_component-Kept : (lib : Libpldm) (s : Fwu) → Kept s (do_cancel_component lib s).0
unfolding do_cancel_component
do_cancel_component-Kept lib s = ground arith

cancel_component-Transfers :
    (lib : Libpldm) (rc : ℕ) (s : Fwu)
    → is_transfer s.fd_state ≡ true
    → Transfers s (cancel_component lib rc s).0
unfolding cancel_component do_cancel_update_component
cancel_component-Transfers lib rc s h = ground (arith, do_cancel_component-Kept lib s)

apply_phase-Transfers : (lib : Libpldm) (rc : ℕ) (s : Fwu) → Transfers s (apply_phase lib rc s).0
unfolding apply_phase await_report
apply_phase-Transfers lib rc s = ground arith

verify_phase-Transfers : (lib : Libpldm) (rc : ℕ) (s : Fwu) → Transfers s (verify_phase lib rc s).0
unfolding verify_phase await_report
verify_phase-Transfers lib rc s = ground (
  arith,
  cancel_component-Transfers lib
      (process_verify_complete lib (reported s).link.fd_req 0 (reported s)).1 (answered s),
  apply_phase-Transfers lib pldm_success (answered s),
)
  where
    reported : Fwu → Fwu
    reported t =
        let w = await_report fd_verify cmd_verify_complete t in
        record w { link = record (w.link) { fd_req_matched = false } }

    answered : Fwu → Fwu
    answered t = record (reported t) {
      link = (process_verify_complete lib (reported t).link.fd_req 0 (reported t)).0;
    }

Transfers-trans : {s t u : Fwu} → Transfers s t → Transfers t u → Transfers s u
Transfers-trans a b = record { state = b.state; mode = b.mode ∙ a.mode; available = ground arith }

transfer_phase-Transfers :
    (lib : Libpldm) (s : Fwu) → is_transfer s.fd_state ≡ true → Transfers s (transfer_phase lib s).0
unfolding transfer_phase
transfer_phase-Transfers lib s h = ground (
  arith,
  comp_update_progress-Kept s,
  cancel_component-Transfers lib (process_transfer_complete lib t.link.fd_req 0 t).1 answered,
  verify_phase-Transfers lib pldm_success answered,
)
  where
    t : Fwu
    t = comp_update_progress s

    answered : Fwu
    answered = record t { link = (process_transfer_complete lib t.link.fd_req 0 t).0 }

download_phase-Transfers :
    (lib : Libpldm) (img : PldmImg) (s : Fwu) → Transfers s (download_phase lib img s).0
unfolding download_phase
download_phase-Transfers lib img s = ground (
  arith,
  process_request_firmware_data-Kept lib img t,
  cancel_component-Transfers lib (process_request_firmware_data lib img t).1
      (process_request_firmware_data lib img t).0,
  transfer_phase-Transfers lib (process_request_firmware_data lib img t).0,
)
  where
    t : Fwu
    t = record s {
      fd_state = fd_download;
      link = record (s.link) { expected_cmd = cmd_request_firmware_data };
    }

run_component-Transfers :
    (lib : Libpldm) (img : PldmImg) (count rc : ℕ) (s : Fwu)
    → is_transfer s.fd_state ≡ true
    → Transfers s (run_component lib img count rc s).0
unfolding run_component
run_component-Transfers lib img count rc s h = ground (
  arith,
  comp_update_progress-Kept t,
  process_update_component-Kept lib img 0 t,
  comp_update_progress-Kept (process_update_component lib img 0 t).0,
  download_phase-Transfers lib img (process_update_component lib img 0 t).0,
)
  where
    t : Fwu
    t = record s { current_comp = count }

-- From a state in which components are transferred, the loop over the components ends in one of these
-- states, with the update mode as it was and no updated component forgotten.
pub run_components-Transfers :
    (n count : ℕ) (lib : Libpldm) (img : PldmImg) (rc : ℕ) (s : Fwu)
    → is_transfer s.fd_state ≡ true
    → Transfers s (run_components n count lib img rc s).0
unfolding run_components
run_components-Transfers zero count lib img rc s h = ground arith
run_components-Transfers (suc n) count lib img rc s h =
    let first = run_component-Transfers lib img count rc s h in
    let r = run_component lib img count rc s in
    Transfers-trans first (run_components-Transfers n (count + 1) lib img r.1 r.0 first.state)

-- Outside READY XFER a component's update starts nothing.
stuck_component :
    (lib : Libpldm) (img : PldmImg) (count rc : ℕ) (s : Fwu)
    → is_ready_xfer s.fd_state ≡ false
    → Kept s (run_component lib img count rc s).0
unfolding run_component process_update_component
stuck_component lib img count rc s h =
    ground (arith, comp_update_progress-Kept (record s { current_comp = count }))

stuck_components :
    (n count : ℕ) (lib : Libpldm) (img : PldmImg) (rc : ℕ) (s : Fwu)
    → is_ready_xfer s.fd_state ≡ false
    → Kept s (run_components n count lib img rc s).0
unfolding run_components
stuck_components zero count lib img rc s h = Kept-refl s
stuck_components (suc n) count lib img rc s h =
    let first = stuck_component lib img count rc s h in
    let r = run_component lib img count rc s in
    Kept-trans first (stuck_components n (count + 1) lib img r.1 r.0 (rw first.state h))

missed_verify :
    (lib : Libpldm) (rc : ℕ) (s : Fwu)
    → (start_timer (record (s.link) { expected_cmd = cmd_verify_complete })).fd_req_matched ≡ false
    → ((verify_phase lib rc s).0.fd_state ≡ fd_verify)
      × ((verify_phase lib rc s).1 ≡ rc)
      × ((verify_phase lib rc s).0.is_component_available_for_update
          ≡ s.is_component_available_for_update)
unfolding verify_phase await_report
missed_verify lib rc s h = (rw h, rw h, rw h)

-- The bug: where the VerifyComplete of a component does not come in time, its phase ends with the
-- return code it began with and nothing is cancelled. Whatever components follow, and whatever the
-- device does, the state is VERIFY to the end, and no component becomes available for update any
-- more.
pub missed_verify-stuck :
    (n count : ℕ) (lib : Libpldm) (img : PldmImg) (rc : ℕ) (s : Fwu)
    → (start_timer (record (s.link) { expected_cmd = cmd_verify_complete })).fd_req_matched ≡ false
    → let (s', rc') = verify_phase lib rc s in
      let t = (run_components n count lib img rc' s').0 in
      (rc' ≡ rc)
      × (t.fd_state ≡ fd_verify)
      × (t.is_component_available_for_update ≡ s.is_component_available_for_update)
missed_verify-stuck n count lib img rc s h =
    let m = missed_verify lib rc s h in
    let r = verify_phase lib rc s in
    let k = stuck_components n count lib img r.1 r.0 (rw m.0) in
    (m.1, k.state ∙ m.0, k.available ∙ m.2)
