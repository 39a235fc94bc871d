-- ===== src/Pldmd/FwUpdate/Start/Status.antt =====
-- What initUpdate in pldmd/src/firmware_update.cpp reports of the updates that it runs.
use pmci.Prelude.{
  ℕ, ◌≡◌, refl, ◌∙◌, ap, Bool, true, false, ◌&&◌, List, [], ◌∷◌, arith, ◌==◌, if◌then◌else◌,
}
use pmci.Pldmd.PackageImage.Image.{PldmImg}
use pmci.Pldmd.FwUpdate.Codec.{Libpldm, pldm_success}
use pmci.Pldmd.FwUpdate.Run.{run_update}
use pmci.Pldmd.FwUpdate.Start.{
  Daemon, new_fw_update, set_matched_fd_descriptors, finished, update_terminus, update_termini,
  report, init_update,
}

-- The return codes of the updates that are run, one for each terminus that is registered.
abbrev pub run_codes : List (ℕ × ℕ) → Libpldm → PldmImg → Daemon → List ℕ
run_codes [] lib img d = []
run_codes ((device_id_record, tid) ∷ ts) lib img d =
    let rest = run_codes ts lib img (update_terminus lib img (device_id_record, tid) (d, true)).0 in
    if set_matched_fd_descriptors tid d
    then (run_update lib img (new_fw_update device_id_record tid d)).1 ∷ rest
    else rest

abbrev pub all_succeed : List ℕ → Bool
all_succeed [] = true
all_succeed (rc ∷ rcs) = rc == pldm_success && all_succeed rcs

-- One round: what it leaves does not depend on the status, and the status is kept or becomes false.
update_terminus-status :
    (lib : Libpldm) (img : PldmImg) (r tid : ℕ) (d : Daemon) (status : Bool) (rest : List ℕ)
    → ((update_terminus lib img (r, tid) (d, status)).0
        ≡ (update_terminus lib img (r, tid) (d, true)).0)
      × ((update_terminus lib img (r, tid) (d, status)).1 && all_succeed rest
          ≡ status
            && all_succeed (
                if set_matched_fd_descriptors tid d
                then (run_update lib img (new_fw_update r tid d)).1 ∷ rest
                else rest))
unfolding update_terminus
update_terminus-status lib img r tid d status rest = (ground arith, ground arith)

update_termini-status :
    (ts : List (ℕ × ℕ)) (lib : Libpldm) (img : PldmImg) (d : Daemon) (status : Bool)
    → (update_termini ts lib img (d, status)).1 ≡ status && all_succeed (run_codes ts lib img d)
unfolding update_termini
update_termini-status [] lib img d status = ground arith
update_termini-status ((r, tid) ∷ ts) lib img d status =
    let u = update_terminus lib img (r, tid) (d, status) in
    let (same, now) =
      update_terminus-status lib img r tid d status
        (run_codes ts lib img (update_terminus lib img (r, tid) (d, true)).0) in
    update_termini-status ts lib img u.0 u.1
    ∙ (ap (λ x. u.1 && all_succeed (run_codes ts lib img x)) same ∙ now)

update_termini-activation :
    (ts : List (ℕ × ℕ)) (lib : Libpldm) (img : PldmImg) (r : Daemon × Bool)
    → (update_termini ts lib img r).0.activation ≡ r.0.activation
unfolding update_termini
update_termini-activation [] lib img r = refl
update_termini-activation (t ∷ ts) lib img r =
    let a : (update_terminus lib img t r).0.activation ≡ r.0.activation =
      unfold update_terminus in unfold finished in ground arith in
    update_termini-activation ts lib img (update_terminus lib img t r) ∙ a

-- With no update under way, Active is reported exactly when every update that is run succeeds, which
-- is one for each matched terminus that is registered when its turn comes; otherwise Failed is.
pub init_update-status :
    (lib : Libpldm) (img : PldmImg) (d : Daemon)
    → d.update_mode ≡ false
    → (init_update lib img d).0.activation
      ≡ all_succeed (run_codes img.matched_termini lib img d) ∷ d.activation
unfolding init_update report
init_update-status lib img d h = ground (
  arith,
  update_termini-status img.matched_termini lib img d true,
  update_termini-activation img.matched_termini lib img (d, true),
)
