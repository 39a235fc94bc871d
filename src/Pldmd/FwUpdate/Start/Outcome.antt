-- ===== src/Pldmd/FwUpdate/Start/Outcome.antt =====
-- What is left of an update in pldmd/src/firmware_update.cpp, and what is reported of it.
use pmci.Prelude.{ℕ, ◌≡◌, refl, ◌≢◌, Bool, true, false, List, [], ◌∷◌, Option, none, some, arith}
use pmci.Prelude.Map.{find, find-erase}
use pmci.Pldmd.PackageImage.Image.{PldmImg}
use pmci.Pldmd.FwUpdate.Codec.{Libpldm}
use pmci.Pldmd.FwUpdate.Start.Status.{run_codes, all_succeed, init_update-status}
use pmci.Pldmd.FwUpdate.Start.{
  Daemon, set_matched_fd_descriptors, finished, update_terminus, update_termini, report,
  init_update, Opened, not_read, opened, spawned, start_opened, start_fw_update, delete_fw_device,
}

-- The daemon between updates: no package is held, none is under way, and sensors are polled.
pub record IsIdle (d : Daemon) : Type 0 where
  pub no_image : d.img ≡ none
  pub no_update : d.update_mode ≡ false
  pub polling : d.sensor_polling ≡ true

-- What the loop over the termini leaves as it was.
record Quiet (d e : Daemon) : Type 0 where
  pub update : d.update_mode ≡ false → e.update_mode ≡ false
  pub polling : d.sensor_polling ≡ true → e.sensor_polling ≡ true

update_terminus-Quiet :
    (lib : Libpldm) (img : PldmImg) (t : ℕ × ℕ) (r : Daemon × Bool)
    → Quiet r.0 (update_terminus lib img t r).0
unfolding update_terminus finished
update_terminus-Quiet lib img t r = ground arith

update_termini-Quiet :
    (ts : List (ℕ × ℕ)) (lib : Libpldm) (img : PldmImg) (r : Daemon × Bool)
    → Quiet r.0 (update_termini ts lib img r).0
unfolding update_termini
update_termini-Quiet [] lib img r = record { update = λ h. h; polling = λ h. h }
update_termini-Quiet (t ∷ ts) lib img r =
    let a = update_terminus-Quiet lib img t r in
    let b = update_termini-Quiet ts lib img (update_terminus lib img t r) in
    record { update = λ h. b.update (a.update h); polling = λ h. b.polling (a.polling h) }

started :
    (img : PldmImg) (good : Bool) (d : Daemon)
    → d.img ≡ none
    → start_fw_update (opened img good) d ≡ (record d { img = some img }, good, some img)
unfolding start_fw_update start_opened
started img good d h = rw h refl

-- What the coroutine does when no update is under way.
spawned_free :
    (lib : Libpldm) (img : PldmImg) (d : Daemon)
    → d.update_mode ≡ false
    → spawned lib img d
      ≡ record (report (update_termini img.matched_termini lib img (d, true))) { img = none }
unfolding spawned init_update
spawned_free lib img d h = ground (arith, h)

-- Whatever the package and whatever the devices do, the coroutine that an accepted StartFWUpdate
-- spawns from the idle daemon leaves it idle again: no package is held, updateMode is still false, and
-- the sensors, whose polling each update pauses, are polled. One more outcome is reported: Active if
-- every update that is run, one for each matched terminus that is registered when its turn comes,
-- returns success, and Failed otherwise.
pub spawned-IsIdle :
    (lib : Libpldm) (img : PldmImg) (d : Daemon)
    → IsIdle d
    → let e = (start_fw_update (opened img true) d).0 in
      IsIdle (spawned lib img e)
      × ((spawned lib img e).activation
          ≡ all_succeed (run_codes img.matched_termini lib img e) ∷ d.activation)
unfolding report
spawned-IsIdle lib img d i =
    let e = record d { img = some img } in
    let q = update_termini-Quiet img.matched_termini lib img (e, true) in
    let a : (spawned lib img e).activation
        ≡ all_succeed (run_codes img.matched_termini lib img e) ∷ d.activation =
      unfold spawned in init_update-status lib img e i.no_update in
    let p : IsIdle (spawned lib img e) = rw (spawned_free lib img e i.no_update) (record {
      no_image = refl;
      no_update = q.update i.no_update;
      polling = q.polling i.polling;
    }) in
    rw (started img true d i.no_image) (p, a)

-- No terminus of the list is registered as a firmware device.
abbrev pub AllUnknown : List (ℕ × ℕ) → Daemon → Type 0
AllUnknown [] d = Unit {0}
AllUnknown ((device_id_record, tid) ∷ ts) d =
    (find tid d.terminus_fwu_properties ≡ none) × AllUnknown ts d

unknown_termini :
    (ts : List (ℕ × ℕ)) (lib : Libpldm) (img : PldmImg) (d : Daemon) (status : Bool)
    → AllUnknown ts d
    → update_termini ts lib img (d, status) ≡ (d, status)
unfolding update_termini update_terminus set_matched_fd_descriptors
unknown_termini [] lib img d status u = refl
unknown_termini ((r, tid) ∷ ts) lib img d status u =
    rw u.0 (unknown_termini ts lib img d status u.1)

AllUnknown-with :
    (o : Option PldmImg) (ts : List (ℕ × ℕ)) (d : Daemon)
    → AllUnknown ts d
    → AllUnknown ts (record d { img = o })
AllUnknown-with o [] d u = tt
AllUnknown-with o ((r, tid) ∷ ts) d u = (u.0, AllUnknown-with o ts d u.1)

-- The bug: a package whose header is bad is updated from all the same. StartFWUpdate refuses it, yet
-- its coroutine is spawned, and if no terminus it matches is registered, Active is reported and nothing
-- was sent to any device.
pub refused_update-Active :
    (lib : Libpldm) (img : PldmImg) (d : Daemon)
    → IsIdle d
    → AllUnknown img.matched_termini d
    → let (e, accepted, taken) = start_fw_update (opened img false) d in
      (accepted ≡ false)
      × (taken ≡ some img)
      × ((spawned lib img e).activation ≡ true ∷ d.activation)
      × ((spawned lib img e).bus ≡ d.bus)
unfolding report
refused_update-Active lib img d i u =
    let e = record d { img = some img } in
    rw
      (
        started img false d i.no_image,
        spawned_free lib img e i.no_update,
        unknown_termini img.matched_termini lib img e true
            (AllUnknown-with (some img) img.matched_termini d u),
      )
      (refl, refl, refl, refl)

-- The return codes of a series of calls of StartFWUpdate, and the daemon after them.
abbrev pub starts : List Opened → Daemon → Daemon × List Bool
starts [] d = (d, [])
starts (o ∷ os) d =
    let (e, accepted, taken) = start_fw_update o d in
    let (f, codes) = starts os e in (f, accepted ∷ codes)

abbrev pub refusals : List Opened → List Bool
refusals [] = []
refusals (o ∷ os) = false ∷ refusals os

start_refused :
    (o : Opened) (d : Daemon) (img : PldmImg)
    → d.img ≡ some img
    → start_fw_update o d ≡ (d, false, none)
unfolding start_fw_update
start_refused o d img h = ground (arith, h)

starts_refused :
    (os : List Opened) (d : Daemon) (img : PldmImg)
    → d.img ≡ some img
    → starts os d ≡ (d, refusals os)
starts_refused [] d img h = refl
starts_refused (o ∷ os) d img h = rw (start_refused o d img h, starts_refused os d img h) refl

-- The bug: a package whose header throws while it is read stays. Every later StartFWUpdate is refused,
-- whatever its package, and changes nothing.
pub thrown_header-blocks :
    (img : PldmImg) (d : Daemon) (os : List Opened)
    → d.img ≡ none
    → let (e, accepted, taken) = start_fw_update (not_read img) d in
      (accepted ≡ false) × (taken ≡ none) × (starts os e ≡ (e, refusals os))
unfolding start_fw_update start_opened
thrown_header-blocks img d os h =
    rw h (refl, refl, starts_refused os (record d { img = some img }) img refl)

-- A device that is deleted with success is not registered any more, and a second deletion fails
-- and changes nothing. Whether another device is registered, and its inventory path, stay.
pub delete_fw_device-once :
    (d e : Daemon) (tid other : ℕ)
    → delete_fw_device tid d ≡ (e, true)
    → other ≢ tid
    → (set_matched_fd_descriptors tid e ≡ false)
      × (delete_fw_device tid e ≡ (e, false))
      × (set_matched_fd_descriptors other e ≡ set_matched_fd_descriptors other d)
      × (find other e.inventory_paths ≡ find other d.inventory_paths)
unfolding delete_fw_device set_matched_fd_descriptors
delete_fw_device-once d e tid other h ne = ground (
  arith,
  find-erase tid tid d.terminus_fwu_properties,
  find-erase tid other d.terminus_fwu_properties,
  find-erase tid other d.inventory_paths,
)
