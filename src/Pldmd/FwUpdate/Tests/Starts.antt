-- ===== src/Pldmd/FwUpdate/Tests/Starts.antt =====
-- How the updates of pldmd/src/firmware_update.cpp start and end, on the concrete package and device.
use pmci.Prelude.{◌≡◌, refl, true, false, [], ◌∷◌, none}
use pmci.Prelude.Map.{find, erase}
use pmci.Pldmd.PackageImage.Image.{PldmImg}
use pmci.Pldmd.FwUpdate.Start.{Daemon, opened, spawned, start_fw_update, delete_fw_device}
use pmci.Pldmd.FwUpdate.Start.Status.{run_codes, all_succeed}
use pmci.Pldmd.FwUpdate.Start.Outcome.{IsIdle, AllUnknown, spawned-IsIdle}
use pmci.Pldmd.FwUpdate.Tests.{toy, image, bus, reports}

-- The daemon, with one device that can be updated.
abbrev daemon : Daemon
daemon = record {
  img = none;
  update_mode = false;
  terminus_fwu_properties = (1, tt) ∷ (2, tt) ∷ [];
  fwu_iface = (1, tt) ∷ (2, tt) ∷ [];
  inventory_paths = (1, 0x61 ∷ []) ∷ (2, 0x62 ∷ []) ∷ [];
  bus = bus;
  happenings = reports;
  stream_good = true;
  memory = (0, 0);
  sensor_polling = true;
  activation = [];
}

IsIdle-daemon : IsIdle daemon
IsIdle-daemon = record { no_image = refl; no_update = refl; polling = refl }

abbrev after_update : Daemon
after_update = spawned toy image (start_fw_update (opened image true) daemon).0

spawned-IsIdle_example :
    IsIdle after_update
    × (after_update.activation
        ≡ all_succeed (
            run_codes image.matched_termini toy image
              (start_fw_update (opened image true) daemon).0)
          ∷ [])
spawned-IsIdle_example = spawned-IsIdle toy image daemon IsIdle-daemon

-- A package for a terminus that is not there.
abbrev stray_image : PldmImg
stray_image = record image { matched_termini = (0, 7) ∷ [] }

unknown : AllUnknown stray_image.matched_termini daemon
unfolding find
unknown = (refl, tt)

abbrev deleted : Daemon
deleted = record daemon {
  terminus_fwu_properties = (1, tt) ∷ [];
  fwu_iface = (1, tt) ∷ [];
  inventory_paths = (1, 0x61 ∷ []) ∷ [];
}

deleting : delete_fw_device 2 daemon ≡ (deleted, true)
unfolding delete_fw_device find erase
deleting = refl
