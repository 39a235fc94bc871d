-- ===== src/Pldmd/FwUpdate/Run/Steps.antt =====
-- Which steps of an update in pldmd/src/firmware_update.cpp leave the device's state as it was.
use pmci.Prelude.{ℕ, zero, suc, ◌+◌, ◌%◌, ◌^◌, refl, Option, none, some, Bytes, arith}
use pmci.Pldmd.PackageImage.Image.{PldmImg}
use pmci.Pldmd.FwUpdate.Codec.{Libpldm, PassComponentTableReq}
use pmci.Pldmd.FwUpdate.Link.{suspend}
use pmci.Pldmd.FwUpdate.State.{
  Fwu, prepare_request_update_command, prepare_pass_component_request, comp_update_progress,
}
use pmci.Pldmd.FwUpdate.Kept.{Kept, Kept-refl}
use pmci.Pldmd.FwUpdate.Commands.Tries.{do_request_update-Kept}
use pmci.Pldmd.FwUpdate.Commands.{
  process_request_update, process_send_package_data, process_get_device_meta_data,
  process_send_meta_data, do_get_device_meta_data, meta_data_rounds,
}
use pmci.Pldmd.FwUpdate.Components.{
  process_pass_component_table, process_update_component, do_pass_component_table, passed,
  pass_rounds,
}
use pmci.Pldmd.FwUpdate.Download.{process_request_firmware_data}

prepare_request_update-Kept :
    (img : PldmImg) (s : Fwu) → Kept s (prepare_request_update_command img s).0
unfolding prepare_request_update_command
prepare_request_update-Kept img s = ground arith

pub process_request_update-Kept :
    (lib : Libpldm) (img : PldmImg) (s : Fwu) → Kept s (process_request_update lib img s).0
unfolding process_request_update
process_request_update-Kept lib img s = ground (
  arith,
  prepare_request_update-Kept img s,
  do_request_update-Kept lib (prepare_request_update_command img s).0,
)

pub process_send_package_data-Kept :
    (lib : Libpldm) (img : PldmImg) (s : Fwu) → Kept s (process_send_package_data lib img s).0
unfolding process_send_package_data
process_send_package_data-Kept lib img s = ground arith

do_get_device_meta_data-Kept :
    (lib : Libpldm) (h f n t : ℕ) (s : Fwu) → Kept s (do_get_device_meta_data lib h f n t s).0
unfolding do_get_device_meta_data
do_get_device_meta_data-Kept lib h f n t s = ground arith

meta_data_rounds-Kept :
    (n : ℕ) (lib : Libpldm) (h f m t : ℕ) (s : Fwu) → Kept s (meta_data_rounds n lib h f m t s).0
unfolding meta_data_rounds
meta_data_rounds-Kept zero lib h f m t s =
    ground (arith, do_get_device_meta_data-Kept lib h f m t s)
meta_data_rounds-Kept (suc n) lib h f m t s =
    let r = do_get_device_meta_data lib h f m t s in
    ground (
      arith,
      do_get_device_meta_data-Kept lib h f m t s,
      meta_data_rounds-Kept n lib r.2 0 r.2 r.3 r.0,
    )

pub process_get_device_meta_data-Kept :
    (lib : Libpldm) (s : Fwu) → Kept s (process_get_device_meta_data lib s).0
unfolding process_get_device_meta_data
process_get_device_meta_data-Kept lib s = ground (arith, meta_data_rounds-Kept 100 lib 0 1 0 1 s)

pub process_send_meta_data-Kept :
    (lib : Libpldm) (s : Fwu) → Kept s (process_send_meta_data lib s).0
unfolding process_send_meta_data
process_send_meta_data-Kept lib s = ground arith

prepare_pass-Kept :
    (img : PldmImg) (n : ℕ) (s : Fwu) → Kept s (prepare_pass_component_request img n s).0
unfolding prepare_pass_component_request
prepare_pass-Kept img n s = ground arith

pub process_request_firmware_data-Kept :
    (lib : Libpldm) (img : PldmImg) (s : Fwu) → Kept s (process_request_firmware_data lib img s).0
unfolding process_request_firmware_data
process_request_firmware_data-Kept lib img s = ground arith

pub process_update_component-Kept :
    (lib : Libpldm) (img : PldmImg) (c : ℕ) (s : Fwu)
    → Kept s (process_update_component lib img c s).0
unfolding process_update_component
process_update_component-Kept lib img c s = ground arith

pub comp_update_progress-Kept : (s : Fwu) → Kept s (comp_update_progress s)
unfolding comp_update_progress
comp_update_progress-Kept s = record { state = refl; mode = refl; available = refl }

passed-Kept :
    (lib : Libpldm) (req : Option (PassComponentTableReq × Bytes)) (s : Fwu)
    → Kept s (passed lib req s).0
unfolding passed do_pass_component_table
passed-Kept lib none s = Kept-refl s
passed-Kept lib (some (table, version)) s = ground arith

pass_rounds-Kept :
    (n count : ℕ) (lib : Libpldm) (img : PldmImg) (accepted : ℕ) (s : Fwu)
    → Kept s (pass_rounds n count lib img accepted s).0
unfolding pass_rounds
pass_rounds-Kept zero count lib img accepted s = Kept-refl s
pass_rounds-Kept (suc n) count lib img accepted s =
    let s1 = record s { current_comp = count } in
    let s2 = (prepare_pass_component_request img count s1).0 in
    let req = (prepare_pass_component_request img count s1).1 in
    let s3 = (passed lib req s2).0 in
    ground (
      arith,
      prepare_pass-Kept img count s1,
      passed-Kept lib req s2,
      pass_rounds-Kept n (count + 1) lib img accepted s1,
      pass_rounds-Kept n (count + 1) lib img accepted s3,
      pass_rounds-Kept n (count + 1) lib img ((accepted + 1) % 2 ^ 8)
          (record s3 { link = suspend s3.link }),
    )

pub process_pass_component_table-Kept :
    (lib : Libpldm) (img : PldmImg) (s : Fwu) → Kept s (process_pass_component_table lib img s).0
unfolding process_pass_component_table
process_pass_component_table-Kept lib img s =
    ground (arith, pass_rounds-Kept s.comp_count 0 lib img 0 s)
