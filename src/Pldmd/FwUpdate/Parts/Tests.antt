-- ===== src/Pldmd/FwUpdate/Parts/Tests.antt =====
-- The parts of package data in pldmd/src/firmware_update.cpp on concrete data.
use pmci.Prelude.{◌≡◌, Bytes, replicate, arith, ◌++◌}
use pmci.Pldmd.FwUpdate.Parts.{calc_max_num_req}
use pmci.Pldmd.FwUpdate.Parts.Cover.{fetch, fetch-all}

abbrev package_data : Bytes
package_data = replicate 32 1 ++ replicate 32 2 ++ replicate 8 3

fetch-all_example : fetch (calc_max_num_req 72) package_data 0 32 ≡ package_data
fetch-all_example = fetch-all package_data (omega arith)
