-- ===== src/Pldmd/Fru/Store.antt =====
-- pldmd/src/fru.cpp: what is kept of each terminus' FRU data, and the commands that change it. No
-- other command runs while one waits. The IPMI form of the data (fru_support.cpp) is another object,
-- which these only notify.
pub mod Stored
pub mod Consistent
use pmci.Prelude.{
  ℕ, ◌+◌, Bool, true, false, List, [], ◌∷◌, ◌++◌, Option, none, some, Bytes, length, ltb, ◌==◌,
  if◌then◌else◌,
}
use pmci.Prelude.Map.{Map, find, erase, assign}
use pmci.Pldmd.Transport.Bus.{Bus, create_instance_id, validate_pldm_resp_decode}
use pmci.Pldmd.Pdr.Transfer.{exchange}
use pmci.Pldmd.Fru.Table.{
  FruProperties, Parsed, properties, refused, overrun, wild_read, parse_table,
}
use pmci.Pldmd.Fru.Transfer.{FruMetadata, FruCodec, get_fru_record_table_metadata_cmd, fetch_table}

-- The maps by TID, and the objects on D-Bus, each given as the TID in its path.
pub record FruStore : Type 0 where
  pub terminus_fru_metadata : Map FruMetadata
  pub terminus_fru_properties : Map FruProperties
  pub fru_data : Map Bytes
  pub fru_interface : List ℕ

unfoldable pub get_properties : ℕ → FruStore → Option FruProperties
get_properties tid s = find tid s.terminus_fru_properties

abbrev data_if : {A : Type 0} → Option A → Option Bytes → Option Bytes
data_if none table = none
data_if (some a) table = table

unfoldable pub get_pldm_fru_record_data : ℕ → FruStore → Option Bytes
get_pldm_fru_record_data tid s = data_if (find tid s.terminus_fru_metadata) (find tid s.fru_data)

-- How a run of the commands ends; `undefined` is a parser that reads outside the table.
pub data RunResult : Type 0 where
  succeeded : RunResult
  failed : RunResult
  undefined : RunResult

unfoldable pub add_fru_object_to_dbus : ℕ → FruStore → FruStore
add_fru_object_to_dbus tid s = record s { fru_interface = s.fru_interface ++ (tid ∷ []) }

-- The end of getFRURecordTableCmd, and that of runGetFRUCommands.
unfoldable pub finish_run : ℕ → FruMetadata → Parsed → FruStore → FruStore × RunResult
unfolding add_fru_object_to_dbus
finish_run tid metadata (properties props) s =
    let s' = add_fru_object_to_dbus tid s in
    (
      record s' {
        terminus_fru_metadata = assign tid metadata s'.terminus_fru_metadata;
        terminus_fru_properties = assign tid props s'.terminus_fru_properties;
      },
      succeeded,
    )
finish_run tid metadata refused s = (s, failed)
finish_run tid metadata overrun s = (s, undefined)
finish_run tid metadata wild_read s = (s, undefined)

-- The data takes the old data's place before it is parsed.
unfoldable pub keep_table : ℕ → FruMetadata → Option Bytes → FruStore → FruStore × RunResult
unfolding finish_run
keep_table tid metadata none s = (s, failed)
keep_table tid metadata (some table) s =
    finish_run tid metadata (parse_table table)
      (record s { fru_data = assign tid table s.fru_data })

-- What follows the metadata.
unfoldable pub run_with :
    FruCodec → ℕ → FruStore → Bus → Option FruMetadata → Bus × FruStore × RunResult
unfolding keep_table
run_with lib tid s b none = (b, s, failed)
run_with lib tid s b (some metadata) =
    let t = fetch_table lib tid metadata b in
    let k = keep_table tid metadata t.1 s in (t.0, k.0, k.1)

unfoldable pub run_get_fru_commands : FruCodec → ℕ → Bus → FruStore → Bus × FruStore × RunResult
unfolding run_with
run_get_fru_commands lib tid b s =
    let r = get_fru_record_table_metadata_cmd lib tid b in run_with lib tid s r.0 r.1

abbrev pub remove_first : ℕ → List ℕ → List ℕ
remove_first tid [] = []
remove_first tid (x ∷ xs) = if x == tid then xs else x ∷ remove_first tid xs

abbrev pub is_some : {A : Type 0} → Option A → Bool
is_some none = false
is_some (some a) = true

-- The maps are emptied in turn, until one has no entry.
unfoldable pub delete_fru_device : ℕ → FruStore → FruStore × Bool
delete_fru_device tid s =
    let s1 = record s { terminus_fru_metadata = erase tid s.terminus_fru_metadata } in
    let s2 = record s1 { terminus_fru_properties = erase tid s.terminus_fru_properties } in
    if is_some (find tid s.terminus_fru_metadata)
    then if is_some (find tid s.terminus_fru_properties)
      then if is_some (find tid s.fru_data)
        then (
          record s2 {
            fru_data = erase tid s.fru_data;
            fru_interface = remove_first tid s.fru_interface;
          },
          true,
        )
        else (s2, true)
      else (s1, true)
    else (s, false)

abbrev pub fits : Bytes → Option FruMetadata → Bool
fits set_fru_data none = true
fits set_fru_data (some metadata) =
    if ltb metadata.fru_table_maximum_size (length set_fru_data) then false else true

abbrev pub accepted : FruCodec → Option Bytes → Bool
accepted lib none = false
accepted lib (some resp) =
    let (rc, cc, next) = lib.decode_set resp in validate_pldm_resp_decode rc cc

-- The old data is dropped, if there is any.
unfoldable pub cleared : ℕ → FruStore → FruStore × Bool
cleared tid s =
    if is_some (find tid s.terminus_fru_metadata) then delete_fru_device tid s else (s, true)

unfoldable pub requery : FruCodec → ℕ → Bus → FruStore × Bool → Bus × FruStore × RunResult
requery lib tid b (s, true) = run_get_fru_commands lib tid b s
requery lib tid b (s, false) = (b, s, failed)

-- The table is sent in one part, with handle 1 and the flag of a start and end.
unfoldable pub set_fru_record_table_cmd :
    FruCodec → ℕ → Bytes → Bus → FruStore → Bus × FruStore × RunResult
set_fru_record_table_cmd lib tid set_fru_data b s =
    let (b', instance_id) = create_instance_id tid b in
    let r = exchange tid (lib.encode_set_req instance_id 1 5 set_fru_data) b' in
    if fits set_fru_data (find tid s.terminus_fru_metadata)
    then if accepted lib r.1 then requery lib tid r.0 (cleared tid s) else (r.0, s, failed)
    else (b, s, failed)
