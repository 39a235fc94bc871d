-- ===== src/Pldmd/Base/Discovery.antt =====
-- pldmd/src/base.cpp: baseInit and deleteDeviceBaseInfo, which give a terminus its TID and take it
-- back. One discovery runs after the other; the D-Bus objects of a terminus are left out.
pub mod Outcome
pub mod Return
use pmci.Prelude.{
  ℕ, Bool, true, false, not, ◌&&◌, List, [], ◌∷◌, Option, none, some, Bytes, ◌==◌, if◌then◌else◌,
}
use pmci.Prelude.Map.{Map, find, erase, assign, emplace}
use pmci.Pldmd.TidMapper.{get_mapped_tid, add_entry, remove_entry}
use pmci.Pldmd.Transport.Bus.{Bus, or_zero}
use pmci.Pldmd.Base.TidPool.{
  FifoTidPool, tid_pool, get_free_tid, push_front_unused_tid, push_back_freed_tid,
}
use pmci.Pldmd.Base.Requests.{
  BaseCodec, get_supported_pldm_types, get_tid, set_tid, get_terminus_uid_of,
}
use pmci.Pldmd.Base.Tables.{
  CommandSupportTable, create_version_support_table, create_command_support_table, is_supported,
}

-- `uuid_mapping` leads from the number of a UUID to a TID; `reclaim_timers` are the TIDs whose timer
-- runs; `discovery_data_table` holds the commands that a terminus supports.
pub record Base : Type 0 where
  pub bus : Bus
  pub pool : FifoTidPool
  pub uuid_mapping : Map ℕ
  pub reclaim_timers : List ℕ
  pub discovery_data_table : Map CommandSupportTable

abbrev pub pldm_base : ℕ
pldm_base = 0

abbrev pub pldm_set_tid : ℕ
pldm_set_tid = 1

abbrev pub pldm_platform : ℕ
pldm_platform = 2

abbrev pub pldm_get_terminus_uid : ℕ
pldm_get_terminus_uid = 3

abbrev pub max_tid_pool_size : ℕ
max_tid_pool_size = 254

-- The entry that `find_if` finds for a TID.
unfoldable pub uuid_of : ℕ → Map ℕ → Option ℕ
uuid_of tid [] = none
uuid_of tid ((uuid, t) ∷ m) = if t == tid then some uuid else uuid_of tid m

abbrev pub has_timer : ℕ → List ℕ → Bool
has_timer tid [] = false
has_timer tid (t ∷ ts) = if tid == t then true else has_timer tid ts

unfoldable pub is_terminus_unregistered : ℕ → Base → Bool
is_terminus_unregistered tid s = has_timer tid s.reclaim_timers

unfoldable pub drop_timer : ℕ → List ℕ → List ℕ
drop_timer tid [] = []
drop_timer tid (t ∷ ts) = if tid == t then drop_timer tid ts else t ∷ drop_timer tid ts

unfoldable pub cancel_tid_reclaim_timer_if_exists : ℕ → Base → Base
cancel_tid_reclaim_timer_if_exists tid s = record s {
  reclaim_timers = drop_timer tid s.reclaim_timers;
}

-- The timer starts; `emplace` keeps one that runs.
unfoldable pub release_tid_after_reclaim_interval : ℕ → Base → Base
release_tid_after_reclaim_interval tid s = record s {
  reclaim_timers =
      if has_timer tid s.reclaim_timers then s.reclaim_timers else tid ∷ s.reclaim_timers;
}

unfoldable pub forget_uuid : Option ℕ → Map ℕ → Map ℕ
forget_uuid none m = m
forget_uuid (some uuid) m = erase uuid m

-- The timer of the TID runs out. When it is cancelled instead, nothing is done.
unfoldable pub reclaim_expired : ℕ → Base → Base
reclaim_expired tid s = record s {
  uuid_mapping = forget_uuid (uuid_of tid s.uuid_mapping) s.uuid_mapping;
  pool = push_back_freed_tid tid s.pool;
  reclaim_timers = drop_timer tid s.reclaim_timers;
}

unfoldable pub unused_again : ℕ → Base → Base × Option ℕ
unused_again tid s = (record s { pool = push_front_unused_tid tid s.pool }, none)

unfoldable pub map_uuid : Option ℕ → ℕ → Map ℕ → Map ℕ
map_uuid none tid m = m
map_uuid (some uuid) tid m = emplace uuid tid m

-- The mapper's answer decides.
unfoldable pub enter : ℕ → Option ℕ → CommandSupportTable → ℕ → Base → Base × Option ℕ
enter eid uuid table tid s =
    let (m, added) = add_entry tid eid s.bus.tid_mapper in
    if added
    then (
      record s {
        bus = record (s.bus) { tid_mapper = m };
        uuid_mapping = map_uuid uuid tid s.uuid_mapping;
        discovery_data_table = assign tid table s.discovery_data_table;
      },
      some tid,
    )
    else unused_again tid s

-- SetTID is sent where it is supported.
unfoldable pub assign_tid :
    BaseCodec → ℕ → Option ℕ → CommandSupportTable → ℕ → Base → Base × Option ℕ
assign_tid lib eid uuid table tid s =
    let (b, accepted) = set_tid lib eid tid s.bus in
    if not (is_supported table pldm_base pldm_set_tid)
    then enter eid uuid table tid s
    else if accepted
    then enter eid uuid table tid (record s { bus = b })
    else unused_again tid (record s { bus = b })

unfoldable pub assign_new :
    BaseCodec
    → ℕ
    → Option ℕ
    → CommandSupportTable
    → Option (ℕ × FifoTidPool)
    → Base
    → Base × Option ℕ
assign_new lib eid uuid table none s = (s, none)
assign_new lib eid uuid table (some (tid, pool)) s =
    assign_tid lib eid uuid table tid (record s { pool = pool })

abbrev is_some : Option ℕ → Bool
is_some none = false
is_some (some n) = true

-- `prev_tid` is the TID that the UUID is mapped to, `assigned` the TID that the terminus has.
unfoldable pub register :
    BaseCodec → ℕ → Option ℕ → Option ℕ → ℕ → CommandSupportTable → Base → Base × Option ℕ
unfolding assign_new
register lib eid uuid prev_tid assigned table s =
    let tid = or_zero prev_tid in
    if is_some prev_tid && not (assigned == 0) && not (is_terminus_unregistered tid s)
    then (s, none)
    else if tid == 0
    then assign_new lib eid uuid table (get_free_tid s.pool) s
    else assign_tid lib eid uuid table tid (cancel_tid_reclaim_timer_if_exists tid s)

abbrev tid_of_uuid : Option ℕ → Map ℕ → Option ℕ
tid_of_uuid none m = none
tid_of_uuid (some uuid) m = find uuid m

uuid_if : Bool → BaseCodec → ℕ → Bus → Bus × Option ℕ
uuid_if false lib eid b = (b, none)
uuid_if true lib eid b = get_terminus_uid_of lib eid b

with_assigned : BaseCodec → ℕ → CommandSupportTable → Bus × Option ℕ → Base → Base × Option ℕ
unfolding uuid_if
with_assigned lib eid table (b, none) s = (record s { bus = b }, none)
with_assigned lib eid table (b, some assigned) s =
    let supported = is_supported table pldm_platform pldm_get_terminus_uid in
    let (b', uuid) = uuid_if supported lib eid b in
    register lib eid uuid (tid_of_uuid uuid s.uuid_mapping) assigned table (record s { bus = b' })

with_types : BaseCodec → ℕ → Bus × Option Bytes → Base → Base × Option ℕ
unfolding with_assigned
with_types lib eid (b, none) s = (record s { bus = b }, none)
with_types lib eid (b, some types) s =
    let (b1, versions) = create_version_support_table lib eid types b in
    let (b2, table) = create_command_support_table lib eid versions b1 in
    with_assigned lib eid table (get_tid lib eid b2) s

-- The TID, or nothing where the source returns false.
unfoldable pub base_init : BaseCodec → ℕ → Base → Base × Option ℕ
unfolding with_types
base_init lib eid s = elim (get_mapped_tid eid s.bus.tid_mapper) [
  | none ↦ with_types lib eid (get_supported_pldm_types lib eid s.bus) s
  | some tid ↦ (s, none)
]

unfoldable pub release_mapped : Option ℕ → ℕ → Base → Base
release_mapped none tid s = s
release_mapped (some uuid) tid s = release_tid_after_reclaim_interval tid s

abbrev has_data : Option CommandSupportTable → Bool
has_data none = false
has_data (some table) = true

unfoldable pub delete_device_base_info : ℕ → Base → Base × Bool
unfolding release_mapped
delete_device_base_info tid s =
    let s' = release_mapped (uuid_of tid s.uuid_mapping) tid s in
    (
      record s' {
        bus = record (s'.bus) { tid_mapper = remove_entry tid s'.bus.tid_mapper };
        discovery_data_table = erase tid s'.discovery_data_table;
      },
      has_data (find tid s'.discovery_data_table),
    )
