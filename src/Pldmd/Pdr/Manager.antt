-- ===== src/Pldmd/Pdr/Manager.antt =====
-- pldmd/src/pdr_manager.cpp, class PDRManager: the PDRs of sensors, effecters and FRU record sets, and
-- pdrManagerInit, which puts all parts together.
pub mod States
pub mod Outcome
pub mod Ready
use pmci.Prelude.{
  ℕ, zero, suc, ◌+◌, Bool, true, false, not, List, [], ◌∷◌, Option, none, some, Bytes, length,
  get_or, take, drop, ltb, leb, ◌==◌, if◌then◌else◌,
}
use pmci.Prelude.Map.{Map, find, emplace}
use pmci.Pldmd.PackageImage.Components.{u16_at}
use pmci.Pldmd.Transport.Bus.{Bus}
use pmci.Pldmd.Base.Tables.{codes_from}
use pmci.Pldmd.Pdr.Association.{
  Entity, EntityNode, Association, parse_entity_association, create_entity_association_tree,
}
use pmci.Pldmd.Pdr.Names.{
  EntityMap, find_entity, Named, names, failed, endless, entity_at, parse_entity_aux_names_pdr,
  parse_aux_names_pdr,
}
use pmci.Pldmd.Pdr.Hierarchy.{
  get_entity_association_paths, populate_system_hierarchy, create_sensor_obj_path,
  create_effecter_obj_path,
}
use pmci.Pldmd.Pdr.Transfer.{RepositoryInfo, get_pdr_repository_info}
use pmci.Pldmd.Pdr.Repository.{NumericPdr, PdrLib, Repository, construct_pdr_repo}

pub record PossibleStates : Type 0 where
  pub state_set_id : ℕ
  pub possible_state_set_values : List ℕ

pub record Manager (R : Type 0) : Type 0 where
  pub repository : Repository R
  pub entity_aux_names : EntityMap
  pub entity_association_nodes : List Association
  pub entity_association_tree : Option EntityNode
  pub system_hierarchy : EntityMap
  pub sensor_aux_names : Map Bytes
  pub effecter_aux_names : Map Bytes
  pub numeric_sensor_pdr : Map NumericPdr
  pub state_sensor_pdr : Map PossibleStates
  pub sensor_intf : Map Bytes
  pub numeric_effecter_pdr : Map NumericPdr
  pub state_effecter_pdr : Map PossibleStates
  pub effecter_intf : Map Bytes
  pub fru_record_set_intf : Map Bytes

-- The values whose bits are set, of at most 32 bytes.
unfoldable pub possible_values : ℕ → Bytes → List ℕ
possible_values possible_states_size states =
    codes_from 0 (take (if ltb possible_states_size 32 then possible_states_size else 32) states)

-- The record of a state sensor or effecter, whose possible states start at `at`: the set's id, the
-- number of bytes, and the bytes. A record that is too short for them gives nothing.
unfoldable pub possible_states : ℕ → Bytes → Option PossibleStates
unfolding possible_values
possible_states at pdr_data =
    let possible_states_size = get_or pdr_data (at + 2) 0 in
    if ltb (length pdr_data) (at + 4)
    then none
    else if ltb (length pdr_data) (at + 3 + possible_states_size)
    then none
    else some (record {
      state_set_id = u16_at at pdr_data;
      possible_state_set_values = possible_values possible_states_size (drop (at + 3) pdr_data);
    })

abbrev pub emplace_path : ℕ → Option Bytes → Map Bytes → Map Bytes
emplace_path id none m = m
emplace_path id (some path) m = emplace id path m

abbrev flag : ℕ → Bool
flag n = not (n == 0)

module _ {R : Type 0} (lib : PdrLib R) (tid : ℕ) where
  -- The object of a sensor is made after its PDR is kept.
  unfoldable pub expose_sensor : ℕ → Entity → Bool → Manager R → Manager R
  expose_sensor id e has_aux m =
      let (sensor_names, path) =
        create_sensor_obj_path tid m.system_hierarchy e id has_aux m.sensor_aux_names in
      record m { sensor_aux_names = sensor_names; sensor_intf = emplace_path id path m.sensor_intf }

  unfoldable pub expose_effecter : ℕ → Entity → Bool → Manager R → Manager R
  expose_effecter id e has_aux m =
      let (effecter_names, path) =
        create_effecter_obj_path tid m.system_hierarchy e id has_aux m.effecter_aux_names in
      record m {
        effecter_aux_names = effecter_names;
        effecter_intf = emplace_path id path m.effecter_intf;
      }

  abbrev keep_numeric_sensor : Option NumericPdr → Manager R → Manager R
  keep_numeric_sensor none m = m
  keep_numeric_sensor (some pdr) m =
      expose_sensor pdr.id pdr.entity pdr.has_aux_names
        (record m { numeric_sensor_pdr = emplace pdr.id pdr m.numeric_sensor_pdr })

  unfoldable pub parse_numeric_sensor_pdr : Bytes → Manager R → Manager R
  unfolding expose_sensor
  parse_numeric_sensor_pdr pdr_data m = keep_numeric_sensor (lib.parse_numeric_sensor pdr_data) m

  abbrev keep_state_sensor : Bytes → Option PossibleStates → Manager R → Manager R
  keep_state_sensor pdr_data none m = m
  keep_state_sensor pdr_data (some states) m =
      let id = u16_at 12 pdr_data in
      expose_sensor id (entity_at 14 pdr_data) (flag (get_or pdr_data 21 0))
        (record m { state_sensor_pdr = emplace id states m.state_sensor_pdr })

  unfoldable pub parse_state_sensor_pdr : Bytes → Manager R → Manager R
  unfolding expose_sensor
  parse_state_sensor_pdr pdr_data m = keep_state_sensor pdr_data (possible_states 23 pdr_data) m

  -- The PDR of a numeric effecter is kept only if its entity has an object.
  abbrev keep_numeric_effecter : Option NumericPdr → Manager R → Manager R
  keep_numeric_effecter none m = m
  keep_numeric_effecter (some pdr) m =
      let m' = expose_effecter pdr.id pdr.entity pdr.has_aux_names m in
      elim (find_entity pdr.entity m.system_hierarchy) [
        | none ↦ m'
        | some path ↦ record m' { numeric_effecter_pdr = emplace pdr.id pdr m.numeric_effecter_pdr }
      ]

  unfoldable pub parse_numeric_effecter_pdr : Bytes → Manager R → Manager R
  unfolding expose_effecter
  parse_numeric_effecter_pdr pdr_data m =
      keep_numeric_effecter (lib.parse_numeric_effecter pdr_data) m

  abbrev keep_state_effecter : Bytes → Option PossibleStates → Manager R → Manager R
  keep_state_effecter pdr_data none m = m
  keep_state_effecter pdr_data (some states) m =
      let id = u16_at 12 pdr_data in
      expose_effecter id (entity_at 14 pdr_data) (flag (get_or pdr_data 23 0))
        (record m { state_effecter_pdr = emplace id states m.state_effecter_pdr })

  unfoldable pub parse_state_effecter_pdr : Bytes → Manager R → Manager R
  unfolding expose_effecter
  parse_state_effecter_pdr pdr_data m = keep_state_effecter pdr_data (possible_states 25 pdr_data) m

  unfoldable pub parse_fru_record_set_pdr : Bytes → Manager R → Manager R
  parse_fru_record_set_pdr pdr_data m =
      if length pdr_data == 20
      then record m {
        fru_record_set_intf =
            emplace_path (u16_at 12 pdr_data)
              (find_entity (entity_at 14 pdr_data) m.system_hierarchy) m.fru_record_set_intf;
      }
      else m

  -- parsePDR: all records of a type.
  abbrev pub for_all : {A : Type 0} → (Bytes → A → A) → List Bytes → A → A
  for_all f [] m = m
  for_all f (r ∷ rs) m = for_all f rs (f r m)

  unfoldable pub parse_all : ℕ → (Bytes → Manager R → Manager R) → Manager R → Manager R
  parse_all pdr_type f m = for_all f (lib.of_type pdr_type m.repository.pdr_repo) m

-- How pdrManagerInit ends: with true, with false, or not at all, where a name makes it throw, read
-- outside a record, or loop for ever.
pub data Init (R : Type 0) : Type 0 where
  ready : Manager R → Init R
  not_ready : Manager R → Init R
  stopped : Init R

abbrev pub names_or_none : Named → Option EntityMap
names_or_none (names m) = some m
names_or_none (failed e) = none
names_or_none endless = none

unfoldable pub parse_entity_names : ℕ → List Bytes → EntityMap → Option EntityMap
parse_entity_names fuel [] m = some m
parse_entity_names fuel (r ∷ rs) m = elim (names_or_none (parse_entity_aux_names_pdr fuel r m)) [
  | none ↦ none
  | some m' ↦ parse_entity_names fuel rs m'
]

unfoldable pub parse_aux_names : ℕ → List Bytes → Map Bytes → Option (Map Bytes)
parse_aux_names tid [] m = some m
parse_aux_names tid (r ∷ rs) m = elim (parse_aux_names_pdr tid r m) [
  | none ↦ none
  | some m' ↦ parse_aux_names tid rs m'
]

-- The root of the new tree, if there is one.
abbrev pub or_old : Option EntityNode → Option EntityNode → Option EntityNode
or_old none old = old
or_old (some n) old = some n

module _ {R : Type 0} (lib : PdrLib R) (tid : ℕ) where
  -- The associations of all records, and the tree if there are any.
  abbrev pub association_nodes : Manager R → List Association
  association_nodes m =
      for_all lib tid (λ r. parse_entity_association (lib.extract_entities r))
        (lib.of_type 15 m.repository.pdr_repo) m.entity_association_nodes

  unfoldable pub attach_nodes : List Association → Manager R → Manager R
  attach_nodes [] m = m
  attach_nodes (a ∷ bs) m =
      let (root, left) = create_entity_association_tree m.repository.container_id (a ∷ bs) in
      record m {
        entity_association_nodes = left;
        entity_association_tree = or_old root m.entity_association_tree;
      }

  unfoldable pub associate : Manager R → Manager R
  unfolding attach_nodes
  associate m = attach_nodes (association_nodes m) m

  unfoldable pub populate : Manager R → Manager R
  populate m = record m {
    system_hierarchy =
        populate_system_hierarchy tid m.entity_aux_names
          (get_entity_association_paths m.entity_association_tree) m.system_hierarchy;
  }

  unfoldable pub parse_objects : Manager R → Manager R
  parse_objects m = parse_all lib tid 20 (parse_fru_record_set_pdr lib tid) (
      parse_all lib tid 11 (parse_state_effecter_pdr lib tid) (
        parse_all lib tid 9 (parse_numeric_effecter_pdr lib tid) (
          parse_all lib tid 4 (parse_state_sensor_pdr lib tid)
            (parse_all lib tid 2 (parse_numeric_sensor_pdr lib tid) m))))

  -- What is parsed of a repository, the names of sensors and effecters before their objects.
  unfoldable pub parse_repository : ℕ → Manager R → Init R
  parse_repository fuel m =
      let records = λ (t : ℕ). lib.of_type t m.repository.pdr_repo in
      elim (parse_entity_names fuel (records 16) m.entity_aux_names) [
        | none ↦ stopped
        | some entity_names ↦
            let m' = populate (associate (record m { entity_aux_names = entity_names })) in
            elim (parse_aux_names tid (records 6) m'.sensor_aux_names) [
              | none ↦ stopped
              | some sensor_names ↦ elim (parse_aux_names tid (records 13) m'.effecter_aux_names) [
                | none ↦ stopped
                | some effecter_names ↦ ready (
                    parse_objects (record m' {
                      sensor_aux_names = sensor_names;
                      effecter_aux_names = effecter_names;
                    }))
              ]
            ]
      ]

  abbrev pub parse_constructed : ℕ → Manager R → Repository R × Bool → Init R
  parse_constructed fuel m (s, false) = not_ready (record m { repository = s })
  parse_constructed fuel m (s, true) = parse_repository fuel (record m { repository = s })

  unfoldable pub pdr_manager_init : ℕ → Manager R → Bus → Bus × Init R
  unfolding parse_repository
  pdr_manager_init fuel m b =
      let r = get_pdr_repository_info lib.codec tid b in
      elim r.1 [
        | none ↦ (r.0, not_ready m)
        | some info ↦
            let c =
              construct_pdr_repo lib tid info (record (m.repository) { pdr_repo = lib.init }) r.0 in
            (c.0, parse_constructed fuel m c.1)
      ]

-- The constructor leaves the container id uninitialised and the repository null.
abbrev pub new_manager : {R : Type 0} → Repository R → Manager R
new_manager s = record {
  repository = s;
  entity_aux_names = [];
  entity_association_nodes = [];
  entity_association_tree = none;
  system_hierarchy = [];
  sensor_aux_names = [];
  effecter_aux_names = [];
  numeric_sensor_pdr = [];
  state_sensor_pdr = [];
  sensor_intf = [];
  numeric_effecter_pdr = [];
  state_effecter_pdr = [];
  effecter_intf = [];
  fru_record_set_intf = [];
}
