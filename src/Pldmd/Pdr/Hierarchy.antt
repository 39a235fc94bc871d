-- ===== src/Pldmd/Pdr/Hierarchy.antt =====
-- pldmd/src/pdr_manager.cpp: the paths of the association tree, and the objects that stand for the
-- entities, the sensors and the effecters.
pub mod Exposed
use pmci.Prelude.{
  ℕ, Bool, true, false, List, [], ◌∷◌, ◌++◌, Option, none, some, Bytes, ◌==◌, if◌then◌else◌, length,
}
use pmci.Prelude.Map.{Map, find, assign}
use pmci.Pldmd.Pdr.Association.{Entity, ContainedEntities, nil, cons, EntityNode}
use pmci.Pldmd.Pdr.Names.{text, to_string, EntityMap, find_entity, emplace_entity}

-- A node without contained entities is a leaf, and its path is kept.
abbrev pub or_leaf : List Entity → ContainedEntities → List (List Entity) → List (List Entity)
or_leaf path nil below = path ∷ []
or_leaf path (cons e c rest) below = below

-- The children of a node, whose path is given.
unfoldable pub paths_within : List Entity → ContainedEntities → List (List Entity)
paths_within path nil = []
paths_within path (cons e c rest) =
    or_leaf (path ++ (e ∷ [])) c (paths_within (path ++ (e ∷ [])) c) ++ paths_within path rest

unfoldable pub get_entity_association_paths : Option EntityNode → List (List Entity)
unfolding paths_within
get_entity_association_paths none = []
get_entity_association_paths (some n) =
    let path = n.container_entity ∷ [] in
    or_leaf path n.contained_entities (paths_within path n.contained_entities)

-- The name of an entity on D-Bus.
unfoldable pub entity_name : EntityMap → Entity → Bytes
entity_name aux e = elim (find_entity e aux) [
  | some name ↦ name
  | none ↦
      to_string e.entity_type
      ++ (text "_"
          ++ (to_string e.entity_instance_num ++ (text "_" ++ to_string e.entity_container_id)))
]

unfoldable pub device_object : ℕ → Bytes
device_object tid = text "/xyz/openbmc_project/system/" ++ to_string tid

-- The rest of a path, with the object path so far.
unfoldable pub populate_path : EntityMap → Bytes → List Entity → EntityMap → EntityMap
populate_path aux obj_path [] hierarchy = hierarchy
populate_path aux obj_path (e ∷ path) hierarchy =
    let child = obj_path ++ (text "/" ++ entity_name aux e) in
    populate_path aux child path (emplace_entity e child hierarchy)

-- The system hierarchy: the object path of each entity.
unfoldable pub populate_system_hierarchy :
    ℕ → EntityMap → List (List Entity) → EntityMap → EntityMap
populate_system_hierarchy tid aux [] hierarchy = hierarchy
populate_system_hierarchy tid aux (path ∷ paths) hierarchy =
    populate_system_hierarchy tid aux paths (populate_path aux (device_object tid) path hierarchy)

-- The names of sensors and of effecters are kept in the same way; `kind` is the word that stands in
-- a name that is made up.
unfoldable pub create_name : Bytes → ℕ → ℕ → Bytes
create_name kind tid id =
    text "PLDM_" ++ (kind ++ (text "_" ++ (to_string id ++ (text "_" ++ to_string tid))))

-- The name for a sensor: the auxiliary one if the PDR announces it and it is there and not empty.
abbrev pub known_name : Bool → ℕ → Map Bytes → Bytes
known_name false id names = []
known_name true id names = elim (find id names) [ none ↦ [] | some name ↦ name ]

abbrev pub path_below : Option Bytes → Bytes → Option Bytes
path_below none name = none
path_below (some entity_path) name = some (entity_path ++ (text "/" ++ name))

unfoldable pub create_sensor_obj_path :
    ℕ → EntityMap → Entity → ℕ → Bool → Map Bytes → Map Bytes × Option Bytes
unfolding create_name
create_sensor_obj_path tid hierarchy e id has_aux names =
    let at = find_entity e hierarchy in
    let made = create_name (text "Sensor") tid id in
    elim (known_name has_aux id names) [
      | [] ↦ (assign id made names, path_below at made)
      | x ∷ xs ↦ (names, path_below at (x ∷ xs))
    ]

abbrev pub known_effecter : Bool → ℕ → Map Bytes → Option Bytes
known_effecter false id names = none
known_effecter true id names = find id names

unfoldable pub create_effecter_obj_path :
    ℕ → EntityMap → Entity → ℕ → Bool → Map Bytes → Map Bytes × Option Bytes
unfolding create_name
create_effecter_obj_path tid hierarchy e id has_aux names =
    let at = find_entity e hierarchy in
    let made = create_name (text "Effecter") tid id in
    elim (known_effecter has_aux id names) [
      | none ↦ (assign id made names, path_below at made)
      | some name ↦ (names, path_below at name)
    ]
