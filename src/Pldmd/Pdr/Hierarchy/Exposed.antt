-- ===== src/Pldmd/Pdr/Hierarchy/Exposed.antt =====
-- pldmd/src/pdr_manager.cpp: the entities that get an object are those of the association tree.
use pmci.Prelude.{
  ℕ, ◌≡◌, ◌↔◌, refl, ap, ◌∙◌, sym, Bool, true, false, ◌||◌, List, [], ◌∷◌, ◌++◌, Option, none, some,
  Bytes, arith, Bool-cases, Option-cases, List-cases, inl, inr, if◌then◌else◌,
}
use pmci.Prelude.Map.{Map}
use pmci.Pldmd.Pdr.Association.{
  Entity, same_entity, ContainedEntities, nil, cons, EntityNode, Association,
  create_entity_association_tree,
}
use pmci.Pldmd.Pdr.Association.Search.{has_entity, stands_in}
use pmci.Pldmd.Pdr.Association.Insertion.{among, among-append}
use pmci.Pldmd.Pdr.Association.Reachable.{
  Reachable, first_with, tree-Reachable, tree-none, none-Reachable,
}
use pmci.Pldmd.Pdr.Names.{EntityMap, find_entity, emplace_entity}
use pmci.Pldmd.Pdr.Names.Shared.{find-emplace_entity}
use pmci.Pldmd.Pdr.Hierarchy.{
  or_leaf, paths_within, get_entity_association_paths, entity_name, device_object, populate_path,
  populate_system_hierarchy, create_sensor_obj_path, create_effecter_obj_path, path_below,
  known_name, known_effecter,
}

abbrev pub is_some : Option Bytes → Bool
is_some none = false
is_some (some v) = true

abbrev on_paths : Entity → List (List Entity) → Bool
on_paths x [] = false
on_paths x (p ∷ ps) = among x p || on_paths x ps

on_paths-append :
    (x : Entity) (ps qs : List (List Entity))
    → on_paths x (ps ++ qs) ≡ (on_paths x ps || on_paths x qs)
on_paths-append x [] qs = refl
on_paths-append x (p ∷ ps) qs = ground (arith, on_paths-append x ps qs)

abbrev is_nil : ContainedEntities → Bool
is_nil nil = true
is_nil (cons e c rest) = false

on_paths-or_leaf :
    (x : Entity) (p : List Entity) (c : ContainedEntities) (ps : List (List Entity))
    → on_paths x ps ≡ (if is_nil c then false else among x p || has_entity x c)
    → on_paths x (or_leaf p c ps) ≡ (among x p || has_entity x c)
unfolding has_entity
on_paths-or_leaf x p nil ps h = refl
on_paths-or_leaf x p (cons e c rest) ps h = h

-- The children's paths hold what stands among the children, and the path of their parent.
on_paths-within :
    (x : Entity) (path : List Entity) (c : ContainedEntities)
    → on_paths x (paths_within path c)
      ≡ (if is_nil c then false else among x path || has_entity x c)
unfolding paths_within has_entity
on_paths-within x path nil = refl
on_paths-within x path (cons e c nil) =
    let p = path ++ (e ∷ []) in
    let l = on_paths-or_leaf x p c (paths_within p c) (on_paths-within x p c) in
    on_paths-append x (or_leaf p c (paths_within p c)) []
    ∙ ground (arith, l, among-append x path (e ∷ []))
on_paths-within x path (cons e c (cons f d rest)) =
    let p = path ++ (e ∷ []) in
    let l = on_paths-or_leaf x p c (paths_within p c) (on_paths-within x p c) in
    let j = on_paths-within x path (cons f d rest) in
    on_paths-append x (or_leaf p c (paths_within p c)) (paths_within path (cons f d rest))
    ∙ ground (arith, l, j, among-append x path (e ∷ []))

on_paths-tree :
    (x : Entity) (n : EntityNode)
    → on_paths x (get_entity_association_paths (some n)) ≡ stands_in x n
unfolding get_entity_association_paths stands_in
on_paths-tree x n =
    let p = n.container_entity ∷ [] in
    let c = n.contained_entities in
    on_paths-or_leaf x p c (paths_within p c) (on_paths-within x p c) ∙ ground arith

exposed : Entity → EntityMap → Bool
exposed x m = is_some (find_entity x m)

exposed-emplace :
    (x e : Entity) (v : Bytes) (m : EntityMap)
    → exposed x (emplace_entity e v m) ≡ (exposed x m || same_entity e x)
unfolding exposed
exposed-emplace x e v m = elim (Bool-cases (same_entity e x)) [
  | inl h ↦ rw (find-emplace_entity e x v m) (rw h (ground (arith, h)))
  | inr h ↦ rw (find-emplace_entity e x v m) (rw h (ground (arith, h)))
]

exposed-path :
    (x : Entity) (aux : EntityMap) (obj : Bytes) (path : List Entity) (m : EntityMap)
    → exposed x (populate_path aux obj path m) ≡ (exposed x m || among x path)
unfolding populate_path
exposed-path x aux obj [] m = ground arith
exposed-path x aux obj (e ∷ path) m =
    let child = obj ++ (47 ∷ entity_name aux e) in
    exposed-path x aux child path (emplace_entity e child m)
    ∙ ground (arith, exposed-emplace x e child m)

exposed-hierarchy :
    (x : Entity) (tid : ℕ) (aux : EntityMap) (paths : List (List Entity)) (m : EntityMap)
    → exposed x (populate_system_hierarchy tid aux paths m) ≡ (exposed x m || on_paths x paths)
unfolding populate_system_hierarchy
exposed-hierarchy x tid aux [] m = ground arith
exposed-hierarchy x tid aux (path ∷ paths) m =
    let m' = populate_path aux (device_object tid) path m in
    exposed-hierarchy x tid aux paths m'
    ∙ ground (arith, exposed-path x aux (device_object tid) path m)

is_some-path_below : (o : Option Bytes) (name : Bytes) → is_some (path_below o name) ≡ is_some o
is_some-path_below none name = refl
is_some-path_below (some v) name = refl

sensor_path-exposed :
    (tid : ℕ) (m : EntityMap) (x : Entity) (id : ℕ) (has_aux : Bool) (names : Map Bytes)
    → is_some (create_sensor_obj_path tid m x id has_aux names).1 ≡ exposed x m
unfolding create_sensor_obj_path exposed
sensor_path-exposed tid m x id has_aux names = elim (List-cases (known_name has_aux id names)) [
  | inl h ↦ rw (h, create_sensor_obj_path) (is_some-path_below (find_entity x m) _)
  | inr (y, ys, h) ↦ rw (h, create_sensor_obj_path) (is_some-path_below (find_entity x m) (y ∷ ys))
]

effecter_path-exposed :
    (tid : ℕ) (m : EntityMap) (x : Entity) (id : ℕ) (has_aux : Bool) (names : Map Bytes)
    → is_some (create_effecter_obj_path tid m x id has_aux names).1 ≡ exposed x m
unfolding create_effecter_obj_path exposed
effecter_path-exposed tid m x id has_aux names =
    elim (Option-cases (known_effecter has_aux id names)) [
      | inl h ↦ rw (h, create_effecter_obj_path) (is_some-path_below (find_entity x m) _)
      | inr (v, h) ↦ rw (h, create_effecter_obj_path) (is_some-path_below (find_entity x m) v)
    ]

-- The object paths of the entities of a terminus with a container id and associations.
abbrev pub hierarchy_of : ℕ → EntityMap → ℕ → List Association → EntityMap
hierarchy_of tid aux container_id bs =
    populate_system_hierarchy tid aux
      (get_entity_association_paths (create_entity_association_tree container_id bs).0) []

on_paths-none : (x : Entity) → on_paths x (get_entity_association_paths none) ≡ false
unfolding get_entity_association_paths
on_paths-none x = refl

exposed_paths :
    (tid container_id : ℕ) (aux : EntityMap) (bs : List Association) (x : Entity)
    → is_some (find_entity x (hierarchy_of tid aux container_id bs))
      ≡ on_paths x (get_entity_association_paths (create_entity_association_tree container_id bs).0)
unfolding exposed find_entity
exposed_paths tid container_id aux bs x =
    exposed-hierarchy x tid aux
      (get_entity_association_paths (create_entity_association_tree container_id bs).0) []

pub hierarchy-Reachable :
    (tid container_id : ℕ) (aux : EntityMap) (bs : List Association) (x : Entity)
    → (is_some (find_entity x (hierarchy_of tid aux container_id bs)) ≡ true)
      ↔ Reachable container_id bs x
hierarchy-Reachable tid container_id aux bs x =
    let t = exposed_paths tid container_id aux bs x in
    elim (Option-cases (first_with container_id bs)) [
      | inl n ↦
          let e =
            ap (λ o. on_paths x (get_entity_association_paths o)) (tree-none container_id bs n) in
          (λ k. cc (t ∙ e ∙ on_paths-none x), λ r. absurd (none-Reachable container_id bs n r))
      | inr (a, h) ↦
          let (n, e, f, g) = tree-Reachable container_id bs a h in
          let s = t ∙ ap (λ o. on_paths x (get_entity_association_paths o)) e ∙ on_paths-tree x n in
          (λ k. (f x).0 (sym s ∙ k), λ k. s ∙ (f x).1 k)
    ]

-- A sensor gets an object exactly if the associations lead to its entity from those with the container
-- id of the terminus, and so does an effecter, whatever the auxiliary names.
pub object_path-Reachable :
    (tid container_id : ℕ) (aux : EntityMap) (bs : List Association) (x : Entity) (id : ℕ)
    (has_aux : Bool) (names : Map Bytes)
    → let m = hierarchy_of tid aux container_id bs in
      ((is_some (create_sensor_obj_path tid m x id has_aux names).1 ≡ true)
        ↔ Reachable container_id bs x)
      × ((is_some (create_effecter_obj_path tid m x id has_aux names).1 ≡ true)
          ↔ Reachable container_id bs x)
unfolding exposed
object_path-Reachable tid container_id aux bs x id has_aux names =
    let m = hierarchy_of tid aux container_id bs in
    let (f, g) = hierarchy-Reachable tid container_id aux bs x in
    let s = sensor_path-exposed tid m x id has_aux names in
    let r = effecter_path-exposed tid m x id has_aux names in
    ((λ k. f (sym s ∙ k), λ k. s ∙ g k), (λ k. f (sym r ∙ k), λ k. r ∙ g k))
