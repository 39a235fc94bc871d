-- ===== src/Pldmd/Pdr/Association.antt =====
-- pldmd/src/pdr_manager.cpp: entity association PDRs and the tree that they make. A node that is
-- put into the tree is owned by one vector at a time, so the tree is a value; the node that a search
-- finds is known by its position.
pub mod Search
pub mod Insertion
pub mod Attach
pub mod Reachable
use pmci.Prelude.{
  ℕ, zero, suc, ◌+◌, Bool, true, false, ◌&&◌, List, [], ◌∷◌, ◌++◌, Option, none, some, length, ltb,
  ◌==◌, if◌then◌else◌,
}

pub record Entity : Type 0 where
  pub entity_type : ℕ
  pub entity_instance_num : ℕ
  pub entity_container_id : ℕ

unfoldable pub same_entity : Entity → Entity → Bool
same_entity a b =
    (a.entity_type == b.entity_type)
    && (a.entity_instance_num == b.entity_instance_num)
    && (a.entity_container_id == b.entity_container_id)

-- A vector of nodes: the entity of the first, what it contains, and the other nodes.
pub data ContainedEntities : Type 0 where
  nil : ContainedEntities
  cons : Entity → ContainedEntities → ContainedEntities → ContainedEntities

pub record EntityNode : Type 0 where
  pub container_entity : Entity
  pub contained_entities : ContainedEntities

-- A node made from a PDR: what it contains are leaves.
pub record Association : Type 0 where
  pub container : Entity
  pub contained : List Entity

-- The entities of the PDR, the container first.
unfoldable pub get_entity_association : List Entity → Option Association
get_entity_association [] = none
get_entity_association (e ∷ es) = some (record { container = e; contained = es })

-- An association joins the one with the same container, or is put behind the others.
unfoldable pub merge_or_add : Association → List Association → List Association
merge_or_add a [] = a ∷ []
merge_or_add a (b ∷ bs) =
    if same_entity b.container a.container
    then record b { contained = b.contained ++ a.contained } ∷ bs
    else b ∷ merge_or_add a bs

unfoldable pub parse_entity_association : List Entity → List Association → List Association
parse_entity_association es bs = elim (get_entity_association es) [
  | none ↦ bs
  | some a ↦ merge_or_add a bs
]

-- A position: which of the contained entities to go to, level by level.
abbrev pub Position : Type 0
Position = List ℕ

abbrev pub Place : Type 0
Place = Position × EntityNode

unfoldable pub places_from : Position → ℕ → ContainedEntities → List Place
places_from p i nil = []
places_from p i (cons e c rest) =
    (p ++ (i ∷ []), record { container_entity = e; contained_entities = c })
    ∷ places_from p (i + 1) rest

-- The queue, with the rounds that are left.
unfoldable pub search_queue : ℕ → Entity → List Place → Option Position
search_queue zero e q = none
search_queue (suc fuel) e [] = none
search_queue (suc fuel) e ((p, n) ∷ q) =
    let rest = search_queue fuel e (q ++ places_from p 0 n.contained_entities) in
    if same_entity n.container_entity e then some p else rest

abbrev pub size : ContainedEntities → ℕ
size nil = 0
size (cons e c rest) = size c + size rest + 1

-- A round for each node, and one for the empty queue.
unfoldable pub get_contained_node : EntityNode → Entity → Option Position
get_contained_node root e = search_queue (size root.contained_entities + 2) e (([], root) ∷ [])

unfoldable pub push_leaf : Entity → ContainedEntities → ContainedEntities
push_leaf x nil = cons x nil nil
push_leaf x (cons e c rest) = cons e c (push_leaf x rest)

abbrev pub is_none : Option Position → Bool
is_none none = true
is_none (some p) = false

-- An entity is appended, unless it is in the node's tree already.
unfoldable pub insert_one : Entity → EntityNode → EntityNode
insert_one x n =
    if is_none (get_contained_node n x)
    then record n { contained_entities = push_leaf x n.contained_entities }
    else n

unfoldable pub insert_to_association_tree : List Entity → EntityNode → EntityNode
insert_to_association_tree [] n = n
insert_to_association_tree (x ∷ xs) n = insert_to_association_tree xs (insert_one x n)

-- The change of the node at a position.
unfoldable pub change_within : ℕ → Position → List Entity → ContainedEntities → ContainedEntities
change_within i p xs nil = nil
change_within (suc i) p xs (cons e c rest) = cons e c (change_within i p xs rest)
change_within zero [] xs (cons e c rest) =
    let n =
      insert_to_association_tree xs (record { container_entity = e; contained_entities = c }) in
    cons n.container_entity n.contained_entities rest
change_within zero (j ∷ p) xs (cons e c rest) = cons e (change_within j p xs c) rest

unfoldable pub change_at : Position → List Entity → EntityNode → EntityNode
change_at [] xs n = insert_to_association_tree xs n
change_at (i ∷ p) xs n = record n { contained_entities = change_within i p xs n.contained_entities }

abbrev pub root_or_new : Option EntityNode → Entity → EntityNode
root_or_new none e = record { container_entity = e; contained_entities = nil }
root_or_new (some n) e = n

-- The associations whose container has the container id make the root; the others are left.
unfoldable pub extract_root_node :
    ℕ → Option EntityNode → List Association → Option EntityNode × List Association
extract_root_node id root [] = (root, [])
extract_root_node id root (a ∷ bs) =
    let n = insert_to_association_tree a.contained (root_or_new root a.container) in
    let (r, left) = extract_root_node id root bs in
    let taken = extract_root_node id (some n) bs in
    if a.container.entity_container_id == id then taken else (r, a ∷ left)

-- `remove_if` over the associations: one whose container is in the tree goes in.
unfoldable pub attach_round : EntityNode → List Association → EntityNode × List Association
attach_round root [] = (root, [])
attach_round root (a ∷ bs) = elim (get_contained_node root a.container) [
  | none ↦ let (r, left) = attach_round root bs in (r, a ∷ left)
  | some p ↦ attach_round (change_at p a.contained root) bs
]

-- The rounds, until none is left or a round takes none.
unfoldable pub attach_rounds : ℕ → EntityNode → List Association → EntityNode × List Association
attach_rounds zero root bs = (root, bs)
attach_rounds (suc fuel) root [] = (root, [])
attach_rounds (suc fuel) root (a ∷ bs) =
    let r = attach_round root (a ∷ bs) in
    let next = attach_rounds fuel r.0 r.1 in if ltb (length r.1) (length (a ∷ bs)) then next else r

abbrev pub attach_all : Option EntityNode → List Association → Option EntityNode × List Association
attach_all none bs = (none, bs)
attach_all (some root) bs = let r = attach_rounds (length bs) root bs in (some r.0, r.1)

-- The tree, and the associations that could not be attached.
unfoldable pub create_entity_association_tree :
    ℕ → List Association → Option EntityNode × List Association
create_entity_association_tree id bs = let r = extract_root_node id none bs in attach_all r.0 r.1
