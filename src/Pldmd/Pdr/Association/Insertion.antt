-- ===== src/Pldmd/Pdr/Association/Insertion.antt =====
-- pldmd/src/pdr_manager.cpp, insertToAssociationTree: what stands in the tree after an insertion.
use pmci.Prelude.{
  ℕ, zero, suc, ◌≡◌, refl, ap, ◌∙◌, sym, Bool, true, false, ◌||◌, List, [], ◌∷◌, ◌++◌, some, arith,
  Bool-cases, inl, inr,
}
use pmci.Pldmd.Pdr.Association.{
  Entity, same_entity, ContainedEntities, nil, cons, EntityNode, Position, get_contained_node,
  is_none, push_leaf, insert_one, insert_to_association_tree, change_within, change_at,
}
use pmci.Pldmd.Pdr.Association.Search.{
  has_entity, stands_in, node_within, node_at, same_entity→eq, contained_node-stands,
}

abbrev pub among : Entity → List Entity → Bool
among x [] = false
among x (y ∷ ys) = same_entity y x || among x ys

pub among-append :
    (x : Entity) (ys zs : List Entity) → among x (ys ++ zs) ≡ (among x ys || among x zs)
among-append x [] zs = refl
among-append x (y ∷ ys) zs = ground (arith, among-append x ys zs)

has-push_leaf :
    (x y : Entity) (c : ContainedEntities)
    → has_entity x (push_leaf y c) ≡ (has_entity x c || same_entity y x)
unfolding has_entity push_leaf
has-push_leaf x y nil = ground arith
has-push_leaf x y (cons e c rest) = ground (arith, has-push_leaf x y rest)

stands_in-insert_one :
    (x y : Entity) (n : EntityNode)
    → stands_in x (insert_one y n) ≡ (stands_in x n || same_entity y x)
unfolding insert_one
stands_in-insert_one x y n = elim (Bool-cases (is_none (get_contained_node n y))) [
  | inl h ↦ rw h (unfold stands_in in ground (arith, has-push_leaf x y n.contained_entities))
  | inr h ↦ rw h (elim (Bool-cases (same_entity y x)) [
    | inl s ↦
        let t : stands_in x n ≡ true =
          ap (λ z. stands_in z n) (sym (same_entity→eq y x s)) ∙ (contained_node-stands n y).0 h in
        ground (arith, s, t)
    | inr s ↦ ground (arith, s)
  ])
]

-- After an insertion the node has what it had and the entities that were inserted, and no others.
pub stands_in-insert :
    (x : Entity) (ys : List Entity) (n : EntityNode)
    → stands_in x (insert_to_association_tree ys n) ≡ (stands_in x n || among x ys)
unfolding insert_to_association_tree
stands_in-insert x [] n = ground arith
stands_in-insert x (y ∷ ys) n =
    stands_in-insert x ys (insert_one y n) ∙ ground (arith, stands_in-insert_one x y n)

pub container-insert :
    (ys : List Entity) (n : EntityNode)
    → (insert_to_association_tree ys n).container_entity ≡ n.container_entity
unfolding insert_to_association_tree insert_one
container-insert [] n = refl
container-insert (y ∷ ys) n = container-insert ys (insert_one y n) ∙ ground arith

has-change_within :
    (x : Entity) (i : ℕ) (p : Position) (ys : List Entity) (c : ContainedEntities) (n : EntityNode)
    → node_within i p c ≡ some n
    → has_entity x (change_within i p ys c) ≡ (has_entity x c || among x ys)
unfolding node_within change_within has_entity
has-change_within x i p ys nil n h = cc
has-change_within x (suc i) p ys (cons e c rest) n h =
    ground (arith, has-change_within x i p ys rest n h)
has-change_within x zero [] ys (cons e c rest) n h =
    let m : EntityNode = record { container_entity = e; contained_entities = c } in
    let s = stands_in-insert x ys m in unfold stands_in in ground (arith, s)
has-change_within x zero (j ∷ p) ys (cons e c rest) n h =
    ground (arith, has-change_within x j p ys c n h)

-- So has the whole tree when the node at a position of the tree is changed.
pub stands_in-change_at :
    (x : Entity) (p : Position) (ys : List Entity) (root n : EntityNode)
    → node_at p root ≡ some n
    → stands_in x (change_at p ys root) ≡ (stands_in x root || among x ys)
unfolding change_at node_at
stands_in-change_at x [] ys root n h = stands_in-insert x ys root
stands_in-change_at x (i ∷ p) ys root n h =
    let s = has-change_within x i p ys root.contained_entities n h in
    unfold stands_in in ground (arith, s)

pub container-change_at :
    (p : Position) (ys : List Entity) (root : EntityNode)
    → (change_at p ys root).container_entity ≡ root.container_entity
unfolding change_at
container-change_at [] ys root = container-insert ys root
container-change_at (i ∷ p) ys root = refl
