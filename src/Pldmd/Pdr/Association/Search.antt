-- ===== src/Pldmd/Pdr/Association/Search.antt =====
-- pldmd/src/pdr_manager.cpp, getContainedNode: the search in the tree finds what stands there.
use pmci.Prelude.{
  ℕ, zero, suc, ◌+◌, ◌<◌, ◌≡◌, ◌↔◌, refl, ap, ◌∙◌, sym, Bool, true, false, ◌||◌, List, [], ◌∷◌,
  ◌++◌, Option, none, some, arith, Bool-cases, Option-cases, inl, inr,
}
use pmci.Pldmd.Pdr.Association.{
  Entity, same_entity, ContainedEntities, nil, cons, EntityNode, Position, Place, places_from,
  search_queue, size, get_contained_node, is_none,
}

pub same_entity_refl : (a : Entity) → same_entity a a ≡ true
unfolding same_entity
same_entity_refl a = ground arith

pub same_entity→eq : (a b : Entity) → same_entity a b ≡ true → a ≡ b
unfolding same_entity
same_entity→eq a b h = ground arith

-- An entity stands among the nodes, or anywhere below them.
unfoldable pub has_entity : Entity → ContainedEntities → Bool
has_entity x nil = false
has_entity x (cons e c rest) = same_entity e x || has_entity x c || has_entity x rest

unfoldable pub stands_in : Entity → EntityNode → Bool
stands_in x n = same_entity n.container_entity x || has_entity x n.contained_entities

-- The node at a position.
unfoldable pub node_within : ℕ → Position → ContainedEntities → Option EntityNode
node_within i p nil = none
node_within (suc i) p (cons e c rest) = node_within i p rest
node_within zero [] (cons e c rest) = some (record { container_entity = e; contained_entities = c })
node_within zero (j ∷ p) (cons e c rest) = node_within j p c

unfoldable pub node_at : Position → EntityNode → Option EntityNode
node_at [] n = some n
node_at (i ∷ p) n = node_within i p n.contained_entities

abbrev waiting : Entity → List Place → Bool
waiting x [] = false
waiting x ((p, n) ∷ q) = stands_in x n || waiting x q

abbrev size_queue : List Place → ℕ
size_queue [] = 0
size_queue ((p, n) ∷ q) = size n.contained_entities + 1 + size_queue q

waiting-append : (x : Entity) (q r : List Place) → waiting x (q ++ r) ≡ (waiting x q || waiting x r)
waiting-append x [] r = refl
waiting-append x ((p, n) ∷ q) r = ground (arith, waiting-append x q r)

waiting-places :
    (x : Entity) (p : Position) (i : ℕ) (c : ContainedEntities)
    → waiting x (places_from p i c) ≡ has_entity x c
unfolding places_from has_entity stands_in
waiting-places x p i nil = refl
waiting-places x p i (cons e c rest) = ground (arith, waiting-places x p (i + 1) rest)

size-append : (q r : List Place) → size_queue (q ++ r) ≡ size_queue q + size_queue r
size-append [] r = omega arith
size-append ((p, n) ∷ q) r = omega (arith, size-append q r)

size-places :
    (p : Position) (i : ℕ) (c : ContainedEntities) → size_queue (places_from p i c) ≡ size c
unfolding places_from
size-places p i nil = refl
size-places p i (cons e c rest) = omega (arith, size-places p (i + 1) rest)

-- With a round for each node and one more, the search says whether the entity stands in the queue.
search-waiting :
    (fuel : ℕ) (e : Entity) (q : List Place)
    → size_queue q < fuel
    → is_none (search_queue fuel e q) ≡ true
    → waiting e q ≡ false
unfolding search_queue stands_in
search-waiting zero e q h n = absurd (omega arith)
search-waiting (suc fuel) e [] h n = refl
search-waiting (suc fuel) e ((p, n) ∷ q) h s =
    elim (Bool-cases (same_entity n.container_entity e)) [
      | inl k ↦ ground (arith, k)
      | inr k ↦
          let c = n.contained_entities in
          let r = places_from p 0 c in
          let l = size-append q r in
          let ih =
            search-waiting fuel e (q ++ r) (omega (arith, l, size-places p 0 c))
              (ground (arith, k)) in
          ground (arith, k, ih, waiting-append e q r, waiting-places e p 0 c)
    ]

abbrev AllAt : EntityNode → List Place → Type 0
AllAt root [] = Unit {0}
AllAt root ((p, n) ∷ q) = (node_at p root ≡ some n) × AllAt root q

AllAt-append :
    (root : EntityNode) (q r : List Place) → AllAt root q → AllAt root r → AllAt root (q ++ r)
AllAt-append root [] r a b = b
AllAt-append root ((p, n) ∷ q) r a b = (a.0, AllAt-append root q r a.1 b)

node_within-append :
    (j : ℕ) (p : Position) (i : ℕ) (c : ContainedEntities) (n : EntityNode)
    → node_within j p c ≡ some n
    → node_within j (p ++ (i ∷ [])) c ≡ node_within i [] n.contained_entities
unfolding node_within
node_within-append j p i nil n h = cc
node_within-append (suc j) p i (cons e c rest) n h = node_within-append j p i rest n h
node_within-append zero [] i (cons e c rest) n h = ground (arith, h)
node_within-append zero (k ∷ p) i (cons e c rest) n h = node_within-append k p i c n h

node_at-append :
    (p : Position) (i : ℕ) (root n : EntityNode)
    → node_at p root ≡ some n
    → node_at (p ++ (i ∷ [])) root ≡ node_within i [] n.contained_entities
unfolding node_at
node_at-append [] i root n h = ground (arith, h)
node_at-append (j ∷ p) i root n h = node_within-append j p i root.contained_entities n h

AllAt-places :
    (root n : EntityNode) (p : Position) (i : ℕ) (c : ContainedEntities)
    → node_at p root ≡ some n
    → ((j : ℕ) → node_within (i + j) [] n.contained_entities ≡ node_within j [] c)
    → AllAt root (places_from p i c)
unfolding places_from node_within
AllAt-places root n p i nil h f = tt
AllAt-places root n p i (cons e c rest) h f = (
  node_at-append p i root n h ∙ ap (λ k. node_within k [] n.contained_entities) (omega arith) ∙ f 0,
  AllAt-places root n p (i + 1) rest h
      (λ j. ap (λ k. node_within k [] n.contained_entities) (omega arith) ∙ f (suc j)),
)

-- What the search gives back is the position of a node of that entity.
search-finds :
    (fuel : ℕ) (e : Entity) (q : List Place) (root : EntityNode) (p : Position)
    → AllAt root q
    → search_queue fuel e q ≡ some p
    → (n : EntityNode) × (node_at p root ≡ some n) × (same_entity n.container_entity e ≡ true)
unfolding search_queue
search-finds zero e q root p a h = cc
search-finds (suc fuel) e [] root p a h = cc
search-finds (suc fuel) e ((p', n) ∷ q) root p a h =
    elim (Bool-cases (same_entity n.container_entity e)) [
      | inl k ↦
          let g : p' ≡ p = ground (arith, k, h) in (n, ap (λ t. node_at t root) (sym g) ∙ a.0, k)
      | inr k ↦
          let r = places_from p' 0 n.contained_entities in
          search-finds fuel e (q ++ r) root p
            (AllAt-append root q r a.1 (
              AllAt-places root n p' 0 n.contained_entities a.0
                (λ j. ap (λ t. node_within t [] n.contained_entities) (omega arith))))
            (ground (arith, k, h))
    ]

pub contained_node-finds :
    (root : EntityNode) (e : Entity) (p : Position)
    → get_contained_node root e ≡ some p
    → (n : EntityNode) × (node_at p root ≡ some n) × (same_entity n.container_entity e ≡ true)
unfolding get_contained_node node_at
contained_node-finds root e p h =
    search-finds (size root.contained_entities + 2) e (([], root) ∷ []) root p (refl, tt) h

-- The search misses only entities that are not in the tree.
pub contained_node-misses :
    (root : EntityNode) (e : Entity)
    → is_none (get_contained_node root e) ≡ true
    → stands_in e root ≡ false
unfolding get_contained_node
contained_node-misses root e h =
    let w = search-waiting (size root.contained_entities + 2) e (([], root) ∷ []) (omega arith) h in
    ground (arith, w)

node_within-stands :
    (i : ℕ) (p : Position) (c : ContainedEntities) (n : EntityNode) (x : Entity)
    → node_within i p c ≡ some n
    → stands_in x n ≡ true
    → has_entity x c ≡ true
unfolding node_within has_entity
node_within-stands i p nil n x h s = cc
node_within-stands (suc i) p (cons e c rest) n x h s =
    ground (arith, node_within-stands i p rest n x h s)
node_within-stands zero [] (cons e c rest) n x h s = unfold stands_in in ground (arith, h, s)
node_within-stands zero (j ∷ p) (cons e c rest) n x h s =
    ground (arith, node_within-stands j p c n x h s)

-- What stands in a node of the tree stands in the tree.
pub node_at-stands :
    (p : Position) (root n : EntityNode) (x : Entity)
    → node_at p root ≡ some n
    → stands_in x n ≡ true
    → stands_in x root ≡ true
unfolding node_at
node_at-stands [] root n x h s = let e : root ≡ n = ground (arith, h) in ap (stands_in x) e ∙ s
node_at-stands (i ∷ p) root n x h s =
    let k = node_within-stands i p root.contained_entities n x h s in
    unfold stands_in in ground (arith, k)

-- The search gives a position exactly for the entities of the tree.
pub contained_node-stands :
    (root : EntityNode) (e : Entity)
    → (is_none (get_contained_node root e) ≡ false) ↔ (stands_in e root ≡ true)
contained_node-stands root e = (
  λ h. elim (Option-cases (get_contained_node root e)) [
    | inl n ↦ cc
    | inr (p, k) ↦
        let (n, a, b) = contained_node-finds root e p k in
        node_at-stands p root n e a (unfold stands_in in rw b refl)
  ],
  λ h. elim (Bool-cases (is_none (get_contained_node root e))) [
    | inl n ↦ cc (contained_node-misses root e n)
    | inr n ↦ n
  ],
)
