-- ===== src/Pldmd/Pdr/Association/Reachable.antt =====
-- pldmd/src/pdr_manager.cpp, createEntityAssociationTree: which entities the tree has.
use pmci.Prelude.{
  ℕ, ◌≡◌, ◌↔◌, refl, ap, ◌∙◌, sym, Bool, true, false, ◌||◌, ◌&&◌, List, [], ◌∷◌, Option, none, some,
  arith, Bool-cases, inl, inr, length, ◌==◌, if◌then◌else◌,
}
use mathlib.Core.Path.{subst}
use pmci.Pldmd.Pdr.Association.{
  Entity, same_entity, EntityNode, Association, insert_to_association_tree, root_or_new,
  extract_root_node, attach_rounds, attach_all, create_entity_association_tree,
}
use pmci.Pldmd.Pdr.Association.Search.{has_entity, stands_in, same_entity→eq, same_entity_refl}
use pmci.Pldmd.Pdr.Association.Insertion.{among, stands_in-insert}
use pmci.Pldmd.Pdr.Association.Attach.{In, Ends, attach_rounds-Ends}

abbrev pub has_id : ℕ → Association → Bool
has_id id a = a.container.entity_container_id == id

-- The first association whose container has the container id.
abbrev pub first_with : ℕ → List Association → Option Association
first_with id [] = none
first_with id (a ∷ bs) = if has_id id a then some a else first_with id bs

-- The entities that the associations lead to from those with the container id.
pub data Reachable (id : ℕ) (bs : List Association) : Entity → Type 0 where
  first :
      {x : Entity} (a : Association)
      → first_with id bs ≡ some a
      → a.container ≡ x
      → Reachable id bs x
  top :
      {x : Entity} (a : Association)
      → In a bs
      → has_id id a ≡ true
      → among x a.contained ≡ true
      → Reachable id bs x
  under :
      {x : Entity} (a : Association)
      → In a bs
      → Reachable id bs a.container
      → among x a.contained ≡ true
      → Reachable id bs x

-- The entities that the associations with the container id contain.
among_roots : Entity → ℕ → List Association → Bool
among_roots x id [] = false
among_roots x id (a ∷ bs) = (has_id id a && among x a.contained) || among_roots x id bs

left_out : ℕ → List Association → List Association
left_out id [] = []
left_out id (a ∷ bs) = if has_id id a then left_out id bs else a ∷ left_out id bs

extract-left :
    (id : ℕ) (o : Option EntityNode) (bs : List Association)
    → (extract_root_node id o bs).1 ≡ left_out id bs
unfolding extract_root_node left_out
extract-left id o [] = refl
extract-left id o (a ∷ bs) =
    let n = insert_to_association_tree a.contained (root_or_new o a.container) in
    ground (arith, extract-left id o bs, extract-left id (some n) bs)

In-left_out :
    (id : ℕ) (a : Association) (bs : List Association)
    → In a bs
    → has_id id a ≡ false
    → In a (left_out id bs)
unfolding left_out
In-left_out id a [] i h = i
In-left_out id a (b ∷ bs) i h = elim (Bool-cases (has_id id b)) [
  | inl k ↦ rw k (elim i [ inl e ↦ cc (ap (has_id id) e) | inr j ↦ In-left_out id a bs j h ])
  | inr k ↦ rw k (elim i [ inl e ↦ inl e | inr j ↦ inr (In-left_out id a bs j h) ])
]

left_out-In : (id : ℕ) (a : Association) (bs : List Association) → In a (left_out id bs) → In a bs
unfolding left_out
left_out-In id a [] i = i
left_out-In id a (b ∷ bs) i = elim (Bool-cases (has_id id b)) [
  | inl k ↦ inr (left_out-In id a bs (rw k at i))
  | inr k ↦
      let j : In a (b ∷ left_out id bs) = rw k at i in
      elim j [ inl e ↦ inl e | inr l ↦ inr (left_out-In id a bs l) ]
]

Rooted : ℕ → EntityNode → List Association → Option EntityNode → Type 0
Rooted id n bs o =
    (m : EntityNode) × (o ≡ some m)
    × ((x : Entity) → stands_in x m ≡ (stands_in x n || among_roots x id bs))

extract-Rooted :
    (id : ℕ) (n : EntityNode) (bs : List Association)
    → Rooted id n bs (extract_root_node id (some n) bs).0
unfolding extract_root_node among_roots Rooted
extract-Rooted id n [] = (n, refl, λ x. ground arith)
extract-Rooted id n (a ∷ bs) = elim (Bool-cases (has_id id a)) [
  | inl h ↦
      let k = insert_to_association_tree a.contained n in
      let (m, e, f) = extract-Rooted id k bs in
      (
        m,
        rw (h, extract_root_node) e,
        λ x. f x ∙ ground (arith, h, stands_in-insert x a.contained n),
      )
  | inr h ↦
      let (m, e, f) = extract-Rooted id n bs in
      (m, rw (h, extract_root_node) e, λ x. f x ∙ ground (arith, h))
]

extract-first :
    (id : ℕ) (a : Association) (bs : List Association)
    → first_with id bs ≡ some a
    → Rooted id (root_or_new none a.container) bs (extract_root_node id none bs).0
unfolding extract_root_node among_roots Rooted
extract-first id a [] h = cc
extract-first id a (b ∷ bs) h = elim (Bool-cases (has_id id b)) [
  | inl k ↦
      let e : b ≡ a = ground (arith, k, h) in
      let new = root_or_new none b.container in
      let (m, f, g) = extract-Rooted id (insert_to_association_tree b.contained new) bs in
      (
        m,
        rw (k, extract_root_node) f,
        λ x.
            g x
            ∙ ground (
              arith,
              k,
              stands_in-insert x b.contained new,
              ap (λ (c : Association). stands_in x (root_or_new none c.container)) e,
            ),
      )
  | inr k ↦
      let (m, f, g) = extract-first id a bs (ground (arith, k, h)) in
      (m, rw (k, extract_root_node) f, λ x. g x ∙ ground (arith, k))
]

among_roots→In :
    (x : Entity) (id : ℕ) (bs : List Association)
    → among_roots x id bs ≡ true
    → (a : Association) × In a bs × (has_id id a ≡ true) × (among x a.contained ≡ true)
unfolding among_roots
among_roots→In x id [] h = cc
among_roots→In x id (b ∷ bs) h = elim (Bool-cases (has_id id b && among x b.contained)) [
  | inl k ↦ (b, inl refl, ground (arith, k), ground (arith, k))
  | inr k ↦ let (a, i, y, z) = among_roots→In x id bs (ground (arith, k, h)) in (a, inr i, y, z)
]

In→among_roots :
    (x : Entity) (id : ℕ) (a : Association) (bs : List Association)
    → In a bs
    → has_id id a ≡ true
    → among x a.contained ≡ true
    → among_roots x id bs ≡ true
unfolding among_roots
In→among_roots x id a [] i h t = absurd i
In→among_roots x id a (b ∷ bs) i h t = elim i [
  | inl e ↦ ground (arith, ap (has_id id) e, ap (λ (c : Association). among x c.contained) e)
  | inr j ↦ ground (arith, In→among_roots x id a bs j h t)
]

module _ (id : ℕ) (bs : List Association) (a : Association) (m n : EntityNode)
    (rest : List Association) (start : first_with id bs ≡ some a)
    (stands : (x : Entity) → stands_in x m ≡ (same_entity a.container x || among_roots x id bs))
    (ends : Ends m (left_out id bs) (n, rest)) where
  stands→Reachable : (x : Entity) → stands_in x n ≡ true → Reachable id bs x
  stands→Reachable =
      ends.attaches.sound (Reachable id bs)
        (λ b i r x t. Reachable.under b (left_out-In id b bs i) r t)
        (λ x h. elim (Bool-cases (same_entity a.container x)) [
          | inl e ↦ Reachable.first a start (same_entity→eq a.container x e)
          | inr e ↦
              let (b, i, y, z) = among_roots→In x id bs (ground (arith, stands x, e, h)) in
              Reachable.top b i y z
        ])

  from_root : (x : Entity) → among_roots x id bs ≡ true → stands_in x n ≡ true
  from_root x h = ends.attaches.keeps x (ground (arith, stands x, h))

  Reachable→stands : {x : Entity} → Reachable id bs x → stands_in x n ≡ true
  Reachable→stands {x} (Reachable.first b h e) =
      let c : b ≡ a = ground (arith, start, h) in
      let f : a.container ≡ x = ap (λ (d : Association). d.container) (sym c) ∙ e in
      ends.attaches.keeps x
        (ground (arith, stands x, ap (same_entity a.container) f, same_entity_refl a.container))
  Reachable→stands {x} (Reachable.top b i h t) = from_root x (In→among_roots x id b bs i h t)
  Reachable→stands {x} (Reachable.under b i r t) =
      let ih = Reachable→stands r in
      elim (Bool-cases (has_id id b)) [
        | inl h ↦ from_root x (In→among_roots x id b bs i h t)
        | inr h ↦ elim (ends.attaches.covers b (In-left_out id b bs i h)) [
          | inl l ↦ cc (ends.none_left b l)
          | inr c ↦ c x t
        ]
      ]

-- When an association has the container id, a tree is made; it has exactly the entities that the
-- associations lead to from those with that id, in whatever order they came; and the container of
-- an association that is left out is not among them.
pub tree-Reachable :
    (id : ℕ) (bs : List Association) (a : Association)
    → first_with id bs ≡ some a
    → (n : EntityNode) × ((create_entity_association_tree id bs).0 ≡ some n)
      × ((x : Entity) → (stands_in x n ≡ true) ↔ Reachable id bs x)
      × ((b : Association)
          → In b (create_entity_association_tree id bs).1
          → ¬ Reachable id bs b.container)
unfolding create_entity_association_tree Rooted
tree-Reachable id bs a h =
    let r = extract_root_node id none bs in
    let (m, e, f) = extract-first id a bs h in
    let s = attach_rounds (length r.1) m r.1 in
    let ends : Ends m (left_out id bs) (s.0, s.1) =
      subst (λ l. Ends m l (s.0, s.1)) (extract-left id none bs)
        (attach_rounds-Ends (length r.1) m r.1 (omega arith)) in
    let stands : (x : Entity) → stands_in x m ≡ (same_entity a.container x || among_roots x id bs) =
      λ x. f x ∙ unfold stands_in has_entity in ground arith in
    let g : attach_all r.0 r.1 ≡ (some s.0, s.1) = rw e refl in
    (
      s.0,
      ap (λ p. p.0) g,
      λ x. (
        stands→Reachable id bs a m s.0 s.1 h stands ends x,
        Reachable→stands id bs a m s.0 s.1 h stands ends,
      ),
      λ b i k.
          let t = Reachable→stands id bs a m s.0 s.1 h stands ends k in
          let j : In b s.1 = subst (In b) (ap (λ p. p.1) g) i in cc (ends.none_left b j),
    )

no_first :
    (id : ℕ) (a : Association) (bs : List Association)
    → first_with id bs ≡ none
    → In a bs
    → has_id id a ≡ false
no_first id a [] n i = absurd i
no_first id a (b ∷ bs) n i = elim i [
  | inl e ↦ ground (arith, n, ap (has_id id) e)
  | inr j ↦ no_first id a bs (ground (arith, n)) j
]

-- Without an association with the container id nothing is reached, and there is no tree.
pub none-Reachable :
    (id : ℕ) (bs : List Association) {x : Entity} → first_with id bs ≡ none → ¬ Reachable id bs x
none-Reachable id bs n (Reachable.first a h e) = cc
none-Reachable id bs n (Reachable.top a i h t) = cc (no_first id a bs n i)
none-Reachable id bs n (Reachable.under a i r t) = none-Reachable id bs n r

extract-none :
    (id : ℕ) (bs : List Association)
    → first_with id bs ≡ none
    → (extract_root_node id none bs).0 ≡ none
unfolding extract_root_node
extract-none id [] h = refl
extract-none id (b ∷ bs) h = ground (arith, extract-none id bs)

pub tree-none :
    (id : ℕ) (bs : List Association)
    → first_with id bs ≡ none
    → (create_entity_association_tree id bs).0 ≡ none
unfolding create_entity_association_tree
tree-none id bs h =
    ap (λ o. (attach_all o (extract_root_node id none bs).1).0) (extract-none id bs h)
