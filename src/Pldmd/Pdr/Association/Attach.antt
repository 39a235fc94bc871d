-- ===== src/Pldmd/Pdr/Association/Attach.antt =====
-- pldmd/src/pdr_manager.cpp, createEntityAssociationTree: the rounds that attach associations.
use pmci.Prelude.{
  ℕ, zero, suc, ◌≤◌, ◌≡◌, ◌⊎◌, refl, ap, ◌∙◌, sym, true, false, ◌||◌, List, [], ◌∷◌, none, some,
  arith, Bool-cases, Option-cases, inl, inr, length, ltb,
}
use pmci.Pldmd.Pdr.Association.{
  Entity, EntityNode, Association, Position, get_contained_node, is_none, change_at, attach_round,
  attach_rounds,
}
use pmci.Pldmd.Pdr.Association.Search.{stands_in, contained_node-finds, contained_node-stands}
use pmci.Pldmd.Pdr.Association.Insertion.{among, stands_in-change_at}

abbrev pub In : Association → List Association → Type 0
In a [] = ⊥
In a (b ∷ bs) = (b ≡ a) ⊎ In a bs

-- Closed under the associations.
abbrev pub IsClosed : (Entity → Type 0) → List Association → Type 0
IsClosed P bs =
    (a : Association) → In a bs → P a.container → (x : Entity) → among x a.contained ≡ true → P x

abbrev pub Holds : (Entity → Type 0) → EntityNode → Type 0
Holds P n = (x : Entity) → stands_in x n ≡ true → P x

abbrev pub Covers : EntityNode → Association → Type 0
Covers n a = (x : Entity) → among x a.contained ≡ true → stands_in x n ≡ true

-- What a round, or all rounds, keep and bring about: the entities that stood there still do, none
-- stands there without a reason, and an association is left or its entities are in the tree.
pub record Attaches (root : EntityNode) (bs : List Association) (r : EntityNode × List Association)
    : Type 1 where
  pub keeps : (x : Entity) → stands_in x root ≡ true → stands_in x r.0 ≡ true
  pub sound : (P : Entity → Type 0) → IsClosed P bs → Holds P root → Holds P r.0
  pub covers : (a : Association) → In a bs → In a r.1 ⊎ Covers r.0 a
  pub from : (a : Association) → In a r.1 → In a bs

attach_round-skip :
    (root : EntityNode) (b : Association) (bs : List Association)
    → get_contained_node root b.container ≡ none
    → attach_round root (b ∷ bs) ≡ ((attach_round root bs).0, b ∷ (attach_round root bs).1)
unfolding attach_round
attach_round-skip root b bs n = rw (n, attach_round) refl

attach_round-take :
    (root : EntityNode) (b : Association) (bs : List Association) (p : Position)
    → get_contained_node root b.container ≡ some p
    → attach_round root (b ∷ bs) ≡ attach_round (change_at p b.contained root) bs
unfolding attach_round
attach_round-take root b bs p k = rw (k, attach_round) refl

Attaches-refl : (n : EntityNode) (bs : List Association) → Attaches n bs (n, bs)
Attaches-refl n bs = record {
  keeps = λ x h. h;
  sound = λ P c h. h;
  covers = λ a i. inl i;
  from = λ a i. i;
}

attach_round-Attaches :
    (root : EntityNode) (bs : List Association) → Attaches root bs (attach_round root bs)
unfolding attach_round
attach_round-Attaches root [] = Attaches-refl root []
attach_round-Attaches root (b ∷ bs) = elim (Option-cases (get_contained_node root b.container)) [
  | inl n ↦
      let ih = attach_round-Attaches root bs in
      rw (attach_round-skip root b bs n) (record {
        keeps = ih.keeps;
        sound = λ P c h. ih.sound P (λ a i. c a (inr i)) h;
        covers = λ a i. elim i [
          | inl e ↦ inl (inl e)
          | inr j ↦ elim (ih.covers a j) [ inl k ↦ inl (inr k) | inr k ↦ inr k ]
        ];
        from = λ a i. elim i [ inl e ↦ inl e | inr j ↦ inr (ih.from a j) ];
      })
  | inr (p, k) ↦
      let root' = change_at p b.contained root in
      let ih = attach_round-Attaches root' bs in
      let (n, f, s) = contained_node-finds root b.container p k in
      let g : (x : Entity) → stands_in x root' ≡ (stands_in x root || among x b.contained) =
        λ x. stands_in-change_at x p b.contained root n f in
      rw (attach_round-take root b bs p k) (record {
        keeps = λ x h. ih.keeps x (ground (arith, g x, h));
        sound = λ P c h.
            ih.sound P (λ a i. c a (inr i))
              (λ x t. elim (Bool-cases (stands_in x root)) [
                | inl y ↦ h x y
                | inr y ↦
                    c b (inl refl)
                      (h b.container ((contained_node-stands root b.container).0 (ap is_none k))) x
                      (ground (arith, g x, t, y))
              ]);
        covers = λ a i. elim i [
          | inl e ↦ inr (λ x t.
              ih.keeps x (ground (arith, g x, ap (λ (c : Association). among x c.contained) e, t)))
          | inr j ↦ ih.covers a j
        ];
        from = λ a i. inr (ih.from a i);
      })
]

length-attach_round :
    (root : EntityNode) (bs : List Association) → length (attach_round root bs).1 ≤ length bs
unfolding attach_round
length-attach_round root [] = omega arith
length-attach_round root (b ∷ bs) = elim (Option-cases (get_contained_node root b.container)) [
  | inl n ↦ rw (attach_round-skip root b bs n) (omega (arith, length-attach_round root bs))
  | inr (p, k) ↦
      rw (attach_round-take root b bs p k)
        (omega (arith, length-attach_round (change_at p b.contained root) bs))
]

-- A round that takes no association leaves the tree, which has no container of those left.
abbrev Idle : EntityNode → List Association → EntityNode × List Association → Type 0
Idle root bs r = (r.0 ≡ root) × ((a : Association) → In a r.1 → stands_in a.container root ≡ false)

unfound :
    (root : EntityNode) (e : Entity) → get_contained_node root e ≡ none → stands_in e root ≡ false
unfound root e n = elim (Bool-cases (stands_in e root)) [
  | inl s ↦ cc ((contained_node-stands root e).1 s, ap is_none n)
  | inr s ↦ s
]

attach_round-Idle :
    (root : EntityNode) (bs : List Association)
    → length (attach_round root bs).1 ≡ length bs
    → Idle root bs (attach_round root bs)
unfolding attach_round
attach_round-Idle root [] h = (refl, λ a i. absurd i)
attach_round-Idle root (b ∷ bs) h = elim (Option-cases (get_contained_node root b.container)) [
  | inl n ↦
      let e = attach_round-skip root b bs n in
      let (f, g) = attach_round-Idle root bs (omega (arith, h, ap (λ r. length r.1) e)) in
      rw e (
        f,
        λ a i. elim i [
          | inl q ↦
              ap (λ (c : Association). stands_in c.container root) (sym q)
              ∙ unfound root b.container n
          | inr j ↦ g a j
        ],
      )
  | inr (p, k) ↦
      let root' = change_at p b.contained root in
      absurd (
        omega (
          arith,
          h,
          ap (λ r. length r.1) (attach_round-take root b bs p k),
          length-attach_round root' bs,
        ))
]

pub record Ends (root : EntityNode) (bs : List Association) (r : EntityNode × List Association)
    : Type 1 where
  pub attaches : Attaches root bs r
  pub none_left : (a : Association) → In a r.1 → stands_in a.container r.0 ≡ false

Attaches-trans :
    (n : EntityNode) (bs : List Association) (r s : EntityNode × List Association)
    → Attaches n bs r
    → Attaches r.0 r.1 s
    → Attaches n bs s
Attaches-trans n bs r s a b = record {
  keeps = λ x h. b.keeps x (a.keeps x h);
  sound = λ P c h. b.sound P (λ y i. c y (a.from y i)) (a.sound P c h);
  covers =
      λ y i. elim (a.covers y i) [ inl j ↦ b.covers y j | inr j ↦ inr (λ x t. b.keeps x (j x t)) ];
  from = λ y i. a.from y (b.from y i);
}

-- With as many rounds as associations the loop ends by its own test, and then no association is left
-- whose container is in the tree.
pub attach_rounds-Ends :
    (fuel : ℕ) (n : EntityNode) (bs : List Association)
    → length bs ≤ fuel
    → Ends n bs (attach_rounds fuel n bs)
unfolding attach_rounds
attach_rounds-Ends zero n [] h = record {
  attaches = Attaches-refl n [];
  none_left = λ a i. absurd i;
}
attach_rounds-Ends zero n (b ∷ bs) h = absurd (omega arith)
attach_rounds-Ends (suc fuel) n [] h = record {
  attaches = Attaches-refl n [];
  none_left = λ a i. absurd i;
}
attach_rounds-Ends (suc fuel) n (b ∷ bs) h =
    let r = attach_round n (b ∷ bs) in
    let a = attach_round-Attaches n (b ∷ bs) in
    elim (Bool-cases (ltb (length r.1) (length (b ∷ bs)))) [
      | inl k ↦
          let ih = attach_rounds-Ends fuel r.0 r.1 (ground (arith, k)) in
          rw (k, attach_rounds)
            (record {
              attaches = Attaches-trans n (b ∷ bs) r (attach_rounds fuel r.0 r.1) a ih.attaches;
              none_left = ih.none_left;
            })
      | inr k ↦
          let (e, f) =
            attach_round-Idle n (b ∷ bs) (ground (arith, k, length-attach_round n (b ∷ bs))) in
          rw (k, attach_rounds)
            (record { attaches = a; none_left = λ x i. ap (stands_in x.container) e ∙ f x i })
    ]
