-- ===== src/Pldmd/Pdr/Manager/Ready.antt =====
-- pldmd/src/pdr_manager.cpp, pdrManagerInit: what a manager that is ready has.
use pmci.Prelude.{
  ℕ, ◌≡◌, ◌↔◌, refl, ap, sym, Bool, true, false, List, [], ◌∷◌, Option, none, some, Bytes,
  Option-cases, inl, inr,
}
use pmci.Prelude.Map.{Map, find}
use pmci.Pldmd.Transport.Bus.{Bus}
use pmci.Pldmd.Pdr.Association.{
  Entity, EntityNode, Association, extract_root_node, parse_entity_association,
  create_entity_association_tree,
}
use pmci.Pldmd.Pdr.Association.Reachable.{Reachable}
use pmci.Pldmd.Pdr.Names.{EntityMap, find_entity}
use pmci.Pldmd.Pdr.Hierarchy.{get_entity_association_paths, populate_system_hierarchy}
use pmci.Pldmd.Pdr.Hierarchy.Exposed.{is_some, hierarchy_of, hierarchy-Reachable}
use pmci.Pldmd.Pdr.Transfer.{RepositoryInfo, get_pdr_repository_info}
use pmci.Pldmd.Pdr.Repository.{PdrLib, Repository, construct_pdr_repo}
use pmci.Pldmd.Pdr.Repository.Locator.{IsBuilt, construct_pdr_repo-IsBuilt}
use mathlib.Core.Path.{subst}
use pmci.Pldmd.Pdr.Manager.{
  Manager, ready, not_ready, stopped, new_manager, for_all, parse_entity_names, parse_aux_names,
  or_old, attach_nodes, associate, populate, parse_objects, parse_repository, parse_constructed,
  pdr_manager_init,
}
use pmci.Pldmd.Pdr.Manager.Outcome.{LiesBelow, IsObject, AllPaths, Placed, parse_objects-Placed}

module _ {R : Type 0} (lib : PdrLib R) (tid : ℕ) where
  or_old-none : (o : Option EntityNode) → or_old o none ≡ o
  or_old-none none = refl
  or_old-none (some n) = refl

  -- The associations in a repository.
  abbrev pub associations : Repository R → List Association
  associations s =
      for_all lib tid (λ r. parse_entity_association (lib.extract_entities r))
        (lib.of_type 15 s.pdr_repo) []

  abbrev named : Repository R → EntityMap → Manager R
  named s aux = record (new_manager s) { entity_aux_names = aux }

  hierarchy-attached :
      (s : Repository R) (aux : EntityMap) (bs : List Association)
      → (populate lib tid (attach_nodes lib tid bs (named s aux))).system_hierarchy
        ≡ hierarchy_of tid aux s.container_id bs
  unfolding populate attach_nodes create_entity_association_tree extract_root_node
  hierarchy-attached s aux [] = refl
  hierarchy-attached s aux (a ∷ bs) =
      let r = create_entity_association_tree s.container_id (a ∷ bs) in
      ap (λ o. populate_system_hierarchy tid aux (get_entity_association_paths o) [])
        (or_old-none r.0)

  placed :
      (s : Repository R) (aux : EntityMap) (bs : List Association) (sensors effecters : Map Bytes)
      → Placed s
          (hierarchy_of tid aux s.container_id bs)
          (record (populate lib tid (attach_nodes lib tid bs (named s aux))) {
            sensor_aux_names = sensors;
            effecter_aux_names = effecters;
          })
  unfolding find populate attach_nodes
  placed s aux [] sensors effecters = record {
    repository = refl;
    hierarchy = hierarchy-attached s aux [];
    sensors = λ id path h. cc;
    effecters = λ id path h. cc;
    fru_record_sets = λ id path h. cc;
  }
  placed s aux (a ∷ bs) sensors effecters = record {
    repository = refl;
    hierarchy = hierarchy-attached s aux (a ∷ bs);
    sensors = λ id path h. cc;
    effecters = λ id path h. cc;
    fru_record_sets = λ id path h. cc;
  }

  -- What a manager that is ready has: a repository that could be built, an object for exactly the
  -- entities that the associations in it lead to, the objects of its sensors and effecters below
  -- these, and its FRU record sets at them.
  pub record IsReady (m : Manager R) : Type 0 where
    pub built :
        (info : RepositoryInfo) × (s : Repository R) × (b : Bus) × IsBuilt lib tid info s
          m.repository b
    pub entities :
        (e : Entity)
        → (is_some (find_entity e m.system_hierarchy) ≡ true)
          ↔ Reachable m.repository.container_id (associations m.repository) e
    pub sensors : AllPaths (LiesBelow m.system_hierarchy) m.sensor_intf
    pub effecters : AllPaths (LiesBelow m.system_hierarchy) m.effecter_intf
    pub fru_record_sets : AllPaths (IsObject m.system_hierarchy) m.fru_record_set_intf

  Placed-IsReady :
      (info : RepositoryInfo) (s s' : Repository R) (b : Bus) (aux : EntityMap) (m : Manager R)
      → IsBuilt lib tid info s s' b
      → Placed s' (hierarchy_of tid aux s'.container_id (associations s')) m
      → IsReady m
  Placed-IsReady info s s' b aux m built p =
      let h = sym p.hierarchy in
      let q = sym p.repository in
      record {
        built = (info, s, b, subst (λ r. IsBuilt lib tid info s r b) q built);
        entities = λ e.
            subst
              (λ r.
                (is_some (find_entity e m.system_hierarchy) ≡ true)
                ↔ Reachable r.container_id (associations r) e)
              q
              (subst
                (λ g.
                  (is_some (find_entity e g) ≡ true)
                  ↔ Reachable s'.container_id (associations s') e)
                h (hierarchy-Reachable tid s'.container_id aux (associations s') e));
        sensors = subst (λ g. AllPaths (LiesBelow g) m.sensor_intf) h p.sensors;
        effecters = subst (λ g. AllPaths (LiesBelow g) m.effecter_intf) h p.effecters;
        fru_record_sets =
            subst (λ g. AllPaths (IsObject g) m.fru_record_set_intf) h p.fru_record_sets;
      }

  ready_injective : (m n : Manager R) → ready m ≡ ready n → m ≡ n
  ready_injective m n h = cc

  parse_repository-Placed :
      (fuel : ℕ) (s : Repository R) (m : Manager R)
      → parse_repository lib tid fuel (new_manager s) ≡ ready m
      → (aux : EntityMap) × Placed s (hierarchy_of tid aux s.container_id (associations s)) m
  unfolding parse_repository associate
  parse_repository-Placed fuel s m h =
      elim (Option-cases (parse_entity_names fuel (lib.of_type 16 s.pdr_repo) [])) [
        | inl n ↦ let k : stopped ≡ ready m = rw (n, parse_repository) at h in cc
        | inr (aux, n) ↦
            let m' = populate lib tid (associate lib tid (named s aux)) in
            elim (Option-cases
              (parse_aux_names tid (lib.of_type 6 s.pdr_repo) m'.sensor_aux_names)) [
                | inl k ↦ let l : stopped ≡ ready m = rw (n, k, parse_repository) at h in cc
                | inr (sensors, k) ↦
                    elim (Option-cases
                      (parse_aux_names tid (lib.of_type 13 s.pdr_repo) m'.effecter_aux_names)) [
                        | inl l ↦
                            let j : stopped ≡ ready m = rw (n, k, l, parse_repository) at h in cc
                        | inr (effecters, l) ↦
                            let m'' = record m' {
                              sensor_aux_names = sensors;
                              effecter_aux_names = effecters;
                            } in
                            let j : ready (parse_objects lib tid m'') ≡ ready m =
                              rw (n, k, l, parse_repository) at h in
                            (
                              aux,
                              subst
                                  (Placed s (hierarchy_of tid aux s.container_id (associations s)))
                                  (ready_injective (parse_objects lib tid m'') m j)
                                  (parse_objects-Placed lib tid s
                                    (hierarchy_of tid aux s.container_id (associations s)) m''
                                    (placed s aux (associations s) sensors effecters)),
                            )
                      ]
              ]
      ]

  parsed-IsReady :
      (fuel : ℕ) (info : RepositoryInfo) (s₀ s : Repository R) (b : Bus) (m : Manager R)
      (x : Repository R × Bool)
      → (x.1 ≡ true → IsBuilt lib tid info s x.0 b)
      → parse_constructed lib tid fuel (new_manager s₀) x ≡ ready m
      → IsReady m
  parsed-IsReady fuel info s₀ s b m (s', false) k h = cc
  parsed-IsReady fuel info s₀ s b m (s', true) k h =
      let (aux, p) = parse_repository-Placed fuel s' m h in
      Placed-IsReady info s s' b aux m (k refl) p

  -- When pdrManagerInit ends with true on a new manager: its repository was built as
  -- constructPDRRepo builds it; an entity has an object exactly if the associations in the
  -- repository lead to it from those with the container id of the terminus; each sensor and each
  -- effecter that has an object has it below that of such an entity, and each FRU record set has it
  -- at one.
  pub init-IsReady :
      (fuel : ℕ) (s : Repository R) (b : Bus) (m : Manager R)
      → (pdr_manager_init lib tid fuel (new_manager s) b).1 ≡ ready m
      → IsReady m
  unfolding pdr_manager_init
  init-IsReady fuel s b m h = elim (Option-cases (get_pdr_repository_info lib.codec tid b).1) [
    | inl n ↦ let k : not_ready (new_manager s) ≡ ready m = rw (n, pdr_manager_init) at h in cc
    | inr (info, n) ↦
        let c = (get_pdr_repository_info lib.codec tid b).0 in
        let s' = record s { pdr_repo = lib.init } in
        parsed-IsReady fuel info s s' c m (construct_pdr_repo lib tid info s' c).1
          ((construct_pdr_repo-IsBuilt lib tid info s' c).0) (rw (n, pdr_manager_init) at h)
  ]
