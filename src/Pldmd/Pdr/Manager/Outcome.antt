-- ===== src/Pldmd/Pdr/Manager/Outcome.antt =====
-- pldmd/src/pdr_manager.cpp, pdrManagerInit: the objects that it leaves.
use pmci.Prelude.{
  ℕ, ◌≡◌, ap, ◌∙◌, sym, Bool, List, [], ◌∷◌, ◌++◌, Option, none, some, Bytes, length, ◌==◌,
  Bool-cases, Option-cases, List-cases, inl, inr,
}
use pmci.Prelude.Map.{Map, find, emplace}
use pmci.Pldmd.PackageImage.Components.{u16_at}
use pmci.Pldmd.Pdr.Association.{Entity}
use pmci.Pldmd.Pdr.Names.{text, EntityMap, find_entity, entity_at}
use pmci.Pldmd.Pdr.Hierarchy.{
  create_sensor_obj_path, create_effecter_obj_path, path_below, known_name, known_effecter,
}
use pmci.Pldmd.Pdr.Transfer.Bounds.{find-emplace_cases}
use pmci.Pldmd.Pdr.Repository.{PdrLib, Repository}
use pmci.Pldmd.Pdr.Manager.{
  Manager, possible_states, emplace_path, keep_numeric_effecter, expose_sensor, expose_effecter,
  parse_numeric_sensor_pdr, parse_state_sensor_pdr, parse_numeric_effecter_pdr,
  parse_state_effecter_pdr, parse_fru_record_set_pdr, for_all, parse_all, parse_objects,
}

-- A path directly below the object of an entity.
abbrev pub LiesBelow : EntityMap → Bytes → Type 0
LiesBelow h path =
    (e : Entity) × (obj : Bytes) × (name : Bytes) × (find_entity e h ≡ some obj)
    × (path ≡ obj ++ (text "/" ++ name))

abbrev pub IsObject : EntityMap → Bytes → Type 0
IsObject h path = (e : Entity) × (find_entity e h ≡ some path)

abbrev pub AllPaths : (Bytes → Type 0) → Map Bytes → Type 0
AllPaths P m = (id : ℕ) (path : Bytes) → find id m ≡ some path → P path

-- Every object of a sensor or an effecter lies below that of an entity of the hierarchy, and every
-- FRU record set stands at one.
pub record Placed {R : Type 0} (repo : Repository R) (h : EntityMap) (m : Manager R) : Type 0 where
  pub repository : m.repository ≡ repo
  pub hierarchy : m.system_hierarchy ≡ h
  pub sensors : AllPaths (LiesBelow h) m.sensor_intf
  pub effecters : AllPaths (LiesBelow h) m.effecter_intf
  pub fru_record_sets : AllPaths (IsObject h) m.fru_record_set_intf

emplace-AllPaths :
    (P : Bytes → Type 0) (id : ℕ) (o : Option Bytes) (m : Map Bytes)
    → ((path : Bytes) → o ≡ some path → P path)
    → AllPaths P m
    → AllPaths P (emplace_path id o m)
emplace-AllPaths P id none m p a = a
emplace-AllPaths P id (some v) m p a = λ j path h. elim (find-emplace_cases id j v path m h) [
  | inl (e, f) ↦ p path (ap some f)
  | inr k ↦ a j path k
]

path_below-LiesBelow :
    (h : EntityMap) (e : Entity) (name path : Bytes)
    → path_below (find_entity e h) name ≡ some path
    → LiesBelow h path
path_below-LiesBelow h e name path k = elim (Option-cases (find_entity e h)) [
  | inl n ↦ cc (ap (λ o. path_below o name) n)
  | inr (obj, n) ↦ (e, obj, name, n, cc (ap (λ o. path_below o name) n))
]

sensor_path-LiesBelow :
    (tid : ℕ) (h : EntityMap) (e : Entity) (id : ℕ) (has_aux : Bool) (ns : Map Bytes) (path : Bytes)
    → (create_sensor_obj_path tid h e id has_aux ns).1 ≡ some path
    → LiesBelow h path
unfolding create_sensor_obj_path
sensor_path-LiesBelow tid h e id has_aux ns path k = elim (List-cases (known_name has_aux id ns)) [
  | inl n ↦ path_below-LiesBelow h e _ path (rw (n, create_sensor_obj_path) at k)
  | inr (y, ys, n) ↦ path_below-LiesBelow h e (y ∷ ys) path (rw (n, create_sensor_obj_path) at k)
]

effecter_path-LiesBelow :
    (tid : ℕ) (h : EntityMap) (e : Entity) (id : ℕ) (has_aux : Bool) (ns : Map Bytes) (path : Bytes)
    → (create_effecter_obj_path tid h e id has_aux ns).1 ≡ some path
    → LiesBelow h path
unfolding create_effecter_obj_path
effecter_path-LiesBelow tid h e id has_aux ns path k =
    elim (Option-cases (known_effecter has_aux id ns)) [
      | inl n ↦ path_below-LiesBelow h e _ path (rw (n, create_effecter_obj_path) at k)
      | inr (v, n) ↦ path_below-LiesBelow h e v path (rw (n, create_effecter_obj_path) at k)
    ]

module _ {R : Type 0} (lib : PdrLib R) (tid : ℕ) (repo : Repository R) (h : EntityMap) where
  expose_sensor-Placed :
      (id : ℕ) (e : Entity) (has_aux : Bool) (m : Manager R)
      → Placed repo h m
      → Placed repo h (expose_sensor lib tid id e has_aux m)
  unfolding expose_sensor
  expose_sensor-Placed id e has_aux m p = record {
    repository = p.repository;
    hierarchy = p.hierarchy;
    sensors =
        emplace-AllPaths (LiesBelow h) id
          (create_sensor_obj_path tid m.system_hierarchy e id has_aux m.sensor_aux_names).1
          m.sensor_intf
          (λ path k. sensor_path-LiesBelow tid h e id has_aux m.sensor_aux_names path (
            ap (λ g. (create_sensor_obj_path tid g e id has_aux m.sensor_aux_names).1)
              (sym p.hierarchy)
            ∙ k))
          p.sensors;
    effecters = p.effecters;
    fru_record_sets = p.fru_record_sets;
  }

  expose_effecter-Placed :
      (id : ℕ) (e : Entity) (has_aux : Bool) (m : Manager R)
      → Placed repo h m
      → Placed repo h (expose_effecter lib tid id e has_aux m)
  unfolding expose_effecter
  expose_effecter-Placed id e has_aux m p = record {
    repository = p.repository;
    hierarchy = p.hierarchy;
    sensors = p.sensors;
    effecters =
        emplace-AllPaths (LiesBelow h) id
          (create_effecter_obj_path tid m.system_hierarchy e id has_aux m.effecter_aux_names).1
          m.effecter_intf
          (λ path k. effecter_path-LiesBelow tid h e id has_aux m.effecter_aux_names path (
            ap (λ g. (create_effecter_obj_path tid g e id has_aux m.effecter_aux_names).1)
              (sym p.hierarchy)
            ∙ k))
          p.effecters;
    fru_record_sets = p.fru_record_sets;
  }

  numeric_sensor-Placed :
      (r : Bytes) (m : Manager R)
      → Placed repo h m
      → Placed repo h (parse_numeric_sensor_pdr lib tid r m)
  unfolding parse_numeric_sensor_pdr
  numeric_sensor-Placed r m p = elim (Option-cases (lib.parse_numeric_sensor r)) [
    | inl n ↦ rw (n, parse_numeric_sensor_pdr) p
    | inr (pdr, n) ↦
        rw (n, parse_numeric_sensor_pdr)
          (expose_sensor-Placed pdr.id pdr.entity pdr.has_aux_names
            (record m { numeric_sensor_pdr = emplace pdr.id pdr m.numeric_sensor_pdr })
            (record {
              repository = p.repository;
              hierarchy = p.hierarchy;
              sensors = p.sensors;
              effecters = p.effecters;
              fru_record_sets = p.fru_record_sets;
            }))
  ]

  state_sensor-Placed :
      (r : Bytes) (m : Manager R)
      → Placed repo h m
      → Placed repo h (parse_state_sensor_pdr lib tid r m)
  unfolding parse_state_sensor_pdr
  state_sensor-Placed r m p = elim (Option-cases (possible_states 23 r)) [
    | inl n ↦ rw (n, parse_state_sensor_pdr) p
    | inr (s, n) ↦
        rw (n, parse_state_sensor_pdr)
          (expose_sensor-Placed _ _ _
            (record m { state_sensor_pdr = emplace (u16_at 12 r) s m.state_sensor_pdr })
            (record {
              repository = p.repository;
              hierarchy = p.hierarchy;
              sensors = p.sensors;
              effecters = p.effecters;
              fru_record_sets = p.fru_record_sets;
            }))
  ]

  numeric_effecter-Placed :
      (r : Bytes) (m : Manager R)
      → Placed repo h m
      → Placed repo h (parse_numeric_effecter_pdr lib tid r m)
  unfolding parse_numeric_effecter_pdr
  numeric_effecter-Placed r m p = elim (Option-cases (lib.parse_numeric_effecter r)) [
    | inl n ↦ rw (n, parse_numeric_effecter_pdr) p
    | inr (pdr, n) ↦
        let q = expose_effecter-Placed pdr.id pdr.entity pdr.has_aux_names m p in
        elim (Option-cases (find_entity pdr.entity m.system_hierarchy)) [
          | inl f ↦ rw (n, parse_numeric_effecter_pdr) (rw (f, keep_numeric_effecter) q)
          | inr (v, f) ↦
              rw (n, parse_numeric_effecter_pdr)
                (rw (f, keep_numeric_effecter)
                  (record {
                    repository = q.repository;
                    hierarchy = q.hierarchy;
                    sensors = q.sensors;
                    effecters = q.effecters;
                    fru_record_sets = q.fru_record_sets;
                  }))
        ]
  ]

  state_effecter-Placed :
      (r : Bytes) (m : Manager R)
      → Placed repo h m
      → Placed repo h (parse_state_effecter_pdr lib tid r m)
  unfolding parse_state_effecter_pdr
  state_effecter-Placed r m p = elim (Option-cases (possible_states 25 r)) [
    | inl n ↦ rw (n, parse_state_effecter_pdr) p
    | inr (s, n) ↦
        rw (n, parse_state_effecter_pdr)
          (expose_effecter-Placed _ _ _
            (record m { state_effecter_pdr = emplace (u16_at 12 r) s m.state_effecter_pdr })
            (record {
              repository = p.repository;
              hierarchy = p.hierarchy;
              sensors = p.sensors;
              effecters = p.effecters;
              fru_record_sets = p.fru_record_sets;
            }))
  ]

  fru_record_set-Placed :
      (r : Bytes) (m : Manager R)
      → Placed repo h m
      → Placed repo h (parse_fru_record_set_pdr lib tid r m)
  unfolding parse_fru_record_set_pdr
  fru_record_set-Placed r m p = elim (Bool-cases (length r == 20)) [
    | inl n ↦ rw n (record {
      repository = p.repository;
      hierarchy = p.hierarchy;
      sensors = p.sensors;
      effecters = p.effecters;
      fru_record_sets =
          emplace-AllPaths (IsObject h) (u16_at 12 r)
            (find_entity (entity_at 14 r) m.system_hierarchy) m.fru_record_set_intf
            (λ path k. (entity_at 14 r, ap (find_entity (entity_at 14 r)) (sym p.hierarchy) ∙ k))
            p.fru_record_sets;
    })
    | inr n ↦ rw n p
  ]

  for_all-Placed :
      (f : Bytes → Manager R → Manager R) (rs : List Bytes) (m : Manager R)
      → ((r : Bytes) (n : Manager R) → Placed repo h n → Placed repo h (f r n))
      → Placed repo h m
      → Placed repo h (for_all lib tid f rs m)
  for_all-Placed f [] m k p = p
  for_all-Placed f (r ∷ rs) m k p = for_all-Placed f rs (f r m) k (k r m p)

  parse_all-Placed :
      (t : ℕ) (f : Bytes → Manager R → Manager R) (m : Manager R)
      → ((r : Bytes) (n : Manager R) → Placed repo h n → Placed repo h (f r n))
      → Placed repo h m
      → Placed repo h (parse_all lib tid t f m)
  unfolding parse_all
  parse_all-Placed t f m k p = for_all-Placed f (lib.of_type t m.repository.pdr_repo) m k p

  pub parse_objects-Placed :
      (m : Manager R) → Placed repo h m → Placed repo h (parse_objects lib tid m)
  unfolding parse_objects
  parse_objects-Placed m p =
      parse_all-Placed 20 (parse_fru_record_set_pdr lib tid) _ fru_record_set-Placed (
        parse_all-Placed 11 (parse_state_effecter_pdr lib tid) _ state_effecter-Placed (
          parse_all-Placed 9 (parse_numeric_effecter_pdr lib tid) _ numeric_effecter-Placed (
            parse_all-Placed 4 (parse_state_sensor_pdr lib tid) _ state_sensor-Placed
              (parse_all-Placed 2 (parse_numeric_sensor_pdr lib tid) m numeric_sensor-Placed p))))
