-- ===== src/Pldmd/Pdr/Tests.antt =====
-- The PDR manager of pldmd/src/pdr_manager.cpp on a small terminus: a locator, one association and a
-- numeric sensor.
use pmci.Prelude.{
  ℕ, ◌+◌, ◌-◌, ◌*◌, ◌/◌, ◌%◌, ◌≤◌, ◌<◌, ◌≡◌, ◌↔◌, ◌⊎◌, refl, true, false, ◌&&◌, List, [], ◌∷◌, ◌++◌,
  none, some, Bytes, arith, length, get_or, drop, ltb, ◌==◌, if◌then◌else◌,
}
use pmci.Prelude.Map.{find, emplace, assign}
use pmci.Pldmd.PackageImage.Components.{u16_at}
use pmci.Pldmd.TidMapper.{get_mapped_eid}
use pmci.Pldmd.Transport.Bus.{
  Bus, Reply, create_instance_id, validate_reserve_bw, get_instance_id, get_pldm_message_type,
  get_pldm_packet_type, validate_pldm_req_encode, validate_pldm_resp_decode,
}
use pmci.Pldmd.Transport.Exchange.{
  send_receive_pldm_message, rounds, round, round_at, after_answer, after_check, check_response,
  do_send_receive,
}
use pmci.Pldmd.Base.Tables.{bit}
use pmci.Pldmd.Base.Tables.Announced.{is_in}
use pmci.Pldmd.Pdr.Association.{
  Entity, same_entity, Association, EntityNode, nil, cons, create_entity_association_tree,
  extract_root_node, attach_rounds, attach_round, change_at, change_within,
  insert_to_association_tree, insert_one, push_leaf, get_contained_node, search_queue, places_from,
  parse_entity_association, get_entity_association, merge_or_add,
}
use pmci.Pldmd.Pdr.Association.Search.{stands_in}
use pmci.Pldmd.Pdr.Association.Attach.{In}
use pmci.Pldmd.Pdr.Association.Reachable.{Reachable, tree-Reachable}
use pmci.Pldmd.Pdr.Names.{text, to_string, share_name, emplace_entity, find_entity}
use pmci.Pldmd.Pdr.Names.RoundTrip.{AuxString}
use pmci.Pldmd.Pdr.Names.Shared.{share_name-result}
use pmci.Pldmd.Pdr.Hierarchy.{
  create_sensor_obj_path, create_effecter_obj_path, create_name, populate_system_hierarchy,
  populate_path, entity_name, device_object, get_entity_association_paths, paths_within,
}
use pmci.Pldmd.Pdr.Hierarchy.Exposed.{is_some, hierarchy_of, object_path-Reachable}
use pmci.Pldmd.Pdr.Transfer.{
  PdrCodec, RepositoryInfo, get_device_pdr_record, fetch_records, get_pdr_repository_info, exchange,
  fetch_tries, repo_rounds, keep_record, pdr_rounds, get_part, passes_crc, change_number,
  next_request,
}
use pmci.Pldmd.Pdr.Transfer.Bounds.{wire-fetch_records}
use pmci.Pldmd.Pdr.Repository.{
  PdrLib, Repository, construct_pdr_repo, add_device_pdr_to_repo, add_records, is_valid_locator,
}
use pmci.Pldmd.Pdr.Repository.Locator.{IsBuilt, construct_pdr_repo-IsBuilt}
use pmci.Pldmd.Pdr.Manager.{
  PossibleStates, Manager, ready, new_manager, possible_states, pdr_manager_init, parse_repository,
  parse_entity_names, parse_aux_names, associate, attach_nodes, populate, parse_objects, parse_all,
  parse_numeric_sensor_pdr, parse_state_sensor_pdr, parse_numeric_effecter_pdr,
  parse_state_effecter_pdr, parse_fru_record_set_pdr, expose_sensor, expose_effecter,
}
use pmci.Pldmd.Pdr.Manager.States.{possible_states-bits}
use pmci.Pldmd.Pdr.Manager.Ready.{IsReady, init-IsReady}

abbrev device : Entity
device = record { entity_type = 1; entity_instance_num = 1; entity_container_id = 7 }

abbrev board : Entity
board = record { entity_type = 2; entity_instance_num = 1; entity_container_id = 1 }

abbrev chip : Entity
chip = record { entity_type = 3; entity_instance_num = 1; entity_container_id = 2 }

-- The chip comes before the board that contains it.
abbrev nodes : List Association
nodes =
    record { container = board; contained = chip ∷ [] }
    ∷ record { container = device; contained = board ∷ [] }
    ∷ []

tree-Reachable_example :
    (n : EntityNode) × ((create_entity_association_tree 7 nodes).0 ≡ some n)
    × ((x : Entity) → (stands_in x n ≡ true) ↔ Reachable 7 nodes x)
    × ((b : Association)
        → In b (create_entity_association_tree 7 nodes).1
        → ¬ Reachable 7 nodes b.container)
tree-Reachable_example =
    tree-Reachable 7 nodes (record { container = device; contained = board ∷ [] }) (ground arith)

object_path-Reachable_example :
    ((is_some (create_sensor_obj_path 4 (hierarchy_of 4 [] 7 nodes) chip 5 false []).1 ≡ true)
      ↔ Reachable 7 nodes chip)
    × ((is_some (create_effecter_obj_path 4 (hierarchy_of 4 [] 7 nodes) chip 5 false []).1 ≡ true)
        ↔ Reachable 7 nodes chip)
object_path-Reachable_example = object_path-Reachable 4 7 [] nodes chip 5 false []

-- "fr", then "en" with the name "P1".
abbrev two_names : List AuxString
two_names = (102 ∷ 114 ∷ [], 80 ∷ []) ∷ (101 ∷ 110 ∷ [], 80 ∷ 49 ∷ []) ∷ []

share_name-result_example :
    (1 + 2 < 65535
      → share_name 4 1 (1 + 2) 0 (80 ∷ []) device []
        ≡ some (emplace_entity device (80 ∷ (text "_" ++ to_string 0)) []))
    × (65535 ≤ 1 + 2 → (fuel : ℕ) → share_name fuel 1 (1 + 2) 0 (80 ∷ []) device [] ≡ none)
share_name-result_example = share_name-result (80 ∷ []) device 2 [] (omega arith)

-- Two bytes of states, of the set 1, behind a header of two bytes.
abbrev states : Bytes
states = 0 ∷ 0 ∷ 1 ∷ 0 ∷ 2 ∷ 6 ∷ 1 ∷ []

possible_states-bits_example :
    ((6 ≤ 7) × (7 ≤ 7)
      → (s : PossibleStates) × (possible_states 2 states ≡ some s)
        × (s.state_set_id ≡ u16_at 2 states)
        × ((v : ℕ)
            → is_in v s.possible_state_set_values
              ≡ (ltb v (8 * 2) && ltb v 256 && bit (v % 8) (get_or states (5 + v / 8) 0))))
    × ((7 < 6) ⊎ (7 < 7) → possible_states 2 states ≡ none)
possible_states-bits_example = possible_states-bits 2 states

abbrev part_bytes : Bytes → Bytes
part_bytes resp = drop 5 resp

-- Three bytes of header, the next handle, the transfer flag, and the record.
abbrev codec : PdrCodec
codec = record {
  encode_info_req = λ id. (0, (128 + id) ∷ 2 ∷ 80 ∷ []);
  decode_info =
      λ resp. (0, 0, record { repository_state = 0; record_count = 3; largest_record_size = 64 });
  encode_pdr_req = λ id req. (0, (128 + id) ∷ 2 ∷ 81 ∷ []);
  decode_pdr_size = λ resp. (0, 0, length resp - 5);
  decode_pdr = λ n resp. (
    0,
    0,
    record {
      next_record_handle = get_or resp 3 0;
      next_data_transfer_handle = 0;
      transfer_flag = get_or resp 4 0;
      record_data = drop 5 resp;
      transfer_crc = 0;
    },
  );
  crc8 = λ bytes. 0;
}

abbrev locator : Bytes
locator = 1 ∷ 0 ∷ 0 ∷ 0 ∷ 1 ∷ 1 ∷ 0 ∷ 0 ∷ 6 ∷ 0 ∷ 0 ∷ 0 ∷ 1 ∷ 0 ∷ 7 ∷ 0 ∷ []

abbrev says : ℕ → ℕ → ℕ → Bytes → Reply
says id next flag bytes = record {
  answer = some (1 ∷ id ∷ 2 ∷ 81 ∷ next ∷ flag ∷ bytes);
  removed = [];
}

-- The locator comes in two parts.
abbrev talking : Bus
talking = record {
  tid_mapper = (4, 9) ∷ [];
  rsv_bw_active = false;
  reserved_tid = 0;
  reserved_pldm_type = 0;
  instance_map = [];
  replies =
      says 1 0 0 []
      ∷ says 2 2 1 (1 ∷ 0 ∷ 0 ∷ 0 ∷ 1 ∷ 1 ∷ 0 ∷ 0 ∷ 6 ∷ 0 ∷ [])
      ∷ says 3 2 4 (0 ∷ 0 ∷ 1 ∷ 0 ∷ 7 ∷ 0 ∷ [])
      ∷ says 4 3 5 (2 ∷ 0 ∷ 0 ∷ 0 ∷ 1 ∷ 15 ∷ 0 ∷ 0 ∷ 0 ∷ 0 ∷ [])
      ∷ says 5 0 5 (3 ∷ 0 ∷ 0 ∷ 0 ∷ 1 ∷ 2 ∷ 0 ∷ 0 ∷ 0 ∷ 0 ∷ [])
      ∷ [];
  posts = [];
  grants = [];
  wire = [];
}

abbrev of_type : ℕ → List Bytes → List Bytes
of_type t [] = []
of_type t (r ∷ rs) = if get_or r 5 0 == t then r ∷ of_type t rs else of_type t rs

abbrev lib : PdrLib (List Bytes)
lib = record {
  codec = codec;
  init = [];
  add = λ r handle rs. rs ++ (r ∷ []);
  count = λ rs. length rs;
  of_type = of_type;
  extract_entities = λ r. device ∷ board ∷ [];
  parse_numeric_sensor =
      λ r. some (record { id = 5; entity = board; has_aux_names = false; content = r });
  parse_numeric_effecter = λ r. none;
  in_order = λ m. m;
}

abbrev empty : Repository (List Bytes)
empty = record { container_id = 0; pdr_repo = [] }

abbrev announced : RepositoryInfo
announced = record { repository_state = 0; record_count = 3; largest_record_size = 64 }

wire-fetch_records_example : length (fetch_records codec 4 announced talking).0.wire ≤ 2700
wire-fetch_records_example = wire-fetch_records codec 4 announced talking

abbrev informed : Bus
informed = record (create_instance_id 4 talking).0 {
  replies = says 2 2 1 (1 ∷ 0 ∷ []) ∷ says 3 2 4 (0 ∷ 0 ∷ []) ∷ [];
}

construct_pdr_repo-IsBuilt_example :
    ((construct_pdr_repo lib 4 announced empty talking).1.1 ≡ true)
    ↔ IsBuilt lib 4 announced empty (construct_pdr_repo lib 4 announced empty talking).1.0 talking
construct_pdr_repo-IsBuilt_example = construct_pdr_repo-IsBuilt lib 4 announced empty talking

abbrev after_info : Bus
after_info = (get_pdr_repository_info codec 4 talking).0

info_given : (get_pdr_repository_info codec 4 talking).1 ≡ some announced
unfolding get_pdr_repository_info exchange validate_pldm_req_encode send_receive_pldm_message
    validate_reserve_bw create_instance_id rounds round round_at after_answer after_check
    check_response do_send_receive get_mapped_eid find assign get_pldm_packet_type
    get_pldm_message_type get_instance_id validate_pldm_resp_decode
info_given = refl

abbrev built : Repository (List Bytes)
built = record {
  container_id = 7;
  pdr_repo =
      (1 ∷ 0 ∷ 0 ∷ 0 ∷ 1 ∷ 1 ∷ 0 ∷ 0 ∷ 6 ∷ 0 ∷ 0 ∷ 0 ∷ 1 ∷ 4 ∷ 7 ∷ 0 ∷ [])
      ∷ (2 ∷ 0 ∷ 0 ∷ 0 ∷ 1 ∷ 15 ∷ 0 ∷ 0 ∷ 0 ∷ 0 ∷ [])
      ∷ (3 ∷ 0 ∷ 0 ∷ 0 ∷ 1 ∷ 2 ∷ 0 ∷ 0 ∷ 0 ∷ 0 ∷ [])
      ∷ [];
}

repository_built : (construct_pdr_repo lib 4 announced empty after_info).1 ≡ (built, true)
unfolding get_pdr_repository_info exchange validate_pldm_req_encode send_receive_pldm_message
    validate_reserve_bw create_instance_id rounds round round_at after_answer after_check
    check_response do_send_receive get_mapped_eid find assign emplace get_pldm_packet_type
    get_pldm_message_type get_instance_id validate_pldm_resp_decode construct_pdr_repo fetch_records
    fetch_tries repo_rounds keep_record get_device_pdr_record pdr_rounds get_part passes_crc
    change_number next_request add_device_pdr_to_repo add_records is_valid_locator
repository_built = refl

abbrev device_path : Bytes
device_path = text "/xyz/openbmc_project/system/4/1_1_7"

abbrev board_path : Bytes
board_path = text "/xyz/openbmc_project/system/4/1_1_7/2_1_1"

abbrev finished : Manager (List Bytes)
finished = record (new_manager built) {
  entity_association_tree =
      some (record { container_entity = device; contained_entities = cons board nil nil });
  system_hierarchy = (device, device_path) ∷ (board, board_path) ∷ [];
  sensor_aux_names = (5, text "PLDM_Sensor_5_4") ∷ [];
  numeric_sensor_pdr =
      (
        5,
        record {
          id = 5;
          entity = board;
          has_aux_names = false;
          content = 3 ∷ 0 ∷ 0 ∷ 0 ∷ 1 ∷ 2 ∷ 0 ∷ 0 ∷ 0 ∷ 0 ∷ [];
        },
      )
      ∷ [];
  sensor_intf = (5, text "/xyz/openbmc_project/system/4/1_1_7/2_1_1/PLDM_Sensor_5_4") ∷ [];
}

repository_parsed : parse_repository lib 4 10 (new_manager built) ≡ ready finished
unfolding parse_repository parse_entity_names parse_aux_names associate attach_nodes populate
    parse_objects parse_all parse_numeric_sensor_pdr parse_state_sensor_pdr
    parse_numeric_effecter_pdr parse_state_effecter_pdr parse_fru_record_set_pdr expose_sensor
    expose_effecter possible_states create_sensor_obj_path create_effecter_obj_path create_name
    find_entity emplace_entity populate_system_hierarchy populate_path entity_name device_object
    get_entity_association_paths paths_within create_entity_association_tree extract_root_node
    attach_rounds attach_round change_at change_within insert_to_association_tree insert_one
    push_leaf get_contained_node search_queue places_from same_entity parse_entity_association
    get_entity_association merge_or_add to_string find assign emplace
repository_parsed = refl

init_ready : (pdr_manager_init lib 4 10 (new_manager empty) talking).1 ≡ ready finished
unfolding pdr_manager_init
init_ready = rw (info_given, pdr_manager_init) (rw repository_built repository_parsed)

init-IsReady_example : IsReady lib 4 finished
init-IsReady_example = init-IsReady lib 4 10 empty talking finished init_ready
