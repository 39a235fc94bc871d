-- ===== src/Pldmd/Base/Tests.antt =====
-- The discovery of pldmd/src/base.cpp on a concrete terminus.
use pmci.Prelude.{
  ℕ, ◌+◌, ◌%◌, ◌^◌, ◌≡◌, refl, true, false, List, [], ◌∷◌, ◌++◌, none, some, Bytes, arith, length,
  drop,
}
use pmci.Prelude.Map.{find, erase, assign}
use pmci.Pldmd.TidMapper.{TidMap, add_entry, remove_entry}
use pmci.Pldmd.Transport.Bus.{
  Bus, Reply, create_instance_id, validate_reserve_bw, get_instance_id, get_pldm_message_type,
  get_pldm_packet_type,
}
use pmci.Pldmd.Base.TidPool.{
  FifoTidPool, get_free_tid, find_used_tid, IsUnique, KeepsTids, tid_pool-KeepsTids,
}
use pmci.Pldmd.Base.Requests.{
  BaseCodec, base_exchange, send_encoded, set_tid, get_pldm_commands, validate_base_req_encode,
  validate_base_resp_decode, set_tid_accepted,
}
use pmci.Pldmd.Transport.Exchange.{
  send_receive_pldm_message, rounds, round, round_at, after_answer, after_check, check_response,
  do_send_receive,
}
use pmci.Pldmd.Base.Versions.{
  get_pldm_versions, parse_versions, version_rounds, version_part, parse_fetched, versions_of,
}
use pmci.Pldmd.Base.Versions.Fetch.{
  Version, version_bytes, put_versions, put_u32, parse_versions-put,
}
use pmci.Pldmd.Base.Tables.{
  CommandSupportTable, get_type_codes_from_supported_types, create_version_support_table,
  create_command_support_table, is_supported, codes_from, codes_of_byte, version_table_from,
  command_table_from,
}
use pmci.Pldmd.Base.Discovery.{
  Base, has_timer, register, uuid_of, assign_new, assign_tid, enter, unused_again,
  delete_device_base_info, release_mapped, release_tid_after_reclaim_interval,
  is_terminus_unregistered, cancel_tid_reclaim_timer_if_exists, drop_timer,
}
use pmci.Pldmd.Base.Discovery.Outcome.{
  Same, Registered, failed_registration-Same, new_registration-Registered,
}
use pmci.Pldmd.Base.Discovery.Return.{returned, returned-Registered, failed_return-unused}

-- Headers of three bytes; the data stand behind them.
abbrev codec : BaseCodec
codec = record {
  encode_req = λ id req. (0, (128 + id) ∷ 0 ∷ 0 ∷ []);
  decode_types = λ resp. (0, 0, drop 3 resp);
  decode_version = λ resp.
      (0, 0, record { transfer_handle = 0; transfer_flag = 5; response_version = drop 3 resp });
  decode_commands = λ resp. (0, 0, drop 3 resp);
  decode_tid = λ resp. (0, 0, 0);
  decode_set_tid = λ resp. (0, 0);
  decode_terminus_uid = λ resp. (0, 0, 77);
  crc32 = λ bytes. length bytes % 2 ^ 32;
}

abbrev says : Bytes → Reply
says bytes = record { answer = some bytes; removed = [] }

abbrev bus : TidMap → List Reply → Bus
bus m replies = record {
  tid_mapper = m;
  rsv_bw_active = false;
  reserved_tid = 0;
  reserved_pldm_type = 0;
  instance_map = [];
  replies = replies;
  posts = [];
  grants = [];
  wire = [];
}

-- One version of the type Platform, and its command 3.
abbrev talking : Bus
talking = bus [] (
    says (1 ∷ 1 ∷ 2 ∷ 3 ∷ 240 ∷ 240 ∷ 241 ∷ 241 ∷ 4 ∷ 0 ∷ 0 ∷ 0 ∷ [])
    ∷ says (1 ∷ 2 ∷ 2 ∷ 5 ∷ 8 ∷ [])
    ∷ [])

abbrev small_pool : FifoTidPool
small_pool = (1, true) ∷ (2, false) ∷ []

IsUnique-small_pool : IsUnique small_pool
IsUnique-small_pool t = ground arith

tid_pool-KeepsTids_example : KeepsTids small_pool 2
tid_pool-KeepsTids_example = tid_pool-KeepsTids small_pool 2 IsUnique-small_pool

abbrev version : Version
version = (241, 240, 240, 1)

parse_versions-put_example :
    parse_versions codec.crc32 (put_versions (version ∷ []) ++ put_u32 4)
    ≡ some (version_bytes (version ∷ []))
parse_versions-put_example = parse_versions-put codec.crc32 version [] (λ bytes. omega arith)

abbrev discovered : CommandSupportTable
discovered =
    let v = create_version_support_table codec 9 (4 ∷ []) talking in
    (create_command_support_table codec 9 v.1 v.0).1

uid_supported : is_supported discovered 2 3 ≡ true
unfolding is_supported create_command_support_table command_table_from create_version_support_table
    version_table_from get_type_codes_from_supported_types codes_from codes_of_byte
    get_pldm_versions version_rounds version_part parse_fetched parse_versions versions_of
    get_pldm_commands send_encoded validate_base_req_encode validate_base_resp_decode
    send_receive_pldm_message rounds round round_at after_answer after_check check_response
    do_send_receive validate_reserve_bw get_instance_id get_pldm_message_type get_pldm_packet_type
    create_instance_id base_exchange find assign
uid_supported = refl

-- TID 1 stands behind the endpoint 9 and has the UUID 77.
abbrev one_terminus : Base
one_terminus = record {
  bus = bus ((1, 9) ∷ []) [];
  pool = small_pool;
  uuid_mapping = (77, 1) ∷ [];
  reclaim_timers = [];
  discovery_data_table = (1, []) ∷ [];
}

abbrev sets_tid : CommandSupportTable
sets_tid = (0, ([], 2 ∷ []) ∷ []) ∷ []

one_uuid : uuid_of 1 one_terminus.uuid_mapping ≡ some 77
unfolding uuid_of
one_uuid = refl

uuid_one : find 77 one_terminus.uuid_mapping ≡ some 1
unfolding find
uuid_one = refl

uuid_unknown : find 78 one_terminus.uuid_mapping ≡ none
unfolding find
uuid_unknown = refl

eid_taken : (register codec 9 none none 0 [] one_terminus).1 ≡ none
unfolding register get_free_tid assign_new assign_tid is_supported find enter add_entry unused_again
eid_taken = refl

failed_registration-Same_example :
    Same one_terminus (register codec 9 none none 0 [] one_terminus).0
failed_registration-Same_example =
    failed_registration-Same codec 9 none 0 [] one_terminus IsUnique-small_pool eid_taken

eid_free : (register codec 8 (some 78) none 0 [] one_terminus).1 ≡ some 2
unfolding register get_free_tid assign_new assign_tid is_supported find enter add_entry unused_again
eid_free = refl

new_registration-Registered_example :
    Registered 8 2 (some 78) [] (register codec 8 (some 78) none 0 [] one_terminus).0
new_registration-Registered_example =
    new_registration-Registered codec 8 (some 78) 0 [] 2 one_terminus uuid_unknown eid_free

comes_back : (returned codec 9 77 0 [] 1 one_terminus).1 ≡ some 1
unfolding register delete_device_base_info release_mapped release_tid_after_reclaim_interval uuid_of
    is_terminus_unregistered cancel_tid_reclaim_timer_if_exists drop_timer remove_entry erase
    assign_tid is_supported find enter add_entry unused_again
comes_back = refl

returned-Registered_example :
    let s' = (returned codec 9 77 0 [] 1 one_terminus).0 in
    (◌≡◌ {A = ℕ} 1 1) × Registered 9 1 (some 77) [] s' × (has_timer 1 s'.reclaim_timers ≡ false)
returned-Registered_example =
    returned-Registered codec 9 77 0 [] 1 1 one_terminus one_uuid uuid_one (ground arith) comes_back

set_tid_unanswered : (returned codec 9 77 0 sets_tid 1 one_terminus).1 ≡ none
unfolding register delete_device_base_info release_mapped release_tid_after_reclaim_interval uuid_of
    is_terminus_unregistered cancel_tid_reclaim_timer_if_exists drop_timer remove_entry erase
    assign_tid is_supported set_tid set_tid_accepted enter add_entry unused_again send_encoded
    validate_base_req_encode validate_base_resp_decode send_receive_pldm_message rounds round
    round_at after_answer after_check check_response do_send_receive validate_reserve_bw
    get_instance_id get_pldm_message_type get_pldm_packet_type create_instance_id base_exchange find
    assign
set_tid_unanswered = refl

failed_return-unused_example :
    let s' = (returned codec 9 77 0 sets_tid 1 one_terminus).0 in
    (find_used_tid 1 s'.pool ≡ false)
    × (find 77 s'.uuid_mapping ≡ some 1)
    × (has_timer 1 s'.reclaim_timers ≡ false)
failed_return-unused_example =
    failed_return-unused codec 9 77 0 sets_tid 1 one_terminus IsUnique-small_pool one_uuid uuid_one
      (ground arith) set_tid_unanswered
