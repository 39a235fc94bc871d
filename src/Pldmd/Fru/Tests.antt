-- ===== src/Pldmd/Fru/Tests.antt =====
-- The FRU data of pldmd/src/fru.cpp for one terminus, whose table has two records.
use pmci.Prelude.{
  ℕ, ◌+◌, ◌≡◌, refl, false, List, [], ◌∷◌, ◌++◌, some, Bytes, arith, length, get_or, drop,
}
use pmci.Prelude.Map.{find, assign}
use pmci.Pldmd.TidMapper.{get_mapped_eid}
use pmci.Pldmd.Transport.Bus.{
  Bus, Reply, create_instance_id, validate_reserve_bw, get_instance_id, get_pldm_message_type,
  get_pldm_packet_type, validate_pldm_req_encode, validate_pldm_resp_decode,
}
use pmci.Pldmd.Transport.Exchange.{
  send_receive_pldm_message, rounds, round, round_at, after_answer, after_check, check_response,
  do_send_receive,
}
use pmci.Pldmd.Pdr.Names.{text}
use pmci.Pldmd.Pdr.Transfer.{exchange}
use pmci.Pldmd.Fru.Table.{
  properties, parse_table, parse_records, is_table_end, parse_fields, field_of, parse_fru_field,
  fru_general_field_types, fru_field_parser_string,
}
use pmci.Pldmd.Fru.Table.RoundTrip.{FruRecord, put_records, table_entries, parse_table-put}
use pmci.Pldmd.Fru.Transfer.{
  FruCodec, get_fru_record_table_metadata_cmd, fetch_table, table_rounds, get_table_part, padded,
  verify_crc,
}
use pmci.Pldmd.Fru.Store.{
  FruStore, succeeded, run_get_fru_commands, run_with, keep_table, finish_run,
  add_fru_object_to_dbus,
}
use pmci.Pldmd.Fru.Store.Stored.{IsStored, IsLocal, run-IsStored}
use pmci.Pldmd.Fru.Store.Consistent.{no_fru, start, ran, IsDeleted, reachable-IsDeleted}

-- A General record with a model and a name, and one of the vendor's own.
abbrev records : List FruRecord
records =
    record {
      low = 1;
      high = 0;
      record_type = 1;
      encoding = 1;
      fields = (2, text "M1") ∷ (8, text "board") ∷ [];
    }
    ∷ record {
      low = 2;
      high = 0;
      record_type = 254;
      encoding = 1;
      fields = (1, 0 ∷ 0 ∷ 1 ∷ 87 ∷ []) ∷ [];
    }
    ∷ []

parse_table-put_example :
    parse_table (put_records records ++ (0 ∷ 0 ∷ [])) ≡ properties (table_entries records [])
parse_table-put_example =
    parse_table-put records (0 ∷ 0 ∷ []) (omega arith) (omega arith, (omega arith, tt))

-- Three bytes of header and the completion code, then the transfer flag and a zero.
abbrev codec : FruCodec
codec = record {
  encode_metadata_req = λ id. (0, (128 + id) ∷ 4 ∷ 1 ∷ []);
  decode_metadata =
      λ resp. (0, 0, record { fru_table_maximum_size = 64; fru_table_length = 32; checksum = 28 });
  encode_table_req = λ id handle flag. (0, (128 + id) ∷ 4 ∷ 2 ∷ []);
  decode_table = λ resp. (
    0,
    get_or resp 3 0,
    record {
      next_data_transfer_handle = 0;
      transfer_flag = get_or resp 4 0;
      fru_record_table_data = drop 9 resp;
    },
  );
  encode_set_req = λ id handle flag bytes. (0, (128 + id) ∷ 4 ∷ 3 ∷ bytes);
  decode_set = λ resp. (0, 0, 0);
  crc32 = λ bytes. length bytes;
}

abbrev says : ℕ → ℕ → ℕ → Bytes → Reply
says id command flag bytes = record {
  answer = some (1 ∷ id ∷ 4 ∷ command ∷ 0 ∷ flag ∷ 0 ∷ 0 ∷ 0 ∷ 0 ∷ bytes);
  removed = [];
}

-- The table comes in two parts.
abbrev talking : Bus
talking = record {
  tid_mapper = (4, 9) ∷ [];
  rsv_bw_active = false;
  reserved_tid = 0;
  reserved_pldm_type = 0;
  instance_map = [];
  replies =
      says 1 1 0 []
      ∷ says 2 2 1 (1 ∷ 0 ∷ 1 ∷ 2 ∷ 1 ∷ 2 ∷ 2 ∷ 77 ∷ 49 ∷ [])
      ∷ says 3 2 4
          (8 ∷ 5 ∷ 98 ∷ 111 ∷ 97 ∷ 114 ∷ 100 ∷ 2 ∷ 0 ∷ 254 ∷ 1 ∷ 1 ∷ 1 ∷ 4 ∷ 0 ∷ 0 ∷ 1 ∷ 87 ∷ [])
      ∷ [];
  posts = [];
  grants = [];
  wire = [];
}

run_succeeds : (run_get_fru_commands codec 4 talking no_fru).2 ≡ succeeded
unfolding run_get_fru_commands run_with keep_table finish_run add_fru_object_to_dbus
    get_fru_record_table_metadata_cmd fetch_table table_rounds get_table_part padded verify_crc
    parse_table parse_records is_table_end parse_fields field_of parse_fru_field
    fru_general_field_types fru_field_parser_string exchange validate_pldm_req_encode
    send_receive_pldm_message validate_reserve_bw create_instance_id rounds round round_at
    after_answer after_check check_response do_send_receive get_mapped_eid find assign
    get_pldm_packet_type get_pldm_message_type get_instance_id validate_pldm_resp_decode
run_succeeds = refl

abbrev after_run : FruStore
after_run = (run_get_fru_commands codec 4 talking no_fru).1

run-IsStored_example :
    IsStored codec 4
      (get_fru_record_table_metadata_cmd codec 4 talking).1
      (λ n. (fetch_table codec 4 n (get_fru_record_table_metadata_cmd codec 4 talking).0).1)
      no_fru
      after_run
      (run_get_fru_commands codec 4 talking no_fru).2
    × IsLocal 4 no_fru after_run
run-IsStored_example = run-IsStored codec 4 talking no_fru

reachable-IsDeleted_example : IsDeleted 4 after_run
reachable-IsDeleted_example = reachable-IsDeleted codec 4 after_run (ran 4 talking no_fru start)
