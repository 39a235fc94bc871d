-- ===== src/Pldmd/Fru/Transfer.antt =====
-- pldmd/src/fru.cpp, class GetPLDMFRU: the commands that fetch a FRU table. The encoders and decoders
-- of libpldm, and its checksum, are the fields of a record. The map of the metadata has three
-- entries, which are always set together.
use pmci.Prelude.{
  ℕ, zero, suc, ◌+◌, ◌-◌, ◌%◌, ◌^◌, Bool, true, false, ◌||◌, [], ◌++◌, Option, none, some, Bytes,
  length, replicate, ltb, ◌==◌, if◌then◌else◌,
}
use pmci.Pldmd.Transport.Bus.{Bus, create_instance_id, validate_pldm_resp_decode}
use pmci.Pldmd.Base.Versions.{pldm_get_nextpart, pldm_get_firstpart, is_last}
use pmci.Pldmd.Pdr.Transfer.{exchange}

pub record FruMetadata : Type 0 where
  pub fru_table_maximum_size : ℕ
  pub fru_table_length : ℕ
  pub checksum : ℕ

-- What a GetFRURecordTable response decodes into; the data is the rest of the payload.
pub record FruPart : Type 0 where
  pub next_data_transfer_handle : ℕ
  pub transfer_flag : ℕ
  pub fru_record_table_data : Bytes

-- A request takes the instance id; that for a part also its handle and the operation flag, and that
-- to set the table the handle, the transfer flag and the table.
pub record FruCodec : Type 0 where
  pub encode_metadata_req : ℕ → ℕ × Bytes
  pub decode_metadata : Bytes → ℕ × ℕ × FruMetadata
  pub encode_table_req : ℕ → ℕ → ℕ → ℕ × Bytes
  pub decode_table : Bytes → ℕ × ℕ × FruPart
  pub encode_set_req : ℕ → ℕ → ℕ → Bytes → ℕ × Bytes
  pub decode_set : Bytes → ℕ × ℕ × ℕ
  pub crc32 : Bytes → ℕ

abbrev decoded : {A : Type 0} → ℕ × ℕ × A → Option A
decoded (rc, cc, a) = if validate_pldm_resp_decode rc cc then some a else none

abbrev metadata_of : FruCodec → Option Bytes → Option FruMetadata
metadata_of lib none = none
metadata_of lib (some resp) = decoded (lib.decode_metadata resp)

unfoldable pub get_fru_record_table_metadata_cmd : FruCodec → ℕ → Bus → Bus × Option FruMetadata
get_fru_record_table_metadata_cmd lib tid b =
    let (b', instance_id) = create_instance_id tid b in
    let r = exchange tid (lib.encode_metadata_req instance_id) b' in (r.0, metadata_of lib r.1)

-- `responseMsg.size() - pldmHdrSize` of a size_t.
abbrev payload_len : Bytes → ℕ
payload_len resp = (length resp + (2 ^ 64 - 3)) % 2 ^ 64

abbrev table_part_of : FruCodec → Option Bytes → Option FruPart
table_part_of lib none = none
table_part_of lib (some resp) =
    if ltb (payload_len resp) 6 then none else decoded (lib.decode_table resp)

unfoldable pub get_table_part : FruCodec → ℕ → ℕ → ℕ → Bus → Bus × Option FruPart
get_table_part lib tid handle op_flag b =
    let (b', instance_id) = create_instance_id tid b in
    let r = exchange tid (lib.encode_table_req instance_id handle op_flag) b' in
    (r.0, table_part_of lib r.1)

abbrev pub multipart_transfer_limit : ℕ
multipart_transfer_limit = 100

-- `multipartTransferLimit`, the handle and the operation flag of the next request, and the table so
-- far. The length and the limit are tested before each request.
unfoldable pub table_rounds :
    FruCodec → ℕ → FruMetadata → ℕ → ℕ → ℕ → Bytes → Bus → Bus × Option Bytes
table_rounds lib tid metadata zero handle op_flag table b = (b, none)
table_rounds lib tid metadata (suc left) handle op_flag table b =
    elim (ltb metadata.fru_table_length (length table) || left == 0) [
      | true ↦ (b, none)
      | false ↦
          let r = get_table_part lib tid handle op_flag b in
          elim r.1 [
            | none ↦ (r.0, none)
            | some part ↦
                let whole = table ++ part.fru_record_table_data in
                elim (is_last part.transfer_flag) [
                  | true ↦ (r.0, some whole)
                  | false ↦
                      table_rounds lib tid metadata left part.next_data_transfer_handle
                        pldm_get_nextpart whole r.0
                ]
          ]
    ]

-- The table is filled up with zeros to a multiple of four bytes, and stays so.
unfoldable pub padded : Bytes → Bytes
padded table = table ++ replicate ((4 - length table % 4) % 4) 0

unfoldable pub verify_crc : FruCodec → FruMetadata → Bytes → Bool
verify_crc lib metadata table = metadata.checksum == lib.crc32 (padded table)

abbrev pub verified : FruCodec → FruMetadata → Option Bytes → Option Bytes
verified lib metadata none = none
verified lib metadata (some table) =
    if verify_crc lib metadata table then some (padded table) else none

-- The table as it is kept.
unfoldable pub fetch_table : FruCodec → ℕ → FruMetadata → Bus → Bus × Option Bytes
fetch_table lib tid metadata b =
    let r = table_rounds lib tid metadata multipart_transfer_limit 0 pldm_get_firstpart [] b in
    (r.0, verified lib metadata r.1)
