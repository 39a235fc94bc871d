-- ===== src/Pldmd/Pdr/Transfer.antt =====
-- pldmd/src/pdr_manager.cpp: the PDRs of a terminus, fetched record by record and each in parts. The
-- encoders and decoders of libpldm, and its checksum, are the fields of a record.
pub mod Parts
pub mod Bounds
use pmci.Prelude.{
  ℕ, zero, suc, ◌+◌, Bool, true, false, not, ◌&&◌, ◌||◌, List, [], ◌∷◌, ◌++◌, Option, none, some,
  Bytes, length, get_or, ltb, ◌==◌, if◌then◌else◌,
}
use pmci.Prelude.Map.{Map, emplace}
use pmci.Pldmd.PackageImage.Components.{u16_at, u32_at}
use pmci.Pldmd.Transport.Bus.{
  Bus, create_instance_id, validate_pldm_req_encode, validate_pldm_resp_decode,
}
use pmci.Pldmd.Transport.Exchange.{send_receive_pldm_message}
use pmci.Pldmd.Base.Requests.{retry_count}
use pmci.Pldmd.Base.Versions.{pldm_get_nextpart, pldm_get_firstpart, pldm_start, is_last}

pub record RepositoryInfo : Type 0 where
  pub repository_state : ℕ
  pub record_count : ℕ
  pub largest_record_size : ℕ

-- What a GetPDR response decodes into.
pub record PdrPart : Type 0 where
  pub next_record_handle : ℕ
  pub next_data_transfer_handle : ℕ
  pub transfer_flag : ℕ
  pub record_data : Bytes
  pub transfer_crc : ℕ

-- A request for a part: record handle, data transfer handle, operation flag and change number.
pub record PdrRequest : Type 0 where
  pub record_handle : ℕ
  pub data_transfer_handle : ℕ
  pub transfer_op_flag : ℕ
  pub record_change_number : ℕ

-- A GetPDR response is decoded twice: for the number of its bytes, and with a buffer of that size.
pub record PdrCodec : Type 0 where
  pub encode_info_req : ℕ → ℕ × Bytes
  pub decode_info : Bytes → ℕ × ℕ × RepositoryInfo
  pub encode_pdr_req : ℕ → PdrRequest → ℕ × Bytes
  pub decode_pdr_size : Bytes → ℕ × ℕ × ℕ
  pub decode_pdr : ℕ → Bytes → ℕ × ℕ × PdrPart
  pub crc8 : Bytes → ℕ

unfoldable pub exchange : ℕ → ℕ × Bytes → Bus → Bus × Option Bytes
exchange tid (rc, req) b =
    if validate_pldm_req_encode rc
    then send_receive_pldm_message tid retry_count req none b
    else (b, none)

abbrev pub decoded_info : ℕ × ℕ × RepositoryInfo → Option RepositoryInfo
decoded_info (rc, cc, info) = if validate_pldm_resp_decode rc cc then some info else none

abbrev pub info_of : PdrCodec → Option Bytes → Option RepositoryInfo
info_of lib none = none
info_of lib (some resp) = decoded_info (lib.decode_info resp)

unfoldable pub get_pdr_repository_info : PdrCodec → ℕ → Bus → Bus × Option RepositoryInfo
get_pdr_repository_info lib tid b =
    let (b', instance_id) = create_instance_id tid b in
    let r = exchange tid (lib.encode_info_req instance_id) b' in (r.0, info_of lib r.1)

abbrev pub decoded_part : ℕ × ℕ × PdrPart → Option PdrPart
decoded_part (rc, cc, part) = if validate_pldm_resp_decode rc cc then some part else none

abbrev pub sized_part : PdrCodec → Bytes → ℕ × ℕ × ℕ → Option PdrPart
sized_part lib resp (rc, cc, record_data_len) =
    if validate_pldm_resp_decode rc cc
    then decoded_part (lib.decode_pdr record_data_len resp)
    else none

abbrev pub part_of : PdrCodec → Option Bytes → Option PdrPart
part_of lib none = none
part_of lib (some resp) = sized_part lib resp (lib.decode_pdr_size resp)

-- A part is asked for.
unfoldable pub get_part : PdrCodec → ℕ → PdrRequest → Bus → Bus × Option PdrPart
unfolding exchange
get_part lib tid req b =
    let (b', instance_id) = create_instance_id tid b in
    let r = exchange tid (lib.encode_pdr_req instance_id req) b' in (r.0, part_of lib r.1)

abbrev pub pldm_end : ℕ
pldm_end = 4

-- The last part of several has the checksum of the whole record.
unfoldable pub passes_crc : PdrCodec → PdrPart → Bytes → Bool
passes_crc lib part pdr_record =
    not (part.transfer_flag == pldm_end) || lib.crc8 pdr_record == part.transfer_crc

-- The change number is read from the header when the first part of several has come.
unfoldable pub change_number : PdrPart → Bytes → ℕ → ℕ
change_number part pdr_record record_change_number =
    if part.transfer_flag == pldm_start then u16_at 6 pdr_record else record_change_number

unfoldable pub next_request : PdrPart → Bytes → PdrRequest → PdrRequest
next_request part pdr_record req = record req {
  data_transfer_handle = part.next_data_transfer_handle;
  transfer_op_flag = pldm_get_nextpart;
  record_change_number = change_number part pdr_record req.record_change_number;
}

-- `multipartTransferLimit` is decreased after each part, and none may be left out of it.
abbrev pub multipart_transfer_limit : ℕ
multipart_transfer_limit = 100

-- The parts that are left, the request for the next one and the record so far. It gives the record
-- and the handle of the next one.
unfoldable pub pdr_rounds :
    PdrCodec → ℕ → ℕ → ℕ → PdrRequest → Bytes → Bus → Bus × Option (Bytes × ℕ)
pdr_rounds lib tid largest zero req pdr_record b = (b, none)
pdr_rounds lib tid largest (suc left) req pdr_record b =
    let r = get_part lib tid req b in
    elim r.1 [
      | none ↦ (r.0, none)
      | some part ↦
          let whole = pdr_record ++ part.record_data in
          let next = pdr_rounds lib tid largest left (next_request part whole req) whole r.0 in
          if not (passes_crc lib part whole)
          then (r.0, none)
          else if ltb largest (length whole) || left == 0
          then (r.0, none)
          else if is_last part.transfer_flag
          then (r.0, some (whole, part.next_record_handle))
          else next
    ]

abbrev pub first_request : ℕ → PdrRequest
first_request handle = record {
  record_handle = handle;
  data_transfer_handle = 0;
  transfer_op_flag = pldm_get_firstpart;
  record_change_number = 0;
}

unfoldable pub get_device_pdr_record : PdrCodec → ℕ → ℕ → ℕ → Bus → Bus × Option (Bytes × ℕ)
unfolding pdr_rounds
get_device_pdr_record lib tid largest handle b =
    pdr_rounds lib tid largest multipart_transfer_limit (first_request handle) [] b

-- An empty record is not kept; a handle that is there keeps its record.
unfoldable pub keep_record : Bytes → Map Bytes → Map Bytes
keep_record [] device_pdrs = device_pdrs
keep_record (x ∷ xs) device_pdrs = emplace (u32_at 0 (x ∷ xs)) (x ∷ xs) device_pdrs

-- `recordCount`, which is not 0, and the handle of the next record.
unfoldable pub repo_rounds : PdrCodec → ℕ → ℕ → ℕ → ℕ → Map Bytes → Bus → Bus × Option (Map Bytes)
repo_rounds lib tid largest zero handle device_pdrs b = (b, some device_pdrs)
repo_rounds lib tid largest (suc left) handle device_pdrs b =
    let r = get_device_pdr_record lib tid largest handle b in
    elim r.1 [
      | none ↦ (r.0, none)
      | some (pdr_record, next) ↦
          let kept = keep_record pdr_record device_pdrs in
          let rest = repo_rounds lib tid largest left next kept r.0 in
          if next == 0 || left == 0 then (r.0, some kept) else rest
    ]

-- The tries that are left; each starts with no records.
unfoldable pub fetch_tries : PdrCodec → ℕ → ℕ → ℕ → ℕ → Bus → Bus × Option (Map Bytes)
fetch_tries lib tid largest record_count zero b = (b, none)
fetch_tries lib tid largest record_count (suc tries) b =
    let r = repo_rounds lib tid largest record_count 0 [] b in
    elim r.1 [
      | some device_pdrs ↦ (r.0, some device_pdrs)
      | none ↦ fetch_tries lib tid largest record_count tries r.0
    ]

-- The records of a repository that can be read.
unfoldable pub fetch_records : PdrCodec → ℕ → RepositoryInfo → Bus → Bus × Option (Map Bytes)
unfolding fetch_tries
fetch_records lib tid info b =
    if not (info.repository_state == 0)
    then (b, none)
    else if info.record_count == 0
    then (b, none)
    else fetch_tries lib tid info.largest_record_size info.record_count 3 b
