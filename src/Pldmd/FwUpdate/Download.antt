-- ===== src/Pldmd/FwUpdate/Download.antt =====
-- pldmd/src/firmware_update.cpp: the device fetches a component's image.
pub mod Portion
use pmci.Prelude.{
  ℕ, zero, suc, ◌+◌, ◌-◌, ◌%◌, ◌^◌, Bool, true, false, not, ◌&&◌, ◌||◌, List, [], ◌∷◌, ◌++◌, Option,
  none, some, Bytes, length, replicate, ltb, ◌==◌, if◌then◌else◌,
}
use pmci.Pldmd.PackageImage.Image.{PldmImg, CompProperties, get_comp_properties, read_data}
use pmci.Pldmd.FwUpdate.Codec.{
  Libpldm, firmware_data, is_download, pldm_success, pldm_error, command_not_expected,
  cmd_request_firmware_data, cmd_transfer_complete,
}
use pmci.Pldmd.FwUpdate.Link.{Link, instance_of, start_timer, post, send_error_completion_code}
use pmci.Pldmd.FwUpdate.Parts.{find_max_num_req}
use pmci.Pldmd.FwUpdate.State.{Fwu}

-- Offsets, lengths and sizes are uint32_t, and their sums wrap.
abbrev pub u32 : ℕ → ℕ
u32 n = n % 2 ^ 32

-- The length that is read, if the request lies in the component.
unfoldable pub clamp_length : ℕ → ℕ → ℕ → Option ℕ
clamp_length offset len component_size =
    if ltb component_size (u32 (offset + len))
    then (if ltb offset component_size then some (component_size - offset) else none)
    else some len

-- What is read is put at the front of a vector of zeros, as long as the request asks for.
padded : ℕ → Option Bytes × Bool → Option Bytes × Bool
padded len (none, good) = (none, good)
padded len (some bytes, good) = (some (bytes ++ replicate (len - length bytes) 0), good)

portion_of : Bytes → ℕ → ℕ → ℕ → Bool → Option ℕ → Option Bytes × Bool
unfolding padded
portion_of file offset len component_offset good none = (none, good)
portion_of file offset len component_offset good (some n) =
    padded len (read_data file (u32 (offset + component_offset)) n good)

-- The bytes that answer a request, if it can be answered, and the state of the stream.
unfoldable pub read_portion : Bytes → ℕ → ℕ → ℕ → ℕ → Bool → Option Bytes × Bool
unfolding portion_of
read_portion file offset len component_size component_offset good =
    portion_of file offset len component_offset good (clamp_length offset len component_size)

-- How one request was answered: the return code, the offset and length as they are left, the stream
-- and the link.
pub record Served : Type 0 where
  pub ret_val : ℕ
  pub offset : ℕ
  pub len : ℕ
  pub good : Bool
  pub link : Link

abbrev or_len : ℕ → Option ℕ → ℕ
or_len len none = len
or_len len (some n) = n

post_portion : ℕ × Bytes → ℕ → ℕ → Bool → Link → Served
post_portion (rc, msg) offset len good l =
    if not (rc == pldm_success)
    then record { ret_val = rc; offset = offset; len = len; good = good; link = l }
    else (let (l', sent) = post msg l in
        record {
          ret_val = if sent then pldm_success else pldm_error;
          offset = offset;
          len = len;
          good = good;
          link = l';
        })

refuse_portion : Libpldm → ℕ → ℕ → ℕ → Bool → Bytes → Link → Served
refuse_portion lib rc offset len good req l = record {
  ret_val = rc;
  offset = offset;
  len = len;
  good = good;
  link = (send_error_completion_code lib (instance_of req) rc cmd_request_firmware_data l).0;
}

-- `asked` is the length that the request asks for, `len` what it was cut to.
answer_portion : Libpldm → ℕ → Bytes → ℕ → ℕ → ℕ → Option Bytes × Bool → Link → Served
unfolding post_portion refuse_portion
answer_portion lib completion_code req offset asked len (none, good) l =
    refuse_portion lib pldm_error offset len good req l
answer_portion lib completion_code req offset asked len (some portion, good) l =
    post_portion
      (lib.encode_resp (instance_of req) (firmware_data req (1 + asked) completion_code portion))
      offset len good l

serve_decoded : Libpldm → PldmImg → ℕ → ℕ → ℕ → Bytes → ℕ × (ℕ × ℕ) → Bool → Link → Served
unfolding answer_portion
serve_decoded lib img completion_code component_size component_offset req (rc, (offset, len)) good
      l =
    if not (rc == pldm_success)
    then refuse_portion lib rc offset len good req l
    else answer_portion lib completion_code req offset len
        (or_len len (clamp_length offset len component_size))
        (read_portion img.file offset len component_size component_offset good) l

unfoldable pub request_firmware_data :
    Libpldm → PldmImg → ℕ → ℕ → ℕ → ℕ → ℕ → ℕ → Bool → Link → Served
unfolding serve_decoded
request_firmware_data lib img completion_code max_transfer_size component_size component_offset
      offset len good l =
    serve_decoded lib img completion_code component_size component_offset l.fd_req
      (lib.decode_request_firmware_data_req max_transfer_size component_size l.fd_req (offset, len))
      good l

-- The end of one round of the loop, or the values with which it goes on: the return code so far, the
-- offset and the length, the stream and the link. A loop that runs out of rounds fails.
pub data DataRound : Type 0 where
  leave : ℕ → Bool → Link → DataRound
  next : ℕ → ℕ → ℕ → Bool → Link → DataRound

served : ℕ → Served → DataRound
served component_size r =
    let l = record (r.link) { fd_req = [] } in
    if not (r.ret_val == pldm_success)
    then next r.ret_val r.offset r.len r.good r.link
    else if ltb component_size (u32 (r.offset + r.len))
    then leave pldm_success r.good (record l { expected_cmd = cmd_transfer_complete })
    else next pldm_success r.offset r.len r.good l

data_round : Libpldm → PldmImg → ℕ → ℕ → ℕ → ℕ → ℕ → ℕ → ℕ → Bool → Link → DataRound
unfolding served
data_round lib img cc max size component_offset rc offset len good l =
    let l1 = start_timer l in
    let l2 = record l1 { fd_req_matched = false } in
    if not l1.fd_req_matched
    then leave rc good l1
    else if l1.fd_transfer_completed
    then leave rc good (record l2 { fd_transfer_completed = false })
    else served size (request_firmware_data lib img cc max size component_offset offset len good l2)

unfoldable pub data_rounds :
    ℕ → Libpldm → PldmImg → ℕ → ℕ → ℕ → ℕ → ℕ → ℕ → ℕ → Bool → Link → ℕ × Bool × Link
unfolding data_round
data_rounds zero lib img cc max size component_offset rc offset len good l = (pldm_error, good, l)
data_rounds (suc left) lib img cc max size component_offset rc offset len good l =
    elim (data_round lib img cc max size component_offset rc offset len good l) [
      | leave rc' good' l' ↦ (rc', good', l')
      | next rc' offset' len' good' l' ↦
          data_rounds left lib img cc max size component_offset rc' offset' len' good' l'
    ]

download_from : Libpldm → PldmImg → Option CompProperties → Fwu → Fwu × ℕ
unfolding data_rounds
download_from lib img none s = (s, pldm_error)
download_from lib img (some p) s =
    let (rc, good, l) =
      data_rounds (find_max_num_req p.comp_size - 1) lib img s.completion_code
        s.update_properties.max_transfer_size p.comp_size p.comp_location_offset pldm_success 0 0
        s.stream_good s.link in
    (record s { link = l; stream_good = good }, rc)

unfoldable pub process_request_firmware_data : Libpldm → PldmImg → Fwu → Fwu × ℕ
unfolding download_from
process_request_firmware_data lib img s =
    if not s.update_mode || not (is_download s.fd_state)
    then (s, command_not_expected)
    else download_from lib img (get_comp_properties img s.current_comp) s
