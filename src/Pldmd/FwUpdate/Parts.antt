-- ===== src/Pldmd/FwUpdate/Parts.antt =====
-- pldmd/src/firmware_update.cpp: package data and meta data, which the device fetches in parts.
pub mod Cover
mod Tests
use pmci.Prelude.{
  ℕ, zero, suc, ◌+◌, ◌-◌, ◌*◌, ◌/◌, ◌%◌, ◌^◌, Bool, true, false, not, ◌&&◌, ◌||◌, List, [], ◌∷◌,
  Option, none, some, Bytes, length, take, drop, ltb, leb, ◌==◌, if◌then◌else◌,
}
use pmci.Pldmd.PackageImage.Image.{baseline_transfer_size}
use pmci.Pldmd.FwUpdate.Codec.{
  Libpldm, fd_data, pldm_success, pldm_error, pldm_start, pldm_middle, pldm_end, pldm_start_and_end,
  pldm_get_firstpart, cmd_get_package_data, cmd_get_meta_data,
}
use pmci.Pldmd.FwUpdate.Link.{Link, instance_of, start_timer, post, send_error_completion_code}

-- Sizes are uint32_t here, and size_t in `calcMaxNumReq`.
unfoldable pub find_max_num_req : ℕ → ℕ
find_max_num_req size = ((1 + size / baseline_transfer_size) * 3) % 2 ^ 32

unfoldable pub calc_max_num_req : ℕ → ℕ
calc_max_num_req data_size =
    if data_size == 0
    then 0
    else (let max_num_req = data_size / baseline_transfer_size in
        if ltb 0 (data_size % baseline_transfer_size) then max_num_req + 1 else max_num_req)

-- Offsets and lengths are size_t, whose sums do not reach 2 ^ 64.
unfoldable pub set_transfer_flag : ℕ → ℕ → ℕ → ℕ
set_transfer_flag offset len data_size =
    if ltb (offset + len) data_size
    then (if offset == 0 then pldm_start else pldm_middle)
    else (if offset == 0 then pldm_start_and_end else pldm_end)

-- `std::set<uint32_t>::insert`, for a set of which only the size is read.
unfoldable pub insert_handle : ℕ → List ℕ → List ℕ
insert_handle h [] = h ∷ []
insert_handle h (x ∷ xs) = if x == h then x ∷ xs else x ∷ insert_handle h xs

-- What one request asks for: the length that is used for it and for the requests after it, and the
-- next handle, the transfer flag and the bytes, if it lies in the data.
pub record Part : Type 0 where
  pub len : ℕ
  pub next_data_transfer_handle : ℕ
  pub transfer_flag : ℕ
  pub portion_of_data : Bytes

part_at : Bytes → ℕ → ℕ → ℕ → Part
part_at bytes handle offset len = record {
  len = len;
  next_data_transfer_handle = (handle + 1) % 2 ^ 32;
  transfer_flag = set_transfer_flag offset len (length bytes);
  portion_of_data = take len (drop offset bytes);
}

unfoldable pub cut_part : Bytes → ℕ → ℕ → ℕ → Option Part
unfolding part_at
cut_part bytes handle offset len =
    if ltb (length bytes) (offset + len)
    then (if ltb offset (length bytes)
        then some (part_at bytes handle offset (length bytes - offset))
        else none)
    else some (part_at bytes handle offset len)

-- The handle and the offset of a request, the length before the cut, and the handles seen so far.
unfoldable pub part_start : ℕ → ℕ → ℕ × ℕ
part_start operation_flag handle =
    if operation_flag == pldm_get_firstpart
    then (0, 0)
    else (handle, (handle * baseline_transfer_size) % 2 ^ 32)

unfoldable pub part_len : ℕ → ℕ → ℕ
part_len operation_flag len =
    if operation_flag == pldm_get_firstpart then baseline_transfer_size else len

unfoldable pub plan_part : Bytes → ℕ → ℕ → ℕ → Option Part
unfolding part_start part_len cut_part
plan_part bytes operation_flag handle len =
    cut_part bytes handle (part_start operation_flag handle).1 (part_len operation_flag len)

-- How one request was answered: the return code, the length for the next one, the handles, the link.
pub record Sent : Type 0 where
  pub ret_val : ℕ
  pub len : ℕ
  pub recvd_requests : List ℕ
  pub link : Link

refuse_part : Libpldm → ℕ → ℕ → ℕ → ℕ → List ℕ → Link → Sent
refuse_part lib command fd_instance_id rc len recvd l = record {
  ret_val = rc;
  len = len;
  recvd_requests = recvd;
  link = (send_error_completion_code lib fd_instance_id rc command l).0;
}

post_part : ℕ × Bytes → ℕ → List ℕ → Link → Sent
post_part (rc, msg) len recvd l =
    if not (rc == pldm_success)
    then record { ret_val = rc; len = len; recvd_requests = recvd; link = l }
    else (let (l', sent) = post msg l in
        record {
          ret_val = if sent then pldm_success else pldm_error;
          len = len;
          recvd_requests = recvd;
          link = l';
        })

answer_part : Libpldm → ℕ → ℕ → ℕ → List ℕ → Link → Option Part → Sent
unfolding refuse_part post_part
answer_part lib command fd_instance_id len recvd l none =
    refuse_part lib command fd_instance_id pldm_error len recvd l
answer_part lib command fd_instance_id len recvd l (some p) =
    post_part
      (lib.encode_resp fd_instance_id
        (fd_data command p.next_data_transfer_handle p.transfer_flag p.portion_of_data))
      p.len recvd l

send_decoded : Libpldm → ℕ → Bytes → ℕ → List ℕ → Link → ℕ × (ℕ × ℕ) → Sent
unfolding answer_part
send_decoded lib command bytes len recvd l (rc, (handle, operation_flag)) =
    if not (rc == pldm_success)
    then refuse_part lib command (instance_of l.fd_req) rc len recvd l
    else answer_part lib command (instance_of l.fd_req) (part_len operation_flag len)
        (insert_handle (part_start operation_flag handle).0 recvd) l
        (plan_part bytes operation_flag handle len)

unfoldable pub send_part : Libpldm → ℕ → Bytes → ℕ → List ℕ → Link → Sent
unfolding send_decoded
send_part lib command bytes len recvd l =
    send_decoded lib command bytes len recvd l
      (lib.decode_get_fd_data_req l.fd_req (1, pldm_get_firstpart))

unfoldable pub send_package_data : Libpldm → Bytes → ℕ → List ℕ → Link → Sent
unfolding send_part
send_package_data lib package_data = send_part lib cmd_get_package_data package_data

unfoldable pub send_meta_data : Libpldm → Bytes → ℕ → List ℕ → Link → Sent
unfolding send_part
send_meta_data lib fw_device_meta_data = send_part lib cmd_get_meta_data fw_device_meta_data

-- The end of one round of the loops below, or the values with which they go on.
pub data PartRound : Type 0 where
  stop : ℕ → Link → PartRound
  next : ℕ → List ℕ → Link → PartRound

package_sent : ℕ → Sent → PartRound
package_sent num_expected s =
    let l = record (s.link) { fd_req = [] } in
    let l' = record l { fd_req_matched = false } in
    if not (s.ret_val == pldm_success)
    then stop s.ret_val (record l { expected_cmd = 0 })
    else if length s.recvd_requests == num_expected
    then stop pldm_success (record l' { expected_cmd = 0 })
    else next s.len s.recvd_requests (record l' { expected_cmd = cmd_get_package_data })

package_round : Libpldm → Bytes → ℕ → List ℕ → Link → PartRound
unfolding package_sent
package_round lib bytes len recvd l =
    let l' = start_timer l in
    if not l'.fd_req_matched
    then stop pldm_success (record l' { expected_cmd = 0 })
    else package_sent (calc_max_num_req (length bytes)) (send_package_data lib bytes len recvd l')

-- The rounds of `processSendPackageData` that are left; `retVal` is 0 wherever a round begins.
unfoldable pub package_rounds : ℕ → Libpldm → Bytes → ℕ → List ℕ → Link → Link × ℕ
unfolding package_round
package_rounds zero lib bytes len recvd l = (record l { expected_cmd = 0 }, pldm_success)
package_rounds (suc left) lib bytes len recvd l = elim (package_round lib bytes len recvd l) [
  | stop rc l' ↦ (l', rc)
  | next len' recvd' l' ↦ package_rounds left lib bytes len' recvd' l'
]

meta_sent : ℕ → Sent → PartRound
meta_sent num_expected s =
    let l = record (s.link) { fd_req = [] } in
    let l' = record l { fd_req_matched = false } in
    if not (s.ret_val == pldm_success)
    then stop s.ret_val (record l { expected_cmd = 0 })
    else if length s.recvd_requests == num_expected
    then stop pldm_success (record l' { expected_cmd = 0 })
    else next s.len s.recvd_requests (record l' { expected_cmd = cmd_get_meta_data })

meta_round : Libpldm → Bytes → ℕ → List ℕ → Link → PartRound
unfolding meta_sent
meta_round lib bytes len recvd l =
    let l' = start_timer l in
    if not l'.fd_req_matched
    then stop pldm_error (record l' { expected_cmd = 0; fd_req = [] })
    else meta_sent (calc_max_num_req (length bytes)) (send_meta_data lib bytes len recvd l')

-- The rounds of `processSendMetaData` that are left.
unfoldable pub meta_rounds : ℕ → Libpldm → Bytes → ℕ → List ℕ → Link → Link × ℕ
unfolding meta_round
meta_rounds zero lib bytes len recvd l = (record l { expected_cmd = 0; fd_req = [] }, pldm_success)
meta_rounds (suc left) lib bytes len recvd l = elim (meta_round lib bytes len recvd l) [
  | stop rc l' ↦ (l', rc)
  | next len' recvd' l' ↦ meta_rounds left lib bytes len' recvd' l'
]
