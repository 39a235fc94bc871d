-- ===== src/Pldmd/FwUpdate/Commands.antt =====
-- pldmd/src/firmware_update.cpp: the commands that the update agent sends.
pub mod Tries
use pmci.Prelude.{
  ℕ, zero, suc, ◌+◌, ◌-◌, ◌*◌, ◌%◌, ◌^◌, Bool, true, false, not, ◌&&◌, ◌||◌, List, [], ◌∷◌, ◌++◌,
  Option, none, some, Bytes, length, ltb, leb, ◌==◌, if◌then◌else◌,
}
use pmci.Pldmd.PackageImage.Image.{
  PldmImg, DevIdProperties, get_dev_id_properties, baseline_transfer_size,
}
use pmci.Pldmd.Transport.Bus.{validate_pldm_req_encode, validate_pldm_resp_decode}
use pmci.Pldmd.FwUpdate.Codec.{
  Libpldm, Request, request_update, get_device_meta_data, pass_component_table, update_component,
  activate_firmware, cancel_update_component, cancel_update, FdState, fd_idle, fd_ready_xfer,
  fd_activate, is_idle, is_learn_components, is_ready_xfer, is_download, is_verify, is_apply,
  is_activate, pldm_success, pldm_error, not_in_update_mode, already_in_update_mode,
  command_not_expected, retry_request_update, pldm_start, pldm_end, pldm_start_and_end,
  pldm_get_firstpart, pldm_get_nextpart, cmd_get_package_data, cmd_get_meta_data,
  PassComponentTableReq, UpdateComponentReq,
}
use pmci.Pldmd.FwUpdate.Link.{Link, suspend, new_instance_id, exchange, retry_count}
use pmci.Pldmd.FwUpdate.Parts.{find_max_num_req, package_rounds, meta_rounds}
use pmci.Pldmd.FwUpdate.State.{
  Fwu, prepare_request_update_command, prepare_pass_component_request,
  prepare_update_component_request, is_component_applicable,
}

-- A request with a new instance id: the return code of its encoder, and the message.
unfoldable pub encode : Libpldm → Request → Link → Link × (ℕ × Bytes)
encode lib req l = let (l', id) = new_instance_id l in (l', lib.encode_req id req)

-- What comes of a request that is sent once: the return code of the encoder, no response, or one.
pub data Outcome : Type 0 where
  not_encoded : ℕ → Outcome
  no_response : Outcome
  responded : Bytes → Outcome

exchanged : Link × Option Bytes → Link × Outcome
exchanged (l, none) = (l, no_response)
exchanged (l, some resp) = (l, responded resp)

exchange_encoded : Link × (ℕ × Bytes) → Link × Outcome
unfolding exchanged
exchange_encoded (l, (rc, msg)) =
    if not (validate_pldm_req_encode rc) then (l, not_encoded rc) else exchanged (exchange msg l)

unfoldable pub command : Libpldm → Request → Link → Link × Outcome
unfolding exchange_encoded encode
command lib req l = exchange_encoded (encode lib req l)

-- The tail of every command: the decoder's return code, or success. It returns the former, also where
-- only the completion code is bad.
unfoldable pub decoded : ℕ → ℕ → ℕ
decoded rc completion_code =
    if not (validate_pldm_resp_decode rc completion_code) then rc else pldm_success

-- The values that RequestUpdate's response decodes into.
abbrev outs_of : Fwu → ℕ × ℕ × ℕ
outs_of s = (s.completion_code, s.fw_device_meta_data_len, s.fd_will_send_get_pkg_data_cmd)

abbrev with_outs : ℕ × ℕ × ℕ → Fwu → Fwu
with_outs o s = record s {
  completion_code = o.0;
  fw_device_meta_data_len = o.1;
  fd_will_send_get_pkg_data_cmd = o.2;
}

-- The end of one try of `requestUpdate`, or its decoded values.
request_update_response : Libpldm → Fwu → Link × Option Bytes → Fwu × Option ℕ
request_update_response lib s (l, none) = (record s { link = l }, none)
request_update_response lib s (l, some resp) =
    let (rc, outs) = lib.decode_request_update_resp resp (outs_of s) in
    (with_outs outs (record s { link = l }), some rc)

abbrev delay_before : ℕ → Link → Link
delay_before rc l = if rc == retry_request_update then suspend l else l

request_update_try : Libpldm → ℕ → Bytes → Fwu → Fwu × Option ℕ
unfolding request_update_response
request_update_try lib rc msg s =
    request_update_response lib s (exchange msg (delay_before rc s.link))

-- The tries that may follow; `none` where no response came.
unfoldable pub request_update_tries : ℕ → Libpldm → ℕ → Bytes → Fwu → Fwu × Option ℕ
unfolding request_update_try
request_update_tries zero lib rc msg s = request_update_try lib rc msg s
request_update_tries (suc more) lib rc msg s =
    let r = request_update_try lib rc msg s in
    elim (r.1) [
      | none ↦ (r.0, none)
      | some rc' ↦ elim (r.0.completion_code == retry_request_update) [
        | true ↦ request_update_tries more lib rc' msg r.0
        | false ↦ (r.0, some rc')
      ]
    ]

request_update_end : Fwu × Option ℕ → Fwu × ℕ
request_update_end (s, none) = (s, pldm_error)
request_update_end (s, some rc) =
    if s.completion_code == retry_request_update then (s, rc) else (s, decoded rc s.completion_code)

request_update_encoded : Libpldm → Fwu → Link × (ℕ × Bytes) → Fwu × ℕ
unfolding request_update_end
request_update_encoded lib s (l, (rc, msg)) =
    if not (validate_pldm_req_encode rc)
    then (record s { link = l }, rc)
    else request_update_end (request_update_tries 2 lib rc msg (record s { link = l }))

unfoldable pub do_request_update : Libpldm → Fwu → Fwu × ℕ
unfolding request_update_encoded
do_request_update lib s =
    request_update_encoded lib s
      (encode lib (request_update s.update_properties s.component_image_set_version_string) s.link)

request_prepared : Libpldm → Fwu × Bool → Fwu × ℕ
request_prepared lib (s, ready) = if not ready then (s, pldm_error) else do_request_update lib s

unfoldable pub process_request_update : Libpldm → PldmImg → Fwu → Fwu × ℕ
unfolding request_prepared
process_request_update lib img s =
    if s.update_mode
    then (s, already_in_update_mode)
    else if not (is_idle s.fd_state)
    then (s, not_in_update_mode)
    else request_prepared lib (prepare_request_update_command img s)

-- GetDeviceMetaData: the next handle and transfer flag come back with the return code.
meta_decoded : Fwu → ℕ × (ℕ × ℕ × ℕ) × Bytes → Fwu × ℕ × ℕ × ℕ
meta_decoded s (rc, (cc, next, flag), portion) =
    let s' = record s { completion_code = cc } in
    if not (validate_pldm_resp_decode rc cc) then (s', rc, next, flag) else (
      record s' { fw_device_meta_data = s.fw_device_meta_data ++ portion },
      pldm_success,
      next,
      flag,
    )

meta_outcome : Libpldm → Fwu → ℕ → ℕ → Link × Outcome → Fwu × ℕ × ℕ × ℕ
unfolding meta_decoded
meta_outcome lib s next flag (l, not_encoded rc) = (record s { link = l }, rc, next, flag)
meta_outcome lib s next flag (l, no_response) = (record s { link = l }, pldm_error, next, flag)
meta_outcome lib s next flag (l, responded resp) =
    meta_decoded (record s { link = l })
      (lib.decode_get_device_meta_data_resp resp (s.completion_code, next, flag))

unfoldable pub do_get_device_meta_data : Libpldm → ℕ → ℕ → ℕ → ℕ → Fwu → Fwu × ℕ × ℕ × ℕ
unfolding meta_outcome
do_get_device_meta_data lib handle operation_flag next flag s =
    meta_outcome lib s next flag (command lib (get_device_meta_data handle operation_flag) s.link)

abbrev pub device_meta_data_response_count : ℕ
device_meta_data_response_count = 100

-- The responses that may still come before the limit; the count is a uint8_t that cannot wrap.
unfoldable pub meta_data_rounds : ℕ → Libpldm → ℕ → ℕ → ℕ → ℕ → Fwu → Fwu × ℕ
meta_data_rounds zero lib handle operation_flag next flag s =
    let (s', rc, next', flag') = do_get_device_meta_data lib handle operation_flag next flag s in
    if not (rc == pldm_success)
    then (s', rc)
    else (record s' { fw_device_meta_data = [] }, pldm_error)
meta_data_rounds (suc left) lib handle operation_flag next flag s =
    let (s', rc, next', flag') = do_get_device_meta_data lib handle operation_flag next flag s in
    let rest = meta_data_rounds left lib next' pldm_get_nextpart next' flag' s' in
    if not (rc == pldm_success)
    then (s', rc)
    else if flag' == pldm_start_and_end || flag' == pldm_end
    then (s', pldm_success)
    else rest

unfoldable pub process_get_device_meta_data : Libpldm → Fwu → Fwu × ℕ
process_get_device_meta_data lib s =
    if not s.update_mode
    then (s, not_in_update_mode)
    else if not (is_learn_components s.fd_state)
    then (s, command_not_expected)
    else if s.fw_device_meta_data_len == 0
    then (s, pldm_success)
    else meta_data_rounds device_meta_data_response_count lib 0 pldm_get_firstpart 0 pldm_start s

send_package : Libpldm → Option DevIdProperties → Fwu → Fwu × ℕ
send_package lib none s = (s, pldm_error)
send_package lib (some p) s =
    let s' = record s { package_data = p.fw_device_package_data } in
    let l = record (s.link) { expected_cmd = cmd_get_package_data } in
    let (l', rc) =
      package_rounds (find_max_num_req (length p.fw_device_package_data)) lib
        p.fw_device_package_data baseline_transfer_size [] l in
    if length p.fw_device_package_data == 0 then (s', pldm_error) else (record s' { link = l' }, rc)

unfoldable pub process_send_package_data : Libpldm → PldmImg → Fwu → Fwu × ℕ
unfolding send_package
process_send_package_data lib img s =
    if not (is_learn_components s.fd_state) || not s.update_mode
    then (s, command_not_expected)
    else if not (s.fd_will_send_get_pkg_data_cmd == 1)
    then (s, pldm_success)
    else send_package lib (get_dev_id_properties img s.current_device_id_record) s

unfoldable pub process_send_meta_data : Libpldm → Fwu → Fwu × ℕ
process_send_meta_data lib s =
    let l = record (s.link) { expected_cmd = cmd_get_meta_data } in
    let max_num_req = find_max_num_req (length s.fw_device_meta_data) in
    let (l', rc) = meta_rounds max_num_req lib s.fw_device_meta_data baseline_transfer_size [] l in
    if is_learn_components s.fd_state || is_idle s.fd_state
    then (s, command_not_expected)
    else if s.fw_device_meta_data_len == 0 || length s.fw_device_meta_data == 0
    then (s, pldm_success)
    else if max_num_req == 0
    then (record s { link = l }, pldm_error)
    else (record s { link = l' }, rc)
