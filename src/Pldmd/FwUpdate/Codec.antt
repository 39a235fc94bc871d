-- ===== src/Pldmd/FwUpdate/Codec.antt =====
-- What pldmd/src/firmware_update.cpp uses of libpldm, which is not modelled: its constants, and its
-- encoders and decoders as the fields of a record.
use pmci.Prelude.{ℕ, Bool, true, false, Bytes}

abbrev pub pldm_success : ℕ
pldm_success = 0

abbrev pub pldm_error : ℕ
pldm_error = 1

abbrev pub pldm_error_invalid_data : ℕ
pldm_error_invalid_data = 2

abbrev pub not_in_update_mode : ℕ
not_in_update_mode = 0x80

abbrev pub already_in_update_mode : ℕ
already_in_update_mode = 0x81

abbrev pub command_not_expected : ℕ
command_not_expected = 0x88

abbrev pub retry_request_update : ℕ
retry_request_update = 0x8e

-- The PLDM type of firmware update, and its commands.
abbrev pub pldm_fwup : ℕ
pldm_fwup = 5

abbrev pub cmd_get_package_data : ℕ
cmd_get_package_data = 0x11

abbrev pub cmd_request_firmware_data : ℕ
cmd_request_firmware_data = 0x15

abbrev pub cmd_transfer_complete : ℕ
cmd_transfer_complete = 0x16

abbrev pub cmd_verify_complete : ℕ
cmd_verify_complete = 0x17

abbrev pub cmd_apply_complete : ℕ
cmd_apply_complete = 0x18

abbrev pub cmd_get_meta_data : ℕ
cmd_get_meta_data = 0x19

-- Transfer flags and operation flags.
abbrev pub pldm_start : ℕ
pldm_start = 1

abbrev pub pldm_middle : ℕ
pldm_middle = 2

abbrev pub pldm_end : ℕ
pldm_end = 4

abbrev pub pldm_start_and_end : ℕ
pldm_start_and_end = 5

abbrev pub pldm_get_nextpart : ℕ
pldm_get_nextpart = 0

abbrev pub pldm_get_firstpart : ℕ
pldm_get_firstpart = 1

-- enum pldm_firmware_update_state.
pub data FdState : Type 0 where
  fd_idle fd_learn_components fd_ready_xfer fd_download fd_verify fd_apply fd_activate : FdState

abbrev pub is_idle : FdState → Bool
is_idle fd_idle = true
is_idle _ = false

abbrev pub is_learn_components : FdState → Bool
is_learn_components fd_learn_components = true
is_learn_components _ = false

abbrev pub is_ready_xfer : FdState → Bool
is_ready_xfer fd_ready_xfer = true
is_ready_xfer _ = false

abbrev pub is_download : FdState → Bool
is_download fd_download = true
is_download _ = false

abbrev pub is_verify : FdState → Bool
is_verify fd_verify = true
is_verify _ = false

abbrev pub is_apply : FdState → Bool
is_apply fd_apply = true
is_apply _ = false

abbrev pub is_activate : FdState → Bool
is_activate fd_activate = true
is_activate _ = false

-- struct request_update_req.
pub record UpdateProperties : Type 0 where
  pub max_transfer_size : ℕ
  pub no_of_comp : ℕ
  pub max_outstand_transfer_req : ℕ
  pub pkg_data_len : ℕ
  pub comp_image_set_ver_str_type : ℕ
  pub comp_image_set_ver_str_len : ℕ

-- struct pass_component_table_req.
pub record PassComponentTableReq : Type 0 where
  pub transfer_flag : ℕ
  pub comp_classification : ℕ
  pub comp_identifier : ℕ
  pub comp_classification_index : ℕ
  pub comp_comparison_stamp : ℕ
  pub comp_ver_str_type : ℕ
  pub comp_ver_str_len : ℕ

-- struct update_component_req.
pub record UpdateComponentReq : Type 0 where
  pub comp_classification : ℕ
  pub comp_identifier : ℕ
  pub comp_classification_index : ℕ
  pub comp_comparison_stamp : ℕ
  pub comp_image_size : ℕ
  pub update_option_flags : ℕ
  pub comp_ver_str_type : ℕ
  pub comp_ver_str_len : ℕ

-- The requests that the update agent encodes, each with what its encoder is given.
pub data Request : Type 0 where
  request_update : UpdateProperties → Bytes → Request
  get_device_meta_data : ℕ → ℕ → Request
  pass_component_table : PassComponentTableReq → Bytes → Request
  update_component : UpdateComponentReq → Bytes → Request
  activate_firmware : ℕ → Request
  cancel_update_component : Request
  cancel_update : Request

-- The responses that it encodes. A part of data comes with the command, the next transfer handle,
-- the transfer flag and the bytes; a portion of the image with the request that asked for it, the
-- payload length, the completion code and the bytes.
pub data Response : Type 0 where
  cc_only : ℕ → ℕ → Response
  fd_data : ℕ → ℕ → ℕ → Bytes → Response
  firmware_data : Bytes → ℕ → ℕ → Bytes → Response
  transfer_complete : ℕ → Response
  verify_complete : ℕ → Response
  apply_complete : ℕ → Response

-- An encoder gives its return code and the message. A decoder gives its return code and the values
-- of its out-parameters, whose old values it is given.
pub record Libpldm : Type 0 where
  pub encode_req : ℕ → Request → ℕ × Bytes
  pub encode_resp : ℕ → Response → ℕ × Bytes
  -- Completion code, length of the device's meta data, whether it will ask for package data.
  pub decode_request_update_resp : Bytes → ℕ × ℕ × ℕ → ℕ × (ℕ × ℕ × ℕ)
  -- Completion code, next transfer handle, transfer flag; and the portion of meta data.
  pub decode_get_device_meta_data_resp : Bytes → ℕ × ℕ × ℕ → ℕ × (ℕ × ℕ × ℕ) × Bytes
  -- Completion code.
  pub decode_pass_component_table_resp : Bytes → ℕ → ℕ × ℕ
  -- Completion code, compatibility response.
  pub decode_update_component_resp : Bytes → ℕ × ℕ → ℕ × (ℕ × ℕ)
  -- Completion code.
  pub decode_activate_firmware_resp : Bytes → ℕ → ℕ × ℕ
  pub decode_cancel_update_component_resp : Bytes → ℕ → ℕ × ℕ
  pub decode_cancel_update_resp : Bytes → ℕ → ℕ × ℕ
  -- Transfer handle, transfer operation flag.
  pub decode_get_fd_data_req : Bytes → ℕ × ℕ → ℕ × (ℕ × ℕ)
  -- Offset, length. libpldm knows the largest transfer and the size of the component.
  pub decode_request_firmware_data_req : ℕ → ℕ → Bytes → ℕ × ℕ → ℕ × (ℕ × ℕ)
  -- Result.
  pub decode_transfer_complete_req : Bytes → ℕ → ℕ × ℕ
  pub decode_verify_complete_req : Bytes → ℕ → ℕ × ℕ
  pub decode_apply_complete_req : Bytes → ℕ → ℕ × ℕ
