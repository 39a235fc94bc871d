-- ===== src/Pldmd/Base/Requests.antt =====
-- pldmd/src/base.cpp: the requests that discovery sends, and getTerminusUID of pldmd/src/platform.cpp.
-- The encoders and decoders of libpldm, and its checksum, are the fields of a record.
use pmci.Prelude.{ℕ, Bool, true, false, not, Option, none, some, Bytes, ◌==◌, if◌then◌else◌}
use pmci.Pldmd.Transport.Bus.{Bus, create_instance_id}
use pmci.Pldmd.Transport.Exchange.{send_receive_pldm_message}

pub data BaseRequest : Type 0 where
  get_types : BaseRequest
  -- Transfer handle, operation flag and PLDM type.
  get_version : ℕ → ℕ → ℕ → BaseRequest
  get_commands : ℕ → Bytes → BaseRequest
  get_tid_req : BaseRequest
  set_tid_req : ℕ → BaseRequest
  get_terminus_uid : BaseRequest

-- What a GetPLDMVersion response decodes into.
pub record VersionPart : Type 0 where
  pub transfer_handle : ℕ
  pub transfer_flag : ℕ
  pub response_version : Bytes

-- An encoder gives its return code and the message, a decoder its return code, the completion code
-- and the value.
pub record BaseCodec : Type 0 where
  pub encode_req : ℕ → BaseRequest → ℕ × Bytes
  pub decode_types : Bytes → ℕ × ℕ × Bytes
  pub decode_version : Bytes → ℕ × ℕ × VersionPart
  pub decode_commands : Bytes → ℕ × ℕ × Bytes
  pub decode_tid : Bytes → ℕ × ℕ × ℕ
  pub decode_set_tid : Bytes → ℕ × ℕ
  pub decode_terminus_uid : Bytes → ℕ × ℕ × ℕ
  pub crc32 : Bytes → ℕ

abbrev pub default_tid : ℕ
default_tid = 0

-- `retryCount`, and `commandRetryCount` of the platform code.
abbrev pub retry_count : ℕ
retry_count = 3

unfoldable pub validate_base_req_encode : ℕ → Bool
validate_base_req_encode rc = rc == 0

unfoldable pub validate_base_resp_decode : ℕ → ℕ → Bool
validate_base_resp_decode rc completion_code =
    if not (rc == 0) then false else if not (completion_code == 0) then false else true

abbrev pub valid_value : {A : Type 0} → Bool → A → Option A
valid_value false v = none
valid_value true v = some v

-- The response's value, if the codes are good.
abbrev pub decode_with : {A : Type 0} → (Bytes → ℕ × ℕ × A) → Option Bytes → Option A
decode_with decode none = none
decode_with decode (some resp) =
    let (rc, cc, v) = decode resp in valid_value (validate_base_resp_decode rc cc) v

-- A message that was encoded goes out, with TID 0 since the EID is given.
unfoldable pub send_encoded : ℕ → ℕ × Bytes → Bus → Bus × Option Bytes
send_encoded eid (rc, msg) b =
    if validate_base_req_encode rc
    then send_receive_pldm_message default_tid retry_count msg (some eid) b
    else (b, none)

unfoldable pub base_exchange : BaseCodec → ℕ → BaseRequest → Bus → Bus × Option Bytes
base_exchange lib eid req b =
    let (b', instance_id) = create_instance_id default_tid b in
    send_encoded eid (lib.encode_req instance_id req) b'

abbrev pub with_decoder : {A : Type 0} → (Bytes → ℕ × ℕ × A) → Bus × Option Bytes → Bus × Option A
with_decoder decode (b, resp) = (b, decode_with decode resp)

unfoldable pub get_supported_pldm_types : BaseCodec → ℕ → Bus → Bus × Option Bytes
get_supported_pldm_types lib eid b =
    with_decoder lib.decode_types (base_exchange lib eid get_types b)

unfoldable pub get_pldm_commands : BaseCodec → ℕ → ℕ → Bytes → Bus → Bus × Option Bytes
get_pldm_commands lib eid pldm_type version b =
    with_decoder lib.decode_commands (base_exchange lib eid (get_commands pldm_type version) b)

unfoldable pub get_tid : BaseCodec → ℕ → Bus → Bus × Option ℕ
get_tid lib eid b = with_decoder lib.decode_tid (base_exchange lib eid get_tid_req b)

unfoldable pub set_tid_accepted : BaseCodec → Option Bytes → Bool
set_tid_accepted lib none = false
set_tid_accepted lib (some resp) =
    let (rc, cc) = lib.decode_set_tid resp in validate_base_resp_decode rc cc

unfoldable pub set_tid : BaseCodec → ℕ → ℕ → Bus → Bus × Bool
unfolding set_tid_accepted
set_tid lib eid tid b =
    let (b', resp) = base_exchange lib eid (set_tid_req tid) b in (b', set_tid_accepted lib resp)

-- The number that the sixteen bytes of the UUID make. Discovery calls it with TID 0.
unfoldable pub get_terminus_uid_of : BaseCodec → ℕ → Bus → Bus × Option ℕ
get_terminus_uid_of lib eid b =
    with_decoder lib.decode_terminus_uid (base_exchange lib eid get_terminus_uid b)
