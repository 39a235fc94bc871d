-- ===== src/Pldmd/Base/Versions.antt =====
-- pldmd/src/base.cpp, getPLDMVersions: the versions of a PLDM type, fetched in parts.
pub mod Fetch
use pmci.Prelude.{
  ℕ, zero, suc, ◌+◌, ◌-◌, ◌*◌, ◌%◌, ◌≡◌, refl, Bool, true, false, not, ◌||◌, List, [], ◌∷◌, ◌++◌,
  Option, none, some, Bytes, arith, length, take, drop, ltb, ◌==◌, if◌then◌else◌, ap, ◌∙◌,
}
use pmci.Pldmd.PackageImage.Components.{u32_at}
use pmci.Pldmd.Transport.Bus.{Bus, create_instance_id}
use pmci.Pldmd.Base.Requests.{
  BaseCodec, VersionPart, get_version, default_tid, send_encoded, with_decoder,
}

-- Operation flags and transfer flags.
abbrev pub pldm_get_nextpart : ℕ
pldm_get_nextpart = 0

abbrev pub pldm_get_firstpart : ℕ
pldm_get_firstpart = 1

abbrev pub pldm_start : ℕ
pldm_start = 1

abbrev pub is_last : ℕ → Bool
is_last transfer_flag = transfer_flag == 4 || transfer_flag == 5

-- `maxTransfers` is an int8_t that starts at 16, and is compared before it is decreased.
abbrev pub max_transfers : ℕ
max_transfers = 17

-- A response is appended, and the next part asked for; or the transfer fails.
unfoldable pub version_part : BaseCodec → ℕ → ℕ → ℕ → ℕ → ℕ → Bus → Bus × Option VersionPart
version_part lib eid instance_id pldm_type handle op_flag b =
    with_decoder lib.decode_version
      (send_encoded eid (lib.encode_req instance_id (get_version handle op_flag pldm_type)) b)

-- The rounds that are left, and the loop's variables. It gives the version data.
unfoldable pub version_rounds :
    BaseCodec → ℕ → ℕ → ℕ → ℕ → ℕ → ℕ → ℕ → Bytes → Bus → Bus × Option Bytes
version_rounds lib eid instance_id pldm_type zero handle op_flag flag buffer b =
    (b, if is_last flag then some buffer else none)
version_rounds lib eid instance_id pldm_type (suc left) handle op_flag flag buffer b =
    elim (is_last flag) [
      | true ↦ (b, some buffer)
      | false ↦
          let r = version_part lib eid instance_id pldm_type handle op_flag b in
          elim r.1 [
            | none ↦ (r.0, none)
            | some part ↦
                version_rounds lib eid instance_id pldm_type left part.transfer_handle
                  pldm_get_nextpart part.transfer_flag (buffer ++ part.response_version) r.0
          ]
    ]

-- The versions, each as the four bytes of a ver32_t: the message has them in the other order.
unfoldable pub versions_of : Bytes → List Bytes
versions_of (a ∷ b ∷ c ∷ d ∷ rest) = (d ∷ c ∷ b ∷ a ∷ []) ∷ versions_of rest
versions_of _ = []

-- Behind the versions stands their checksum.
unfoldable pub parse_versions : (Bytes → ℕ) → Bytes → Option (List Bytes)
unfolding versions_of
parse_versions crc32 data_buffer =
    let version_data_size = length data_buffer - 4 in
    let version_data = take version_data_size data_buffer in
    if ltb (length data_buffer) 8
    then none
    else if not (version_data_size % 4 == 0)
    then none
    else if u32_at version_data_size data_buffer == crc32 version_data
    then some (versions_of version_data)
    else none

unfoldable pub parse_fetched : BaseCodec → Bus × Option Bytes → Bus × Option (List Bytes)
unfolding parse_versions
parse_fetched lib (b, none) = (b, none)
parse_fetched lib (b, some data_buffer) = (b, parse_versions lib.crc32 data_buffer)

unfoldable pub get_pldm_versions : BaseCodec → ℕ → ℕ → Bus → Bus × Option (List Bytes)
unfolding parse_fetched
get_pldm_versions lib eid pldm_type b =
    let (b', instance_id) = create_instance_id default_tid b in
    parse_fetched lib (
      version_rounds lib eid instance_id pldm_type max_transfers 0 pldm_get_firstpart pldm_start []
        b')
