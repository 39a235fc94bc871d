-- ===== src/Pldmd/Transport/Bus.antt =====
-- pldmd/src/pldmd.cpp: the daemon's globals, bandwidth reservation and message headers.
use pmci.Prelude.{
  ℕ, ◌+◌, ◌/◌, Bool, true, false, not, ◌&&◌, ◌||◌, List, [], ◌∷◌, Option, none, some, Bytes, ◌==◌,
  if◌then◌else◌, bit_and, ◌^◌,
}
use pmci.Prelude.Map.{Map, find, assign}
use pmci.Pldmd.TidMapper.{TidMap, get_mapped_eid}

-- A call of the MCTP wrapper.
pub data Packet : Type 0 where
  request : ℕ → Bytes → Packet
  message : ℕ → ℕ → Bool → Bytes → Packet
  reserve : ℕ → ℕ → Packet
  release : ℕ → Packet
  discover : ℕ → Packet

-- How one `sendReceiveYield` ends: with a response or with an error, and with the termini that were
-- removed from the mapper while the coroutine waited.
pub record Reply : Type 0 where
  pub answer : Option Bytes
  pub removed : List ℕ

pub record Bus : Type 0 where
  pub tid_mapper : TidMap
  pub rsv_bw_active : Bool
  pub reserved_tid : ℕ
  pub reserved_pldm_type : ℕ
  pub instance_map : Map ℕ
  pub replies : List Reply
  pub posts : List Bool
  pub grants : List Bool
  pub wire : List Packet

abbrev pub pldm_invalid_tid : ℕ
pldm_invalid_tid = 0

abbrev pub pldm_invalid_type : ℕ
pldm_invalid_type = 0xff

-- `mctpw::MessageType::pldm`.
abbrev pub mctp_type_pldm : ℕ
mctp_type_pldm = 1

abbrev pub head_or : {A : Type 0} → A → List A → A
head_or d [] = d
head_or d (x ∷ xs) = x

abbrev pub tail : {A : Type 0} → List A → List A
tail [] = []
tail (x ∷ xs) = xs

unfoldable pub validate_reserve_bw : ℕ → ℕ → Bus → Bool
validate_reserve_bw tid pldm_type b =
    b.rsv_bw_active && not (tid == b.reserved_tid && pldm_type == b.reserved_pldm_type)

unfoldable pub reserve_at : Option ℕ → ℕ → ℕ → ℕ → Bus → Bus × Bool
reserve_at none tid pldm_type timeout b = (b, false)
reserve_at (some eid) tid pldm_type timeout b =
    let b' = record b { grants = tail b.grants; wire = reserve eid timeout ∷ b.wire } in
    if head_or false b.grants
    then (
      record b' { rsv_bw_active = true; reserved_tid = tid; reserved_pldm_type = pldm_type },
      true,
    )
    else (b', false)

unfoldable pub reserve_bandwidth : ℕ → ℕ → ℕ → Bus → Bus × Bool
unfolding validate_reserve_bw reserve_at
reserve_bandwidth tid pldm_type timeout b =
    if validate_reserve_bw tid pldm_type b
    then (b, false)
    else reserve_at (get_mapped_eid tid b.tid_mapper) tid pldm_type timeout b

unfoldable pub release_at : Option ℕ → Bus → Bus × Bool
release_at none b = (b, false)
release_at (some eid) b =
    let b' = record b { grants = tail b.grants; wire = release eid ∷ b.wire } in
    if head_or false b.grants
    then (
      record b' {
        rsv_bw_active = false;
        reserved_tid = pldm_invalid_tid;
        reserved_pldm_type = pldm_invalid_type;
      },
      true,
    )
    else (b', false)

unfoldable pub release_bandwidth : ℕ → ℕ → Bus → Bus × Bool
unfolding release_at
release_bandwidth tid pldm_type b =
    if not b.rsv_bw_active
    then (b, false)
    else if not (tid == b.reserved_tid) || not (pldm_type == b.reserved_pldm_type)
    then (b, false)
    else release_at (get_mapped_eid tid b.tid_mapper) b

unfoldable pub discover_at : Option ℕ → Bus → Bus
discover_at none b = b
discover_at (some eid) b = record b { wire = discover eid ∷ b.wire }

unfoldable pub trigger_device_discovery : ℕ → Bus → Bus
unfolding discover_at
trigger_device_discovery tid b = discover_at (get_mapped_eid tid b.tid_mapper) b

abbrev pub or_zero : Option ℕ → ℕ
or_zero none = 0
or_zero (some n) = n

unfoldable pub create_instance_id : ℕ → Bus → Bus × ℕ
create_instance_id tid b =
    let instance_id = bit_and (or_zero (find tid b.instance_map) + 1) 0x1f in
    (record b { instance_map = assign tid instance_id b.instance_map }, instance_id)

-- The fields of a message's header.
unfoldable pub get_instance_id : Bytes → Option ℕ
get_instance_id [] = none
get_instance_id (x ∷ xs) = some (bit_and x 0x1f)

unfoldable pub get_pldm_message_type : Bytes → Option ℕ
get_pldm_message_type [] = none
get_pldm_message_type (x ∷ []) = none
get_pldm_message_type (x ∷ y ∷ xs) = some (bit_and y 0x3f)

-- The values of `MessageType`: 0 is a response.
unfoldable pub get_pldm_packet_type : Bytes → Option ℕ
get_pldm_packet_type [] = none
get_pldm_packet_type (x ∷ xs) = some (bit_and x 0xc0 / 2 ^ 6)

-- `hdr->type` of a request in its buffer, whose first three bytes are the header.
abbrev pub header_type : Bytes → ℕ
header_type m = or_zero (get_pldm_message_type m)

unfoldable pub validate_pldm_req_encode : ℕ → Bool
validate_pldm_req_encode rc = rc == 0

unfoldable pub validate_pldm_resp_decode : ℕ → ℕ → Bool
validate_pldm_resp_decode rc completion_code =
    if not (rc == 0) then false else if not (completion_code == 0) then false else true
