-- ===== src/Pldmd/FwUpdate/Link/Callback.antt =====
-- How a message from MCTP reaches the update: msgRecvCallback of pldmd/src/pldmd.cpp, in front of the
-- update agent's own callback in pldmd/src/firmware_update.cpp.
use pmci.Prelude.{
  ℕ, ◌≡◌, ◌≢◌, ◌≤◌, ◌<◌, ◌⊎◌, Bool, true, false, [], ◌∷◌, Option, none, some, Bytes, ◌==◌,
  if◌then◌else◌, length, arith,
}
use pmci.Pldmd.TidMapper.{get_mapped_tid}
use pmci.Pldmd.Transport.Bus.{mctp_type_pldm, get_pldm_message_type}
use pmci.Pldmd.FwUpdate.Codec.{pldm_fwup, cmd_request_firmware_data, cmd_transfer_complete}
use pmci.Pldmd.FwUpdate.Link.{
  Link, note_transfer_complete, match_request, pldm_msg_recv_fw_upd_callback,
  validate_req_for_fw_upd_cmd, command_of,
}

dispatch : Option ℕ → ℕ → ℕ → Bool → Bytes → Link → Link
dispatch none tid msg_tag tag_owner payload l = l
dispatch (some pldm_msg_type) tid msg_tag tag_owner payload l =
    if pldm_msg_type == pldm_fwup
    then pldm_msg_recv_fw_upd_callback tid msg_tag tag_owner payload l
    else l

from_terminus : Option ℕ → ℕ → Bool → Bytes → Link → Link
unfolding dispatch
from_terminus none msg_tag tag_owner payload l = l
from_terminus (some tid) msg_tag tag_owner payload l =
    dispatch (get_pldm_message_type payload) tid msg_tag tag_owner payload l

unfoldable pub msg_recv_callback : ℕ → ℕ → Bool → Bytes → Link → Link
unfolding from_terminus
msg_recv_callback src_eid msg_tag tag_owner [] l = l
msg_recv_callback src_eid msg_tag tag_owner (mctp_type ∷ payload) l =
    if mctp_type == mctp_type_pldm
    then from_terminus (get_mapped_tid src_eid l.bus.tid_mapper) msg_tag tag_owner payload l
    else l

-- A message leaves the update as it is, unless it is a PLDM message of the firmware update type, with
-- a whole header and the tag owner bit set, from an endpoint that is mapped to a terminus.
pub msg_recv_callback-ignores :
    (l : Link) (src_eid msg_tag : ℕ) (tag_owner : Bool) (payload : Bytes)
    → (get_mapped_tid src_eid l.bus.tid_mapper ≡ none)
      ⊎ (get_pldm_message_type payload ≢ some pldm_fwup)
      ⊎ (tag_owner ≡ false)
      ⊎ (length payload < 3)
    → msg_recv_callback src_eid msg_tag tag_owner (mctp_type_pldm ∷ payload) l ≡ l
unfolding msg_recv_callback pldm_msg_recv_fw_upd_callback validate_req_for_fw_upd_cmd
    note_transfer_complete match_request
msg_recv_callback-ignores l src_eid msg_tag tag_owner payload h = ground arith

-- The bug: the terminus that is being updated is compared only after the state has changed. While
-- a device fetches its image, a TransferComplete from any other terminus counts as its own, and
-- the request of the device for firmware data that follows is dropped with no change of state.
pub foreign_transfer_complete :
    (l : Link) (tid msg_tag tag : ℕ) (foreign request : Bytes)
    → l.expected_cmd ≡ cmd_request_firmware_data
    → tid ≢ l.current_tid
    → 3 ≤ length foreign
    → command_of foreign ≡ cmd_transfer_complete
    → command_of request ≡ cmd_request_firmware_data
    → let after = pldm_msg_recv_fw_upd_callback tid msg_tag true foreign l in
      (after.fd_transfer_completed ≡ true)
      × (after.fd_req_matched ≡ l.fd_req_matched)
      × (pldm_msg_recv_fw_upd_callback l.current_tid tag true request after ≡ after)
unfolding pldm_msg_recv_fw_upd_callback validate_req_for_fw_upd_cmd note_transfer_complete
    match_request
foreign_transfer_complete l tid msg_tag tag foreign request expecting other whole complete
      fetching =
    ground arith
