-- ===== src/Pldmd/FwUpdate/Link.antt =====
-- pldmd/src/firmware_update.cpp: what the update agent shares with the messages that arrive while
-- its coroutine waits. Each wait takes one entry of `happenings`: what happened during it.
pub mod Callback
mod Tests
use pmci.Prelude.{
  ℕ, ◌+◌, ◌-◌, ◌*◌, ◌/◌, ◌%◌, ◌^◌, Bool, true, false, not, ◌&&◌, ◌||◌, List, [], ◌∷◌, Option, none,
  some, Bytes, length, ltb, ◌==◌, if◌then◌else◌, get_or, bit_and,
}
use pmci.Pldmd.Transport.Bus.{
  Bus, head_or, tail, or_zero, reserve_bandwidth, release_bandwidth, create_instance_id,
  get_instance_id,
}
use pmci.Pldmd.Transport.Exchange.{send_receive_pldm_message, send_pldm_message}
use pmci.Pldmd.PackageImage.Image.{PldmImg, get_updatable_imagesize}
use pmci.Pldmd.FwUpdate.Codec.{
  Libpldm, Request, Response, cc_only, pldm_success, pldm_fwup, cmd_request_firmware_data,
  cmd_transfer_complete,
}

pub data Happening : Type 0 where
  -- A PLDM message from a terminus: its tag, whether the tag's owner bit is set, and its bytes.
  arrived : ℕ → ℕ → Bool → Bytes → Happening
  -- The timer of the bandwidth reservation runs out.
  bandwidth_timeout : Happening

pub record Link : Type 0 where
  pub bus : Bus
  pub happenings : List (List Happening)
  pub current_tid : ℕ
  pub expected_cmd : ℕ
  pub msg_tag : ℕ
  pub fd_req : Bytes
  pub fd_req_matched : Bool
  pub fd_transfer_completed : Bool
  pub is_reserve_bandwidth_active : Bool
  pub reserve_bw_timer : Bool
  pub reserve_eid_timeout : ℕ

abbrev pub retry_count : ℕ
retry_count = 3

-- sizeof(pldm_msg_hdr).
abbrev pub hdr_size : ℕ
hdr_size = 3

-- `msgHdr->command`, the third byte of the header.
abbrev pub command_of : Bytes → ℕ
command_of req = get_or req 2 0

-- `msgReq->hdr.instance_id`.
abbrev pub instance_of : Bytes → ℕ
instance_of req = or_zero (get_instance_id req)

unfoldable pub note_transfer_complete : Bytes → Link → Link
note_transfer_complete req l =
    if l.expected_cmd == cmd_request_firmware_data && command_of req == cmd_transfer_complete
    then record l { expected_cmd = cmd_transfer_complete; fd_transfer_completed = true }
    else l

unfoldable pub match_request : ℕ → ℕ → Bytes → Link → Link
match_request tid message_tag req l =
    if not (tid == l.current_tid) || not (command_of req == l.expected_cmd)
    then l
    else record l { msg_tag = message_tag; fd_req_matched = true; fd_req = req }

unfoldable pub validate_req_for_fw_upd_cmd : ℕ → ℕ → Bytes → Link → Link
unfolding note_transfer_complete match_request
validate_req_for_fw_upd_cmd tid message_tag req l =
    if ltb (length req) hdr_size
    then l
    else match_request tid message_tag req (note_transfer_complete req l)

-- An update is under way whenever the agent waits, so its pointers are set.
unfoldable pub pldm_msg_recv_fw_upd_callback : ℕ → ℕ → Bool → Bytes → Link → Link
pldm_msg_recv_fw_upd_callback tid msg_tag tag_owner message l =
    if not tag_owner then l else validate_req_for_fw_upd_cmd tid msg_tag message l

-- From the expected duration of a transfer at 2730 bytes a second, three times over, as a uint16_t.
unfoldable pub get_reserve_eid_timeout : PldmImg → ℕ
get_reserve_eid_timeout img = ((1 + get_updatable_imagesize img / 2730) * 3) % 2 ^ 16

unfoldable pub activate_reserve_bandwidth : Link → Link
activate_reserve_bandwidth l =
    let (bus, granted) = reserve_bandwidth l.current_tid pldm_fwup l.reserve_eid_timeout l.bus in
    if granted
    then record l { bus = bus; is_reserve_bandwidth_active = true; reserve_bw_timer = true }
    else record l { bus = bus }

on_bandwidth_timeout : Link → Link
unfolding activate_reserve_bandwidth
on_bandwidth_timeout l =
    if l.reserve_bw_timer
    then activate_reserve_bandwidth (record l { reserve_bw_timer = false })
    else l

unfoldable pub happen : Happening → Link → Link
unfolding on_bandwidth_timeout pldm_msg_recv_fw_upd_callback validate_req_for_fw_upd_cmd
happen (arrived tid msg_tag tag_owner msg) l =
    pldm_msg_recv_fw_upd_callback tid msg_tag tag_owner msg l
happen bandwidth_timeout l = on_bandwidth_timeout l

unfoldable pub happen_all : List Happening → Link → Link
happen_all [] l = l
happen_all (h ∷ hs) l = happen_all hs (happen h l)

-- The coroutine waits: for a timer, an answer or a message to go out.
unfoldable pub suspend : Link → Link
suspend l = happen_all (head_or [] l.happenings) (record l { happenings = tail l.happenings })

-- The expected command's timer: it ends when the time is up, or when a request matches.
unfoldable pub start_timer : Link → Link
start_timer l = suspend l

unfoldable pub post : Bytes → Link → Link × Bool
post msg l =
    let (bus, sent) = send_pldm_message l.current_tid retry_count l.msg_tag false msg l.bus in
    (suspend (record l { bus = bus }), sent)

unfoldable pub exchange : Bytes → Link → Link × Option Bytes
exchange req l =
    let (bus, resp) = send_receive_pldm_message l.current_tid retry_count req none l.bus in
    (suspend (record l { bus = bus }), resp)

unfoldable pub new_instance_id : Link → Link × ℕ
new_instance_id l =
    let (bus, id) = create_instance_id l.current_tid l.bus in (record l { bus = bus }, id)

unfoldable pub send_error_completion_code : Libpldm → ℕ → ℕ → ℕ → Link → Link × Bool
unfolding post
send_error_completion_code lib fd_instance_id compl_code command l =
    let (rc, msg) = lib.encode_resp fd_instance_id (cc_only command compl_code) in
    if not (rc == pldm_success) then (l, false) else post msg l

-- `cancelReserveBWTimer`, and the release where an update ends.
unfoldable pub release_reserved : Link → Link
release_reserved l =
    if l.is_reserve_bandwidth_active
    then (let (bus, released) = release_bandwidth l.current_tid pldm_fwup l.bus in
        suspend
          (record l { is_reserve_bandwidth_active = false; reserve_bw_timer = false; bus = bus }))
    else l
