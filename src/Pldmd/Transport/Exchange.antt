-- ===== src/Pldmd/Transport/Exchange.antt =====
-- pldmd/src/pldmd.cpp: sendReceivePldmMessage and sendPldmMessage, with their retries.
use pmci.Prelude.{
  ℕ, zero, suc, Bool, true, false, not, List, [], ◌∷◌, Option, none, some, Bytes, length, drop, ltb,
  ◌==◌, if◌then◌else◌,
}
use pmci.Pldmd.TidMapper.{TidMap, get_mapped_eid, remove_entry}
use pmci.Pldmd.Transport.Bus.{
  request, message, Reply, Bus, head_or, tail, mctp_type_pldm, validate_reserve_bw, get_instance_id,
  get_pldm_packet_type, header_type,
}

abbrev pub max_retry_count : ℕ
max_retry_count = 5

-- What becomes of a response. The request buffer has the MCTP message type in front, if it has.
pub data Checked : Type 0 where
  -- Refused before the type bytes are taken off.
  refused : Checked
  -- Both type bytes are off; the instance ids agree, or they do not.
  matched : Bytes → Bytes → Checked
  mismatched : Bytes → Bytes → Checked

abbrev pub same_id : Option ℕ → Option ℕ → Bool
same_id (some i) (some j) = i == j
same_id _ _ = false

abbrev pub is_response : Option ℕ → Bool
is_response none = false
is_response (some t) = t == 0

unfoldable pub check_response : Bytes → Bytes → Checked
check_response pldm_req pldm_resp =
    if ltb (length pldm_resp) 4
    then refused
    else if not (is_response (get_pldm_packet_type pldm_resp))
    then refused
    else if head_or 0 pldm_resp == mctp_type_pldm
    then (if same_id (get_instance_id (drop 1 pldm_req)) (get_instance_id (drop 1 pldm_resp))
        then matched (drop 1 pldm_req) (drop 1 pldm_resp)
        else mismatched (drop 1 pldm_req) (drop 1 pldm_resp))
    else refused

abbrev pub remove_all : List ℕ → TidMap → TidMap
remove_all [] m = m
remove_all (t ∷ ts) m = remove_all ts (remove_entry t m)

abbrev pub no_reply : Reply
no_reply = record { answer = none; removed = [] }

-- One call of the wrapper: the request goes out, and the coroutine waits.
unfoldable pub do_send_receive : ℕ → Bytes → Bus → Bus × Option Bytes
do_send_receive dst_eid pldm_req b =
    let reply = head_or no_reply b.replies in
    (
      record b {
        wire = request dst_eid pldm_req ∷ b.wire;
        replies = tail b.replies;
        tid_mapper = remove_all reply.removed b.tid_mapper;
      },
      reply.answer,
    )

abbrev pub target : Option ℕ → ℕ → Bus → Option ℕ
target (some eid) tid b = some eid
target none tid b = get_mapped_eid tid b.tid_mapper

-- What a round does with the request buffer: it answers, or the loop goes on with the buffer.
pub data Round : Type 0 where
  give_up : Round
  done : Bytes → Bus → Round
  again : Bytes → Bus → Round

unfoldable pub after_check : Checked → Bytes → Bus → Round
after_check refused pldm_req b = again pldm_req b
after_check (matched req resp) pldm_req b = done resp b
after_check (mismatched req resp) pldm_req b = again req b

unfoldable pub after_answer : Bus × Option Bytes → Bytes → Round
unfolding after_check check_response
after_answer (b, none) pldm_req = again pldm_req b
after_answer (b, some resp) pldm_req = after_check (check_response pldm_req resp) pldm_req b

unfoldable pub round_at : Option ℕ → Bytes → Bus → Round
unfolding after_answer do_send_receive
round_at none pldm_req b = give_up
round_at (some dst_eid) pldm_req b = after_answer (do_send_receive dst_eid pldm_req b) pldm_req

-- The body of the loop; the first round puts the MCTP message type in front of the request.
unfoldable pub round : Bool → Option ℕ → ℕ → Bytes → Bus → Round
unfolding round_at
round first eid tid pldm_req b =
    round_at (target eid tid b) (if first then mctp_type_pldm ∷ pldm_req else pldm_req) b

-- The rounds that are left.
unfoldable pub rounds : ℕ → Bool → Option ℕ → ℕ → Bytes → Bus → Bus × Option Bytes
rounds zero first eid tid pldm_req b = (b, none)
rounds (suc left) first eid tid pldm_req b = elim (round first eid tid pldm_req b) [
  | give_up ↦ (b, none)
  | done resp b' ↦ (b', some resp)
  | again req' b' ↦ rounds left false eid tid req' b'
]

-- The response, or nothing where the source returns false.
unfoldable pub send_receive_pldm_message : ℕ → ℕ → Bytes → Option ℕ → Bus → Bus × Option Bytes
unfolding rounds
send_receive_pldm_message tid retry_count pldm_req eid b =
    if validate_reserve_bw tid (header_type pldm_req) b
    then (b, none)
    else rounds (if ltb max_retry_count retry_count then max_retry_count else retry_count) true eid
        tid pldm_req b

-- The posts that are left, to an endpoint that is known. With no post at all the return code is
-- that of a success, as `rc` is default-initialised.
unfoldable pub post_rounds : ℕ → ℕ → ℕ → Bool → Bytes → Bool → Bus → Bus × Bool
post_rounds zero dst_eid msg_tag tag_owner payload sent b = (b, sent)
post_rounds (suc left) dst_eid msg_tag tag_owner payload sent b =
    let b' = record b {
      posts = tail b.posts;
      wire = message dst_eid msg_tag tag_owner payload ∷ b.wire;
    } in
    elim (head_or false b.posts) [
      | true ↦ (b', true)
      | false ↦ post_rounds left dst_eid msg_tag tag_owner payload false b'
    ]

unfoldable pub post_at : Option ℕ → ℕ → ℕ → Bool → Bytes → Bus → Bus × Bool
unfolding post_rounds
post_at none retry_count msg_tag tag_owner payload b = (b, false)
post_at (some dst_eid) retry_count msg_tag tag_owner payload b =
    post_rounds (if ltb max_retry_count retry_count then max_retry_count else retry_count) dst_eid
      msg_tag tag_owner (mctp_type_pldm ∷ payload) true b

unfoldable pub send_pldm_message : ℕ → ℕ → ℕ → Bool → Bytes → Bus → Bus × Bool
unfolding post_at
send_pldm_message tid retry_count msg_tag tag_owner payload b =
    if validate_reserve_bw tid (header_type payload) b
    then (b, false)
    else post_at (get_mapped_eid tid b.tid_mapper) retry_count msg_tag tag_owner payload b
