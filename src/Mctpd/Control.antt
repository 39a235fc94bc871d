-- ===== src/Mctpd/Control.antt =====
-- mctpd/src/MCTPBinding.cpp: the queue of MCTP control requests, with its retries and time-outs.
pub mod Timeouts
pub mod Responses
mod Tests
use pmci.Prelude.{
  ℕ, zero, suc, ◌+◌, ◌-◌, ◌*◌, ◌%◌, ◌^◌, Bool, true, false, not, ◌&&◌, List, [], ◌∷◌, ◌++◌, Option,
  none, some, Bytes, get_or, ltb, leb, ◌==◌, if◌then◌else◌, bit_and,
}
use pmci.Mctpd.Transmission.{Packet, Libmctp}

pub data PacketState : Type 0 where
  invalid_packet : PacketState
  pushed_for_transmission : PacketState
  transmitted : PacketState
  received_response : PacketState
  no_response : PacketState

-- `callback` names the sender that the entry's callback tells.
pub record CtrlTx : Type 0 where
  pub state : PacketState
  pub retry_count : ℕ
  pub max_resp_delay : ℕ
  pub dest_eid : ℕ
  pub binding_private : Bytes
  pub req : Bytes
  pub callback : ℕ

-- What a callback was called with.
pub record Call : Type 0 where
  pub callback : ℕ
  pub state : PacketState
  pub response : Bytes

-- `timer_expired` is ctrlTxTimerExpired; `calls` are the callbacks that were called, newest first.
pub record Control : Type 0 where
  pub ctrl_tx_queue : List CtrlTx
  pub timer_expired : Bool
  pub retry_delay : ℕ
  pub ctrl_retry_count : ℕ
  pub wire : List Packet
  pub calls : List Call

abbrev pub ctrl_tx_poll_interval : ℕ
ctrl_tx_poll_interval = 5

-- unsigned int.
abbrev pub u32 : ℕ → ℕ
u32 n = n % 2 ^ 32

abbrev pub is_received : PacketState → Bool
is_received received_response = true
is_received _ = false

unfoldable pub ctrl_packet : ℕ → Bytes → Bytes → Packet
ctrl_packet dest_eid req binding_private = record {
  dest_eid = dest_eid;
  payload = req;
  tag_owner = true;
  msg_tag = 0;
  private_data = binding_private;
}

unfoldable pub send_mctp_ctrl_message :
    Libmctp → ℕ → Bytes → Bytes → List Packet → List Packet × Bool
send_mctp_ctrl_message mctp dest_eid req binding_private wire =
    let p = ctrl_packet dest_eid req binding_private in (p ∷ wire, mctp wire p)

-- Sent again; the state becomes `transmitted` if libmctp takes the packet.
unfoldable pub resend : Libmctp → CtrlTx → List Packet → List Packet × CtrlTx
resend mctp tx wire =
    let (wire', sent) = send_mctp_ctrl_message mctp tx.dest_eid tx.req tx.binding_private wire in
    (
      wire',
      record tx {
        state = if sent then transmitted else tx.state;
        retry_count = tx.retry_count - 1;
      },
    )

-- What the poll makes of one entry: it stays, or its callback is told that there is no response.
pub data Polled : Type 0 where
  stays : CtrlTx → Polled
  gives_up : Call → Polled

unfoldable pub poll_entry : Libmctp → ℕ → CtrlTx → List Packet → List Packet × Polled
poll_entry mctp retry_delay tx wire =
    let delay = u32 (tx.max_resp_delay + 2 ^ 32 - ctrl_tx_poll_interval) in
    let tx' = record tx { max_resp_delay = delay } in
    let (wire', again) = resend mctp tx' wire in
    if ltb 0 delay && not (is_received tx.state)
    then (if ltb 0 tx.retry_count && leb delay (u32 (tx.retry_count * retry_delay))
        then (wire', stays again)
        else (wire, stays tx'))
    else (wire, gives_up (record { callback = tx.callback; state = no_response; response = [] }))

abbrev pub Swept : Type 0
Swept = List CtrlTx × List Packet × List Call

-- An entry that stays is put in front of what the entries behind it leave.
unfoldable pub after_entry :
    List Packet × Polled → (List Packet → List Call → Swept) → List Call → Swept
after_entry (wire, stays tx) behind calls =
    let rest = behind wire calls in (tx ∷ rest.0, rest.1, rest.2)
after_entry (wire, gives_up c) behind calls = behind wire (c ∷ calls)

-- `remove_if` over the queue: what is left, the packets and the calls.
unfoldable pub poll_entries : Libmctp → ℕ → List CtrlTx → List Packet → List Call → Swept
unfolding after_entry
poll_entries mctp retry_delay [] wire calls = ([], wire, calls)
poll_entries mctp retry_delay (tx ∷ queue) wire calls =
    after_entry (poll_entry mctp retry_delay tx wire) (poll_entries mctp retry_delay queue) calls

abbrev pub is_empty : List CtrlTx → Bool
is_empty [] = true
is_empty (tx ∷ queue) = false

-- The timer of processCtrlTxQueue fires; it is started again unless the queue is empty.
unfoldable pub process_ctrl_tx_queue : Libmctp → Control → Control
process_ctrl_tx_queue mctp s =
    let r = poll_entries mctp s.retry_delay s.ctrl_tx_queue s.wire s.calls in
    record s { ctrl_tx_queue = r.0; wire = r.1; calls = r.2; timer_expired = is_empty r.0 }

-- The state of the new entry is the one before the packet is sent.
unfoldable pub push_to_ctrl_tx_queue : Libmctp → ℕ → Bytes → Bytes → ℕ → Control → Control
push_to_ctrl_tx_queue mctp dest_eid binding_private req callback s =
    let tx : CtrlTx = record {
      state = pushed_for_transmission;
      retry_count = s.ctrl_retry_count;
      max_resp_delay = u32 ((s.ctrl_retry_count + 1) * s.retry_delay);
      dest_eid = dest_eid;
      binding_private = binding_private;
      req = req;
      callback = callback;
    } in
    record s {
      ctrl_tx_queue = s.ctrl_tx_queue ++ tx ∷ [];
      wire = (send_mctp_ctrl_message mctp dest_eid req binding_private s.wire).0;
      timer_expired = false;
    }

-- `rq_dgram_inst` is the second byte of a control message.
unfoldable pub get_instance_id : Bytes → ℕ
get_instance_id msg = bit_and (get_or msg 1 0) 0x1f

-- The first request with the instance id of the response is told, and leaves the queue.
unfoldable pub answer_first : Bytes → List CtrlTx → List Call → Option (List CtrlTx × List Call)
answer_first msg [] calls = none
answer_first msg (tx ∷ queue) calls =
    let rest = answer_first msg queue calls in
    if get_instance_id tx.req == get_instance_id msg
    then some (
      queue,
      record { callback = tx.callback; state = received_response; response = msg } ∷ calls,
    )
    else elim rest [ none ↦ none | some r ↦ some (tx ∷ r.0, r.1) ]

unfoldable pub handle_ctrl_resp : Bytes → Control → Control × Bool
handle_ctrl_resp msg s = elim (answer_first msg s.ctrl_tx_queue s.calls) [
  | none ↦ (s, false)
  | some r ↦ (record s { ctrl_tx_queue = r.0; calls = r.1 }, true)
]

-- The timer fires a number of times.
unfoldable pub polls : Libmctp → ℕ → Control → Control
polls mctp zero s = s
polls mctp (suc n) s = polls mctp n (process_ctrl_tx_queue mctp s)
