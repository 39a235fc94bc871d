-- ===== src/Mctpd/Transmission.antt =====
-- mctpd/src/utils/transmission_queue.cpp: the messages of each endpoint that wait for one of its
-- eight tags, and those that have one. A shared message is named by its index, and `messages` is
-- what the references point to.
pub mod TagBits
pub mod Wellformed
pub mod Release
pub mod Queueing
pub mod Draining
pub mod Events
pub mod Owners
mod Tests
use pmci.Prelude.{
  ℕ, ◌+◌, Bool, true, false, List, [], ◌∷◌, ◌++◌, Option, none, some, Bytes, ◌==◌, if◌then◌else◌,
}
use pmci.Prelude.Map.{Map, find, erase, assign, emplace}
use pmci.Mctpd.Transmission.TagBits.{Tags, next, emplace_tag, erase_tag, all_tags}

-- `timer_cancelled` says whether the timer that the sender waits on has been cancelled.
pub record Message : Type 0 where
  pub index : ℕ
  pub tag : Option ℕ
  pub payload : Bytes
  pub private_data : Bytes
  pub timer_cancelled : Bool
  pub response : Option Bytes

-- The arguments of one `mctp_message_tx`.
pub record Packet : Type 0 where
  pub dest_eid : ℕ
  pub payload : Bytes
  pub tag_owner : Bool
  pub msg_tag : ℕ
  pub private_data : Bytes

-- Whether `mctp_message_tx` of libmctp takes a packet, given those it was called with before.
abbrev pub Libmctp : Type 0
Libmctp = List Packet → Packet → Bool

pub record Endpoint : Type 0 where
  pub available_tags : Tags
  pub transmitted_messages : Map ℕ
  pub queued_messages : Map ℕ
  pub msg_counter : ℕ
  pub messages : ℕ → Message

unfoldable pub new_message : ℕ → Bytes → Bytes → Message
new_message index payload private_data = record {
  index = index;
  tag = none;
  payload = payload;
  private_data = private_data;
  timer_cancelled = false;
  response = none;
}

unfoldable pub new_endpoint : Endpoint
new_endpoint = record {
  available_tags = all_tags;
  transmitted_messages = [];
  queued_messages = [];
  msg_counter = 0;
  messages = λ i. new_message i [] [];
}

unfoldable pub put : ℕ → Message → (ℕ → Message) → ℕ → Message
put i m messages j = if j == i then m else messages j

unfoldable pub packet_of : ℕ → ℕ → Message → Packet
packet_of dest_eid msg_tag m = record {
  dest_eid = dest_eid;
  payload = m.payload;
  tag_owner = true;
  msg_tag = msg_tag;
  private_data = m.private_data;
}

-- The packet was taken.
unfoldable pub give_tag : ℕ → ℕ → Endpoint → Endpoint
give_tag msg_tag i e = record e {
  available_tags = erase_tag msg_tag e.available_tags;
  messages = put i (record (e.messages i) { tag = some msg_tag }) e.messages;
  transmitted_messages = emplace msg_tag i e.transmitted_messages;
}

-- One round of the loop: the message `i` leaves the front of the queue, `queue` is what is behind it.
unfoldable pub transmit_front :
    Libmctp → ℕ → ℕ → ℕ → Map ℕ → Endpoint → List Packet → Endpoint × List Packet
transmit_front mctp dest_eid msg_tag i queue e wire =
    let message = e.messages i in
    let packet = packet_of dest_eid msg_tag message in
    let popped = record e { queued_messages = queue } in
    if mctp wire packet then (give_tag msg_tag i popped, packet ∷ wire) else (popped, packet ∷ wire)

-- The loop, on the queue that the endpoint holds.
unfoldable pub transmit_from : Libmctp → ℕ → Map ℕ → Endpoint → List Packet → Endpoint × List Packet
transmit_from mctp dest_eid [] e wire = (e, wire)
transmit_from mctp dest_eid ((k, i) ∷ queue) e wire = elim (next e.available_tags) [
  | none ↦ (e, wire)
  | some msg_tag ↦
      let r = transmit_front mctp dest_eid msg_tag i queue e wire in
      transmit_from mctp dest_eid queue r.0 r.1
]

unfoldable pub transmit_queued_messages :
    Libmctp → ℕ → Endpoint → List Packet → Endpoint × List Packet
transmit_queued_messages mctp dest_eid e wire = transmit_from mctp dest_eid e.queued_messages e wire

-- `posted` holds the endpoints whose `transmitQueuedMessages` the event loop was asked to run, the oldest
-- first.
pub record Queue : Type 0 where
  pub endpoints : Map Endpoint
  pub wire : List Packet
  pub posted : List ℕ

-- `endpoints[eid]`.
unfoldable pub endpoint_at : ℕ → Queue → Endpoint
endpoint_at eid q = elim (find eid q.endpoints) [ none ↦ new_endpoint | some e ↦ e ]

unfoldable pub run_queued : Libmctp → ℕ → Endpoint → Queue → Queue
run_queued mctp eid e q =
    let r = transmit_queued_messages mctp eid e q.wire in
    record q { endpoints = assign eid r.0 q.endpoints; wire = r.1 }

unfoldable pub enqueue : Bytes → Bytes → Endpoint → Endpoint
enqueue payload private_data e =
    let i = e.msg_counter in
    record e {
      msg_counter = i + 1;
      messages = put i (new_message i payload private_data) e.messages;
      queued_messages = emplace i i e.queued_messages;
    }

-- The index stands for the reference that is returned.
unfoldable pub transmit : Libmctp → ℕ → Bytes → Bytes → Queue → Queue × ℕ
transmit mctp dest_eid payload private_data q =
    let e = endpoint_at dest_eid q in
    (run_queued mctp dest_eid (enqueue payload private_data e) q, e.msg_counter)

unfoldable pub answer : ℕ → ℕ → Bytes → Endpoint → Endpoint
answer msg_tag i response e =
    let message = record (e.messages i) {
      response = some response;
      tag = none;
      timer_cancelled = true;
    } in
    record e {
      messages = put i message e.messages;
      transmitted_messages = erase msg_tag e.transmitted_messages;
      available_tags = emplace_tag msg_tag e.available_tags;
    }

unfoldable pub receive : ℕ → ℕ → Bytes → Queue → Queue × Bool
receive src_eid msg_tag response q = elim (find src_eid q.endpoints) [
  | none ↦ (q, false)
  | some e ↦ elim (find msg_tag e.transmitted_messages) [
    | none ↦ (q, false)
    | some i ↦ (
      record q {
        endpoints = assign src_eid (answer msg_tag i response e) q.endpoints;
        posted = q.posted ++ src_eid ∷ [];
      },
      true,
    )
  ]
]

-- The event loop runs the oldest posted function:
-- `endpoints[srcEid].transmitQueuedMessages(mctp, srcEid)`.
unfoldable pub run_posted : Libmctp → Queue → Queue
run_posted mctp q = elim q.posted [
  | [] ↦ q
  | src_eid ∷ rest ↦ run_queued mctp src_eid (endpoint_at src_eid q) (record q { posted = rest })
]

unfoldable pub drop_message : ℕ → Endpoint → Endpoint
drop_message i e =
    let e' = record e { queued_messages = erase (e.messages i).index e.queued_messages } in
    elim (e.messages i).tag [
      | none ↦ e'
      | some msg_tag ↦ record e' {
        available_tags = emplace_tag msg_tag e.available_tags;
        transmitted_messages = erase msg_tag e.transmitted_messages;
      }
    ]

unfoldable pub dispose : ℕ → ℕ → Queue → Queue
dispose dest_eid i q = record q {
  endpoints = assign dest_eid (drop_message i (endpoint_at dest_eid q)) q.endpoints;
}
