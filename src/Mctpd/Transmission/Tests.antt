-- ===== src/Mctpd/Transmission/Tests.antt =====
-- The queue of mctpd/src/utils/transmission_queue.cpp on concrete messages.
use pmci.Prelude.{◌≡◌, refl, true, false, [], ◌∷◌, some}
use pmci.Prelude.Map.{find, emplace, assign, erase}
use pmci.Mctpd.Transmission.TagBits.{next, erase_tag, emplace_tag}
use pmci.Mctpd.Transmission.{
  Libmctp, Endpoint, Queue, new_message, new_endpoint, put, packet_of, give_tag, transmit_front,
  transmit_from, transmit_queued_messages, endpoint_at, enqueue, dispose, drop_message,
}

-- libmctp refuses its first packet.
abbrev refuses_first : Libmctp
refuses_first [] p = false
refuses_first (q ∷ wire) p = true

unfoldable two_queued : Endpoint
two_queued = enqueue (4 ∷ []) [] (enqueue (3 ∷ []) [] new_endpoint)

-- The message that libmctp refuses is nowhere any more, and no sender is told.
refused_is_lost :
    let r = transmit_queued_messages refuses_first 9 two_queued [] in
    (r.0.queued_messages ≡ []) × (r.0.transmitted_messages ≡ (0, 1) ∷ [])
unfolding two_queued enqueue new_endpoint put new_message find emplace transmit_queued_messages
    transmit_from transmit_front give_tag next erase_tag packet_of
refused_is_lost = (refl, refl)

-- One tag is left, message 0 has it, and message 1 waits.
abbrev one_tag : Endpoint
one_tag = record {
  available_tags = false ∷ false ∷ false ∷ false ∷ false ∷ false ∷ false ∷ false ∷ [];
  transmitted_messages = (0, 0) ∷ [];
  queued_messages = (1, 1) ∷ [];
  msg_counter = 2;
  messages = put 0 (record (new_message 0 [] []) { tag = some 0 }) (λ i. new_message i [] []);
}

abbrev one_tag_queue : Queue
one_tag_queue = record { endpoints = (9, one_tag) ∷ []; wire = []; posted = [] }

-- The tag that a timed-out message gives back is free, and message 1 is left in the queue.
dispose_strands :
    let q = dispose 9 0 one_tag_queue in
    (next (endpoint_at 9 q).available_tags ≡ some 0)
    × ((endpoint_at 9 q).queued_messages ≡ (1, 1) ∷ [])
    × (q.posted ≡ [])
unfolding dispose drop_message endpoint_at find assign erase next emplace_tag new_message put
dispose_strands = (refl, refl, refl)
