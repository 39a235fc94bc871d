-- ===== src/Mctpd/SendReceive/Tests.antt =====
-- The requests of mctpd/src/MCTPBinding.cpp and their queue on concrete messages.
use pmci.Prelude.{ℕ, ◌+◌, ◌≤◌, List, ◌≡◌, refl, true, [], ◌∷◌, some, inl, ◌≢◌, ◌⊎◌}
use pmci.Prelude.Map.{find, assign, emplace}
use pmci.Mctpd.Transmission.TagBits.{next, erase_tag}
use pmci.Mctpd.Transmission.{
  Libmctp, Queue, new_message, new_endpoint, put, give_tag, transmit_front, transmit_from,
  transmit_queued_messages, endpoint_at, run_queued, enqueue, transmit, receive,
}
use pmci.Mctpd.Transmission.Queueing.{IsSettled, pending}
use pmci.Mctpd.Transmission.Draining.{IsDrained}
use pmci.Mctpd.Transmission.Events.{CanGoOn, Event, packet, runs, play, answers, play-IsDrained}
use pmci.Mctpd.SendReceive.{
  response, expired, operation_aborted, Binding, PrivateData, begin_send, begin_send_receive,
  end_send_receive, resume, set_suspended, new_binding, Step, Reachable,
}
use pmci.Mctpd.SendReceive.Invariant.{IsSound, Reachable-IsSound}
use pmci.Mctpd.SendReceive.Outcomes.{
  outcome_of, response_of, in_flight, IsForgotten, outcome-receive, resume-IsForgotten,
}

-- libmctp takes every packet.
abbrev takes_all : Libmctp
takes_all wire p = true

abbrev pvt : PrivateData
pvt eid = some (7 ∷ [])

-- Two requests to endpoint 9.
unfoldable one_sent : Binding
one_sent = (begin_send_receive takes_all pvt 9 (1 ∷ 2 ∷ []) new_binding).0

unfoldable two_sent : Binding
unfolding one_sent
two_sent = (begin_send_receive takes_all pvt 9 (1 ∷ 3 ∷ []) one_sent).0

two_sent-Reachable : Reachable takes_all pvt two_sent
unfolding two_sent one_sent
two_sent-Reachable =
    Reachable.step one_sent two_sent
      (Reachable.step new_binding one_sent Reachable.start (Step.call 9 (1 ∷ 2 ∷ []) new_binding))
      (Step.call 9 (1 ∷ 3 ∷ []) one_sent)

Reachable-IsSound_example : IsSound two_sent.transmission_queue two_sent.suspended
Reachable-IsSound_example = Reachable-IsSound takes_all pvt two_sent two_sent-Reachable

two_sent_waits : two_sent.suspended 9 1 ≡ true
unfolding two_sent one_sent begin_send_receive begin_send new_binding set_suspended transmit
    endpoint_at run_queued enqueue find assign new_endpoint transmit_queued_messages transmit_from
    next transmit_front give_tag put emplace new_message
two_sent_waits = refl

resume-IsForgotten_example :
    IsForgotten (endpoint_at 9 (resume expired 9 1 two_sent).0.transmission_queue) 1
resume-IsForgotten_example =
    resume-IsForgotten takes_all pvt two_sent expired 9 1 two_sent-Reachable two_sent_waits

second_in_flight : in_flight two_sent.transmission_queue 9 1 ≡ some 1
unfolding two_sent one_sent begin_send_receive begin_send new_binding set_suspended transmit
    endpoint_at run_queued enqueue find assign new_endpoint transmit_queued_messages transmit_from
    next transmit_front give_tag put emplace new_message erase_tag
second_in_flight = refl

-- What each of the two senders gives back once the second has its answer.
abbrev Answered : Queue → Type 0
Answered q =
    ((end_send_receive operation_aborted 9 1 (receive 9 1 (8 ∷ []) q).0).1 ≡ response (8 ∷ []))
    × ((eid j : ℕ)
        → (eid ≢ 9) ⊎ (j ≢ 1)
        → (end_send_receive expired eid j (receive 9 1 (8 ∷ []) q).0).1
          ≡ outcome_of (response_of q eid j))

outcome-receive_example : Answered two_sent.transmission_queue
outcome-receive_example =
    outcome-receive 9 1 1 (8 ∷ []) two_sent.transmission_queue second_in_flight

two_sent-IsSettled : IsSettled (endpoint_at 9 two_sent.transmission_queue)
unfolding two_sent one_sent begin_send_receive begin_send new_binding set_suspended transmit
    endpoint_at run_queued enqueue find assign new_endpoint transmit_queued_messages transmit_from
    next transmit_front give_tag put emplace new_message erase_tag
two_sent-IsSettled = inl refl

-- The second message is answered, a stranger's packet comes, and the first is answered.
abbrev events : List Event
events = packet 9 1 (5 ∷ []) ∷ packet 4 0 (6 ∷ []) ∷ runs ∷ packet 9 0 (7 ∷ []) ∷ []

play-IsDrained_example :
    let q = two_sent.transmission_queue in
    (pending (endpoint_at 9 (play takes_all events q)) + answers takes_all 9 events q
      ≤ pending (endpoint_at 9 q))
    × (IsDrained (endpoint_at 9 (play takes_all events q)) ⊎ CanGoOn 9 (play takes_all events q))
play-IsDrained_example = play-IsDrained takes_all 9 events two_sent.transmission_queue (record {
  wf = (Reachable-IsSound takes_all pvt two_sent two_sent-Reachable).wf 9;
  turn = inl two_sent-IsSettled;
})
