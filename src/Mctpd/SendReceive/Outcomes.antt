-- ===== src/Mctpd/SendReceive/Outcomes.antt =====
-- mctpd/src/MCTPBinding.cpp: which result SendReceiveMctpMessagePayload gives, and what it leaves behind.
use pmci.Prelude.{
  ℕ, ◌≡◌, ◌≢◌, ◌⊎◌, refl, Bool, true, false, [], ◌∷◌, Option, none, some, Bytes, arith, ap, ◌∙◌,
  ==_refl, ◌==◌, if◌then◌else◌, Option-cases, inl, inr,
}
use pmci.Prelude.Map.{find, find-erase}
use pmci.Mctpd.Transmission.{
  Libmctp, Endpoint, Queue, put, endpoint_at, answer, receive, drop_message, dispose,
}
use pmci.Mctpd.Transmission.Wellformed.{IsWf}
use pmci.Mctpd.Transmission.Owners.{IsOwner}
use pmci.Mctpd.Transmission.Draining.{receive-cases, endpoint_at-answered}
use pmci.Mctpd.SendReceive.Invariant.{dispose-Replaces, Reachable-IsSound}
use pmci.Mctpd.SendReceive.{
  Binding, PrivateData, resume, Reachable, Outcome, timed_out, no_message_available, response,
  Wakeup, expired, operation_aborted, timer_failed, end_with, end_send_receive,
}

-- What a sender gives back when nothing went wrong with its timer.
abbrev pub outcome_of : Option Bytes → Outcome
outcome_of none = timed_out
outcome_of (some []) = no_message_available
outcome_of (some (x ∷ xs)) = response (x ∷ xs)

abbrev pub response_of : Queue → ℕ → ℕ → Option Bytes
response_of q eid i = ((endpoint_at eid q).messages i).response

-- The endpoint of a tag and the message in flight with it.
abbrev pub in_flight : Queue → ℕ → ℕ → Option ℕ
in_flight q eid t = find t (endpoint_at eid q).transmitted_messages

abbrev pub is_at : Option ℕ → ℕ → Bool
is_at none i = false
is_at (some j) i = i == j

end_with-outcome :
    (eid i : ℕ) (r : Option Bytes) (q : Queue) → (end_with eid i r q).1 ≡ outcome_of r
unfolding end_with
end_with-outcome eid i none q = refl
end_with-outcome eid i (some []) q = refl
end_with-outcome eid i (some (x ∷ xs)) q = refl

-- A packet with a tag becomes the response of the message in flight with that tag to that endpoint,
-- and of no other.
pub response_of-receive :
    (eid t : ℕ) (b : Bytes) (q : Queue) (eid' i : ℕ)
    → response_of (receive eid t b q).0 eid' i ≡ (
        if eid' == eid
        then (if is_at (in_flight q eid t) i then some b else response_of q eid' i)
        else response_of q eid' i)
unfolding answer put
response_of-receive eid t b q eid' i = elim (receive-cases eid t b q) [
  | inl (n, r) ↦ rw (r, n) (ground arith)
  | inr (j, h, r) ↦
      rw (r, h) (ground (arith, endpoint_at-answered eid t j eid' b (endpoint_at eid q) q))
]

-- When a packet comes in with the tag of a message in flight, the sender of that message, woken as
-- its timer is cancelled, gives back the packet, or an error if that is empty; and any other sender,
-- when its timer expires, gives back what its message's response was before the packet came.
pub outcome-receive :
    (eid t i : ℕ) (b : Bytes) (q : Queue)
    → in_flight q eid t ≡ some i
    → ((end_send_receive operation_aborted eid i (receive eid t b q).0).1 ≡ outcome_of (some b))
      × ((eid' j : ℕ)
          → (eid' ≢ eid) ⊎ (j ≢ i)
          → (end_send_receive expired eid' j (receive eid t b q).0).1
            ≡ outcome_of (response_of q eid' j))
unfolding end_send_receive
outcome-receive eid t i b q h =
    let q' = (receive eid t b q).0 in
    let r : response_of q' eid i ≡ some b = ground (arith, response_of-receive eid t b q eid i) in
    (
      end_with-outcome eid i (response_of q' eid i) q' ∙ ap outcome_of r,
      λ eid' j d.
          let r' : response_of q' eid' j ≡ response_of q eid' j =
            ground (arith, d, response_of-receive eid t b q eid' j) in
          end_with-outcome eid' j (response_of q' eid' j) q' ∙ ap outcome_of r',
    )

-- The message is neither in the queue nor in flight.
pub record IsForgotten (e : Endpoint) (i : ℕ) : Type 0 where
  pub not_queued : (k : ℕ) → find k e.queued_messages ≢ some i
  pub not_in_flight : (t : ℕ) → find t e.transmitted_messages ≢ some i

drop_message-IsForgotten :
    (e : Endpoint) (i : ℕ) → IsWf e → IsOwner e i → IsForgotten (drop_message i e) i
unfolding drop_message
drop_message-IsForgotten e i w o = elim (Option-cases (e.messages i).tag) [
  | inl n ↦
      rw (n, drop_message)
        (record {
          not_queued = λ k h. ground (
            arith,
            w.waits k i,
            w.indexed i,
            find-erase (e.messages i).index k e.queued_messages,
          );
          not_in_flight = λ t h. ground (arith, w.in_flight t i h);
        })
  | inr (u, n) ↦
      rw (n, drop_message)
        (record {
          not_queued = λ k h. ground (
            arith,
            w.waits k i,
            w.indexed i,
            find-erase (e.messages i).index k e.queued_messages,
          );
          not_in_flight = λ t h.
              ground (arith, w.in_flight t i, o.owns u n, find-erase u t e.transmitted_messages);
        })
]

dispose-IsForgotten :
    (eid i : ℕ) (q : Queue)
    → IsWf (endpoint_at eid q)
    → IsOwner (endpoint_at eid q) i
    → IsForgotten (endpoint_at eid (dispose eid i q)) i
dispose-IsForgotten eid i q w o =
    rw (dispose-Replaces eid i q eid)
      (rw (==_refl eid) (drop_message-IsForgotten (endpoint_at eid q) i w o))

end_with-IsForgotten :
    (eid i : ℕ) (r : Option Bytes) (q : Queue)
    → response_of q eid i ≡ r
    → IsWf (endpoint_at eid q)
    → IsOwner (endpoint_at eid q) i
    → IsForgotten (endpoint_at eid (end_with eid i r q).0) i
unfolding end_with
end_with-IsForgotten eid i none q h w o = dispose-IsForgotten eid i q w o
end_with-IsForgotten eid i (some []) q h w o = record {
  not_queued = λ k g. ground (arith, w.waits k i g);
  not_in_flight = λ t g. ground (arith, w.in_flight t i g);
}
end_with-IsForgotten eid i (some (x ∷ xs)) q h w o = record {
  not_queued = λ k g. ground (arith, w.waits k i g);
  not_in_flight = λ t g. ground (arith, w.in_flight t i g);
}

end_send_receive-IsForgotten :
    (w : Wakeup) (eid i : ℕ) (q : Queue)
    → IsWf (endpoint_at eid q)
    → IsOwner (endpoint_at eid q) i
    → IsForgotten (endpoint_at eid (end_send_receive w eid i q).0) i
unfolding end_send_receive
end_send_receive-IsForgotten timer_failed eid i q w o = dispose-IsForgotten eid i q w o
end_send_receive-IsForgotten expired eid i q w o =
    end_with-IsForgotten eid i (response_of q eid i) q refl w o
end_send_receive-IsForgotten operation_aborted eid i q w o =
    end_with-IsForgotten eid i (response_of q eid i) q refl w o

-- In every state that the steps lead to, a call that waits leaves its message neither in the queue nor
-- in flight when it ends, whether with a response, a timeout or a failed timer.
pub resume-IsForgotten :
    (mctp : Libmctp) (pvt : PrivateData) (b : Binding) (w : Wakeup) (eid i : ℕ)
    → Reachable mctp pvt b
    → b.suspended eid i ≡ true
    → IsForgotten (endpoint_at eid (resume w eid i b).0.transmission_queue) i
unfolding resume
resume-IsForgotten mctp pvt b w eid i r h =
    let s = Reachable-IsSound mctp pvt b r in
    end_send_receive-IsForgotten w eid i b.transmission_queue (s.wf eid) (s.owners eid i h)
