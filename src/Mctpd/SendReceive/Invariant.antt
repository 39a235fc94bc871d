-- ===== src/Mctpd/SendReceive/Invariant.antt =====
-- mctpd/src/MCTPBinding.cpp: what holds in every state that the requests of clients, the packets that
-- come in and the event loop lead to.
use pmci.Prelude.{
  ℕ, ◌≡◌, refl, Bool, true, false, not, ◌&&◌, [], ◌∷◌, Option, none, some, Bytes, arith, ◌==◌,
  if◌then◌else◌, Bool-cases, inl, inr, ==→eq, List-cases,
}
use pmci.Prelude.Map.{find, find-assign}
use pmci.Mctpd.Transmission.{
  Libmctp, Endpoint, Queue, endpoint_at, transmit_queued_messages, run_queued, enqueue, transmit,
  answer, receive, run_posted, drop_message, dispose,
}
use pmci.Mctpd.Transmission.Wellformed.{IsWf, new_endpoint-IsWf, enqueue-IsWf, transmit_from-IsWf}
use pmci.Mctpd.Transmission.Release.{answer-IsWf, drop_message-IsWf}
use pmci.Mctpd.Transmission.Owners.{
  IsOwner, transmit_from-IsOwner, enqueue-IsOwner, enqueue-IsOwner_new, answer-IsOwner,
  drop_message-IsOwner,
}
use pmci.Mctpd.Transmission.Draining.{answered, receive-cases, endpoint_at-answered}
use pmci.Mctpd.SendReceive.{
  Wakeup, expired, operation_aborted, timer_failed, Binding, PrivateData, set_suspended, begin_send,
  begin_send_receive, end_with, end_send_receive, resume, Step, new_binding, Reachable,
}

-- The endpoints of a queue are well formed, and each sender that waits owns what its message holds.
pub record IsSound (q : Queue) (waits : ℕ → ℕ → Bool) : Type 0 where
  pub wf : (eid : ℕ) → IsWf (endpoint_at eid q)
  pub owners : (eid i : ℕ) → waits eid i ≡ true → IsOwner (endpoint_at eid q) i

-- Both queues have the same endpoints but for one.
abbrev pub Replaces : ℕ → Endpoint → Queue → Queue → Type 0
Replaces eid e q q' = (j : ℕ) → endpoint_at j q' ≡ (if j == eid then e else endpoint_at j q)

replace-IsSound :
    (eid : ℕ) (e : Endpoint) (q q' : Queue) (f f' : ℕ → ℕ → Bool)
    → Replaces eid e q q'
    → IsSound q f
    → IsWf e
    → ((i : ℕ) → f' eid i ≡ true → IsOwner e i)
    → ((j i : ℕ) → (j == eid) ≡ false → f' j i ≡ true → f j i ≡ true)
    → IsSound q' f'
replace-IsSound eid e q q' f f' r s w o g = record {
  wf = λ j. elim (Bool-cases (j == eid)) [
    | inl h ↦ rw (r j) (rw h w)
    | inr h ↦ rw (r j) (rw h (s.wf j))
  ];
  owners = λ j i t. elim (Bool-cases (j == eid)) [
    | inl h ↦ rw (r j) (rw h (o i (rw (← ==→eq j eid h) t)))
    | inr h ↦ rw (r j) (rw h (s.owners j i (g j i h t)))
  ];
}

run_queued-Replaces :
    (mctp : Libmctp) (eid : ℕ) (e : Endpoint) (q : Queue)
    → Replaces eid (transmit_queued_messages mctp eid e q.wire).0 q (run_queued mctp eid e q)
unfolding endpoint_at run_queued
run_queued-Replaces mctp eid e q j =
    ground (arith, find-assign eid j (transmit_queued_messages mctp eid e q.wire).0 q.endpoints)

run_queued-IsSound :
    (mctp : Libmctp) (eid : ℕ) (e : Endpoint) (q : Queue) (f f' : ℕ → ℕ → Bool)
    → IsSound q f
    → IsWf e
    → ((i : ℕ) → f' eid i ≡ true → IsOwner e i)
    → ((j i : ℕ) → (j == eid) ≡ false → f' j i ≡ true → f j i ≡ true)
    → IsSound (run_queued mctp eid e q) f'
unfolding transmit_queued_messages
run_queued-IsSound mctp eid e q f f' s w o g =
    replace-IsSound eid (transmit_queued_messages mctp eid e q.wire).0 q (run_queued mctp eid e q) f
      f' (run_queued-Replaces mctp eid e q) s
      (transmit_from-IsWf mctp eid e.queued_messages e q.wire w refl)
      (λ i h. transmit_from-IsOwner mctp eid i e.queued_messages e q.wire w refl (o i h)) g

transmit-IsSound :
    (mctp : Libmctp) (eid : ℕ) (b p : Bytes) (q : Queue) (f : ℕ → ℕ → Bool)
    → IsSound q f
    → IsSound (transmit mctp eid b p q).0 (set_suspended eid (transmit mctp eid b p q).1 true f)
unfolding transmit set_suspended
transmit-IsSound mctp eid b p q f s =
    let e = endpoint_at eid q in
    let n = e.msg_counter in
    run_queued-IsSound mctp eid (enqueue b p e) q f (set_suspended eid n true f) s
      (enqueue-IsWf e b p (s.wf eid))
      (λ i h. elim (Bool-cases (i == n)) [
        | inl k ↦ rw (==→eq i n k) (enqueue-IsOwner_new e b p)
        | inr k ↦ enqueue-IsOwner e b p i (s.owners eid i (ground (arith, h)))
      ])
      (λ j i h k. ground (arith, h, k))

receive-IsSound :
    (eid t : ℕ) (b : Bytes) (q : Queue) (f : ℕ → ℕ → Bool)
    → IsSound q f
    → IsSound (receive eid t b q).0 f
receive-IsSound eid t b q f s = elim (receive-cases eid t b q) [
  | inl (n, r) ↦ rw r s
  | inr (i, h, r) ↦
      let e = endpoint_at eid q in
      rw r (
        replace-IsSound eid (answer t i b e) q (answered eid t i b e q) f f
          (λ j. endpoint_at-answered eid t i j b e q) s (answer-IsWf t i b e (s.wf eid) h)
          (λ k o. answer-IsOwner e t i k b h (s.owners eid k o)) (λ j k o g. g))
]

run_posted-IsSound :
    (mctp : Libmctp) (q : Queue) (f : ℕ → ℕ → Bool) → IsSound q f → IsSound (run_posted mctp q) f
unfolding endpoint_at run_posted
run_posted-IsSound mctp q f s = elim (List-cases q.posted) [
  | inl n ↦ rw (n, run_posted) s
  | inr (eid, rest, n) ↦
      rw (n, run_posted)
        (run_queued-IsSound mctp eid (endpoint_at eid q) (record q { posted = rest }) f f
          (record { wf = s.wf; owners = s.owners }) (s.wf eid) (λ i h. s.owners eid i h)
          (λ j i h k. k))
]

pub dispose-Replaces :
    (eid i : ℕ) (q : Queue) → Replaces eid (drop_message i (endpoint_at eid q)) q (dispose eid i q)
unfolding dispose endpoint_at
dispose-Replaces eid i q j =
    ground (arith, find-assign eid j (drop_message i (endpoint_at eid q)) q.endpoints)

dispose-IsSound :
    (eid i : ℕ) (q : Queue) (f : ℕ → ℕ → Bool)
    → IsSound q f
    → f eid i ≡ true
    → IsSound (dispose eid i q) (set_suspended eid i false f)
unfolding set_suspended
dispose-IsSound eid i q f s h =
    let e = endpoint_at eid q in
    let o = s.owners eid i h in
    replace-IsSound eid (drop_message i e) q (dispose eid i q) f (set_suspended eid i false f)
      (dispose-Replaces eid i q) s (drop_message-IsWf i e (s.wf eid) o.owns)
      (λ k t. drop_message-IsOwner e i k (ground (arith, t)) o (s.owners eid k (ground (arith, t))))
      (λ j k t g. ground (arith, t, g))

resumed-IsSound :
    (eid i : ℕ) (q : Queue) (f : ℕ → ℕ → Bool)
    → IsSound q f
    → IsSound q (set_suspended eid i false f)
unfolding set_suspended
resumed-IsSound eid i q f s = record {
  wf = s.wf;
  owners = λ j k t. s.owners j k (ground (arith, t));
}

end_with-IsSound :
    (eid i : ℕ) (r : Option Bytes) (q : Queue) (f : ℕ → ℕ → Bool)
    → IsSound q f
    → f eid i ≡ true
    → IsSound (end_with eid i r q).0 (set_suspended eid i false f)
unfolding end_with
end_with-IsSound eid i none q f s h = dispose-IsSound eid i q f s h
end_with-IsSound eid i (some []) q f s h = resumed-IsSound eid i q f s
end_with-IsSound eid i (some (x ∷ xs)) q f s h = resumed-IsSound eid i q f s

end_send_receive-IsSound :
    (w : Wakeup) (eid i : ℕ) (q : Queue) (f : ℕ → ℕ → Bool)
    → IsSound q f
    → f eid i ≡ true
    → IsSound (end_send_receive w eid i q).0 (set_suspended eid i false f)
unfolding end_send_receive
end_send_receive-IsSound timer_failed eid i q f s h = dispose-IsSound eid i q f s h
end_send_receive-IsSound expired eid i q f s h =
    end_with-IsSound eid i ((endpoint_at eid q).messages i).response q f s h
end_send_receive-IsSound operation_aborted eid i q f s h =
    end_with-IsSound eid i ((endpoint_at eid q).messages i).response q f s h

begin_send-IsSound :
    (mctp : Libmctp) (pvt : Option Bytes) (eid : ℕ) (payload : Bytes) (b : Binding)
    → IsSound b.transmission_queue b.suspended
    → let r = (begin_send mctp pvt eid payload b).0 in IsSound r.transmission_queue r.suspended
unfolding begin_send
begin_send-IsSound mctp none eid payload b s = s
begin_send-IsSound mctp (some p) eid payload b s =
    transmit-IsSound mctp eid payload p b.transmission_queue b.suspended s

Step-IsSound :
    (mctp : Libmctp) (pvt : PrivateData) (b b' : Binding)
    → Step mctp pvt b b'
    → IsSound b.transmission_queue b.suspended
    → IsSound b'.transmission_queue b'.suspended
unfolding begin_send_receive resume
Step-IsSound mctp pvt _ _ (Step.reserve active eid b) s = s
Step-IsSound mctp pvt _ _ (Step.call eid payload b) s =
    elim (Bool-cases (b.rsv_bw_active && not (eid == b.reserved_eid))) [
      | inl h ↦ rw (h, begin_send_receive) s
      | inr h ↦ rw (h, begin_send_receive) (begin_send-IsSound mctp (pvt eid) eid payload b s)
    ]
Step-IsSound mctp pvt _ _ (Step.deliver eid t payload b) s =
    receive-IsSound eid t payload b.transmission_queue b.suspended s
Step-IsSound mctp pvt _ _ (Step.run_loop b) s =
    run_posted-IsSound mctp b.transmission_queue b.suspended s
Step-IsSound mctp pvt _ _ (Step.wake w eid i b h) s =
    end_send_receive-IsSound w eid i b.transmission_queue b.suspended s h

-- In every state that calls, packets, posted functions and ended waits lead to, each endpoint has
-- eight tags, a tag is free exactly when no message is in flight with it, a message in flight knows
-- its tag and is not in the queue, a message in the queue has no tag, neither has a response yet, the
-- queue is in the order of the messages' indices, and each sender that waits owns the tag of its
-- message.
pub Reachable-IsSound :
    (mctp : Libmctp) (pvt : PrivateData) (b : Binding)
    → Reachable mctp pvt b
    → IsSound b.transmission_queue b.suspended
unfolding new_binding endpoint_at find
Reachable-IsSound mctp pvt _ Reachable.start = record {
  wf = λ eid. new_endpoint-IsWf;
  owners = λ eid i h. cc;
}
Reachable-IsSound mctp pvt _ (Reachable.step b b' r t) =
    Step-IsSound mctp pvt b b' t (Reachable-IsSound mctp pvt b r)
