-- ===== src/Mctpd/Transmission/Events.antt =====
-- mctpd/src/utils/transmission_queue.cpp: the queue of one endpoint under packets and posted functions
-- in any order.
use pmci.Prelude.{
  ℕ, ◌+◌, Bool, ◌||◌, Option, Bool-cases, ==→eq, sym, ◌≤◌, ◌≡◌, refl, ◌⊎◌, true, false, List, [],
  ◌∷◌, ◌++◌, none, some, Bytes, arith, ◌==◌, if◌then◌else◌, inl, inr, ap, ◌∙◌, ==_refl, List-cases,
}
use mathlib.Core.Path.{subst}
use pmci.Prelude.Map.{Map, find}
use pmci.Mctpd.Transmission.{
  Libmctp, Queue, endpoint_at, transmit_queued_messages, run_queued, answer, receive, run_posted,
}
use pmci.Mctpd.Transmission.Wellformed.{IsWf}
use pmci.Mctpd.Transmission.Release.{answer-IsWf}
use pmci.Mctpd.Transmission.Queueing.{IsSettled, pending, transmit_from-pending}
use pmci.Mctpd.Transmission.Draining.{
  endpoint_at-run_queued, answered, receive-cases, endpoint_at-answered, transmit_queued-IsIdle,
  length-erase_found, IsIdle-nothing_sent, IsDrained, nothing_pending,
}

-- A packet from an endpoint, with its tag; or the oldest posted function runs.
pub data Event : Type 0 where
  packet : ℕ → ℕ → Bytes → Event
  runs : Event

unfoldable pub happen : Libmctp → Event → Queue → Queue
happen mctp (packet src_eid msg_tag response) q = (receive src_eid msg_tag response q).0
happen mctp runs q = run_posted mctp q

unfoldable pub play : Libmctp → List Event → Queue → Queue
play mctp [] q = q
play mctp (e ∷ events) q = play mctp events (happen mctp e q)

abbrev one_if_some : Option ℕ → ℕ
one_if_some none = 0
one_if_some (some i) = 1

-- Whether the packet has the tag of a message that the endpoint has in flight.
abbrev pub hits : ℕ → Event → Queue → ℕ
hits eid (packet src_eid msg_tag response) q =
    if src_eid == eid
    then one_if_some (find msg_tag (endpoint_at eid q).transmitted_messages)
    else 0
hits eid runs q = 0

-- How many of the events are answers to messages that the endpoint has in flight.
abbrev pub answers : Libmctp → ℕ → List Event → Queue → ℕ
answers mctp eid [] q = 0
answers mctp eid (e ∷ events) q = hits eid e q + answers mctp eid events (happen mctp e q)

abbrev pub is_posted : ℕ → List ℕ → Bool
is_posted eid [] = false
is_posted eid (k ∷ ks) = eid == k || is_posted eid ks

is_posted-append :
    (eid j : ℕ) (ks : List ℕ) → is_posted eid (ks ++ j ∷ []) ≡ (is_posted eid ks || eid == j)
is_posted-append eid j [] = ground arith
is_posted-append eid j (k ∷ ks) = ground (arith, is_posted-append eid j ks)

-- The endpoint's tags and queues keep their invariant, and a message in the queue while a tag is free
-- has a posted function that will send it.
pub record IsLive (eid : ℕ) (q : Queue) : Type 0 where
  pub wf : IsWf (endpoint_at eid q)
  pub turn : IsSettled (endpoint_at eid q) ⊎ (is_posted eid q.posted ≡ true)

-- What an event leaves that is `n` answers.
record Pays (eid : ℕ) (q : Queue) (n : ℕ) (q' : Queue) : Type 0 where
  live : IsLive eid q'
  paid : pending (endpoint_at eid q') + n ≤ pending (endpoint_at eid q)

-- Nothing changes for the endpoint, and what was posted for it stays so.
unchanged :
    (eid : ℕ) (q q' : Queue)
    → IsLive eid q
    → endpoint_at eid q' ≡ endpoint_at eid q
    → (is_posted eid q.posted ≡ true → is_posted eid q'.posted ≡ true)
    → Pays eid q 0 q'
unchanged eid q q' l e p = record {
  live = record { wf = rw e l.wf; turn = elim l.turn [ inl s ↦ inl (rw e s) | inr k ↦ inr (p k) ] };
  paid = rw e (omega arith);
}

own_packet :
    (eid t : ℕ) (b : Bytes) (q : Queue)
    → IsLive eid q
    → Pays eid q (hits eid (packet eid t b) q) (receive eid t b q).0
own_packet eid t b q l = elim (receive-cases eid t b q) [
  | inl (n, e) ↦ rw (e, ==_refl eid, n) (unchanged eid q q l refl (λ k. k))
  | inr (i, n, e) ↦
      let x = endpoint_at eid q in
      let a : endpoint_at eid (answered eid t i b x q) ≡ answer t i b x =
        endpoint_at-answered eid t i eid b x q ∙ rw (==_refl eid) refl in
      let z = length-erase_found t i x.transmitted_messages n in
      let fewer : pending (answer t i b x) + 1 ≤ pending x = unfold answer in omega (arith, z) in
      rw (e, ==_refl eid, n)
        (record {
          live = record {
            wf = rw a (answer-IsWf t i b x l.wf n);
            turn = inr (is_posted-append eid eid q.posted ∙ ground (arith, ==_refl eid));
          };
          paid = rw a fewer;
        })
]

other_packet :
    (eid j t : ℕ) (b : Bytes) (q : Queue)
    → (eid == j) ≡ false
    → IsLive eid q
    → Pays eid q 0 (receive j t b q).0
other_packet eid j t b q d l = elim (receive-cases j t b q) [
  | inl (n, e) ↦ rw e (unchanged eid q q l refl (λ k. k))
  | inr (i, n, e) ↦
      let x = endpoint_at j q in
      let a : endpoint_at eid (answered j t i b x q) ≡ endpoint_at eid q =
        endpoint_at-answered j t i eid b x q ∙ rw d refl in
      rw e (
        unchanged eid q (answered j t i b x q) l a
          (λ k. is_posted-append eid j q.posted ∙ ground (arith, k)))
]

own_run :
    (mctp : Libmctp) (eid : ℕ) (rest : List ℕ) (q : Queue)
    → IsLive eid q
    → Pays eid q 0 (run_queued mctp eid (endpoint_at eid q) (record q { posted = rest }))
own_run mctp eid rest q l =
    let x = endpoint_at eid q in
    let r = transmit_queued_messages mctp eid x q.wire in
    let i = transmit_queued-IsIdle mctp eid x q.wire l.wf in
    let a : endpoint_at eid (run_queued mctp eid x (record q { posted = rest })) ≡ r.0 =
      endpoint_at-run_queued mctp eid eid x (record q { posted = rest }) ∙ rw (==_refl eid) refl in
    let z : pending r.0 ≤ pending x =
      unfold transmit_queued_messages in
      transmit_from-pending mctp eid x.queued_messages x q.wire refl in
    record {
      live = record { wf = rw a i.wf; turn = inl (rw a i.settled) };
      paid = rw a (omega (arith, z));
    }

other_run :
    (mctp : Libmctp) (eid j : ℕ) (rest : List ℕ) (q : Queue)
    → (eid == j) ≡ false
    → q.posted ≡ j ∷ rest
    → IsLive eid q
    → Pays eid q 0 (run_queued mctp j (endpoint_at j q) (record q { posted = rest }))
other_run mctp eid j rest q d n l =
    let q1 = record q { posted = rest } in
    let a : endpoint_at eid (run_queued mctp j (endpoint_at j q) q1) ≡ endpoint_at eid q1 =
      endpoint_at-run_queued mctp j eid (endpoint_at j q) q1 ∙ rw d refl in
    let same : endpoint_at eid q1 ≡ endpoint_at eid q = unfold endpoint_at in refl in
    let k : is_posted eid q.posted ≡ true → is_posted eid rest ≡ true =
      λ k. ground (arith, d, ap (is_posted eid) n, k) in
    unchanged eid q (run_queued mctp j (endpoint_at j q) q1) l (a ∙ same) (unfold run_queued in k)

run_posted-none : (mctp : Libmctp) (q : Queue) → q.posted ≡ [] → run_posted mctp q ≡ q
unfolding run_posted
run_posted-none mctp q n = ground (arith, n)

run_posted-some :
    (mctp : Libmctp) (j : ℕ) (rest : List ℕ) (q : Queue)
    → q.posted ≡ j ∷ rest
    → run_posted mctp q ≡ run_queued mctp j (endpoint_at j q) (record q { posted = rest })
unfolding run_posted
run_posted-some mctp j rest q n = ground (arith, n)

run_posted-Pays :
    (mctp : Libmctp) (eid : ℕ) (q : Queue) → IsLive eid q → Pays eid q 0 (run_posted mctp q)
run_posted-Pays mctp eid q l = elim (List-cases q.posted) [
  | inl n ↦ rw (run_posted-none mctp q n) (unchanged eid q q l refl (λ k. k))
  | inr (j, rest, n) ↦ rw (run_posted-some mctp j rest q n) (elim (Bool-cases (eid == j)) [
    | inl e ↦
        subst (λ x. Pays eid q 0 (run_queued mctp x (endpoint_at x q) (record q { posted = rest })))
          (==→eq eid j e) (own_run mctp eid rest q l)
    | inr e ↦ other_run mctp eid j rest q e n l
  ])
]

happen-Pays :
    (mctp : Libmctp) (eid : ℕ) (e : Event) (q : Queue)
    → IsLive eid q
    → Pays eid q (hits eid e q) (happen mctp e q)
unfolding happen
happen-Pays mctp eid runs q l = run_posted-Pays mctp eid q l
happen-Pays mctp eid (packet j t b) q l = elim (Bool-cases (j == eid)) [
  | inl h ↦
      subst (λ x. Pays eid q (hits eid (packet x t b) q) (receive x t b q).0) (sym (==→eq j eid h))
        (own_packet eid t b q l)
  | inr h ↦ let d : (eid == j) ≡ false = ground (arith, h) in rw h (other_packet eid j t b q d l)
]

play-Pays :
    (mctp : Libmctp) (eid : ℕ) (events : List Event) (q : Queue)
    → IsLive eid q
    → Pays eid q (answers mctp eid events q) (play mctp events q)
unfolding play
play-Pays mctp eid [] q l = unchanged eid q q l refl (λ k. k)
play-Pays mctp eid (e ∷ events) q l =
    let a = happen-Pays mctp eid e q l in
    let b = play-Pays mctp eid events (happen mctp e q) a.live in
    record { live = b.live; paid = omega (arith, a.paid, b.paid) }

-- A message is in flight, which the device can answer, or the posted function is still to run.
abbrev pub CanGoOn : ℕ → Queue → Type 0
CanGoOn eid q =
    (1 ≤ pending (endpoint_at eid q))
    × (((t : ℕ) × (i : ℕ) × (find t (endpoint_at eid q).transmitted_messages ≡ some i))
        ⊎ (is_posted eid q.posted ≡ true))

find_front : (t i : ℕ) (m : Map ℕ) → find t ((t, i) ∷ m) ≡ some i
unfolding find
find_front t i m = rw (==_refl t) refl

live-progress : (eid : ℕ) (q : Queue) → IsLive eid q → IsDrained (endpoint_at eid q) ⊎ CanGoOn eid q
live-progress eid q l =
    let e = endpoint_at eid q in
    elim (Bool-cases (pending e == 0)) [
      | inl z ↦ inl (nothing_pending e l.wf (==→eq (pending e) 0 z))
      | inr z ↦
          let more : 1 ≤ pending e = ground (arith, z) in
          elim l.turn [
            | inr k ↦ inr (more, inr k)
            | inl s ↦ elim (List-cases e.transmitted_messages) [
              | inr ((t, i), m, n) ↦ inr (more, inl (t, i, rw n (find_front t i m)))
              | inl n ↦
                  absurd (
                    omega
                      (arith, more, IsIdle-nothing_sent e (record { wf = l.wf; settled = s }) n))
            ]
          ]
    ]

-- Take an endpoint that keeps the invariant of its tags and queues, where no message is in the queue
-- while a tag is free, unless the function that sends it is posted. Let packets come from any
-- endpoints with any tags, and posted functions run, in any order; no message is added or times out.
-- Each packet with the tag of one of the endpoint's messages in flight makes its messages that are
-- queued or in flight fewer by one at least, and nothing makes them more, whatever libmctp does. At any
-- time either none is left and all eight tags are free, or one is in flight for the device to answer
-- or the endpoint's posted function is still to run. So after as many answers as messages were queued
-- or in flight, none is left.
pub play-IsDrained :
    (mctp : Libmctp) (eid : ℕ) (events : List Event) (q : Queue)
    → IsLive eid q
    → let q' = play mctp events q in
      (pending (endpoint_at eid q') + answers mctp eid events q ≤ pending (endpoint_at eid q))
      × (IsDrained (endpoint_at eid q') ⊎ CanGoOn eid q')
play-IsDrained mctp eid events q l =
    let p = play-Pays mctp eid events q l in (p.paid, live-progress eid (play mctp events q) p.live)
