-- ===== src/Mctpd/Transmission/Draining.antt =====
-- mctpd/src/utils/transmission_queue.cpp: what a response does to its endpoint, and when nothing is left
-- there.
use pmci.Prelude.{
  ℕ, ◌+◌, ◌≤◌, ◌<◌, ◌≡◌, refl, ◌⊎◌, true, false, List, [], ◌∷◌, ◌++◌, none, some, Bytes, arith,
  length, ◌==◌, if◌then◌else◌, Option-cases, inl, inr, ◌∙◌,
}
use pmci.Prelude.Map.{Map, find, erase, assign, find-assign}
use pmci.Mctpd.Transmission.TagBits.{is_available, next-eq-none}
use pmci.Mctpd.Transmission.{
  Packet, Libmctp, Endpoint, Queue, new_endpoint, endpoint_at, transmit_queued_messages, run_queued,
  answer, receive,
}
use pmci.Mctpd.Transmission.Wellformed.{IsWf, transmit_from-IsWf}
use pmci.Mctpd.Transmission.Queueing.{IsSettled, pending, transmit_from-IsSettled}

pub endpoint_at-run_queued :
    (mctp : Libmctp) (eid j : ℕ) (e : Endpoint) (q : Queue)
    → endpoint_at j (run_queued mctp eid e q)
      ≡ (if j == eid then (transmit_queued_messages mctp eid e q.wire).0 else endpoint_at j q)
unfolding endpoint_at run_queued
endpoint_at-run_queued mctp eid j e q =
    ground (arith, find-assign eid j (transmit_queued_messages mctp eid e q.wire).0 q.endpoints)

abbrev pub answered : ℕ → ℕ → ℕ → Bytes → Endpoint → Queue → Queue
answered eid t i b e q = record q {
  endpoints = assign eid (answer t i b e) q.endpoints;
  posted = q.posted ++ eid ∷ [];
}

pub receive-found :
    (eid t i : ℕ) (b : Bytes) (e : Endpoint) (q : Queue)
    → find eid q.endpoints ≡ some e
    → find t e.transmitted_messages ≡ some i
    → receive eid t b q ≡ (answered eid t i b e q, true)
unfolding receive
receive-found eid t i b e q h g = ground arith

-- A packet answers a message in flight, or changes nothing.
pub receive-cases :
    (eid t : ℕ) (b : Bytes) (q : Queue)
    → ((find t (endpoint_at eid q).transmitted_messages ≡ none) × (receive eid t b q ≡ (q, false)))
      ⊎ ((i : ℕ) × (find t (endpoint_at eid q).transmitted_messages ≡ some i)
          × (receive eid t b q ≡ (answered eid t i b (endpoint_at eid q) q, true)))
unfolding receive endpoint_at new_endpoint find
receive-cases eid t b q = elim (Option-cases (find eid q.endpoints)) [
  | inl n ↦ inl (rw (n, endpoint_at) refl, rw (n, receive) refl)
  | inr (e, n) ↦
      let a : endpoint_at eid q ≡ e = rw (n, endpoint_at) refl in
      elim (Option-cases (find t e.transmitted_messages)) [
        | inl m ↦ inl (rw a m, rw (n, receive) (rw m refl))
        | inr (i, m) ↦ inr (i, rw a m, rw a (receive-found eid t i b e q n m))
      ]
]

pub endpoint_at-answered :
    (eid t i j : ℕ) (b : Bytes) (e : Endpoint) (q : Queue)
    → endpoint_at j (answered eid t i b e q)
      ≡ (if j == eid then answer t i b e else endpoint_at j q)
unfolding endpoint_at
endpoint_at-answered eid t i j b e q =
    ground (arith, find-assign eid j (answer t i b e) q.endpoints)

-- No message is forgotten: what holds of the endpoint between two jobs of the event loop.
pub record IsIdle (e : Endpoint) : Type 0 where
  pub wf : IsWf e
  pub settled : IsSettled e

pub transmit_queued-IsIdle :
    (mctp : Libmctp) (eid : ℕ) (e : Endpoint) (wire : List Packet)
    → IsWf e
    → IsIdle (transmit_queued_messages mctp eid e wire).0
unfolding transmit_queued_messages
transmit_queued-IsIdle mctp eid e wire w = record {
  wf = transmit_from-IsWf mctp eid e.queued_messages e wire w refl;
  settled = transmit_from-IsSettled mctp eid e.queued_messages e wire refl;
}

length-erase : (k : ℕ) (m : Map ℕ) → length (erase k m) ≤ length m
unfolding erase
length-erase k [] = omega arith
length-erase k ((j, w) ∷ m) = ground (arith, length-erase k m)

pub length-erase_found :
    (k i : ℕ) (m : Map ℕ) → find k m ≡ some i → length (erase k m) + 1 ≤ length m
unfolding erase find
length-erase_found k i [] h = cc
length-erase_found k i ((j, w) ∷ m) h = ground (arith, length-erase k m, length-erase_found k i m)

pub IsIdle-nothing_sent : (e : Endpoint) → IsIdle e → e.transmitted_messages ≡ [] → pending e ≡ 0
unfolding find
IsIdle-nothing_sent e d h = elim d.settled [
  | inl n ↦ rw (n, h) refl
  | inr n ↦
      let a : is_available 0 e.available_tags ≡ true =
        d.wf.free_or_used 0 (omega arith) ∙ rw h refl in
      ground (arith, a, next-eq-none e.available_tags 0 n)
]

-- Nothing waits, nothing is in flight, and every tag is free.
pub record IsDrained (e : Endpoint) : Type 0 where
  pub none_queued : e.queued_messages ≡ []
  pub none_in_flight : e.transmitted_messages ≡ []
  pub all_free : (t : ℕ) → t < 8 → is_available t e.available_tags ≡ true

eq-nil : (m : Map ℕ) → length m ≡ 0 → m ≡ []
eq-nil [] h = refl
eq-nil (x ∷ m) h = ground arith

pub nothing_pending : (e : Endpoint) → IsWf e → pending e ≡ 0 → IsDrained e
unfolding find
nothing_pending e w h =
    let f = eq-nil e.transmitted_messages (omega (arith, h)) in
    record {
      none_queued = eq-nil e.queued_messages (omega (arith, h));
      none_in_flight = f;
      all_free = λ t l. w.free_or_used t l ∙ rw f refl;
    }
