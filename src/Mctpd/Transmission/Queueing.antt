-- ===== src/Mctpd/Transmission/Queueing.antt =====
-- mctpd/src/utils/transmission_queue.cpp, transmitQueuedMessages: what it takes from the queue, and
-- what it leaves.
use pmci.Prelude.{
  ℕ, suc, ◌+◌, ◌≤◌, ◌≡◌, refl, ◌⊎◌, List, [], ◌∷◌, Option, none, some, Bytes, arith, length, take,
  drop, Option-cases, inl, inr, ap, ◌∙◌,
}
use pmci.Prelude.Map.{Map, emplace}
use pmci.Mctpd.Transmission.TagBits.{next}
use pmci.Mctpd.Transmission.{
  Message, Packet, Libmctp, Endpoint, put, give_tag, packet_of, transmit_front, transmit_from,
  transmit_queued_messages,
}
use pmci.Mctpd.Transmission.Wellformed.{transmit_front-queued}

-- No message waits while a tag is free.
abbrev pub IsSettled : Endpoint → Type 0
IsSettled e = (e.queued_messages ≡ []) ⊎ (next e.available_tags ≡ none)

pub transmit_from-IsSettled :
    (mctp : Libmctp) (eid : ℕ) (q : Map ℕ) (e : Endpoint) (wire : List Packet)
    → e.queued_messages ≡ q
    → IsSettled (transmit_from mctp eid q e wire).0
unfolding transmit_from
transmit_from-IsSettled mctp eid [] e wire h = inl h
transmit_from-IsSettled mctp eid ((k, i) ∷ q) e wire h =
    elim (Option-cases (next e.available_tags)) [
      | inl n ↦ rw (n, transmit_from) (inr n)
      | inr (t, n) ↦
          let r = transmit_front mctp eid t i q e wire in
          rw (n, transmit_from)
            (transmit_from-IsSettled mctp eid q r.0 r.1
              (transmit_front-queued mctp eid t i q e wire))
    ]

-- The messages that an endpoint still has to do with: those that wait, and those in flight.
abbrev pub pending : Endpoint → ℕ
pending e = length e.queued_messages + length e.transmitted_messages

length-emplace : (k v : ℕ) (m : Map ℕ) → length (emplace k v m) ≤ suc (length m)
unfolding emplace
length-emplace k v [] = omega arith
length-emplace k v ((j, w) ∷ m) = ground (arith, length-emplace k v m)

transmit_front-pending :
    (mctp : Libmctp) (eid t i : ℕ) (q : Map ℕ) (e : Endpoint) (wire : List Packet)
    → pending (transmit_front mctp eid t i q e wire).0
      ≤ suc (length q + length e.transmitted_messages)
unfolding transmit_front give_tag
transmit_front-pending mctp eid t i q e wire =
    ground (arith, length-emplace t i e.transmitted_messages)

pub transmit_from-pending :
    (mctp : Libmctp) (eid : ℕ) (q : Map ℕ) (e : Endpoint) (wire : List Packet)
    → e.queued_messages ≡ q
    → pending (transmit_from mctp eid q e wire).0 ≤ pending e
unfolding transmit_from
transmit_from-pending mctp eid [] e wire h = omega arith
transmit_from-pending mctp eid ((k, i) ∷ q) e wire h = elim (Option-cases (next e.available_tags)) [
  | inl n ↦ rw (n, transmit_from) (omega arith)
  | inr (t, n) ↦
      let r = transmit_front mctp eid t i q e wire in
      rw (n, transmit_from)
        (ground (
          arith,
          transmit_front-pending mctp eid t i q e wire,
          ap length h,
          transmit_from-pending mctp eid q r.0 r.1 (transmit_front-queued mctp eid t i q e wire),
        ))
]

-- A list, its last entry first, in front of another.
abbrev pub onto {ℓ} : {A : Type ℓ} → List A → List A → List A
onto [] ys = ys
onto (x ∷ xs) ys = onto xs (x ∷ ys)

-- What goes out for the messages of a queue, and what has gone out, the newest first.
abbrev pub contents : (ℕ → Message) → Map ℕ → List (Bytes × Bytes)
contents m [] = []
contents m ((k, i) ∷ q) = ((m i).payload, (m i).private_data) ∷ contents m q

abbrev pub sent : List Packet → List (Bytes × Bytes)
sent [] = []
sent (p ∷ w) = (p.payload, p.private_data) ∷ sent w

-- The messages leave from the front of the queue, in its order: `n` of them have gone.
abbrev pub TakesFront : Map ℕ → Endpoint → List Packet → Endpoint × List Packet → ℕ → Type 0
TakesFront q e wire r n =
    (r.0.queued_messages ≡ drop n q)
    × (sent r.1 ≡ onto (contents e.messages (take n q)) (sent wire))

contents-put :
    (i : ℕ) (t : Option ℕ) (m : ℕ → Message) (q : Map ℕ)
    → contents (put i (record (m i) { tag = t }) m) q ≡ contents m q
unfolding put
contents-put i t m [] = refl
contents-put i t m ((k, j) ∷ q) = ground (arith, contents-put i t m q)

transmit_front-contents :
    (mctp : Libmctp) (eid t i : ℕ) (q p : Map ℕ) (e : Endpoint) (wire : List Packet)
    → contents (transmit_front mctp eid t i q e wire).0.messages p ≡ contents e.messages p
unfolding transmit_front give_tag
transmit_front-contents mctp eid t i q p e wire =
    ground (arith, contents-put i (some t) e.messages p)

transmit_front-sent :
    (mctp : Libmctp) (eid t i : ℕ) (q : Map ℕ) (e : Endpoint) (wire : List Packet)
    → sent (transmit_front mctp eid t i q e wire).1
      ≡ ((e.messages i).payload, (e.messages i).private_data) ∷ sent wire
unfolding transmit_front packet_of
transmit_front-sent mctp eid t i q e wire = ground arith

transmit_from-takes :
    (mctp : Libmctp) (eid : ℕ) (q : Map ℕ) (e : Endpoint) (wire : List Packet)
    → e.queued_messages ≡ q
    → (n : ℕ) × TakesFront q e wire (transmit_from mctp eid q e wire) n
unfolding transmit_from
transmit_from-takes mctp eid [] e wire h = (0, (h, refl))
transmit_from-takes mctp eid ((k, i) ∷ q) e wire h = elim (Option-cases (next e.available_tags)) [
  | inl n ↦ (0, (rw (n, transmit_from) h, rw (n, transmit_from) refl))
  | inr (t, n) ↦
      let r = transmit_front mctp eid t i q e wire in
      let (l, (a, b)) =
        transmit_from-takes mctp eid q r.0 r.1 (transmit_front-queued mctp eid t i q e wire) in
      let c = transmit_front-contents mctp eid t i q (take l q) e wire in
      let d = transmit_front-sent mctp eid t i q e wire in
      (suc l, (rw (n, transmit_from) a, rw (n, transmit_from) (b ∙ rw (c, d) refl)))
]

-- The loop takes messages from the front of the queue, in its order, each with its own payload and
-- private data, and stops only when the queue is empty or no tag is free.
pub transmit_queued-takes :
    (mctp : Libmctp) (eid : ℕ) (e : Endpoint) (wire : List Packet)
    → let r = transmit_queued_messages mctp eid e wire in
      ((n : ℕ) × TakesFront e.queued_messages e wire r n) × IsSettled r.0
unfolding transmit_queued_messages
transmit_queued-takes mctp eid e wire = (
  transmit_from-takes mctp eid e.queued_messages e wire refl,
  transmit_from-IsSettled mctp eid e.queued_messages e wire refl,
)
