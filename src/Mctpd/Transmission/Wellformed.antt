-- ===== src/Mctpd/Transmission/Wellformed.antt =====
-- mctpd/src/utils/transmission_queue.cpp: what holds of an endpoint's tags, queues and messages, and
-- that sending keeps it.
use pmci.Prelude.{
  ℕ, ◌<◌, ◌≡◌, refl, Bool, true, false, List, [], ◌∷◌, Option, none, some, Bytes, arith, length,
  ◌==◌, if◌then◌else◌, Option-cases, Bool-cases, inl, inr,
}
use mathlib.Core.Path.{subst}
use pmci.Prelude.Map.{
  Map, find, erase, find-erase, find-emplace, Above, IsSorted, find-Above, emplace-IsSorted,
  erase-IsSorted, Above-IsSorted,
}
use pmci.Mctpd.Transmission.TagBits.{
  next, is_available, length-erase_tag, is_available-erase_tag, next-eq-some, is_available-all,
}
use pmci.Mctpd.Transmission.{
  Packet, Libmctp, Endpoint, new_endpoint, new_message, put, give_tag, packet_of, transmit_front,
  transmit_from, enqueue,
}

abbrev pub is_free : Option ℕ → Bool
is_free none = true
is_free (some i) = false

-- A message that has a tag is below the counter, knows its tag, is not in the queue, and has no
-- response.
abbrev pub InFlight : Endpoint → ℕ → ℕ → Type 0
InFlight e t i =
    (t < 8)
    × ((e.messages i).tag ≡ some t)
    × (find i e.queued_messages ≡ none)
    × (i < e.msg_counter)
    × ((e.messages i).response ≡ none)

-- A message in the queue stands there under its own index, and has no tag and no response.
abbrev pub Waits : Endpoint → ℕ → ℕ → Type 0
Waits e k i =
    (k ≡ i) × ((e.messages i).tag ≡ none) × (i < e.msg_counter) × ((e.messages i).response ≡ none)

pub record IsWf (e : Endpoint) : Type 0 where
  pub eight_tags : length e.available_tags ≡ 8
  pub free_or_used :
      (t : ℕ) → t < 8 → is_available t e.available_tags ≡ is_free (find t e.transmitted_messages)
  pub in_flight : (t i : ℕ) → find t e.transmitted_messages ≡ some i → InFlight e t i
  pub waits : (k i : ℕ) → find k e.queued_messages ≡ some i → Waits e k i
  pub in_order : IsSorted e.queued_messages
  pub indexed : (i : ℕ) → (e.messages i).index ≡ i

pub new_endpoint-IsWf : IsWf new_endpoint
unfolding new_endpoint find new_message
new_endpoint-IsWf = record {
  eight_tags = refl;
  free_or_used = λ t h. is_available-all 8 t h;
  in_flight = λ t i h. cc;
  waits = λ k i h. cc;
  in_order = tt;
  indexed = λ i. refl;
}

find-fresh : (e : Endpoint) → IsWf e → find e.msg_counter e.queued_messages ≡ none
find-fresh e w = elim (Option-cases (find e.msg_counter e.queued_messages)) [
  | inl h ↦ h
  | inr (i, h) ↦ ground (arith, w.waits e.msg_counter i h)
]

pub enqueue-IsWf : (e : Endpoint) (b p : Bytes) → IsWf e → IsWf (enqueue b p e)
unfolding enqueue put new_message
enqueue-IsWf e b p w = record {
  eight_tags = w.eight_tags;
  free_or_used = w.free_or_used;
  in_flight = λ t i h. ground (
    arith,
    w.in_flight t i h,
    find-fresh e w,
    find-emplace e.msg_counter i e.msg_counter e.queued_messages,
  );
  waits = λ k i h. ground (
    arith,
    w.waits k i,
    find-fresh e w,
    find-emplace e.msg_counter k e.msg_counter e.queued_messages,
  );
  in_order = emplace-IsSorted e.msg_counter e.msg_counter e.queued_messages w.in_order;
  indexed = λ i. ground (arith, w.indexed i);
}

pub unqueued-IsWf :
    (k : ℕ) (e : Endpoint)
    → IsWf e
    → IsWf (record e { queued_messages = erase k e.queued_messages })
unqueued-IsWf k e w = record {
  eight_tags = w.eight_tags;
  free_or_used = w.free_or_used;
  in_flight = λ t j f. ground (arith, w.in_flight t j f, find-erase k j e.queued_messages);
  waits = λ l j f. ground (arith, w.waits l j, find-erase k l e.queued_messages);
  in_order = erase-IsSorted k e.queued_messages w.in_order;
  indexed = w.indexed;
}

-- What is taken from the queue's front leaves the rest of the queue as it was.
find-tail :
    (k i j : ℕ) (q : Map ℕ) → Above k q → find j q ≡ (if j == k then none else find j ((k, i) ∷ q))
unfolding find
find-tail k i j q a = ground (arith, find-Above j k q a)

sorted-tail : (k i : ℕ) (q m : Map ℕ) → m ≡ (k, i) ∷ q → IsSorted m → Above k q
sorted-tail k i q m h o = subst (λ x. IsSorted x) h o

popped-IsWf :
    (k i : ℕ) (q : Map ℕ) (e : Endpoint)
    → IsWf e
    → e.queued_messages ≡ (k, i) ∷ q
    → IsWf (record e { queued_messages = q })
popped-IsWf k i q e w h =
    let a : Above k q = sorted-tail k i q e.queued_messages h w.in_order in
    record {
      eight_tags = w.eight_tags;
      free_or_used = w.free_or_used;
      in_flight = λ t j f. ground (arith, w.in_flight t j f, find-tail k i j q a);
      waits = λ l j f. ground (arith, w.waits l j, find-tail k i l q a);
      in_order = Above-IsSorted k q a;
      indexed = w.indexed;
    }

pub is_free-eq : (o : Option ℕ) → is_free o ≡ true → o ≡ none
is_free-eq none h = refl
is_free-eq (some i) h = cc

give_tag-IsWf :
    (t i : ℕ) (e : Endpoint)
    → IsWf e
    → next e.available_tags ≡ some t
    → find i e.queued_messages ≡ none
    → (e.messages i).tag ≡ none
    → i < e.msg_counter
    → (e.messages i).response ≡ none
    → IsWf (give_tag t i e)
unfolding give_tag put
give_tag-IsWf t i e w n h m c z =
    let (a, b) = next-eq-some e.available_tags t n in
    let l8 = w.eight_tags in
    let f = is_free-eq (find t e.transmitted_messages) (rw (← w.free_or_used t (omega arith)) a) in
    record {
      eight_tags = omega (arith, length-erase_tag t e.available_tags, w.eight_tags);
      free_or_used = λ u l. ground (
        arith,
        w.free_or_used u l,
        is_available-erase_tag t u e.available_tags,
        find-emplace t u i e.transmitted_messages f,
      );
      in_flight =
          λ u j g. ground (arith, w.in_flight u j, find-emplace t u i e.transmitted_messages f);
      waits = λ k j g. ground (arith, w.waits k j g);
      in_order = w.in_order;
      indexed = λ j. ground (arith, w.indexed j, w.indexed i);
    }

pub transmit_front-queued :
    (mctp : Libmctp) (eid t i : ℕ) (q : Map ℕ) (e : Endpoint) (wire : List Packet)
    → (transmit_front mctp eid t i q e wire).0.queued_messages ≡ q
unfolding transmit_front give_tag
transmit_front-queued mctp eid t i q e wire = ground arith

pub transmit_front-IsWf :
    (mctp : Libmctp) (eid t k i : ℕ) (q : Map ℕ) (e : Endpoint) (wire : List Packet)
    → IsWf e
    → e.queued_messages ≡ (k, i) ∷ q
    → next e.available_tags ≡ some t
    → IsWf (transmit_front mctp eid t i q e wire).0
unfolding transmit_front find
transmit_front-IsWf mctp eid t k i q e wire w h n =
    let p = popped-IsWf k i q e w h in
    let a : Above k q = sorted-tail k i q e.queued_messages h w.in_order in
    let (ki, nt, lt, z) = w.waits k i (rw h (ground arith)) in
    elim (Bool-cases (mctp wire (packet_of eid t (e.messages i)))) [
      | inl b ↦ rw b (
          give_tag-IsWf t i (record e { queued_messages = q }) p n
            (find-Above i k q a (omega arith)) nt lt z)
      | inr b ↦ rw b p
    ]

pub transmit_from-IsWf :
    (mctp : Libmctp) (eid : ℕ) (q : Map ℕ) (e : Endpoint) (wire : List Packet)
    → IsWf e
    → e.queued_messages ≡ q
    → IsWf (transmit_from mctp eid q e wire).0
unfolding transmit_from
transmit_from-IsWf mctp eid [] e wire w h = w
transmit_from-IsWf mctp eid ((k, i) ∷ q) e wire w h = elim (Option-cases (next e.available_tags)) [
  | inl n ↦ rw (n, transmit_from) w
  | inr (t, n) ↦
      let r = transmit_front mctp eid t i q e wire in
      rw (n, transmit_from)
        (transmit_from-IsWf mctp eid q r.0 r.1 (transmit_front-IsWf mctp eid t k i q e wire w h n)
          (transmit_front-queued mctp eid t i q e wire))
]
