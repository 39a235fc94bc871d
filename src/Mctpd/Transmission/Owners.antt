-- ===== src/Mctpd/Transmission/Owners.antt =====
-- mctpd/src/utils/transmission_queue.cpp: the tag that a message has stays its own until it is
-- answered or disposed of.
use pmci.Prelude.{
  ℕ, ◌<◌, ◌≡◌, ◌≢◌, List, [], ◌∷◌, none, some, Bytes, arith, Option-cases, inl, inr, ◌∙◌, sym,
}
use pmci.Prelude.Map.{Map, find, find-erase, find-emplace}
use pmci.Mctpd.Transmission.TagBits.{next, next-eq-some}
use pmci.Mctpd.Transmission.{
  Packet, Libmctp, Endpoint, new_message, put, give_tag, transmit_front, transmit_from, enqueue,
  answer, drop_message,
}
use pmci.Mctpd.Transmission.Release.{OwnsTag}
use pmci.Mctpd.Transmission.Wellformed.{
  IsWf, is_free-eq, transmit_front-IsWf, transmit_front-queued,
}

-- What a sender relies on while it waits.
pub record IsOwner (e : Endpoint) (i : ℕ) : Type 0 where
  pub created : i < e.msg_counter
  pub owns : OwnsTag e i

next-unused :
    (e : Endpoint) (t : ℕ)
    → IsWf e
    → next e.available_tags ≡ some t
    → find t e.transmitted_messages ≡ none
next-unused e t w n =
    let (a, b) = next-eq-some e.available_tags t n in
    is_free-eq (find t e.transmitted_messages)
      (sym (w.free_or_used t (omega (arith, w.eight_tags, b))) ∙ a)

transmit_front-IsOwner :
    (mctp : Libmctp) (eid t k j i : ℕ) (q : Map ℕ) (e : Endpoint) (wire : List Packet)
    → IsWf e
    → next e.available_tags ≡ some t
    → IsOwner e i
    → IsOwner (transmit_front mctp eid t j q e wire).0 i
unfolding transmit_front give_tag put
transmit_front-IsOwner mctp eid t k j i q e wire w n o =
    let f = next-unused e t w n in
    record {
      created = ground (arith, o.created);
      owns = λ u h. ground (arith, o.owns u, f, find-emplace t u j e.transmitted_messages);
    }

pub transmit_from-IsOwner :
    (mctp : Libmctp) (eid i : ℕ) (q : Map ℕ) (e : Endpoint) (wire : List Packet)
    → IsWf e
    → e.queued_messages ≡ q
    → IsOwner e i
    → IsOwner (transmit_from mctp eid q e wire).0 i
unfolding transmit_from
transmit_from-IsOwner mctp eid i [] e wire w h o = o
transmit_from-IsOwner mctp eid i ((k, j) ∷ q) e wire w h o =
    elim (Option-cases (next e.available_tags)) [
      | inl n ↦ rw (n, transmit_from) o
      | inr (t, n) ↦
          let r = transmit_front mctp eid t j q e wire in
          rw (n, transmit_from)
            (transmit_from-IsOwner mctp eid i q r.0 r.1
              (transmit_front-IsWf mctp eid t k j q e wire w h n)
              (transmit_front-queued mctp eid t j q e wire)
              (transmit_front-IsOwner mctp eid t k j i q e wire w n o))
    ]

pub enqueue-IsOwner : (e : Endpoint) (b p : Bytes) (i : ℕ) → IsOwner e i → IsOwner (enqueue b p e) i
unfolding enqueue put
enqueue-IsOwner e b p i o = record {
  created = omega (arith, o.created);
  owns = λ t h. ground (arith, o.owns t, o.created);
}

pub enqueue-IsOwner_new : (e : Endpoint) (b p : Bytes) → IsOwner (enqueue b p e) e.msg_counter
unfolding enqueue put new_message
enqueue-IsOwner_new e b p = record { created = omega arith; owns = λ t h. ground arith }

pub answer-IsOwner :
    (e : Endpoint) (t j i : ℕ) (b : Bytes)
    → find t e.transmitted_messages ≡ some j
    → IsOwner e i
    → IsOwner (answer t j b e) i
unfolding answer put
answer-IsOwner e t j i b f o = record {
  created = o.created;
  owns = λ u h. ground (arith, o.owns u, f, find-erase t u e.transmitted_messages);
}

pub drop_message-IsOwner :
    (e : Endpoint) (j i : ℕ) → i ≢ j → IsOwner e j → IsOwner e i → IsOwner (drop_message j e) i
unfolding drop_message
drop_message-IsOwner e j i d p o = elim (Option-cases (e.messages j).tag) [
  | inl n ↦ rw (n, drop_message) (record { created = o.created; owns = o.owns })
  | inr (t, n) ↦
      rw (n, drop_message)
        (record {
          created = o.created;
          owns =
              λ u h. ground (arith, o.owns u h, p.owns t n, find-erase t u e.transmitted_messages);
        })
]
