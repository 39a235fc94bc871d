-- ===== src/Mctpd/Transmission/Release.antt =====
-- mctpd/src/utils/transmission_queue.cpp: the operations that give a tag back keep what holds of an
-- endpoint.
use pmci.Prelude.{ℕ, ◌≡◌, some, Bytes, arith, Option-cases, inl, inr}
use pmci.Prelude.Map.{find, find-erase, erase-IsSorted}
use pmci.Mctpd.Transmission.TagBits.{length-emplace_tag, is_available-emplace_tag}
use pmci.Mctpd.Transmission.{Endpoint, put, answer, drop_message}
use pmci.Mctpd.Transmission.Wellformed.{IsWf, unqueued-IsWf}

pub answer-IsWf :
    (t i : ℕ) (b : Bytes) (e : Endpoint)
    → IsWf e
    → find t e.transmitted_messages ≡ some i
    → IsWf (answer t i b e)
unfolding answer put
answer-IsWf t i b e w h = record {
  eight_tags = omega (arith, length-emplace_tag t e.available_tags, w.eight_tags);
  free_or_used = λ u l. ground (
    arith,
    w.eight_tags,
    w.free_or_used u l,
    is_available-emplace_tag t u e.available_tags,
    find-erase t u e.transmitted_messages,
  );
  in_flight = λ u j g.
      ground (arith, w.in_flight u j, w.in_flight t i h, find-erase t u e.transmitted_messages);
  waits = λ k j g. ground (arith, w.waits k j g, w.in_flight t i h);
  in_order = w.in_order;
  indexed = λ j. ground (arith, w.indexed j, w.indexed i);
}

-- The tag that a message has is its own.
abbrev pub OwnsTag : Endpoint → ℕ → Type 0
OwnsTag e i = (t : ℕ) → (e.messages i).tag ≡ some t → find t e.transmitted_messages ≡ some i

pub drop_message-IsWf : (i : ℕ) (e : Endpoint) → IsWf e → OwnsTag e i → IsWf (drop_message i e)
unfolding drop_message
drop_message-IsWf i e w o = elim (Option-cases (e.messages i).tag) [
  | inl n ↦ rw (n, drop_message) (unqueued-IsWf (e.messages i).index e w)
  | inr (t, n) ↦
      rw (n, drop_message)
        (record {
          eight_tags = omega (arith, length-emplace_tag t e.available_tags, w.eight_tags);
          free_or_used = λ u l. ground (
            arith,
            w.eight_tags,
            w.free_or_used u l,
            o t n,
            w.in_flight t i,
            is_available-emplace_tag t u e.available_tags,
            find-erase t u e.transmitted_messages,
          );
          in_flight = λ u j g. ground (
            arith,
            w.in_flight u j,
            find-erase t u e.transmitted_messages,
            find-erase (e.messages i).index j e.queued_messages,
          );
          waits = λ k j g.
              ground (arith, w.waits k j, find-erase (e.messages i).index k e.queued_messages);
          in_order = erase-IsSorted (e.messages i).index e.queued_messages w.in_order;
          indexed = w.indexed;
        })
]
