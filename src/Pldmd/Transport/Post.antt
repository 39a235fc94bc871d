-- ===== src/Pldmd/Transport/Post.antt =====
-- sendPldmMessage of pldmd/src/pldmd.cpp: how often a message is posted, and when that is enough.
use Prim.Native.Nat.{min}
use pmci.Prelude.{
  ℕ, zero, suc, ◌≤◌, ◌<◌, ◌≡◌, refl, Bool, true, false, List, ◌∷◌, some, Bytes, arith, ltb,
  if◌then◌else◌,
}
use pmci.Pldmd.TidMapper.{get_mapped_eid}
use pmci.Pldmd.Transport.Bus.{
  Packet, message, Bus, head_or, tail, mctp_type_pldm, validate_reserve_bw, header_type,
}
use pmci.Pldmd.Transport.Exchange.{max_retry_count, post_rounds, post_at, send_pldm_message}

-- Whether one of the next `n` posts works, and how many are made: up to the first that works.
abbrev pub works : ℕ → List Bool → Bool
works zero posts = false
works (suc n) posts = elim (head_or false posts) [ true ↦ true | false ↦ works n (tail posts) ]

abbrev pub made : ℕ → List Bool → ℕ
made zero posts = 0
made (suc n) posts = elim (head_or false posts) [ true ↦ 1 | false ↦ suc (made n (tail posts)) ]

-- The copies of a packet in front of the wire.
abbrev pub again_on : ℕ → Packet → List Packet → List Packet
again_on zero p wire = wire
again_on (suc n) p wire = again_on n p (p ∷ wire)

post_rounds-made :
    (n dst_eid msg_tag : ℕ) (tag_owner : Bool) (payload : Bytes) (b : Bus)
    → let r = post_rounds n dst_eid msg_tag tag_owner payload false b in
      (r.0.wire ≡ again_on (made n b.posts) (message dst_eid msg_tag tag_owner payload) b.wire)
      × (r.1 ≡ works n b.posts)
unfolding post_rounds
post_rounds-made zero dst_eid msg_tag tag_owner payload b = (refl, refl)
post_rounds-made (suc n) dst_eid msg_tag tag_owner payload b = ground (
  arith,
  post_rounds-made n dst_eid msg_tag tag_owner payload (record b {
    posts = tail b.posts;
    wire = message dst_eid msg_tag tag_owner payload ∷ b.wire;
  }),
)

-- With a try allowed, what `rc` started as is never read.
post_rounds_start :
    (n dst_eid msg_tag : ℕ) (tag_owner : Bool) (payload : Bytes) (b : Bus)
    → 0 < n
    → post_rounds n dst_eid msg_tag tag_owner payload true b
      ≡ post_rounds n dst_eid msg_tag tag_owner payload false b
unfolding post_rounds
post_rounds_start zero dst_eid msg_tag tag_owner payload b h = absurd (omega arith)
post_rounds_start (suc n) dst_eid msg_tag tag_owner payload b h = refl

pub capped :
    (n : ℕ) → (if ltb max_retry_count n then max_retry_count else n) ≡ min n max_retry_count
capped n = ground arith

made-le : (n : ℕ) (posts : List Bool) → made n posts ≤ n
made-le zero posts = omega arith
made-le (suc n) posts = ground (arith, made-le n (tail posts))

-- To a mapped terminus, with the bandwidth not reserved for another and at least one try allowed, a
-- message is posted, with the MCTP type in front, up to the first post that works, five times at
-- most and no more often than allowed; the result says whether one worked.
pub send_pldm_message-posts :
    (b : Bus) (tid dst_eid retry_count msg_tag : ℕ) (tag_owner : Bool) (payload : Bytes)
    → validate_reserve_bw tid (header_type payload) b ≡ false
    → get_mapped_eid tid b.tid_mapper ≡ some dst_eid
    → let r = send_pldm_message tid (suc retry_count) msg_tag tag_owner payload b in
      let n = min (suc retry_count) max_retry_count in
      (r.0.wire
        ≡ again_on
            (made n b.posts)
            (message dst_eid msg_tag tag_owner (mctp_type_pldm ∷ payload))
            b.wire)
      × (r.1 ≡ works n b.posts)
      × (made n b.posts ≤ n)
unfolding send_pldm_message
send_pldm_message-posts b tid dst_eid retry_count msg_tag tag_owner payload free mapped =
    let n = min (suc retry_count) max_retry_count in
    let full = mctp_type_pldm ∷ payload in
    rw
      (
        free,
        mapped,
        post_at,
        capped,
        post_rounds_start n dst_eid msg_tag tag_owner full b (omega arith),
      )
      (let (w, r) = post_rounds-made n dst_eid msg_tag tag_owner full b in
        (w, r, made-le n b.posts))
