-- ===== src/Pldmd/Transport/Retry.antt =====
-- sendReceivePldmMessage of pldmd/src/pldmd.cpp: which answers it takes, and what its retries send.
use Prim.Native.Nat.{min}
use pmci.Prelude.{
  ℕ, zero, suc, ◌+◌, ◌≤◌, ◌≡◌, refl, Bool, true, false, List, [], ◌∷◌, Option, none, some, Bytes,
  length, drop, arith, ltb, if◌then◌else◌, inl, inr, Bool-cases,
}
use pmci.Pldmd.TidMapper.{get_mapped_eid}
use pmci.Pldmd.Transport.Bus.{
  request, Reply, Bus, head_or, mctp_type_pldm, validate_reserve_bw, get_instance_id,
  get_pldm_packet_type, header_type,
}
use pmci.Pldmd.Transport.Exchange.{
  max_retry_count, matched, mismatched, same_id, Round, give_up, done, again, check_response,
  after_check, after_answer, round_at, round, rounds, target, send_receive_pldm_message, no_reply,
  remove_all,
}
use pmci.Pldmd.Transport.Post.{capped}

-- A round hands at most one packet to the wrapper, and a response that it takes has a header.
abbrev Sends : Bus → Round → Type 0
Sends b give_up = Unit {0}
Sends b (done resp c) = (length c.wire ≡ suc (length b.wire)) × (3 ≤ length resp)
Sends b (again req c) = length c.wire ≡ suc (length b.wire)

length-drop_one : (xs : Bytes) → 4 ≤ length xs → 3 ≤ length (drop 1 xs)
length-drop_one [] h = elim h [ ]
length-drop_one (x ∷ xs) h = omega arith

round_wire :
    (first : Bool) (eid : Option ℕ) (tid : ℕ) (pldm_req : Bytes) (b : Bus)
    → Sends b (round first eid tid pldm_req b)
unfolding round
round_wire first eid tid pldm_req b = answer (target eid tid b)
  where
    checked :
        (req resp : Bytes) (c : Bus)
        → length c.wire ≡ suc (length b.wire)
        → Sends b (after_check (check_response req resp) req c)
    checked req resp c h = ground (arith, length-drop_one resp)

    answered :
        (o : Option Bytes) (req : Bytes) (c : Bus)
        → length c.wire ≡ suc (length b.wire)
        → Sends b (after_answer (c, o) req)
    answered none req c h = h
    answered (some resp) req c h = checked req resp c h

    answer :
        (o : Option ℕ)
        → Sends b (round_at o (if first then mctp_type_pldm ∷ pldm_req else pldm_req) b)
    answer none = tt
    answer (some dst_eid) = answered (head_or no_reply b.replies).answer _ _ refl

abbrev next : ℕ → Option ℕ → ℕ → Bus → Round → Bus × Option Bytes
next n eid tid b r = elim r [
  | give_up ↦ (b, none)
  | done resp c ↦ (c, some resp)
  | again req c ↦ rounds n false eid tid req c
]

-- What is proved of the rounds that are left: how much they send, and that a response has a header.
abbrev pub Bounded : ℕ → Bus → Bus × Option Bytes → Type 0
Bounded n b (c, none) = length c.wire ≤ length b.wire + n
Bounded n b (c, some resp) = (length c.wire ≤ length b.wire + n) × (3 ≤ length resp)

Bounded-mono :
    (n : ℕ) (b c : Bus) (r : Bus × Option Bytes)
    → length c.wire ≡ suc (length b.wire)
    → Bounded n c r
    → Bounded (suc n) b r
Bounded-mono n b c (d, none) h g = omega arith
Bounded-mono n b c (d, some resp) h g = (omega arith, g.1)

next-Bounded :
    (n : ℕ) (eid : Option ℕ) (tid : ℕ) (b : Bus) (r : Round)
    → Sends b r
    → ((req : Bytes) (c : Bus) → Bounded n c (rounds n false eid tid req c))
    → Bounded (suc n) b (next n eid tid b r)
next-Bounded n eid tid b give_up s ih = omega arith
next-Bounded n eid tid b (done resp c) s ih = (omega arith, s.1)
next-Bounded n eid tid b (again req c) s ih =
    Bounded-mono n b c (rounds n false eid tid req c) s (ih req c)

rounds-Bounded :
    (n : ℕ) (first : Bool) (eid : Option ℕ) (tid : ℕ) (pldm_req : Bytes) (b : Bus)
    → Bounded n b (rounds n first eid tid pldm_req b)
unfolding rounds
rounds-Bounded zero first eid tid pldm_req b = omega arith
rounds-Bounded (suc n) first eid tid pldm_req b =
    next-Bounded n eid tid b (round first eid tid pldm_req b) (round_wire first eid tid pldm_req b)
      (rounds-Bounded n false eid tid)

-- However the wrapper answers, a request is handed over five times at most and no more often than
-- the caller allows, and a response that is returned is no shorter than a PLDM header.
pub send_receive-Bounded :
    (b : Bus) (tid retry_count : ℕ) (pldm_req : Bytes) (eid : Option ℕ)
    → Bounded
        (min retry_count max_retry_count)
        b
        (send_receive_pldm_message tid retry_count pldm_req eid b)
unfolding send_receive_pldm_message
send_receive-Bounded b tid retry_count pldm_req eid =
    elim (Bool-cases (validate_reserve_bw tid (header_type pldm_req) b)) [
      | inl e ↦ rw e (omega arith)
      | inr e ↦
          rw (e, capped) (rounds-Bounded (min retry_count max_retry_count) true eid tid pldm_req b)
    ]

capped_suc :
    (n : ℕ) → (if ltb max_retry_count (suc n) then max_retry_count else suc n) ≡ suc (min n 4)
capped_suc n = ground arith

-- What a check makes of an answer that has the MCTP type in front and a whole header behind it: the
-- instance ids decide, and nothing else of the header is read.
check_framed :
    (req resp : Bytes)
    → 3 ≤ length resp
    → check_response (mctp_type_pldm ∷ req) (mctp_type_pldm ∷ resp) ≡ (
        if same_id (get_instance_id req) (get_instance_id resp)
        then matched req resp
        else mismatched req resp)
unfolding check_response get_pldm_packet_type
check_framed req resp h = ground arith

-- The state after a wait that ended with the reply.
abbrev pub waited : ℕ → Bytes → Reply → List Reply → Bus → Bus
waited dst_eid payload r rs b = record b {
  wire = request dst_eid payload ∷ b.wire;
  replies = rs;
  tid_mapper = remove_all r.removed b.tid_mapper;
}

-- The first round, when such an answer comes.
first_round :
    (b : Bus) (tid dst_eid : ℕ) (req resp : Bytes) (gone : List ℕ) (rs : List Reply)
    → get_mapped_eid tid b.tid_mapper ≡ some dst_eid
    → b.replies ≡ record { answer = some (mctp_type_pldm ∷ resp); removed = gone } ∷ rs
    → 3 ≤ length resp
    → let c =
        waited dst_eid
          (mctp_type_pldm ∷ req)
          (record { answer = some (mctp_type_pldm ∷ resp); removed = gone })
          rs
          b in
      round true none tid req b
      ≡ (if same_id (get_instance_id req) (get_instance_id resp) then done resp c else again req c)
unfolding round
first_round b tid dst_eid req resp gone rs mapped answers h =
    ground (arith, check_framed req resp h)

-- To a mapped terminus, with the bandwidth not reserved for another and a try allowed, a request goes
-- out with the MCTP type in front; an answer with that type, a whole header and the request's
-- instance id is returned at once without the type, whatever its header says of being a response.
pub send_receive-accepts :
    (b : Bus) (tid dst_eid retry_count : ℕ) (req resp : Bytes) (gone : List ℕ) (rs : List Reply)
    → validate_reserve_bw tid (header_type req) b ≡ false
    → get_mapped_eid tid b.tid_mapper ≡ some dst_eid
    → b.replies ≡ record { answer = some (mctp_type_pldm ∷ resp); removed = gone } ∷ rs
    → 3 ≤ length resp
    → same_id (get_instance_id req) (get_instance_id resp) ≡ true
    → send_receive_pldm_message tid (suc retry_count) req none b ≡ (
      waited dst_eid
          (mctp_type_pldm ∷ req)
          (record { answer = some (mctp_type_pldm ∷ resp); removed = gone })
          rs
          b,
      some resp,
    )
unfolding send_receive_pldm_message
send_receive-accepts b tid dst_eid retry_count req resp gone rs free mapped answers h same =
    ground
      (arith, first_round b tid dst_eid req resp gone rs mapped answers h, capped_suc retry_count)

-- The last try of several sends the buffer as the tries before it left it.
last_round :
    (b : Bus) (tid dst_eid : ℕ) (req : Bytes)
    → get_mapped_eid tid b.tid_mapper ≡ some dst_eid
    → (rounds 1 false none tid req b).0.wire ≡ request dst_eid req ∷ b.wire
unfolding rounds round
last_round b tid dst_eid req mapped = ground arith

-- The bug: when the answer to the first try is framed well but has another instance id, the second try
-- goes out without the MCTP type in front.
pub send_receive_drops_type :
    (b : Bus) (tid dst_eid : ℕ) (req resp : Bytes) (second : Reply)
    → validate_reserve_bw tid (header_type req) b ≡ false
    → get_mapped_eid tid b.tid_mapper ≡ some dst_eid
    → b.replies ≡ record { answer = some (mctp_type_pldm ∷ resp); removed = [] } ∷ second ∷ []
    → 3 ≤ length resp
    → same_id (get_instance_id req) (get_instance_id resp) ≡ false
    → (send_receive_pldm_message tid 2 req none b).0.wire
      ≡ request dst_eid req ∷ request dst_eid (mctp_type_pldm ∷ req) ∷ b.wire
unfolding send_receive_pldm_message
send_receive_drops_type b tid dst_eid req resp second free mapped answers h other =
    let c =
      waited dst_eid (mctp_type_pldm ∷ req)
        (record { answer = some (mctp_type_pldm ∷ resp); removed = [] }) (second ∷ []) b in
    rw (free, first_round b tid dst_eid req resp [] (second ∷ []) mapped answers h, rounds)
      (rw other (last_round c tid dst_eid req mapped))
