-- ===== src/Pldmd/Transport/Tests.antt =====
-- Reservation, requests and messages of pldmd/src/pldmd.cpp on a concrete bus.
use pmci.Prelude.{ℕ, ◌≡◌, refl, ◌⊎◌, true, false, List, [], ◌∷◌, none, some, Bytes, arith}
use pmci.Prelude.Map.{find}
use pmci.Pldmd.TidMapper.{get_mapped_eid}
use pmci.Pldmd.Transport.Bus.{
  Bus, Reply, reserve, release, validate_reserve_bw, reserve_bandwidth, release_bandwidth,
  release_at, reserve_at, get_instance_id, get_pldm_message_type,
}
use pmci.Pldmd.Transport.Exchange.{send_receive_pldm_message}
use pmci.Pldmd.Transport.Reservation.{release-reserve}
use pmci.Pldmd.Transport.Retry.{Bounded, send_receive-Bounded, send_receive-accepts, waited}

abbrev req : Bytes
req = 0x81 ∷ 5 ∷ 0x10 ∷ []

abbrev other_resp : Bytes
other_resp = 2 ∷ 5 ∷ 0x10 ∷ 0 ∷ []

-- Its header has the request bit set.
abbrev resp : Bytes
resp = 0x81 ∷ 5 ∷ 0x10 ∷ 0 ∷ []

abbrev replying : List Reply → Bus
replying replies = record {
  tid_mapper = (1, 8) ∷ (2, 9) ∷ [];
  rsv_bw_active = false;
  reserved_tid = 0;
  reserved_pldm_type = 0xff;
  instance_map = [];
  replies = replies;
  posts = false ∷ true ∷ [];
  grants = true ∷ true ∷ [];
  wire = [];
}

abbrev good : Reply
good = record { answer = some (1 ∷ resp); removed = [] }

abbrev stale : Reply
stale = record { answer = some (1 ∷ other_resp); removed = [] }

-- The bandwidth is reserved for the first terminus.
abbrev reserved : Bus
reserved = record (replying []) {
  rsv_bw_active = true;
  reserved_tid = 1;
  reserved_pldm_type = 5;
  grants = true ∷ [];
  wire = reserve 8 30 ∷ [];
}

blocked : validate_reserve_bw 2 5 reserved ≡ true
unfolding validate_reserve_bw
blocked = refl

abbrev released : Bus
released = record (replying []) { grants = []; wire = release 8 ∷ reserve 8 30 ∷ [] }

reserving : reserve_bandwidth 1 5 30 (replying []) ≡ (reserved, true)
unfolding reserve_bandwidth reserve_at validate_reserve_bw get_mapped_eid find
reserving = refl

releasing : release_bandwidth 1 5 reserved ≡ (released, true)
unfolding release_bandwidth release_at get_mapped_eid find
releasing = refl

release-reserve_example :
    (validate_reserve_bw 2 5 reserved ≡ true)
    × (release_bandwidth 2 5 reserved ≡ (reserved, false) ⊎ (◌≡◌ {A = ℕ} 2 1 × ◌≡◌ {A = ℕ} 5 5))
    × (validate_reserve_bw 2 5 released ≡ false)
release-reserve_example =
    release-reserve (replying []) reserved released 1 5 30 2 5 reserving releasing

free_for : (replies : List Reply) → validate_reserve_bw 1 5 (replying replies) ≡ false
unfolding validate_reserve_bw
free_for replies = refl

first_mapped : get_mapped_eid 1 (replying []).tid_mapper ≡ some 8
unfolding get_mapped_eid find
first_mapped = refl

send_receive-Bounded_example :
    Bounded 5
      (replying (stale ∷ good ∷ []))
      (send_receive_pldm_message 1 9 req none (replying (stale ∷ good ∷ [])))
send_receive-Bounded_example = send_receive-Bounded (replying (stale ∷ good ∷ [])) 1 9 req none

send_receive-accepts_example :
    send_receive_pldm_message 1 3 req none (replying (good ∷ []))
    ≡ (waited 8 (1 ∷ req) good [] (replying (good ∷ [])), some resp)
unfolding get_pldm_message_type get_instance_id
send_receive-accepts_example =
    send_receive-accepts (replying (good ∷ [])) 1 8 2 req resp [] [] (free_for (good ∷ []))
      first_mapped refl (omega arith) refl
