-- ===== src/Pldmd/Transport/Reservation.antt =====
-- Bandwidth reservation in pldmd/src/pldmd.cpp.
use pmci.Prelude.{ℕ, ◌≡◌, ◌⊎◌, Bool, true, false, not, ◌&&◌, ◌==◌, Option, none, Bytes, arith}
use pmci.Pldmd.Transport.Bus.{
  Bus, validate_reserve_bw, reserve_bandwidth, release_bandwidth, header_type,
}
use pmci.Pldmd.Transport.Exchange.{send_receive_pldm_message, send_pldm_message}

-- While the bandwidth is reserved for another terminus or another PLDM type, a request, a message
-- and a reservation fail, and nothing reaches the MCTP wrapper.
pub reserved-blocks :
    (b : Bus) (tid retry_count timeout msg_tag : ℕ) (tag_owner : Bool) (eid : Option ℕ)
    (msg : Bytes)
    → validate_reserve_bw tid (header_type msg) b ≡ true
    → (send_receive_pldm_message tid retry_count msg eid b ≡ (b, none))
      × (send_pldm_message tid retry_count msg_tag tag_owner msg b ≡ (b, false))
      × (reserve_bandwidth tid (header_type msg) timeout b ≡ (b, false))
unfolding send_receive_pldm_message send_pldm_message reserve_bandwidth
reserved-blocks b tid retry_count timeout msg_tag tag_owner eid msg h = (rw h, rw h, rw h)

-- After a reservation that succeeds, the bandwidth is refused to everybody but its holder's
-- terminus and type, nobody else can release it, and a release by its holder that succeeds lets
-- everybody use it again.
pub release-reserve :
    (b c d : Bus) (tid pldm_type timeout t k : ℕ)
    → reserve_bandwidth tid pldm_type timeout b ≡ (c, true)
    → release_bandwidth tid pldm_type c ≡ (d, true)
    → (validate_reserve_bw t k c ≡ not (t == tid && k == pldm_type))
      × (release_bandwidth t k c ≡ (c, false) ⊎ ((t ≡ tid) × (k ≡ pldm_type)))
      × (validate_reserve_bw t k d ≡ false)
unfolding reserve_bandwidth release_bandwidth validate_reserve_bw
release-reserve b c d tid pldm_type timeout t k h g = ground arith
