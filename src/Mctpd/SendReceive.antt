-- ===== src/Mctpd/SendReceive.antt =====
-- mctpd/src/MCTPBinding.cpp: SendReceiveMctpMessagePayload, a request of a client that waits for the
-- response, on the transmission queue.
pub mod Invariant
pub mod Outcomes
mod Tests
use pmci.Prelude.{
  ℕ, Bool, true, false, not, ◌&&◌, ◌||◌, List, [], ◌∷◌, Option, none, some, Bytes, ◌==◌,
  if◌then◌else◌, ◌≡◌,
}
use pmci.Mctpd.Transmission.{
  Message, Libmctp, Endpoint, Queue, endpoint_at, transmit, receive, run_posted, dispose,
}

-- What the call gives back: the response, or the error code that is thrown.
pub data Outcome : Type 0 where
  invalid_argument : Outcome
  connection_aborted : Outcome
  timed_out : Outcome
  no_message_available : Outcome
  response : Bytes → Outcome

-- How the wait on the message's timer ends.
pub data Wakeup : Type 0 where
  expired : Wakeup
  operation_aborted : Wakeup
  timer_failed : Wakeup

-- `suspended` says which messages have a sender that waits for them.
pub record Binding : Type 0 where
  pub transmission_queue : Queue
  pub rsv_bw_active : Bool
  pub reserved_eid : ℕ
  pub suspended : ℕ → ℕ → Bool

-- What `getBindingPrivateData` of the binding in use gives for an endpoint.
abbrev pub PrivateData : Type 0
PrivateData = ℕ → Option Bytes

unfoldable pub set_suspended : ℕ → ℕ → Bool → (ℕ → ℕ → Bool) → ℕ → ℕ → Bool
set_suspended eid i x f eid' i' = if eid' == eid && i' == i then x else f eid' i'

unfoldable pub begin_send : Libmctp → Option Bytes → ℕ → Bytes → Binding → Binding × Option ℕ
begin_send mctp none dst_eid payload b = (b, none)
begin_send mctp (some pvt_data) dst_eid payload b =
    let (q, i) = transmit mctp dst_eid payload pvt_data b.transmission_queue in
    (
      record b { transmission_queue = q; suspended = set_suspended dst_eid i true b.suspended },
      some i,
    )

-- Up to the wait: the message, or `none` for the error invalid_argument.
unfoldable pub begin_send_receive : Libmctp → PrivateData → ℕ → Bytes → Binding → Binding × Option ℕ
begin_send_receive mctp pvt dst_eid payload b =
    if b.rsv_bw_active && not (dst_eid == b.reserved_eid)
    then (b, none)
    else begin_send mctp (pvt dst_eid) dst_eid payload b

unfoldable pub end_with : ℕ → ℕ → Option Bytes → Queue → Queue × Outcome
end_with dst_eid i none q = (dispose dst_eid i q, timed_out)
end_with dst_eid i (some []) q = (q, no_message_available)
end_with dst_eid i (some (x ∷ xs)) q = (q, response (x ∷ xs))

-- After the wait.
unfoldable pub end_send_receive : Wakeup → ℕ → ℕ → Queue → Queue × Outcome
end_send_receive timer_failed dst_eid i q = (dispose dst_eid i q, connection_aborted)
end_send_receive expired dst_eid i q =
    end_with dst_eid i ((endpoint_at dst_eid q).messages i).response q
end_send_receive operation_aborted dst_eid i q =
    end_with dst_eid i ((endpoint_at dst_eid q).messages i).response q

unfoldable pub resume : Wakeup → ℕ → ℕ → Binding → Binding × Outcome
resume w dst_eid i b =
    let (q, o) = end_send_receive w dst_eid i b.transmission_queue in
    (record b { transmission_queue = q; suspended = set_suspended dst_eid i false b.suspended }, o)

-- What can happen to a binding: bandwidth is reserved or released, a client calls, a packet comes in, the event loop runs a posted
-- function, or a sender's wait ends.
pub data Step (mctp : Libmctp) (pvt : PrivateData) : Binding → Binding → Type 0 where
  reserve :
      (active : Bool) (eid : ℕ) (b : Binding)
      → Step mctp pvt b (record b { rsv_bw_active = active; reserved_eid = eid })
  call :
      (eid : ℕ) (payload : Bytes) (b : Binding)
      → Step mctp pvt b (begin_send_receive mctp pvt eid payload b).0
  deliver :
      (eid t : ℕ) (payload : Bytes) (b : Binding)
      → Step mctp pvt b
          (record b { transmission_queue = (receive eid t payload b.transmission_queue).0 })
  run_loop :
      (b : Binding)
      → Step mctp pvt b (record b { transmission_queue = run_posted mctp b.transmission_queue })
  wake :
      (w : Wakeup) (eid i : ℕ) (b : Binding)
      → b.suspended eid i ≡ true
      → Step mctp pvt b (resume w eid i b).0

unfoldable pub new_binding : Binding
new_binding = record {
  transmission_queue = record { endpoints = []; wire = []; posted = [] };
  rsv_bw_active = false;
  reserved_eid = 0;
  suspended = λ eid i. false;
}

pub data Reachable (mctp : Libmctp) (pvt : PrivateData) : Binding → Type 0 where
  start : Reachable mctp pvt new_binding
  step : (b b' : Binding) → Reachable mctp pvt b → Step mctp pvt b b' → Reachable mctp pvt b'
