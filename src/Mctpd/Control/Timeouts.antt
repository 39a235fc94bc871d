-- ===== src/Mctpd/Control/Timeouts.antt =====
-- mctpd/src/MCTPBinding.cpp, processCtrlTxQueue: every control request ends, and is sent a bounded
-- number of times.
use pmci.Prelude.{
  ℕ, zero, suc, ◌+◌, ◌-◌, ◌*◌, ◌^◌, ◌≤◌, ◌<◌, ◌≡◌, refl, Bool, true, false, not, ◌&&◌, ◌||◌,
  if◌then◌else◌, List, [], ◌∷◌, ◌++◌, Bytes, arith, ==_refl, ltb, leb, ◌==◌, inl, inr, Bool-cases,
  ap, ◌∙◌,
}
use pmci.Mctpd.Transmission.{Packet, Libmctp}
use pmci.Mctpd.Control.{
  pushed_for_transmission, CtrlTx, Call, Control, ctrl_tx_poll_interval, u32, is_received, resend,
  send_mctp_ctrl_message, ctrl_packet, Polled, stays, gives_up, poll_entry, poll_entries, Swept,
  after_entry, process_ctrl_tx_queue, polls, push_to_ctrl_tx_queue,
}

-- How many packets of a class were sent.
abbrev pub sent : (Packet → Bool) → List Packet → ℕ
sent is_in [] = 0
sent is_in (p ∷ wire) = (if is_in p then 1 else 0) + sent is_in wire

abbrev packet_of : CtrlTx → Packet
packet_of tx = ctrl_packet tx.dest_eid tx.req tx.binding_private

-- How often an entry whose packet is in the class may still be sent.
abbrev pub left : (Packet → Bool) → CtrlTx → ℕ
left is_in tx = if is_in (packet_of tx) then tx.retry_count else 0

abbrev pub retries : (Packet → Bool) → List CtrlTx → ℕ
retries is_in [] = 0
retries is_in (tx ∷ queue) = left is_in tx + retries is_in queue

-- The delay of an entry is `m` polls at most, and a whole number of them.
abbrev pub IsDue : ℕ → CtrlTx → Type 0
IsDue n tx =
    (m : ℕ) × (tx.max_resp_delay ≡ ctrl_tx_poll_interval * m) × (1 ≤ m) × (m ≤ n) × (5 * m < 2 ^ 32)

abbrev pub AllDue : ℕ → List CtrlTx → Type 0
AllDue n [] = Unit {0}
AllDue n (tx ∷ queue) = IsDue n tx × AllDue n queue

-- What a poll leaves of one entry: it has one poll less, and each packet costs a retry.
abbrev PolledWell : (Packet → Bool) → ℕ → CtrlTx → List Packet → List Packet × Polled → Type 0
PolledWell is_in n tx wire (wire', stays tx') =
    IsDue n tx'
    × (sent is_in wire' + left is_in tx' ≡ sent is_in wire + left is_in tx)
    × (tx'.callback ≡ tx.callback)
PolledWell is_in n tx wire (wire', gives_up c) = (wire' ≡ wire) × (c.callback ≡ tx.callback)

poll_entry-PolledWell :
    (is_in : Packet → Bool) (mctp : Libmctp) (delay n : ℕ) (tx : CtrlTx) (wire : List Packet)
    → IsDue (suc n) tx
    → PolledWell is_in n tx wire (poll_entry mctp delay tx wire)
unfolding poll_entry resend send_mctp_ctrl_message
poll_entry-PolledWell is_in mctp delay n tx wire (m, e, l, h, w) =
    let d : u32 (tx.max_resp_delay + 2 ^ 32 - 5) ≡ 5 * (m - 1) = rw e (omega arith) in
    rw d (elim (Bool-cases (ltb 0 (5 * (m - 1)) && not (is_received tx.state))) [
      | inr f ↦ rw f (refl, refl)
      | inl t ↦
          let due : IsDue n (record tx { max_resp_delay = 5 * (m - 1) }) =
            (m - 1, refl, ground (arith, t), omega arith, omega arith) in
          elim (Bool-cases
            (ltb 0 tx.retry_count && leb (5 * (m - 1)) (u32 (tx.retry_count * delay)))) [
              | inl g ↦ rw (t, g) (due, ground (arith, g), refl)
              | inr g ↦ rw (t, g) (due, refl, refl)
            ]
    ])

abbrev pub pending : ℕ → List CtrlTx → Bool
pending c [] = false
pending c (tx ∷ queue) = c == tx.callback || pending c queue

abbrev pub told : ℕ → List Call → Bool
told c [] = false
told c (call ∷ calls) = c == call.callback || told c calls

-- What a poll of a queue leaves: one poll less, no more packets than retries are spent, and every
-- callback is still in the queue or was called.
pub record KeepsAll (is_in : Packet → Bool) (n : ℕ) (queue : List CtrlTx) (wire : List Packet)
    (calls : List Call) (r : List CtrlTx × List Packet × List Call) : Type 0 where
  pub due : AllDue n r.0
  pub spent : sent is_in r.1 + retries is_in r.0 ≤ sent is_in wire + retries is_in queue
  pub kept : (c : ℕ) → (pending c r.0 || told c r.2) ≡ (pending c queue || told c calls)

-- The step for one entry, from the poll of those behind it.
after_entry-KeepsAll :
    (is_in : Packet → Bool) (n : ℕ) (tx : CtrlTx) (queue : List CtrlTx) (wire : List Packet)
    (calls : List Call) (p : List Packet × Polled) (behind : List Packet → List Call → Swept)
    → PolledWell is_in n tx wire p
    → ((w : List Packet) (k : List Call) → KeepsAll is_in n queue w k (behind w k))
    → KeepsAll is_in n (tx ∷ queue) wire calls (after_entry p behind calls)
unfolding after_entry
after_entry-KeepsAll is_in n tx queue wire calls (w, stays tx') behind (d, s, c) ih =
    let k = ih w calls in
    record {
      due = (d, k.due);
      spent = omega (arith, s, k.spent);
      kept = λ j. ground (arith, c, k.kept j);
    }
after_entry-KeepsAll is_in n tx queue wire calls (w, gives_up call) behind (s, c) ih =
    let k = ih w (call ∷ calls) in
    record {
      due = k.due;
      spent = omega (arith, ap (sent is_in) s, k.spent);
      kept = λ j. ground (arith, c, k.kept j);
    }

poll_entries-KeepsAll :
    (is_in : Packet → Bool) (mctp : Libmctp) (delay n : ℕ) (queue : List CtrlTx)
    (wire : List Packet) (calls : List Call)
    → AllDue (suc n) queue
    → KeepsAll is_in n queue wire calls (poll_entries mctp delay queue wire calls)
unfolding poll_entries
poll_entries-KeepsAll is_in mctp delay n [] wire calls h = record {
  due = tt;
  spent = omega arith;
  kept = λ c. refl;
}
poll_entries-KeepsAll is_in mctp delay n (tx ∷ queue) wire calls (d, ds) =
    after_entry-KeepsAll is_in n tx queue wire calls (poll_entry mctp delay tx wire)
      (poll_entries mctp delay queue) (poll_entry-PolledWell is_in mctp delay n tx wire d)
      (λ w k. poll_entries-KeepsAll is_in mctp delay n queue w k ds)

AllDue-none : (queue : List CtrlTx) → AllDue 0 queue → queue ≡ []
AllDue-none [] h = refl
AllDue-none (tx ∷ queue) ((m, e, l, g, w), ds) = ground (arith, l, g)

-- Every entry of the queue is due after a number of polls, so that is when the queue is empty: each
-- callback was called, and no entry was sent more often than its retries allow.
polls-finish :
    (is_in : Packet → Bool) (mctp : Libmctp) (n : ℕ) (s : Control)
    → AllDue n s.ctrl_tx_queue
    → let s' = polls mctp n s in
      (s'.ctrl_tx_queue ≡ [])
      × (sent is_in s'.wire ≤ sent is_in s.wire + retries is_in s.ctrl_tx_queue)
      × ((c : ℕ) → told c s'.calls ≡ (pending c s.ctrl_tx_queue || told c s.calls))
unfolding polls process_ctrl_tx_queue
polls-finish is_in mctp zero s h =
    let e = AllDue-none s.ctrl_tx_queue h in (e, omega arith, λ c. rw e refl)
polls-finish is_in mctp (suc n) s h =
    let k = poll_entries-KeepsAll is_in mctp s.retry_delay n s.ctrl_tx_queue s.wire s.calls h in
    let (e, l, t) = polls-finish is_in mctp n (process_ctrl_tx_queue mctp s) k.due in
    (e, omega (arith, l, k.spent), λ c. t c ∙ k.kept c)

AllDue-append :
    (n : ℕ) (queue : List CtrlTx) (tx : CtrlTx)
    → AllDue n queue
    → IsDue n tx
    → AllDue n (queue ++ tx ∷ [])
AllDue-append n [] tx h d = (d, tt)
AllDue-append n (x ∷ queue) tx (h, hs) d = (h, AllDue-append n queue tx hs d)

retries-append :
    (is_in : Packet → Bool) (queue : List CtrlTx) (tx : CtrlTx)
    → retries is_in (queue ++ tx ∷ []) ≡ retries is_in queue + left is_in tx
retries-append is_in [] tx = omega arith
retries-append is_in (x ∷ queue) tx = omega (arith, retries-append is_in queue tx)

pending-append :
    (c : ℕ) (queue : List CtrlTx) (tx : CtrlTx)
    → pending c (queue ++ tx ∷ []) ≡ (pending c queue || c == tx.callback)
pending-append c [] tx = ground arith
pending-append c (x ∷ queue) tx = ground (arith, pending-append c queue tx)

-- When the time for all tries of a request makes `n` polls, one at least and fewer than 2^32 ms, and the
-- requests before it are due by then, `n` polls after it was pushed the queue is empty and its callback
-- was called. Of any class of packets no more were sent since than its requests allow: one and the
-- retries for this request, if its packet is in the class, and for each request before it whose
-- packet is in the class the retries that it had left. So a request whose packet no other one has is
-- sent once and as often again as the retries allow, at most.
pub pushed_request-ends :
    (is_in : Packet → Bool) (mctp : Libmctp) (n dest_eid : ℕ) (private req : Bytes) (callback : ℕ)
    (s : Control)
    → (s.ctrl_retry_count + 1) * s.retry_delay ≡ 5 * n
    → 1 ≤ n
    → 5 * n < 2 ^ 32
    → AllDue n s.ctrl_tx_queue
    → let s' = polls mctp n (push_to_ctrl_tx_queue mctp dest_eid private req callback s) in
      (s'.ctrl_tx_queue ≡ [])
      × (sent is_in s'.wire
          ≤ sent is_in s.wire
            + (if is_in (ctrl_packet dest_eid req private) then 1 + s.ctrl_retry_count else 0)
            + retries is_in s.ctrl_tx_queue)
      × (told callback s'.calls ≡ true)
unfolding push_to_ctrl_tx_queue send_mctp_ctrl_message
pushed_request-ends is_in mctp n dest_eid private req callback s e l w h =
    let tx : CtrlTx = record {
      state = pushed_for_transmission;
      retry_count = s.ctrl_retry_count;
      max_resp_delay = u32 ((s.ctrl_retry_count + 1) * s.retry_delay);
      dest_eid = dest_eid;
      binding_private = private;
      req = req;
      callback = callback;
    } in
    let due : IsDue n tx = (n, rw e (omega (arith, w)), l, omega arith, w) in
    let s1 = push_to_ctrl_tx_queue mctp dest_eid private req callback s in
    let (a, b, c) = polls-finish is_in mctp n s1 (AllDue-append n s.ctrl_tx_queue tx h due) in
    (
      a,
      ground (arith, b, retries-append is_in s.ctrl_tx_queue tx),
      c callback ∙ ground (arith, pending-append callback s.ctrl_tx_queue tx, ==_refl callback),
    )
