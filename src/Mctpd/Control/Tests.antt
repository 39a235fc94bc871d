-- ===== src/Mctpd/Control/Tests.antt =====
-- The control requests of mctpd/src/MCTPBinding.cpp on concrete ones.
use pmci.Prelude.{ℕ, ◌≤◌, ◌≡◌, refl, true, false, [], ◌∷◌, Bytes, arith, ◌==◌, ◌⊎◌, map}
use pmci.Mctpd.Transmission.{Libmctp}
use pmci.Mctpd.Control.{
  Control, polls, process_ctrl_tx_queue, poll_entries, poll_entry, after_entry, resend, ctrl_packet,
  send_mctp_ctrl_message, push_to_ctrl_tx_queue, handle_ctrl_resp,
}
use pmci.Mctpd.Control.Timeouts.{sent, told, pushed_request-ends}
use pmci.Mctpd.Control.Responses.{NoneMatches, SplitAt, Answers, handle_ctrl_resp-cases}

abbrev takes_all : Libmctp
takes_all wire p = true

-- A queue without requests, for a number of retries and a delay.
abbrev idle : ℕ → ℕ → Control
idle count delay = record {
  ctrl_tx_queue = [];
  timer_expired = true;
  retry_delay = delay;
  ctrl_retry_count = count;
  wire = [];
  calls = [];
}

abbrev get_eid : Bytes
get_eid = 0 ∷ 0x81 ∷ 2 ∷ []

pushed_request-ends_example :
    let s = polls takes_all 6 (push_to_ctrl_tx_queue takes_all 9 [] get_eid 4 (idle 2 10)) in
    (s.ctrl_tx_queue ≡ []) × (sent (λ p. p.dest_eid == 9) s.wire ≤ 3) × (told 4 s.calls ≡ true)
unfolding ctrl_packet
pushed_request-ends_example =
    pushed_request-ends (λ p. p.dest_eid == 9) takes_all 6 9 [] get_eid 4 (idle 2 10) refl
      (omega arith) (omega arith) tt

unfoldable waiting : Control
waiting = push_to_ctrl_tx_queue takes_all 9 [] get_eid 4 (idle 2 10)

handle_ctrl_resp-cases_example :
    (NoneMatches (0 ∷ 1 ∷ []) waiting.ctrl_tx_queue
      × (handle_ctrl_resp (0 ∷ 1 ∷ []) waiting ≡ (waiting, false)))
    ⊎ ((p : SplitAt (0 ∷ 1 ∷ []) waiting.ctrl_tx_queue) × Answers (0 ∷ 1 ∷ []) waiting p)
handle_ctrl_resp-cases_example = handle_ctrl_resp-cases (0 ∷ 1 ∷ []) waiting

-- With a time of 7 ms, which is no whole number of polls, the delay wraps around and the request stays.
delay_wraps :
    let s = polls takes_all 2 (push_to_ctrl_tx_queue takes_all 9 [] get_eid 4 (idle 0 7)) in
    map (λ tx. tx.max_resp_delay) s.ctrl_tx_queue ≡ 4294967293 ∷ []
unfolding polls process_ctrl_tx_queue poll_entries poll_entry after_entry resend
    send_mctp_ctrl_message push_to_ctrl_tx_queue
delay_wraps = refl
