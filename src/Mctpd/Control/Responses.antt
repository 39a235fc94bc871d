-- ===== src/Mctpd/Control/Responses.antt =====
-- mctpd/src/MCTPBinding.cpp, handleCtrlResp: which control request a response answers.
use pmci.Prelude.{
  ◌≡◌, refl, Bool, true, false, List, [], ◌∷◌, ◌++◌, none, some, Bytes, ◌==◌, ◌⊎◌, inl, inr,
  Bool-cases, ap,
}
use pmci.Mctpd.Control.{
  received_response, CtrlTx, Call, Control, get_instance_id, answer_first, handle_ctrl_resp,
}

abbrev pub matches : Bytes → CtrlTx → Bool
matches msg tx = get_instance_id tx.req == get_instance_id msg

abbrev pub NoneMatches : Bytes → List CtrlTx → Type 0
NoneMatches msg [] = Unit {0}
NoneMatches msg (tx ∷ queue) = (matches msg tx ≡ false) × NoneMatches msg queue

abbrev pub received : Bytes → CtrlTx → Call
received msg tx = record { callback = tx.callback; state = received_response; response = msg }

-- The queue before the response, split at the first request that matches it.
pub record SplitAt (msg : Bytes) (queue : List CtrlTx) : Type 0 where
  pub before : List CtrlTx
  pub tx : CtrlTx
  pub behind : List CtrlTx
  pub whole : queue ≡ before ++ tx ∷ behind
  pub first : NoneMatches msg before
  pub match : matches msg tx ≡ true

-- What the response does at the split: one callback, and one entry less.
abbrev pub Answers : (msg : Bytes) (s : Control) → SplitAt msg s.ctrl_tx_queue → Type 0
Answers msg s p =
    handle_ctrl_resp msg s
    ≡ (record s { ctrl_tx_queue = p.before ++ p.behind; calls = received msg p.tx ∷ s.calls }, true)

abbrev AnswersFirst :
    (msg : Bytes) (queue : List CtrlTx) (calls : List Call) → SplitAt msg queue → Type 0
AnswersFirst msg queue calls p =
    answer_first msg queue calls ≡ some (p.before ++ p.behind, received msg p.tx ∷ calls)

answer_first-cases :
    (msg : Bytes) (queue : List CtrlTx) (calls : List Call)
    → (NoneMatches msg queue × (answer_first msg queue calls ≡ none))
      ⊎ ((p : SplitAt msg queue) × AnswersFirst msg queue calls p)
unfolding answer_first
answer_first-cases msg [] calls = inl (tt, refl)
answer_first-cases msg (tx ∷ queue) calls = elim (Bool-cases (matches msg tx)) [
  | inl m ↦ inr (
    record { before = []; tx = tx; behind = queue; whole = refl; first = tt; match = m },
    rw m refl,
  )
  | inr m ↦ elim (answer_first-cases msg queue calls) [
    | inl (n, e) ↦ inl ((m, n), rw m (rw e refl))
    | inr (p, e) ↦ inr (
      record {
        before = tx ∷ p.before;
        tx = p.tx;
        behind = p.behind;
        whole = ap (◌∷◌ tx) p.whole;
        first = (m, p.first);
        match = p.match;
      },
      rw m (rw e refl),
    )
  ]
]

-- A response answers the first request of the queue with its instance id: that request's callback is
-- called with it, and the request alone leaves the queue. When no request has that instance id,
-- nothing changes and the response is not taken.
pub handle_ctrl_resp-cases :
    (msg : Bytes) (s : Control)
    → (NoneMatches msg s.ctrl_tx_queue × (handle_ctrl_resp msg s ≡ (s, false)))
      ⊎ ((p : SplitAt msg s.ctrl_tx_queue) × Answers msg s p)
unfolding handle_ctrl_resp
handle_ctrl_resp-cases msg s = elim (answer_first-cases msg s.ctrl_tx_queue s.calls) [
  | inl (n, e) ↦ inl (n, rw (e, handle_ctrl_resp) refl)
  | inr (p, e) ↦ inr (p, rw (e, handle_ctrl_resp) refl)
]
