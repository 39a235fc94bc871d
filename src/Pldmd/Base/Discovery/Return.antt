-- ===== src/Pldmd/Base/Discovery/Return.antt =====
-- pldmd/src/base.cpp: what becomes of the TID of a terminus that goes away and comes back.
use pmci.Prelude.{
  ℕ, ◌≡◌, ◌≢◌, refl, true, false, List, [], ◌∷◌, Option, none, some, arith, inr, ap, sym, ◌∙◌,
  ==_refl,
}
use pmci.Prelude.Map.{find}
use pmci.Pldmd.Base.TidPool.{find_used_tid, push_front_unused_tid, IsUnique, tid_pool-KeepsTids}
use pmci.Pldmd.Base.Requests.{BaseCodec}
use pmci.Pldmd.Base.Tables.{CommandSupportTable}
use pmci.Pldmd.Base.Discovery.{
  Base, uuid_of, has_timer, is_terminus_unregistered, drop_timer,
  cancel_tid_reclaim_timer_if_exists, release_tid_after_reclaim_interval, unused_again, enter,
  assign_tid, register, release_mapped, delete_device_base_info,
}
use pmci.Pldmd.Base.Discovery.Outcome.{Registered, assign_tid-fails, assign_tid-Registered}

has_timer-drop_timer : (t : ℕ) (ts : List ℕ) → has_timer t (drop_timer t ts) ≡ false
unfolding drop_timer
has_timer-drop_timer t [] = refl
has_timer-drop_timer t (u ∷ ts) = ground (arith, has_timer-drop_timer t ts)

assign_tid-timers :
    (lib : BaseCodec) (eid : ℕ) (uuid : Option ℕ) (table : CommandSupportTable) (tid : ℕ) (s : Base)
    → (assign_tid lib eid uuid table tid s).0.reclaim_timers ≡ s.reclaim_timers
unfolding assign_tid enter unused_again
assign_tid-timers lib eid uuid table tid s = ground arith

-- The terminus goes away, and comes back with the same UUID.
abbrev pub returned : BaseCodec → ℕ → ℕ → ℕ → CommandSupportTable → ℕ → Base → Base × Option ℕ
returned lib eid uuid assigned table tid s =
    let s' = (delete_device_base_info tid s).0 in
    register lib eid (some uuid) (find uuid s'.uuid_mapping) assigned table s'

deleted :
    (uuid tid : ℕ) (s : Base)
    → uuid_of tid s.uuid_mapping ≡ some uuid
    → let s' = (delete_device_base_info tid s).0 in
      (s'.uuid_mapping ≡ s.uuid_mapping)
      × (s'.pool ≡ s.pool)
      × (is_terminus_unregistered tid s' ≡ true)
unfolding delete_device_base_info release_mapped release_tid_after_reclaim_interval
    is_terminus_unregistered
deleted uuid tid s h = rw h (refl, refl, ground arith)

-- The register step for a UUID that leads to a TID whose timer runs.
register-timed :
    (lib : BaseCodec) (eid uuid assigned : ℕ) (table : CommandSupportTable) (tid : ℕ) (s : Base)
    → is_terminus_unregistered tid s ≡ true
    → tid ≢ 0
    → register lib eid (some uuid) (some tid) assigned table s
      ≡ assign_tid lib eid (some uuid) table tid (cancel_tid_reclaim_timer_if_exists tid s)
unfolding register
register-timed lib eid uuid assigned table tid s h z = ground arith

-- What discovery has of the TID after the return.
abbrev resumed : BaseCodec → ℕ → ℕ → ℕ → CommandSupportTable → ℕ → Base → Base × Option ℕ
resumed lib eid uuid assigned table tid s =
    assign_tid lib eid (some uuid) table tid
      (cancel_tid_reclaim_timer_if_exists tid (delete_device_base_info tid s).0)

returned-eq :
    (lib : BaseCodec) (eid uuid assigned : ℕ) (table : CommandSupportTable) (tid : ℕ) (s : Base)
    → uuid_of tid s.uuid_mapping ≡ some uuid
    → find uuid s.uuid_mapping ≡ some tid
    → tid ≢ 0
    → returned lib eid uuid assigned table tid s ≡ resumed lib eid uuid assigned table tid s
returned-eq lib eid uuid assigned table tid s u f z =
    let s' = (delete_device_base_info tid s).0 in
    let (a, b, c) = deleted uuid tid s u in
    let g : find uuid s'.uuid_mapping ≡ some tid = ap (find uuid) a ∙ f in
    rw g (register-timed lib eid uuid assigned table tid s' c z)

-- When a terminus, whose UUID and TID lead to each other and whose TID is not 0, goes away and comes
-- back before its TID is reclaimed, a registration that gives a TID gives the same one, whatever TID
-- the terminus says it has, and the timer does not run any more.
pub returned-Registered :
    (lib : BaseCodec) (eid uuid assigned : ℕ) (table : CommandSupportTable) (tid t : ℕ) (s : Base)
    → uuid_of tid s.uuid_mapping ≡ some uuid
    → find uuid s.uuid_mapping ≡ some tid
    → tid ≢ 0
    → (returned lib eid uuid assigned table tid s).1 ≡ some t
    → let s' = (returned lib eid uuid assigned table tid s).0 in
      (t ≡ tid)
      × Registered eid tid (some uuid) table s'
      × (has_timer tid s'.reclaim_timers ≡ false)
unfolding cancel_tid_reclaim_timer_if_exists
returned-Registered lib eid uuid assigned table tid t s u f z h =
    let s' = (delete_device_base_info tid s).0 in
    let c = cancel_tid_reclaim_timer_if_exists tid s' in
    let (a, b, d) = deleted uuid tid s u in
    let e = returned-eq lib eid uuid assigned table tid s u f z in
    let (x, y) =
      assign_tid-Registered lib eid (some uuid) table tid t c (inr (ap (find uuid) a ∙ f))
        (sym (ap (λ r. r.1) e) ∙ h) in
    let k = assign_tid-timers lib eid (some uuid) table tid c in
    rw e (x, y, ap (has_timer tid) k ∙ has_timer-drop_timer tid s'.reclaim_timers)

-- When the pool of TIDs has no repetitions, and the registration of a returning terminus, whose UUID
-- and TID lead to each other and whose TID is not 0, fails, the TID counts as unused although the
-- UUID still leads to it, and no timer runs for it.
pub failed_return-unused :
    (lib : BaseCodec) (eid uuid assigned : ℕ) (table : CommandSupportTable) (tid : ℕ) (s : Base)
    → IsUnique s.pool
    → uuid_of tid s.uuid_mapping ≡ some uuid
    → find uuid s.uuid_mapping ≡ some tid
    → tid ≢ 0
    → (returned lib eid uuid assigned table tid s).1 ≡ none
    → let s' = (returned lib eid uuid assigned table tid s).0 in
      (find_used_tid tid s'.pool ≡ false)
      × (find uuid s'.uuid_mapping ≡ some tid)
      × (has_timer tid s'.reclaim_timers ≡ false)
unfolding cancel_tid_reclaim_timer_if_exists
failed_return-unused lib eid uuid assigned table tid s w u f z h =
    let s' = (delete_device_base_info tid s).0 in
    let c = cancel_tid_reclaim_timer_if_exists tid s' in
    let (a, b, d) = deleted uuid tid s u in
    let e = returned-eq lib eid uuid assigned table tid s u f z in
    let (p, m, t, x) =
      assign_tid-fails lib eid (some uuid) table tid c (sym (ap (λ r. r.1) e) ∙ h) in
    let (free, free') = (tid_pool-KeepsTids s.pool tid w).freed tid in
    rw e (
      ap (find_used_tid tid) (p ∙ ap (push_front_unused_tid tid) b)
          ∙ (free ∙ rw (==_refl tid) refl),
      ap (find uuid) (m ∙ a) ∙ f,
      ap (has_timer tid) t ∙ has_timer-drop_timer tid s'.reclaim_timers,
    )
