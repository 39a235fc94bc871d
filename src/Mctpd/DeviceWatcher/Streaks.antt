-- ===== src/Mctpd/DeviceWatcher/Streaks.antt =====
-- mctpd/src/utils/device_watcher.cpp: after how many discoveries a device is ignored.
use pmci.Prelude.{
  ℕ, ◌+◌, ◌-◌, ◌≤◌, ◌<◌, ◌≡◌, refl, Bool, true, false, not, ◌||◌, List, [], ◌∷◌, some, arith, ltb,
  ==→eq, ==_refl, ◌==◌, if◌then◌else◌, Bool-cases, inl, inr, ◌∙◌, ap, sym, suc,
}
use mathlib.Core.Path.{subst}
use pmci.Prelude.Map.{find}
use pmci.Mctpd.DeviceWatcher.{
  Watcher, new_watcher, has, device_discovery_init, is_device_good_for_init, visit, visits,
  discoveries,
}
use pmci.Mctpd.DeviceWatcher.Views.{
  View, view, view_init, view_visit, view-init, view-visit_same, view-visit_other,
}

abbrev pub times : ℕ → List ℕ → ℕ
times k [] = 0
times k (j ∷ js) = if k == j then suc (times k js) else times k js

visits-absent :
    (k : ℕ) (ks : List ℕ) (w : Watcher) → times k ks ≡ 0 → view k (visits ks w) ≡ view k w
unfolding visits
visits-absent k [] w h = refl
visits-absent k (j ∷ ks) w h =
    visits-absent k ks (visit j w) (ground arith) ∙ view-visit_other k j w (ground arith)

has-times : (k : ℕ) (ks : List ℕ) → times k ks ≡ 0 → has k ks ≡ false
has-times k [] h = refl
has-times k (j ∷ ks) h = ground (arith, has-times k ks)

visits-view :
    (k : ℕ) (ks : List ℕ) (w : Watcher)
    → times k ks ≤ 1
    → view k (visits ks w) ≡ (if has k ks then view_visit (view k w) else view k w)
unfolding visits
visits-view k [] w h = refl
visits-view k (j ∷ ks) w h = elim (Bool-cases (k == j)) [
  | inl e ↦
      let p : j ≡ k = sym (==→eq k j e) in
      let z : times k ks ≡ 0 = ground arith in
      visits-absent k ks (visit j w) z ∙ rw p (rw (==_refl k) (view-visit_same k w))
  | inr e ↦
      let q = visits-view k ks (visit j w) (ground arith) in
      let o = view-visit_other k j w (ground arith) in
      q ∙ (ap (λ v. if has k ks then view_visit v else v) o ∙ rw e refl)
]

-- Whether a device was found in eleven successive discoveries at some time: `run` counts the last
-- successive discoveries that found it.
abbrev pub found_eleven : ℕ → List (List ℕ) → ℕ → Bool → Bool
found_eleven k [] run out = out
found_eleven k (ks ∷ scans) run out =
    let run' = if has k ks then run + 1 else 0 in found_eleven k scans run' (out || (run' == 11))

record Tracks (v : View) (run : ℕ) (out : Bool) : Type 0 where
  out_same : v.ignored ≡ out
  run_bound : out ≡ false → run ≤ 10
  current : out ≡ false → v.in_current ≡ ltb 0 run
  counted : out ≡ false → 0 < run → v.count ≡ some (run - 1)

Tracks-found :
    (v : View) (run : ℕ) (out : Bool)
    → Tracks v run out
    → Tracks (view_visit (view_init v)) (run + 1) (out || ((run + 1) == 11))
Tracks-found v run true t = record {
  out_same = ground (arith, t.out_same);
  run_bound = λ h. cc;
  current = λ h. cc;
  counted = λ h l. cc;
}
Tracks-found v run false t =
    let o = t.out_same in
    let b = t.run_bound refl in
    let c = t.current refl in
    let n = t.counted refl in
    record {
      out_same = ground (arith, o, b, c, n);
      run_bound = λ h. ground (arith, h, b);
      current = λ h. ground (arith, h, o, b, c, n);
      counted = λ h l. ground (arith, h, o, b, c, n);
    }

Tracks-missed :
    (v : View) (run : ℕ) (out : Bool) → Tracks v run out → Tracks (view_init v) 0 (out || false)
Tracks-missed v run out t = record {
  out_same = ground (arith, t.out_same);
  run_bound = λ h. omega arith;
  current = λ h. refl;
  counted = λ h l. ground arith;
}

-- No discovery visits the device twice.
abbrev pub VisitsOnce : ℕ → List (List ℕ) → Type 0
VisitsOnce k [] = Unit {0}
VisitsOnce k (ks ∷ scans) = (times k ks ≤ 1) × VisitsOnce k scans

Tracks-scan :
    (k : ℕ) (ks : List ℕ) (w : Watcher) (run : ℕ) (out : Bool)
    → times k ks ≤ 1
    → Tracks (view k w) run out
    → let run' = if has k ks then run + 1 else 0 in
      Tracks (view k (visits ks (device_discovery_init w))) run' (out || (run' == 11))
Tracks-scan k ks w run out h t =
    let w' = device_discovery_init w in
    let run' = if has k ks then run + 1 else 0 in
    let v : view k (visits ks w')
        ≡ (if has k ks then view_visit (view_init (view k w)) else view_init (view k w)) =
      visits-view k ks w' h ∙ ap (λ x. if has k ks then view_visit x else x) (view-init k w) in
    let found = Tracks-found (view k w) run out t in
    let missed = Tracks-missed (view k w) run out t in
    subst (λ x. Tracks x run' (out || (run' == 11))) (sym v)
      (elim (Bool-cases (has k ks)) [ inl e ↦ rw e found | inr e ↦ rw e missed ])

discoveries-ignored :
    (k : ℕ) (scans : List (List ℕ)) (w : Watcher) (run : ℕ) (out : Bool)
    → VisitsOnce k scans
    → Tracks (view k w) run out
    → is_device_good_for_init k (discoveries scans w) ≡ not (found_eleven k scans run out)
unfolding discoveries is_device_good_for_init
discoveries-ignored k [] w run out h t = rw t.out_same refl
discoveries-ignored k (ks ∷ scans) w run out h t =
    let run' = if has k ks then run + 1 else 0 in
    discoveries-ignored k scans (visits ks (device_discovery_init w)) run' (out || (run' == 11)) h.1
      (Tracks-scan k ks w run out h.0 t)

-- When no discovery visits a device twice, the device is passed over after a number of discoveries
-- exactly when eleven of them in succession have found it in need of registration.
pub good_for_init-found_eleven :
    (k : ℕ) (scans : List (List ℕ))
    → VisitsOnce k scans
    → is_device_good_for_init k (discoveries scans new_watcher) ≡ not (found_eleven k scans 0 false)
unfolding new_watcher find
good_for_init-found_eleven k scans h = discoveries-ignored k scans new_watcher 0 false h (record {
  out_same = refl;
  run_bound = λ g. omega arith;
  current = λ g. refl;
  counted = λ g l. ground arith;
})
