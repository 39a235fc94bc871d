-- ===== src/Mctpd/DeviceWatcher/Tests.antt =====
-- The watcher of mctpd/src/utils/device_watcher.cpp on a device that fails again and again.
use pmci.Prelude.{ℕ, ◌≡◌, refl, true, false, List, [], ◌∷◌, arith, replicate}
use pmci.Prelude.Map.{find, assign}
use pmci.Mctpd.DeviceWatcher.{
  new_watcher, device_discovery_init, keep_counts, is_device_good_for_init, add, count_again,
  check_device_init_threshold, visit, visits, discoveries,
}
use pmci.Mctpd.DeviceWatcher.Streaks.{VisitsOnce, good_for_init-found_eleven}

-- Device 5 in eleven discoveries, device 6 in the first of them.
abbrev scans : List (List ℕ)
scans = (5 ∷ 6 ∷ []) ∷ replicate 10 (5 ∷ [])

once : VisitsOnce 5 scans
once = ground arith

good_for_init-found_eleven_example :
    is_device_good_for_init 5 (discoveries scans new_watcher) ≡ false
good_for_init-found_eleven_example = good_for_init-found_eleven 5 scans once

-- A device that is ignored and is checked all the same is let through again.
ignored_let_through :
    let w = discoveries scans new_watcher in
    (check_device_init_threshold 5 (device_discovery_init w)).1 ≡ true
unfolding discoveries visits visit is_device_good_for_init check_device_init_threshold count_again
    device_discovery_init keep_counts add new_watcher find assign
ignored_let_through = refl
