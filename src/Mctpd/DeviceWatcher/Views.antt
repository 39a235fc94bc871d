-- ===== src/Mctpd/DeviceWatcher/Views.antt =====
-- mctpd/src/utils/device_watcher.cpp: each device is watched on its own.
use pmci.Prelude.{
  ℕ, ◌+◌, ◌≡◌, ◌≢◌, refl, Bool, true, false, List, [], ◌∷◌, Option, none, some, arith, ltb, ◌==◌,
  if◌then◌else◌,
}
use pmci.Prelude.Map.{Map, find, find-assign}
use pmci.Mctpd.DeviceWatcher.{
  Watcher, has, add, keep_counts, device_discovery_init, is_device_good_for_init, count_again,
  check_device_init_threshold, visit,
}

-- What the watcher holds of one device.
pub record View : Type 0 where
  pub ignored : Bool
  pub in_previous : Bool
  pub in_current : Bool
  pub count : Option ℕ

abbrev pub view : ℕ → Watcher → View
view k w = record {
  ignored = has k w.ignore_list;
  in_previous = has k w.previous_init_list;
  in_current = has k w.current_init_list;
  count = find k w.successive_init_count;
}

abbrev pub view_init : View → View
view_init v = record v {
  in_previous = v.in_current;
  in_current = false;
  count = if v.in_current then v.count else none;
}

abbrev pub view_count : Option ℕ → View → View
view_count none v = v
view_count (some n) v =
    let v' = record v { count = some (n + 1) } in
    if ltb 10 n then v else if n + 1 == 10 then record v' { ignored = true } else v'

abbrev pub view_visit : View → View
view_visit v =
    let v' = record v { in_current = true } in
    if v.ignored
    then v
    else if v.in_previous
    then view_count v.count v'
    else record v' { count = some 0 }

has-add : (k j : ℕ) (js : List ℕ) → has k (add j js) ≡ (if k == j then true else has k js)
unfolding add
has-add k j js = ground arith

find-keep_counts :
    (k : ℕ) (ks : List ℕ) (m : Map ℕ)
    → find k (keep_counts ks m) ≡ (if has k ks then find k m else none)
unfolding keep_counts find
find-keep_counts k ks [] = ground arith
find-keep_counts k ks ((j, n) ∷ m) = ground (arith, find-keep_counts k ks m)

pub view-init : (k : ℕ) (w : Watcher) → view k (device_discovery_init w) ≡ view_init (view k w)
unfolding device_discovery_init
view-init k w = rw (find-keep_counts k w.current_init_list w.successive_init_count) refl

view-count_same :
    (k : ℕ) (o : Option ℕ) (w : Watcher) → view k (count_again k o w).0 ≡ view_count o (view k w)
unfolding count_again
view-count_same k none w = refl
view-count_same k (some n) w =
    ground (arith, has-add k k w.ignore_list, find-assign k k (n + 1) w.successive_init_count)

pub view-visit_same : (k : ℕ) (w : Watcher) → view k (visit k w) ≡ view_visit (view k w)
unfolding visit is_device_good_for_init check_device_init_threshold
view-visit_same k w = ground (
  arith,
  has-add k k w.current_init_list,
  find-assign k k 0 w.successive_init_count,
  view-count_same k (find k w.successive_init_count)
      (record w { current_init_list = add k w.current_init_list }),
)

view-count_other :
    (k j : ℕ) (o : Option ℕ) (w : Watcher) → k ≢ j → view k (count_again j o w).0 ≡ view k w
unfolding count_again
view-count_other k j none w d = refl
view-count_other k j (some n) w d =
    ground (arith, has-add k j w.ignore_list, find-assign j k (n + 1) w.successive_init_count)

pub view-visit_other : (k j : ℕ) (w : Watcher) → k ≢ j → view k (visit j w) ≡ view k w
unfolding visit is_device_good_for_init check_device_init_threshold
view-visit_other k j w d = ground (
  arith,
  has-add k j w.current_init_list,
  find-assign j k 0 w.successive_init_count,
  view-count_other k j (find j w.successive_init_count)
      (record w { current_init_list = add j w.current_init_list }),
)
