-- ===== src/Mctpd/DeviceWatcher.antt =====
-- mctpd/src/utils/device_watcher.cpp: devices that fail to initialise in successive discoveries are
-- put on a list of ignored ones. A device is the number of its binding's private data.
pub mod Views
pub mod Streaks
mod Tests
use pmci.Prelude.{
  ℕ, ◌+◌, Bool, true, false, not, List, [], ◌∷◌, Option, none, some, ltb, ◌==◌, if◌then◌else◌,
}
use pmci.Prelude.Map.{Map, find, assign}

pub record Watcher : Type 0 where
  pub ignore_list : List ℕ
  pub previous_init_list : List ℕ
  pub current_init_list : List ℕ
  pub successive_init_count : Map ℕ

unfoldable pub new_watcher : Watcher
new_watcher = record {
  ignore_list = [];
  previous_init_list = [];
  current_init_list = [];
  successive_init_count = [];
}

abbrev pub has : ℕ → List ℕ → Bool
has k [] = false
has k (j ∷ js) = if k == j then true else has k js

unfoldable pub add : ℕ → List ℕ → List ℕ
add k js = if has k js then js else k ∷ js

-- Counts of devices that are not among the given ones are erased.
unfoldable pub keep_counts : List ℕ → Map ℕ → Map ℕ
keep_counts ks [] = []
keep_counts ks ((k, n) ∷ m) =
    let rest = keep_counts ks m in if has k ks then (k, n) ∷ rest else rest

-- A discovery starts; the list that is moved from is empty.
unfoldable pub device_discovery_init : Watcher → Watcher
device_discovery_init w = record w {
  previous_init_list = w.current_init_list;
  current_init_list = [];
  successive_init_count = keep_counts w.current_init_list w.successive_init_count;
}

unfoldable pub is_device_good_for_init : ℕ → Watcher → Bool
is_device_good_for_init k w = not (has k w.ignore_list)

abbrev pub successive_device_init_thold : ℕ
successive_device_init_thold = 10

unfoldable pub count_again : ℕ → Option ℕ → Watcher → Watcher × Bool
count_again k none w = (w, true)
count_again k (some n) w =
    let w' = record w { successive_init_count = assign k (n + 1) w.successive_init_count } in
    if ltb successive_device_init_thold n
    then (w, false)
    else if n + 1 == successive_device_init_thold
    then (record w' { ignore_list = add k w.ignore_list }, false)
    else (w', true)

unfoldable pub check_device_init_threshold : ℕ → Watcher → Watcher × Bool
check_device_init_threshold k w =
    let w' = record w { current_init_list = add k w.current_init_list } in
    if has k w.previous_init_list
    then count_again k (find k w.successive_init_count) w'
    else (record w' { successive_init_count = assign k 0 w.successive_init_count }, true)

-- What a discovery does with one device: it is passed over if it is ignored, else it is checked before
-- it is registered.
unfoldable pub visit : ℕ → Watcher → Watcher
visit k w = if is_device_good_for_init k w then (check_device_init_threshold k w).0 else w

unfoldable pub visits : List ℕ → Watcher → Watcher
visits [] w = w
visits (k ∷ ks) w = visits ks (visit k w)

-- Discoveries, each with the devices that it finds in need of registration.
unfoldable pub discoveries : List (List ℕ) → Watcher → Watcher
discoveries [] w = w
discoveries (ks ∷ scans) w = discoveries scans (visits ks (device_discovery_init w))
