-- ===== src/Prelude/Map.antt =====
-- std::map and std::unordered_map with numeric keys, as lists of entries in the order of the keys.
use Prim.Native.Nat.{ℕ, ◌≤◌, ◌<◌}
use mathlib.Core.Path.{◌≡◌, refl}
use mathlib.Core.List.{List, [], ◌∷◌}
use mathlib.Core.Option.{Option, none, some}
use native.Mathlib.Omega.{arith}
use pmci.Prelude.Tests.{ltb, ◌==◌, if◌then◌else◌}

abbrev pub Map {ℓ} : Type ℓ → Type ℓ
Map V = List (ℕ × V)

module _ {ℓ} {V : Type ℓ} where
  unfoldable pub find : ℕ → Map V → Option V
  find k [] = none
  find k ((j, v) ∷ m) = if j == k then some v else find k m

  unfoldable pub erase : ℕ → Map V → Map V
  erase k [] = []
  erase k ((j, v) ∷ m) = if j == k then erase k m else (j, v) ∷ erase k m

  -- `operator[]=` and `insert_or_assign`: the entry is written anew.
  unfoldable pub assign : ℕ → V → Map V → Map V
  assign k v [] = (k, v) ∷ []
  assign k v ((j, w) ∷ m) =
      let rest = (j, w) ∷ assign k v m in
      if ltb k j then (k, v) ∷ (j, w) ∷ m else if k == j then (k, v) ∷ m else rest

  -- `emplace` and `insert`: an entry that is there stays.
  unfoldable pub emplace : ℕ → V → Map V → Map V
  emplace k v [] = (k, v) ∷ []
  emplace k v ((j, w) ∷ m) =
      let rest = (j, w) ∷ emplace k v m in
      if ltb k j then (k, v) ∷ (j, w) ∷ m else if k == j then (j, w) ∷ m else rest

  pub find-erase : (k j : ℕ) (m : Map V) → find j (erase k m) ≡ (if j == k then none else find j m)
  unfolding find erase
  find-erase k j [] = ground arith
  find-erase k j ((i, w) ∷ m) = ground (arith, find-erase k j m)

  -- Every key of the map lies above the bound, and the keys rise.
  abbrev pub Above : ℕ → Map V → Type 0
  Above n [] = Unit {0}
  Above n ((j, v) ∷ m) = (n < j) × Above j m

  abbrev pub IsSorted : Map V → Type 0
  IsSorted [] = Unit {0}
  IsSorted ((j, v) ∷ m) = Above j m

  pub find-Above : (k n : ℕ) (m : Map V) → Above n m → k ≤ n → find k m ≡ none
  unfolding find
  find-Above k n [] a h = refl
  find-Above k n ((j, v) ∷ m) a h = ground (arith, find-Above k j m a.1)

  pub find-assign :
      (k j : ℕ) (v : V) (m : Map V) → find j (assign k v m) ≡ (if j == k then some v else find j m)
  unfolding find assign
  find-assign k j v [] = ground arith
  find-assign k j v ((i, w) ∷ m) = ground (arith, find-assign k j v m)

  pub find-emplace :
      (k j : ℕ) (v : V) (m : Map V)
      → find k m ≡ none
      → find j (emplace k v m) ≡ (if j == k then some v else find j m)
  unfolding find emplace
  find-emplace k j v [] h = ground arith
  find-emplace k j v ((i, w) ∷ m) h = ground (arith, find-emplace k j v m)

  pub Above-mono : (n k : ℕ) (m : Map V) → n ≤ k → Above k m → Above n m
  Above-mono n k [] h a = tt
  Above-mono n k ((j, v) ∷ m) h a = (omega arith, a.1)

  pub Above-IsSorted : (n : ℕ) (m : Map V) → Above n m → IsSorted m
  Above-IsSorted n [] a = tt
  Above-IsSorted n ((j, v) ∷ m) a = a.1

  pub erase-Above : (n k : ℕ) (m : Map V) → Above n m → Above n (erase k m)
  unfolding erase
  erase-Above n k [] a = tt
  erase-Above n k ((j, v) ∷ m) a =
      ground (arith, erase-Above j k m a.1, erase-Above n k m (Above-mono n j m (omega arith) a.1))

  pub erase-IsSorted : (k : ℕ) (m : Map V) → IsSorted m → IsSorted (erase k m)
  unfolding erase
  erase-IsSorted k [] a = tt
  erase-IsSorted k ((j, v) ∷ m) a =
      ground (arith, erase-Above j k m a, Above-IsSorted j (erase k m))

  pub assign-Above : (n k : ℕ) (v : V) (m : Map V) → n < k → Above n m → Above n (assign k v m)
  unfolding assign
  assign-Above n k v [] h a = ground arith
  assign-Above n k v ((j, w) ∷ m) h a = ground (arith, assign-Above j k v m)

  pub assign-IsSorted : (k : ℕ) (v : V) (m : Map V) → IsSorted m → IsSorted (assign k v m)
  unfolding assign
  assign-IsSorted k v [] a = tt
  assign-IsSorted k v ((j, w) ∷ m) a = ground (arith, assign-Above j k v m)

  pub emplace-Above : (n k : ℕ) (v : V) (m : Map V) → n < k → Above n m → Above n (emplace k v m)
  unfolding emplace
  emplace-Above n k v [] h a = ground arith
  emplace-Above n k v ((j, w) ∷ m) h a = ground (arith, emplace-Above j k v m)

  pub emplace-IsSorted : (k : ℕ) (v : V) (m : Map V) → IsSorted m → IsSorted (emplace k v m)
  unfolding emplace
  emplace-IsSorted k v [] a = tt
  emplace-IsSorted k v ((j, w) ∷ m) a = ground (arith, emplace-Above j k v m)
