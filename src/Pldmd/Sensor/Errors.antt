-- ===== src/Pldmd/Sensor/Errors.antt =====
-- pldmd/src/numeric_sensor.cpp: a sensor whose readings fail, and one that reads again.
use pmci.Prelude.{
  ℕ, zero, suc, ◌+◌, ◌≤◌, ◌≡◌, refl, true, false, List, [], ◌∷◌, arith, ltb, if◌then◌else◌,
  Option-cases, inl, inr,
}
use native.Mathlib.Nat.{add-zero, add-suc, suc-add}
use mathlib.Core.Path.{subst}
use pmci.Pldmd.Sensor.{
  Doubles, Threshold, Sensor, change, changes, apply_changes, check_thresholds, requires_update,
  update_property, mark_good, update_value, mark_not_functional, increment_error, error_threshold,
  check_error_threshold,
}

module _ {D : Type 0} where
  -- IEEE 754: NaN is known as such, and compares false.
  pub record IsIeee (f : Doubles D) : Type 0 where
    pub nan_is_nan : f.is_nan f.nan ≡ true
    pub le_nan : (a : D) → f.le a f.nan ≡ false
    pub nan_le : (a : D) → f.le f.nan a ≡ false
    pub lt_nan : (a : D) → f.lt a f.nan ≡ false
    pub nan_lt : (a : D) → f.lt f.nan a ≡ false

  changes-of_nan :
      (f : Doubles D) (h : D) (ts : List (Threshold D)) → IsIeee f → changes f h f.nan ts ≡ []
  unfolding changes change
  changes-of_nan f h [] i = refl
  changes-of_nan f h (t ∷ ts) i = elim (Option-cases (change f h f.nan t)) [
    | inl n ↦ rw (n, changes) (changes-of_nan f h ts i)
    | inr (b, n) ↦ ground (
      arith,
      n,
      i.le_nan t.value,
      i.nan_le t.value,
      i.nan_lt (f.minus t.value h),
      i.lt_nan (f.plus t.value h),
    )
  ]

  -- A sensor that is marked as not functional has NaN for its value, and its alarms stay as they are.
  pub mark_not_functional-eq :
      (f : Doubles D) (s : Sensor D)
      → IsIeee f
      → mark_not_functional f s ≡ record s { functional = false; value = f.nan }
  unfolding mark_not_functional update_value update_property requires_update check_thresholds
      apply_changes
  mark_not_functional-eq f s i =
      ground (arith, i.nan_is_nan, changes-of_nan f s.hysteresis_trigger s.thresholds i)

  -- A number of readings fail, one after the other.
  unfoldable pub fail : Doubles D → ℕ → Sensor D → Sensor D
  fail f zero s = s
  fail f (suc n) s = fail f n (increment_error f s)

  -- What a sensor is after `k` failed readings.
  pub record HasFailed (f : Doubles D) (k : ℕ) (s : Sensor D) : Type 0 where
    pub counted : s.err_count ≡ (if ltb k error_threshold then k else error_threshold)
    pub working : s.functional ≡ ltb k error_threshold
    pub unknown : error_threshold ≤ k → s.value ≡ f.nan

  increment_error-HasFailed :
      (f : Doubles D) (k : ℕ) (s : Sensor D)
      → IsIeee f
      → HasFailed f k s
      → HasFailed f (suc k) (increment_error f s)
  unfolding increment_error
  increment_error-HasFailed f k s i h =
      let m = mark_not_functional-eq f (record s { err_count = s.err_count + 1 }) i in
      let c = h.counted in
      let w = h.working in
      record {
        counted = ground (arith, m, c, w);
        working = ground (arith, m, c, w);
        unknown = λ l. ground (arith, m, c, w, h.unknown);
      }

  fail-HasFailed :
      (f : Doubles D) (n k : ℕ) (s : Sensor D)
      → IsIeee f
      → HasFailed f k s
      → HasFailed f (k + n) (fail f n s)
  unfolding fail
  fail-HasFailed f zero k s i h = rw add-zero h
  fail-HasFailed f (suc n) k s i h =
      rw (add-suc, ← suc-add)
        (fail-HasFailed f n (suc k) (increment_error f s) i (increment_error-HasFailed f k s i h))

  update_value-good :
      (f : Doubles D) (v : D) (s : Sensor D)
      → f.is_nan v ≡ false
      → ((update_value f v s).functional ≡ true) × ((update_value f v s).err_count ≡ 0)
  unfolding update_value mark_good
  update_value-good f v s h = rw (h, update_value) (refl, refl)

  -- With the comparisons of IEEE 754, a sensor that works and has no errors works for two failed
  -- readings; from the third on it does not, its value is NaN and checkErrorThreshold fails; and one
  -- reading that is a number makes it work again, without errors.
  pub fail-functional :
      (f : Doubles D) (n : ℕ) (s : Sensor D)
      → IsIeee f
      → s.err_count ≡ 0
      → s.functional ≡ true
      → let s' = fail f n s in
        (s'.functional ≡ ltb n 3)
        × (check_error_threshold s' ≡ ltb n 3)
        × (3 ≤ n → s'.value ≡ f.nan)
        × ((v : D)
            → f.is_nan v ≡ false
            → ((update_value f v s').functional ≡ true) × ((update_value f v s').err_count ≡ 0))
  unfolding check_error_threshold
  fail-functional f n s i e w =
      let start : HasFailed f 0 s = record {
        counted = e;
        working = w;
        unknown = λ l. ground (arith, l);
      } in
      let p : 0 + n ≡ n = omega arith in
      let h : HasFailed f n (fail f n s) =
        subst (λ k. HasFailed f k (fail f n s)) p (fail-HasFailed f n 0 s i start) in
      (h.working, ground (arith, h.counted), h.unknown, λ v g. update_value-good f v (fail f n s) g)
