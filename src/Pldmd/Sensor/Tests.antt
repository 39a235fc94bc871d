-- ===== src/Pldmd/Sensor/Tests.antt =====
-- The sensor of pldmd/src/numeric_sensor.cpp and its thresholds on concrete readings: whole numbers
-- and NaN.
use pmci.Prelude.{
  ℕ, ◌+◌, ◌-◌, ◌≤◌, ◌≡◌, refl, Bool, true, false, not, [], ◌∷◌, Option, none, some, ltb, leb,
}
use pmci.Pldmd.Sensor.{
  Doubles, warning, critical, high, Sensor, check_thresholds, update_value, check_error_threshold,
}
use pmci.Pldmd.Sensor.Alarms.{settle, any_critical, check_thresholds-settle}
use pmci.Pldmd.Sensor.Errors.{IsIeee, fail, fail-functional}

-- `none` is NaN.
abbrev D : Type 0
D = Option ℕ

abbrev compare_with : (ℕ → ℕ → Bool) → D → D → Bool
compare_with test none b = false
compare_with test (some a) none = false
compare_with test (some a) (some b) = test a b

abbrev compute : (ℕ → ℕ → ℕ) → D → D → D
compute op none b = none
compute op (some a) none = none
compute op (some a) (some b) = some (op a b)

abbrev is_none : D → Bool
is_none none = true
is_none (some a) = false

abbrev whole : Doubles D
whole = record {
  le = compare_with leb;
  lt = compare_with ltb;
  plus = compute (λ a b. a + b);
  minus = compute (λ a b. a - b);
  distance = compute (λ a b. (a - b) + (b - a));
  is_nan = is_none;
  nan = none;
}

le_none : (test : ℕ → ℕ → Bool) (a : D) → compare_with test a none ≡ false
le_none test none = refl
le_none test (some a) = refl

IsIeee-whole : IsIeee whole
IsIeee-whole = record {
  nan_is_nan = refl;
  le_nan = le_none leb;
  nan_le = λ a. refl;
  lt_nan = le_none ltb;
  nan_lt = λ a. refl;
}

-- Above 80 a warning, above 90 critical.
abbrev hot : Sensor D
hot = record {
  value = some 85;
  thresholds =
      record { level = warning; direction = high; value = some 80 }
      ∷ record { level = critical; direction = high; value = some 90 }
      ∷ [];
  hysteresis_trigger = some 2;
  hysteresis_publish = some 0;
  err_count = 0;
  functional = true;
  available = true;
  has_interface = λ l. true;
  alarms = λ l d. false;
}

settled : settle whole (some 2) (some 85) warning high hot.thresholds false ≡ true
settled = refl

check_thresholds-settle_example :
    ((check_thresholds whole hot).0.alarms warning high
      ≡ settle whole (some 2) (some 85) warning high hot.thresholds false)
    × ((check_thresholds whole hot).1 ≡ not (any_critical whole (some 85) hot.thresholds))
check_thresholds-settle_example = check_thresholds-settle whole warning high hot refl

fail-functional_example :
    let s = fail whole 3 hot in
    (s.functional ≡ false)
    × (check_error_threshold s ≡ false)
    × (3 ≤ 3 → s.value ≡ none)
    × ((v : D)
        → is_none v ≡ false
        → ((update_value whole v s).functional ≡ true) × ((update_value whole v s).err_count ≡ 0))
fail-functional_example = fail-functional whole 3 hot IsIeee-whole refl refl
