-- ===== src/Pldmd/Sensor.antt =====
-- pldmd/src/numeric_sensor.cpp and pldmd/src/thresholds.cpp: a numeric sensor, its alarms and its
-- errors. The numbers are those of `double`, of which only the operations used are known.
pub mod Alarms
pub mod Errors
mod Tests
use pmci.Prelude.{
  ℕ, ◌+◌, Bool, true, false, not, ◌&&◌, ◌||◌, List, [], ◌∷◌, Option, none, some, ltb, leb, ◌==◌,
  if◌then◌else◌,
}

-- `le` and `lt` are `<=` and `<`, `distance` is `abs(a - b)`, `nan` the quiet NaN.
pub record Doubles (D : Type 0) : Type 0 where
  pub le : D → D → Bool
  pub lt : D → D → Bool
  pub plus : D → D → D
  pub minus : D → D → D
  pub distance : D → D → D
  pub is_nan : D → Bool
  pub nan : D

pub data Level : Type 0 where
  warning : Level
  critical : Level

pub data Direction : Type 0 where
  high : Direction
  low : Direction

pub record Threshold (D : Type 0) : Type 0 where
  pub level : Level
  pub direction : Direction
  pub value : D

abbrev pub is_level : Level → Level → Bool
is_level warning warning = true
is_level critical critical = true
is_level _ _ = false

abbrev pub is_direction : Direction → Direction → Bool
is_direction high high = true
is_direction low low = true
is_direction _ _ = false

-- `alarms` are the alarm properties of the threshold interfaces; an interface is there if the sensor
-- has been made with it.
pub record Sensor (D : Type 0) : Type 0 where
  pub value : D
  pub thresholds : List (Threshold D)
  pub hysteresis_trigger : D
  pub hysteresis_publish : D
  pub err_count : ℕ
  pub functional : Bool
  pub available : Bool
  pub has_interface : Level → Bool
  pub alarms : Level → Direction → Bool

abbrev pub error_threshold : ℕ
error_threshold = 3

module _ {D : Type 0} where
  -- hasCriticalInterface and hasWarningInterface.
  unfoldable pub has_level : Level → List (Threshold D) → Bool
  has_level l [] = false
  has_level l (t ∷ ts) = if is_level l t.level then true else has_level l ts

  -- How a threshold's alarm changes, if it does: it is set at the threshold, and reset beyond the
  -- hysteresis.
  unfoldable pub change : Doubles D → D → D → Threshold D → Option Bool
  change f hysteresis v t = elim t.direction [
    | high ↦
        if f.le t.value v
        then some true
        else if f.lt v (f.minus t.value hysteresis)
        then some false
        else none
    | low ↦
        if f.le v t.value
        then some true
        else if f.lt (f.plus t.value hysteresis) v
        then some false
        else none
  ]

  -- The changes of all thresholds, collected before any is applied.
  unfoldable pub changes : Doubles D → D → D → List (Threshold D) → List (Threshold D × Bool)
  changes f hysteresis v [] = []
  changes f hysteresis v (t ∷ ts) =
      let rest = changes f hysteresis v ts in
      elim (change f hysteresis v t) [ none ↦ rest | some asserted ↦ (t, asserted) ∷ rest ]

  -- The constructor, with the hysteresis that it computes from the range.
  unfoldable pub new_sensor : Doubles D → D → D → List (Threshold D) → Bool → Sensor D
  new_sensor f hysteresis_trigger hysteresis_publish thresholds sensor_disabled = record {
    value = f.nan;
    thresholds = thresholds;
    hysteresis_trigger = hysteresis_trigger;
    hysteresis_publish = hysteresis_publish;
    err_count = 0;
    functional = not sensor_disabled;
    available = true;
    has_interface = λ l. has_level l thresholds;
    alarms = λ l d. false;
  }

  unfoldable pub set_alarm : Level → Direction → Bool → Sensor D → Sensor D
  set_alarm l d b s = record s {
    alarms = λ l' d'. if is_level l l' && is_direction d d' then b else s.alarms l' d';
  }

  unfoldable pub assert_thresholds : Level → Direction → Bool → Sensor D → Sensor D
  assert_thresholds l d b s = if s.has_interface l then set_alarm l d b s else s

  -- The sensor, and whether no critical threshold is crossed.
  unfoldable pub apply_changes : List (Threshold D × Bool) → Sensor D → Sensor D × Bool
  apply_changes [] s = (s, true)
  apply_changes ((t, asserted) ∷ cs) s =
      let rest = apply_changes cs (assert_thresholds t.level t.direction asserted s) in
      (rest.0, if is_level critical t.level && asserted then false else rest.1)

  unfoldable pub check_thresholds : Doubles D → Sensor D → Sensor D × Bool
  check_thresholds f s = apply_changes (changes f s.hysteresis_trigger s.value s.thresholds) s

  unfoldable pub requires_update : Doubles D → D → D → D → Bool
  requires_update f hysteresis_publish l r =
      if f.is_nan l || f.is_nan r then true else f.lt hysteresis_publish (f.distance l r)

  unfoldable pub update_property : Doubles D → D → Sensor D → Sensor D
  update_property f v s =
      if requires_update f s.hysteresis_publish s.value v then record s { value = v } else s

  -- markFunctional(true), and markAvailable.
  unfoldable pub mark_good : Sensor D → Sensor D
  mark_good s = record s { functional = true; available = true; err_count = 0 }

  unfoldable pub update_value : Doubles D → D → Sensor D → Sensor D
  update_value f v s =
      let s' = (check_thresholds f (update_property f v s)).0 in
      if f.is_nan v then s' else mark_good s'

  unfoldable pub mark_not_functional : Doubles D → Sensor D → Sensor D
  mark_not_functional f s = update_value f f.nan (record s { functional = false })

  unfoldable pub increment_error : Doubles D → Sensor D → Sensor D
  increment_error f s =
      let s' = record s { err_count = s.err_count + 1 } in
      if leb error_threshold s.err_count
      then s
      else if s.err_count + 1 == error_threshold
      then mark_not_functional f s'
      else s'

  unfoldable pub check_error_threshold : Sensor D → Bool
  check_error_threshold s = ltb s.err_count error_threshold
