-- ===== src/Pldmd/Sensor/Alarms.antt =====
-- pldmd/src/thresholds.cpp: what a reading does to each of a sensor's alarms.
use pmci.Prelude.{
  ◌≡◌, refl, sym, Bool, true, false, not, ◌&&◌, ◌||◌, List, [], ◌∷◌, Option, none, some, arith,
  if◌then◌else◌, Option-cases, inl, inr, ◌∙◌, ap,
}
use pmci.Pldmd.Sensor.{
  Doubles, Level, warning, critical, Direction, high, low, Threshold, is_level, is_direction,
  Sensor, change, changes, set_alarm, assert_thresholds, apply_changes, check_thresholds,
}

-- An alarm that does not change stays.
abbrev next : Option Bool → Bool → Bool
next none old = old
next (some b) old = b

is_level-eq : (k l : Level) → is_level k l ≡ true → k ≡ l
is_level-eq warning warning h = refl
is_level-eq critical critical h = refl
is_level-eq warning critical h = cc
is_level-eq critical warning h = cc

module _ {D : Type 0} where
  -- A value reaches a threshold, or lies beyond the hysteresis on its other side.
  abbrev pub reaches : Doubles D → D → Threshold D → Bool
  reaches f v t = elim t.direction [ high ↦ f.le t.value v | low ↦ f.le v t.value ]

  abbrev pub releases : Doubles D → D → D → Threshold D → Bool
  releases f h v t = elim t.direction [
    | high ↦ f.lt v (f.minus t.value h)
    | low ↦ f.lt (f.plus t.value h) v
  ]

  -- One alarm on its own, a Schmitt trigger for each threshold of its level and direction in their
  -- order: it is set if the value reaches the threshold, or if it was and the value does not release it.
  abbrev pub settle : Doubles D → D → D → Level → Direction → List (Threshold D) → Bool → Bool
  settle f h v l d [] old = old
  settle f h v l d (t ∷ ts) old = settle f h v l d ts (
      if is_level t.level l && is_direction t.direction d
      then reaches f v t || old && not (releases f h v t)
      else old)

  -- Whether the value reaches a critical threshold.
  abbrev pub any_critical : Doubles D → D → List (Threshold D) → Bool
  any_critical f v [] = false
  any_critical f v (t ∷ ts) = is_level critical t.level && reaches f v t || any_critical f v ts

  change-next :
      (f : Doubles D) (h v : D) (t : Threshold D) (old : Bool)
      → next (change f h v t) old ≡ (reaches f v t || old && not (releases f h v t))
  unfolding change
  change-next f h v t old = ground arith

  change-reaches :
      (f : Doubles D) (h v : D) (t : Threshold D) → reaches f v t ≡ next (change f h v t) false
  unfolding change
  change-reaches f h v t = ground arith

  alarm-assert_thresholds :
      (l : Level) (d : Direction) (t : Threshold D) (b : Bool) (s : Sensor D)
      → s.has_interface l ≡ true
      → (assert_thresholds t.level t.direction b s).alarms l d
        ≡ (if is_level t.level l && is_direction t.direction d then b else s.alarms l d)
  unfolding assert_thresholds set_alarm
  alarm-assert_thresholds l d t b s h = ground (arith, is_level-eq t.level l, h)

  interface-assert_thresholds :
      (l k : Level) (d : Direction) (b : Bool) (s : Sensor D)
      → (assert_thresholds k d b s).has_interface l ≡ s.has_interface l
  unfolding assert_thresholds set_alarm
  interface-assert_thresholds l k d b s = ground arith

  apply_changes-settle :
      (f : Doubles D) (h v : D) (l : Level) (d : Direction) (ts : List (Threshold D)) (s : Sensor D)
      → s.has_interface l ≡ true
      → (apply_changes (changes f h v ts) s).0.alarms l d ≡ settle f h v l d ts (s.alarms l d)
  unfolding changes apply_changes
  apply_changes-settle f h v l d [] s i = refl
  apply_changes-settle f h v l d (t ∷ ts) s i =
      let set : Threshold D → Bool = λ t. reaches f v t || s.alarms l d && not (releases f h v t) in
      elim (Option-cases (change f h v t)) [
        | inl n ↦
            let c : s.alarms l d ≡ set t =
              ap (λ o. next o (s.alarms l d)) (sym n) ∙ change-next f h v t _ in
            let same : s.alarms l d ≡ (
                if is_level t.level l && is_direction t.direction d then set t else s.alarms l d) =
              ground (arith, c) in
            rw (n, changes) (apply_changes-settle f h v l d ts s i ∙ ap (settle f h v l d ts) same)
        | inr (b, n) ↦
            let s' = assert_thresholds t.level t.direction b s in
            let j = interface-assert_thresholds l t.level t.direction b s ∙ i in
            let c : b ≡ set t = ap (λ o. next o (s.alarms l d)) (sym n) ∙ change-next f h v t _ in
            let same =
              alarm-assert_thresholds l d t b s i
              ∙ ap
                  (λ x.
                    if is_level t.level l && is_direction t.direction d then x else s.alarms l d)
                  c in
            rw (n, changes) (apply_changes-settle f h v l d ts s' j ∙ ap (settle f h v l d ts) same)
      ]

  apply_changes-status :
      (f : Doubles D) (h v : D) (ts : List (Threshold D)) (s : Sensor D)
      → (apply_changes (changes f h v ts) s).1 ≡ not (any_critical f v ts)
  unfolding changes apply_changes
  apply_changes-status f h v [] s = refl
  apply_changes-status f h v (t ∷ ts) s = elim (Option-cases (change f h v t)) [
    | inl n ↦
        let r : reaches f v t ≡ false = change-reaches f h v t ∙ rw n refl in
        rw (n, changes, r) (ground (arith, apply_changes-status f h v ts s))
    | inr (b, n) ↦
        let r : reaches f v t ≡ b = change-reaches f h v t ∙ rw n refl in
        let s' = assert_thresholds t.level t.direction b s in
        rw (n, changes, r) (ground (arith, apply_changes-status f h v ts s'))
  ]

  -- A check of the thresholds works on each alarm whose interface is there as a Schmitt trigger for
  -- each of that alarm's own thresholds, in their order: it is set if the value reaches the threshold,
  -- stays set until the value is beyond the hysteresis, and is reset then. It reports whether no
  -- critical threshold is reached.
  pub check_thresholds-settle :
      (f : Doubles D) (l : Level) (d : Direction) (s : Sensor D)
      → s.has_interface l ≡ true
      → ((check_thresholds f s).0.alarms l d
          ≡ settle f s.hysteresis_trigger s.value l d s.thresholds (s.alarms l d))
        × ((check_thresholds f s).1 ≡ not (any_critical f s.value s.thresholds))
  unfolding check_thresholds
  check_thresholds-settle f l d s h = (
    apply_changes-settle f s.hysteresis_trigger s.value l d s.thresholds s h,
    apply_changes-status f s.hysteresis_trigger s.value s.thresholds s,
  )
