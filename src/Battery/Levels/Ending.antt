-- ===== src/Battery/Levels/Ending.antt =====
-- How the wait of ChargeDeviceToLevel ends.
use udroid.Prelude.{
  ℕ, ◌+◌, ◌-◌, ◌*◌, ◌<◌, Bool, true, false, Option, none, some, Text, codes, Dict, lookup, ℤ, pos,
  negsuc, le_int, ltb, leb, not, ◌&&◌, if◌then◌else◌, ◌≡◌, ◌≢◌, refl, ap, sym, ◌∙◌, arith,
  Bool-cases, inl, inr,
}
use udroid.Prelude.Effects.{Outcome, ok, err, continue}
use udroid.Retry.{WatchdogTimer, Waited, met, not_met, timed_out, failed, still_waiting}
use udroid.Retry.Meeting.{EndsMet, wait_for-EndsMet, is_not_met, wait_for_keeps_on}
use udroid.Retry.Descent.{wait_for_descends}
use udroid.Battery.{BatteryError, device_charging_error, Device, Battery, get_battery_info}
use udroid.Battery.Levels.{
  Charge, with_level, max_charge_error, charged_at, level_or_full, on_battery, charged_reading,
  device_charged, wait_charged,
}

-- How many more checks there can be: 20 for each level that is left, less the failures so far.
abbrev pub checks_left : {W : Type 0} → ℕ → Charge W → ℕ
checks_left level c =
    max_charge_error * (level - c.last_charge_value) + (max_charge_error - c.charge_failure_count)

abbrev CountIsLow : {W : Type 0} → Charge W → Type 0
CountIsLow c = c.charge_failure_count < max_charge_error

charged_at-descends :
    {W : Type 0} (level : ℕ) (b : ℤ) (c : Charge W)
    → CountIsLow c
    → (charged_at level b c).0 ≡ ok none
    → CountIsLow (charged_at level b c).1
      × (checks_left level (charged_at level b c).1 < checks_left level c)
unfolding charged_at
charged_at-descends level (pos n) c low h = (ground arith, ground arith)
charged_at-descends level (negsuc n) c low h = (ground arith, ground arith)

module _ {W : Type 0} (device : Device W) (is_nonzero : Text → Outcome BatteryError Bool)
    (group : Option WatchdogTimer) (fuel : ℕ) where
  abbrev slept : ℕ → Charge W → Charge W
  slept period c = record c {
    battery = record (c.battery) { world = device.sleep period c.battery.world };
  }

  charged_reading-descends :
      (level : ℕ) (reading : Outcome BatteryError ℤ) (c : Charge W)
      → CountIsLow c
      → (charged_reading device is_nonzero group fuel level reading c).0 ≡ ok none
      → CountIsLow (charged_reading device is_nonzero group fuel level reading c).1
        × (checks_left level (charged_reading device is_nonzero group fuel level reading c).1
            < checks_left level c)
  charged_reading-descends level (err e) c low h = cc
  charged_reading-descends level (ok b) c low h = charged_at-descends level b c low h

  device_charged-descends :
      (level wait_period : ℕ) (c : Charge W)
      → CountIsLow c
      → (device_charged device is_nonzero group fuel level c).0 ≡ ok none
      → CountIsLow (slept wait_period (device_charged device is_nonzero group fuel level c).1)
        × (checks_left level
              (slept wait_period (device_charged device is_nonzero group fuel level c).1)
            < checks_left level c)
  unfolding device_charged
  device_charged-descends level wait_period c low h =
      go (get_battery_info device group fuel c.battery) h
    where
      go :
          (m : Outcome BatteryError (Dict Text) × Battery W)
          → (continue (on_battery device is_nonzero group fuel c m) (λ info.
              charged_reading device is_nonzero group fuel level
                (level_or_full (lookup (codes "level") info)))).0
            ≡ ok none
          → CountIsLow (
              slept wait_period
                (continue (on_battery device is_nonzero group fuel c m) (λ info.
                  charged_reading device is_nonzero group fuel level
                    (level_or_full (lookup (codes "level") info)))).1)
            × (checks_left level (
                  slept wait_period
                    (continue (on_battery device is_nonzero group fuel c m) (λ info.
                      charged_reading device is_nonzero group fuel level
                        (level_or_full (lookup (codes "level") info)))).1)
                < checks_left level c)
      go (err e, s) e' = cc
      go (ok info, s) e' =
          charged_reading-descends level (level_or_full (lookup (codes "level") info))
            (record c { battery = s }) low e'

  -- The level that is asked for is read of the device, and the reading leaves the state `c`.
  abbrev pub LevelWasRead : ℕ → Charge W → Type 0
  LevelWasRead level c =
      (t : Charge W) × (info : Dict Text) × (b : ℤ) × (get_battery_info device group fuel t.battery
        ≡ (ok info, c.battery))
      × (level_or_full (lookup (codes "level") info) ≡ ok b)
      × (le_int (pos level) b ≡ true)

  abbrev pub EndsCharged : ℕ → Waited BatteryError (Unit {0}) × Charge W → Type 0
  EndsCharged level (met _, c) = LevelWasRead level c
  EndsCharged level (failed e, c) = Unit
  EndsCharged level (timed_out, c) = Unit
  EndsCharged level (not_met, c) = ⊥
  EndsCharged level (still_waiting, c) = ⊥

  with_level-battery : (b : ℤ) (c : Charge W) → (with_level b c).battery ≡ c.battery
  with_level-battery (pos n) c = elim (Bool-cases (ltb c.last_charge_value n)) [
    | inl e ↦ rw e refl
    | inr e ↦ rw e refl
  ]
  with_level-battery (negsuc n) c = refl

  charged_at-level :
      (level : ℕ) (b : ℤ) (c c' : Charge W)
      → charged_at level b c ≡ (ok (some tt), c')
      → (le_int (pos level) b ≡ true) × (c.battery ≡ c'.battery)
  unfolding charged_at
  charged_at-level level b c c' h =
      go (le_int (pos level) b) (leb max_charge_error (with_level b c).charge_failure_count) h
    where
      go :
          (enough full : Bool)
          → ◌≡◌ {A = Outcome BatteryError (Option (Unit {0})) × Charge W}
              (if not enough && full
                then (err device_charging_error, with_level b c)
                else (ok (if enough then some tt else none), with_level b c))
              (ok (some tt), c')
          → (enough ≡ true) × (c.battery ≡ c'.battery)
      go true full h' = (
        refl,
        sym (with_level-battery b c)
            ∙ ap (λ (m : Outcome BatteryError (Option (Unit {0})) × Charge W). m.1.battery) h',
      )
      go false true h' = cc
      go false false h' = cc

  level_read :
      (level : ℕ) (t c : Charge W)
      → device_charged device is_nonzero group fuel level t ≡ (ok (some tt), c)
      → LevelWasRead level c
  unfolding device_charged
  level_read level t c h = go (get_battery_info device group fuel t.battery) refl h
    where
      known :
          (info : Dict Text) (s : Battery W) (reading : Outcome BatteryError ℤ)
          → get_battery_info device group fuel t.battery ≡ (ok info, s)
          → level_or_full (lookup (codes "level") info) ≡ reading
          → charged_reading device is_nonzero group fuel level reading (record t { battery = s })
            ≡ (ok (some tt), c)
          → LevelWasRead level c
      known info s (err e) q r h' = cc
      known info s (ok b) q r h' =
          let (enough, same) = charged_at-level level b (record t { battery = s }) c h' in
          (t, info, b, q ∙ ap (λ (u : Battery W). (ok info, u)) same, r, enough)

      go :
          (m : Outcome BatteryError (Dict Text) × Battery W)
          → get_battery_info device group fuel t.battery ≡ m
          → continue (on_battery device is_nonzero group fuel t m) (λ info.
            charged_reading device is_nonzero group fuel level
              (level_or_full (lookup (codes "level") info)))
            ≡ (ok (some tt), c)
          → LevelWasRead level c
      go (err e, s) q h' = cc
      go (ok info, s) q h' = known info s (level_or_full (lookup (codes "level") info)) q refl h'

  ends_charged :
      (level wait_period : ℕ) (m : Waited BatteryError (Unit {0}) × Charge W)
      → EndsMet
          (λ (t : Charge W). device.now t.battery.world)
          slept
          (device_charged device is_nonzero group fuel level)
          group
          wait_period
          m
      → is_not_met
          (λ (t : Charge W). device.now t.battery.world)
          slept
          (device_charged device is_nonzero group fuel level)
          group
          wait_period
          m.0
        ≡ false
      → m.0 ≢ still_waiting
      → EndsCharged level m
  ends_charged level wait_period (met tt, c) (t, h) n waits = level_read level t c h
  ends_charged level wait_period (failed e, c) h n waits = tt
  ends_charged level wait_period (timed_out, c) h n waits = tt
  ends_charged level wait_period (not_met, c) h n waits = cc
  ends_charged level wait_period (still_waiting, c) h n waits = waits refl

  never_waiting :
      (level wait_period : ℕ) (c : Charge W)
      → CountIsLow c
      → checks_left level c < fuel
      → (wait_charged device is_nonzero group fuel level wait_period c).0 ≢ still_waiting
  never_waiting level wait_period c low enough =
      wait_for_descends (λ (t : Charge W). device.now t.battery.world) slept
        (device_charged device is_nonzero group fuel level) group wait_period CountIsLow
        (checks_left level) (device_charged-descends level wait_period) fuel none c low enough

  -- The wait of ChargeDeviceToLevel ends, whatever the device answers, with more than
  -- 20 * (level + 1) rounds of fuel: it raises, is timed out, or is met, and it is met only where the
  -- last thing that it did was to read a battery level of the device that is at least the level asked for.
  -- (A device that tells no level is taken to be at 100.)
  pub wait_charged_ends :
      (level wait_period : ℕ) (s : Battery W)
      → max_charge_error * (level + 1) < fuel
      → EndsCharged level (
          wait_charged device is_nonzero group fuel level wait_period
            (record { battery = s; charge_failure_count = 0; last_charge_value = 0 }))
  wait_charged_ends level wait_period s enough =
      let start : Charge W = record {
        battery = s;
        charge_failure_count = 0;
        last_charge_value = 0;
      } in
      let now = λ (t : Charge W). device.now t.battery.world in
      let check = device_charged device is_nonzero group fuel level in
      ends_charged level wait_period
        (wait_charged device is_nonzero group fuel level wait_period start)
        (wait_for-EndsMet now slept check group wait_period fuel none start)
        (wait_for_keeps_on now slept check group wait_period fuel start)
        (never_waiting level wait_period start (omega arith) (omega arith))
