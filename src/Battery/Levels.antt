-- ===== src/Battery/Levels.antt =====
-- devil/devil/android/battery_utils.py: the waits for a charge level or a temperature.
pub mod Ending
use udroid.Prelude.{
  ℕ, zero, suc, ◌+◌, ◌-◌, ◌≤◌, Bool, true, false, not, ◌&&◌, ◌||◌, Option, none, some, List, [],
  ◌∷◌, Text, codes, is_empty, is_some, contains, if◌then◌else◌, Dict, lookup, ltb, leb, ℤ, pos,
  negsuc, le_int, int_of, split, text_eq,
}
use udroid.Prelude.Effects.{Outcome, ok, err, Exec, pure, raise, continue, ◌>>=◌, ◌>>◌, when}
use udroid.Retry.{WatchdogTimer, Waited, met, failed, not_met, timed_out, still_waiting, wait_for}
use udroid.Battery.Profiles.{DeviceProfile}
use udroid.Battery.{
  BatteryError, command_failed_error, device_version_error, device_charging_error, value_error,
  timeout_error, unfinished, Device, Battery, lollipop, int_at, Task, on_device, shell, ended,
  when_true, wait_until, get_battery_info, get_charging, discover_device_profile, truthy,
  hardware_set_charging, same_bool, is_charging_as, nth,
}
use udroid.Battery.Charging.{set_charging, enable_battery_updates}

abbrev pub max_charge_error : ℕ
max_charge_error = 20

-- `a - b >= n` of integers, as `b + n <= a`.
abbrev pub add_int : ℤ → ℕ → ℤ
add_int (pos a) b = pos (a + b)
add_int (negsuc a) b = if ltb a b then pos (b - a - 1) else negsuc (a - b)

-- What a check of the charge keeps between two rounds.
pub record Charge (W : Type 0) : Type 0 where
  pub battery : Battery W
  pub charge_failure_count : ℕ
  pub last_charge_value : ℕ

abbrev pub with_level : {W : Type 0} → ℤ → Charge W → Charge W
with_level (pos n) c =
    if ltb c.last_charge_value n
    then record c { last_charge_value = n; charge_failure_count = 0 }
    else record c { charge_failure_count = c.charge_failure_count + 1 }
with_level (negsuc n) c = record c { charge_failure_count = c.charge_failure_count + 1 }

-- What `device_charged` makes of the level that it reads.
unfoldable pub charged_at : {W : Type 0} → ℕ → ℤ → Exec BatteryError (Charge W) (Option (Unit {0}))
charged_at level battery_level c =
    let c' = with_level battery_level c in
    if not (le_int (pos level) battery_level) && leb max_charge_error c'.charge_failure_count
    then (err device_charging_error, c')
    else (ok (if le_int (pos level) battery_level then some tt else none), c')

-- The level of a device that does not tell it is taken for 100.
abbrev pub level_or_full : Option Text → Outcome BatteryError ℤ
level_or_full none = ok (pos 100)
level_or_full (some text) = int_at (some text)

module _ {W : Type 0} (device : Device W) (is_nonzero : Text → Outcome BatteryError Bool)
    (group : Option WatchdogTimer) (fuel : ℕ) where
  abbrev pub read_level : Task device group fuel ℤ
  read_level = do
    info ← get_battery_info device group fuel
    λ s. (int_at (lookup (codes "level") info), s)

  abbrev pub still_charged : ℤ → ℕ → ℤ → Task device group fuel Bool
  still_charged battery_level percent current_level =
      if le_int (add_int current_level percent) battery_level
      then pure true
      else do hardware_set_charging device group fuel false; pure false

  -- `device_discharged`
  unfoldable pub device_discharged : ℤ → ℕ → Task device group fuel Bool
  unfolding hardware_set_charging get_battery_info
  device_discharged battery_level percent = do
    hardware_set_charging device group fuel true
    current_level ← read_level
    still_charged battery_level percent current_level

  abbrev pub discharge_from : ℕ → ℕ → ℤ → Task device group fuel (Unit {0})
  discharge_from percent wait_period battery_level =
      if not (ltb 0 percent && ltb percent 100)
      then raise value_error
      else if le_int battery_level (pos (percent + 10))
      then pure tt
      else do
        hardware_set_charging device group fuel false
        wait_until device group fuel wait_period (device_discharged battery_level percent)

  -- `_DischargeDevice`, of a percentage that is not negative.
  unfoldable pub discharge_device : ℕ → ℕ → Task device group fuel (Unit {0})
  unfolding device_discharged wait_for
  discharge_device percent wait_period = do
    battery_level ← read_level
    discharge_from percent wait_period battery_level

  -- `device_charged`
  abbrev pub on_battery :
      {A : Type 0}
      → Charge W
      → Outcome BatteryError A × Battery W
      → Outcome BatteryError A × Charge W
  on_battery c (r, s) = (r, record c { battery = s })

  abbrev pub charged_reading :
      ℕ → Outcome BatteryError ℤ → Exec BatteryError (Charge W) (Option (Unit {0}))
  charged_reading level (err e) c = (err e, c)
  charged_reading level (ok battery_level) c = charged_at level battery_level c

  unfoldable pub device_charged : ℕ → Exec BatteryError (Charge W) (Option (Unit {0}))
  unfolding charged_at get_battery_info
  device_charged level c =
      continue (on_battery c (get_battery_info device group fuel c.battery))
        (λ info. charged_reading level (level_or_full (lookup (codes "level") info)))

  abbrev pub drop_status :
      Waited BatteryError (Unit {0}) × Charge W → Outcome BatteryError (Unit {0}) × Battery W
  drop_status (r, c) = ended device group fuel (r, c.battery)

  abbrev pub wait_charged : ℕ → ℕ → Charge W → Waited BatteryError (Unit {0}) × Charge W
  wait_charged level wait_period c =
      wait_for (λ (t : Charge W). device.now t.battery.world)
        (λ (period : ℕ) (t : Charge W). record t {
          battery = record (t.battery) { world = device.sleep period t.battery.world };
        })
        (device_charged level) fuel group wait_period none c

  -- `ChargeDeviceToLevel`
  unfoldable pub charge_device_to_level : ℕ → ℕ → Task device group fuel (Unit {0})
  unfolding set_charging device_charged wait_for
  charge_device_to_level level wait_period = do
    set_charging device is_nonzero group fuel true
    λ s. drop_status (
        wait_charged level wait_period
          (record { battery = s; charge_failure_count = 0; last_charge_value = 0 }))

  abbrev pub temperature_of : Option Text → Outcome BatteryError ℤ
  temperature_of none = ok (pos 0)
  temperature_of (some text) = int_at (some text)

  abbrev pub cool_down : DeviceProfile → Task device group fuel Bool
  cool_down profile = do
    when (contains (codes "Nexus 5") profile.name) (discharge_device 1 120)
    pure false

  abbrev pub cooled_at : ℤ → DeviceProfile → ℤ → Task device group fuel Bool
  cooled_at target_temp profile temp =
      if le_int temp target_temp then pure true else cool_down profile

  -- `cool_device`
  unfoldable pub cool_device : ℤ → Task device group fuel Bool
  unfolding discharge_device get_battery_info
  cool_device target_temp = do
    info ← get_battery_info device group fuel
    temp ← λ s. (temperature_of (lookup (codes "temperature") info), s)
    profile ← discover_device_profile device group fuel
    cooled_at target_temp profile temp

  -- `LetBatteryCoolToTemperature`
  unfoldable pub let_battery_cool_to_temperature : ℤ → ℕ → Task device group fuel (Unit {0})
  unfolding cool_device enable_battery_updates wait_for
  let_battery_cool_to_temperature target_temp wait_period = do
    discover_device_profile device group fuel
    enable_battery_updates device is_nonzero group fuel
    wait_until device group fuel wait_period (cool_device target_temp)
