-- ===== src/Battery/Charging.antt =====
-- devil/devil/android/battery_utils.py: switching charging and battery updates on and off.
pub mod LastRead
pub mod Restored
use udroid.Prelude.{
  ℕ, zero, suc, ◌+◌, ◌-◌, ◌≤◌, Bool, true, false, not, ◌&&◌, ◌||◌, Option, none, some, List, [],
  ◌∷◌, Text, codes, is_empty, is_some, contains, if◌then◌else◌, Dict, lookup, ltb, leb, ℤ, pos,
  negsuc, le_int, int_of, split, text_eq,
}
use udroid.Prelude.Effects.{Outcome, ok, err, Exec, pure, raise, continue, ◌>>=◌, ◌>>◌, when}
use udroid.Retry.{WatchdogTimer, Waited, met, failed, not_met, timed_out, still_waiting, wait_for}
use udroid.Battery.Profiles.{DeviceProfile}
use udroid.Battery.{
  BatteryError, command_failed_error, device_version_error, device_charging_error, value_error,
  timeout_error, unfinished, Device, Battery, lollipop, int_at, Task, on_device, shell, ended,
  when_true, wait_until, get_battery_info, get_charging, discover_device_profile, truthy,
  hardware_set_charging, same_bool, is_charging_as, nth,
}

-- `try: call finally: last`: the last call is made in any case, and an exception of it wins.
abbrev pub finally_result :
    {E W A : Type 0} → Outcome E A → Outcome E (Unit {0}) × W → Outcome E A × W
finally_result r (ok _, w) = (r, w)
finally_result r (err e, w) = (err e, w)

abbrev pub finally_ : {E W A : Type 0} → Exec E W A → Exec E W (Unit {0}) → Exec E W A
finally_ call last w = let (r, w') = call w in finally_result r (last w')

module _ {W : Type 0} (device : Device W) (is_nonzero : Text → Outcome BatteryError Bool)
    (group : Option WatchdogTimer) (fuel : ℕ) where
  abbrev pub run_quietly : List Text → Task device group fuel (Unit {0})
  run_quietly command = do shell device group fuel command; pure tt

  -- Whether a row of dumpsys has power data that is not 0; a value that is no number raises.
  unfoldable pub has_power : List Text → Outcome BatteryError Bool
  has_power row = elim (nth 5 row) [
    | none ↦ ok false
    | some power ↦ elim (nth 3 row) [
      | none ↦ ok false
      | some kind ↦ if text_eq kind (codes "pwi") then is_nonzero power else ok false
    ]
  ]

  abbrev pub is_clear_after :
      Outcome BatteryError Bool → Outcome BatteryError Bool → Outcome BatteryError Bool
  is_clear_after (err e) rest = err e
  is_clear_after (ok true) rest = ok false
  is_clear_after (ok false) rest = rest

  unfoldable pub is_clear : List Text → Outcome BatteryError Bool
  unfolding has_power
  is_clear [] = ok true
  is_clear (line ∷ lines) = is_clear_after (has_power (split b',' line)) (is_clear lines)

  -- `test_if_clear`
  unfoldable pub test_if_clear : Task device group fuel Bool
  unfolding is_clear
  test_if_clear = do
    run_quietly (codes "dumpsys" ∷ codes "batterystats" ∷ codes "--reset" ∷ [])
    lines ←
        shell device group fuel
          (codes "dumpsys" ∷ codes "batterystats" ∷ codes "--charged" ∷ codes "-c" ∷ [])
    λ s. (is_clear lines, s)

  abbrev pub battery_command : List Text → List Text
  battery_command arguments = codes "dumpsys" ∷ codes "battery" ∷ arguments

  abbrev pub set_battery : Text → Text → Task device group fuel (Unit {0})
  set_battery kind value = run_quietly (battery_command (codes "set" ∷ kind ∷ value ∷ []))

  abbrev pub reset_battery : Task device group fuel (Unit {0})
  reset_battery = run_quietly (battery_command (codes "reset" ∷ []))

  abbrev pub clear_and_reset : Task device group fuel Bool
  clear_and_reset = do
    set_battery (codes "usb") (codes "1")
    set_battery (codes "ac") (codes "1")
    finally_ (do wait_until device group fuel 1 test_if_clear; pure true) reset_battery

  -- `_ClearPowerData`
  unfoldable pub clear_power_data : Task device group fuel Bool
  unfolding test_if_clear wait_for
  clear_power_data = if ltb device.build_version_sdk lollipop then pure false else clear_and_reset

  -- `DisableBatteryUpdates`
  unfoldable pub disable_battery_updates : Task device group fuel (Unit {0})
  unfolding clear_power_data get_charging wait_for
  disable_battery_updates = do
    clear_power_data
    set_battery (codes "ac") (codes "0")
    set_battery (codes "usb") (codes "0")
    wait_until device group fuel 1 (is_charging_as device group fuel false)

  abbrev pub enabled_after : Bool → Task device group fuel Bool
  enabled_after true = pure true
  enabled_after false = do
    lines ← shell device group fuel (battery_command [])
    pure (not (contains (codes "UPDATES STOPPED") lines))

  -- `battery_updates_enabled`; `in` looks for a line that is the text, in the list of lines.
  unfoldable pub battery_updates_enabled : Task device group fuel Bool
  unfolding get_charging
  battery_updates_enabled = do charging ← get_charging device group fuel; enabled_after charging

  -- `EnableBatteryUpdates`
  unfoldable pub enable_battery_updates : Task device group fuel (Unit {0})
  unfolding battery_updates_enabled wait_for
  enable_battery_updates = do reset_battery; wait_until device group fuel 1 battery_updates_enabled

  -- `with BatteryMeasurement(): body`
  unfoldable pub battery_measurement :
      {A : Type 0} → Task device group fuel A → Task device group fuel A
  unfolding disable_battery_updates enable_battery_updates
  battery_measurement body =
      if ltb device.build_version_sdk lollipop
      then raise device_version_error
      else finally_ (do disable_battery_updates; body) enable_battery_updates

  abbrev pub by_hardware : Bool → Task device group fuel (Unit {0})
  by_hardware true = hardware_set_charging device group fuel true
  by_hardware false = do clear_power_data; hardware_set_charging device group fuel false

  abbrev pub by_software : Bool → Task device group fuel (Unit {0})
  by_software true = enable_battery_updates
  by_software false = disable_battery_updates

  abbrev pub switch_charging : Bool → Task device group fuel (Unit {0})
  switch_charging enabled = do
    profile ← discover_device_profile device group fuel
    if truthy profile.enable_command then by_hardware enabled else by_software enabled

  -- `SetCharging`
  unfoldable pub set_charging : Bool → Task device group fuel (Unit {0})
  unfolding get_charging hardware_set_charging clear_power_data enable_battery_updates
      disable_battery_updates
  set_charging enabled = do
    charging ← get_charging device group fuel
    if same_bool charging enabled then pure tt else switch_charging enabled

  -- `with PowerMeasurement(): body`
  unfoldable pub power_measurement :
      {A : Type 0} → Task device group fuel A → Task device group fuel A
  unfolding set_charging
  power_measurement body = finally_ (do set_charging false; body) (set_charging true)
