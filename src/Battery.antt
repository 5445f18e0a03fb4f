-- ===== src/Battery.antt =====
-- devil/devil/android/battery_utils.py: class BatteryUtils. The device and the clock are a `Device`.
-- A method's body is modelled for one try: its decorator runs it again as Retry.run does.
pub mod Profiles
pub mod Charging
pub mod Levels
pub mod Power
mod Samples
use udroid.Prelude.{
  ℕ, zero, suc, Bool, true, false, not, ◌&&◌, ◌||◌, Option, none, some, List, [], ◌∷◌, Text, codes,
  is_empty, is_some, contains, if◌then◌else◌, Dict, lookup, insert, ltb, ℤ, int_of, is_in, lower,
  split_once, strip, ◌==◌,
}
use udroid.Prelude.Effects.{Outcome, ok, err, Exec, pure, raise, continue, ◌>>=◌, ◌>>◌, when}
use udroid.Retry.{WatchdogTimer, Waited, met, failed, not_met, timed_out, still_waiting, wait_for}
use udroid.Battery.Profiles.{DeviceProfile, device_profiles, unknown_profile}

-- `unfinished` is no exception: it stands for a wait that the fuel given does not see the end of.
pub data BatteryError : Type 0 where
  command_failed_error shell_command_failed_error device_version_error : BatteryError
  device_charging_error timeout_error value_error type_error index_error : BatteryError
  assertion_error unfinished other_error : BatteryError

pub record Device (W : Type 0) : Type 0 where
  pub run_shell_command : List Text → Exec BatteryError W (List Text)
  pub run_as_root : Text → Exec BatteryError W (Unit {0})
  pub read_file : Text → Exec BatteryError W Text
  pub product_model : Text
  pub build_version_sdk : ℕ
  pub now : W → ℕ
  pub sleep : ℕ → W → W

-- `_cache`, where it is set, and the device.
pub record Battery (W : Type 0) : Type 0 where
  pub profile : Option DeviceProfile
  pub uids : Option (Dict Text)
  pub world : W

abbrev pub lollipop : ℕ
lollipop = 21

-- `row[n]`, if it is there.
abbrev pub nth : ℕ → List Text → Option Text
nth n [] = none
nth zero (x ∷ xs) = some x
nth (suc n) (x ∷ xs) = nth n xs

abbrev pub drop_first : List Text → List Text
drop_first [] = []
drop_first (line ∷ lines) = lines

abbrev pub with_entry : Dict Text → Option (Text × Text) → Dict Text
with_entry result none = result
with_entry result (some (k, v)) = insert (strip k) (strip v) result

-- The loop of GetBatteryInfo; a line without a colon is only logged.
unfoldable pub parse_battery : Dict Text → List Text → Dict Text
parse_battery result [] = result
parse_battery result (line ∷ lines) =
    parse_battery
      (if is_in (codes "UPDATES STOPPED") line
        then result
        else with_entry result (split_once b':' line))
      lines

abbrev pub is_true_word : Option Text → Bool
is_true_word none = false
is_true_word (some word) = contains (lower word) (codes "true" ∷ codes "1" ∷ codes "yes" ∷ [])

-- The loop of GetCharging.
unfoldable pub is_powered : Dict Text → Bool
is_powered info =
    is_true_word (lookup (codes "AC powered") info)
    || is_true_word (lookup (codes "USB powered") info)
    || is_true_word (lookup (codes "Wireless powered") info)

-- `for profile in _DEVICE_PROFILES`
unfoldable pub find_profile : Text → List DeviceProfile → Option DeviceProfile
find_profile model [] = none
find_profile model (profile ∷ profiles) =
    let rest = find_profile model profiles in
    if contains model profile.name then some profile else rest

-- `int(info.get(key))`
abbrev pub int_at : Option Text → Outcome BatteryError ℤ
int_at none = err type_error
int_at (some text) = elim (int_of text) [ none ↦ err value_error | some i ↦ ok i ]

abbrev pub or_unknown : Option DeviceProfile → DeviceProfile
or_unknown none = unknown_profile
or_unknown (some profile) = profile

abbrev pub same_bool : Bool → Bool → Bool
same_bool true b = b
same_bool false b = not b

-- An empty command is as good as none.
abbrev pub truthy : Option Text → Bool
truthy none = false
truthy (some text) = not (is_empty text)

abbrev pub or_empty_text : Option Text → Text
or_empty_text none = []
or_empty_text (some text) = text

module _ {W : Type 0} (device : Device W) (group : Option WatchdogTimer) (fuel : ℕ) where
  abbrev pub Task : Type 0 → Type 0
  Task A = Exec BatteryError (Battery W) A

  abbrev pub on_device : {A : Type 0} → Exec BatteryError W A → Task A
  on_device call s = let (r, w) = call s.world in (r, record s { world = w })

  abbrev pub shell : List Text → Task (List Text)
  shell command = on_device (device.run_shell_command command)

  abbrev pub ended :
      Waited BatteryError (Unit {0}) × Battery W → Outcome BatteryError (Unit {0}) × Battery W
  ended (met _, s) = (ok tt, s)
  ended (not_met, s) = (ok tt, s)
  ended (failed e, s) = (err e, s)
  ended (timed_out, s) = (err timeout_error, s)
  ended (still_waiting, s) = (err unfinished, s)

  abbrev pub when_true :
      Outcome BatteryError Bool × Battery W → Outcome BatteryError (Option (Unit {0})) × Battery W
  when_true (ok true, s) = (ok (some tt), s)
  when_true (ok false, s) = (ok none, s)
  when_true (err e, s) = (err e, s)

  -- `timeout_retry.WaitFor(condition, wait_period)`
  abbrev pub wait_until : ℕ → Task Bool → Task (Unit {0})
  wait_until wait_period condition s = ended (
      wait_for (λ (t : Battery W). device.now t.world)
        (λ (period : ℕ) (t : Battery W). record t { world = device.sleep period t.world })
        (λ (t : Battery W). when_true (condition t)) fuel group wait_period none s)

  -- `GetBatteryInfo`; the first line is a header.
  unfoldable pub get_battery_info : Task (Dict Text)
  unfolding parse_battery
  get_battery_info = do
    lines ← shell (codes "dumpsys" ∷ codes "battery" ∷ [])
    pure (parse_battery [] (drop_first lines))

  unfoldable pub get_charging : Task Bool
  unfolding get_battery_info is_powered
  get_charging = do info ← get_battery_info; pure (is_powered info)

  -- `_DiscoverDeviceProfile`, and the profile that is cached then.
  unfoldable pub discover_device_profile : Task DeviceProfile
  discover_device_profile s = elim s.profile [
    | some profile ↦ (ok profile, s)
    | none ↦
        let profile : DeviceProfile =
          or_unknown (find_profile device.product_model device_profiles) in
        (ok profile, record s { profile = some profile })
  ]

  -- `SupportsFuelGauge`
  unfoldable pub supports_fuel_gauge : Task Bool
  unfolding discover_device_profile
  supports_fuel_gauge = do
    profile ← discover_device_profile
    pure (is_some profile.enable_command && is_some profile.charge_counter)

  abbrev pub read_counter : Bool → Option Text → Task ℤ
  read_counter true (some path) = do
    text ← on_device (device.read_file path)
    λ s. (int_at (some text), s)
  read_counter _ _ = raise command_failed_error

  -- `GetFuelGaugeChargeCounter`
  unfoldable pub get_fuel_gauge_charge_counter : Task ℤ
  unfolding supports_fuel_gauge
  get_fuel_gauge_charge_counter = do
    supported ← supports_fuel_gauge
    profile ← discover_device_profile
    read_counter supported profile.charge_counter

  abbrev pub is_charging_as : Bool → Task Bool
  is_charging_as enabled = do charging ← get_charging; pure (same_bool charging enabled)

  abbrev pub set_with : Bool → DeviceProfile → Task (Unit {0})
  set_with enabled profile =
      if not (truthy profile.enable_command) then raise command_failed_error else do
        on_device (
            device.run_as_root
              (or_empty_text (if enabled then profile.enable_command else profile.disable_command)))
        wait_until 1 (is_charging_as enabled)

  -- `_HardwareSetCharging`
  unfoldable pub hardware_set_charging : Bool → Task (Unit {0})
  unfolding discover_device_profile get_charging wait_for
  hardware_set_charging enabled = do profile ← discover_device_profile; set_with enabled profile
