-- ===== src/Battery/Samples.antt =====
-- The theorems about BatteryUtils with a device that is charged by a Nexus 5's charger.
use udroid.Prelude.{
  Bool, true, false, none, some, List, [], ◌∷◌, Text, codes, ◌≡◌, ◌⊎◌, refl, arith, int_of, ℤ, pos,
  not, text_eq,
}
use udroid.Prelude.Effects.{Outcome, ok, err}
use udroid.Retry.{wait_for}
use udroid.Battery.Profiles.{nexus_5}
use udroid.Battery.{
  or_empty_text, BatteryError, value_error, Device, Battery, get_charging, parse_battery,
  is_powered, find_profile, discover_device_profile, hardware_set_charging, get_battery_info,
}
use udroid.Battery.Charging.{set_charging, clear_power_data}
use udroid.Battery.Levels.{wait_charged}
use udroid.Battery.Levels.Ending.{EndsCharged, wait_charged_ends}
use udroid.Battery.Charging.Restored.{WasSwitchedOff, set_charging_off_is_read}
use udroid.Battery.Power.{
  scan_rows, scan_row, known_row, PowerData, per_package_of, get_power_data, uids_of,
}
use udroid.Battery.Power.Readings.{measured, get_power_data_measures}

-- The world says whether the device is charging; the command of the profile stops it.
abbrev charge_lines : Bool → List Text
charge_lines true = codes "Current Battery Service state:" ∷ codes "  AC powered: true" ∷ []
charge_lines false = codes "Current Battery Service state:" ∷ codes "  AC powered: false" ∷ []

abbrev phone : Device Bool
phone = record {
  run_shell_command = λ command charging. (ok (charge_lines charging), charging);
  run_as_root =
      λ command charging. (ok tt, not (text_eq command (or_empty_text nexus_5.disable_command)));
  read_file = λ path charging. (err value_error, charging);
  product_model = codes "Nexus 5";
  build_version_sdk = 19;
  now = λ charging. 0;
  sleep = λ period charging. charging;
}

abbrev plugged : Battery Bool
plugged = record { profile = none; uids = none; world = true }

abbrev nonzero : Text → Outcome BatteryError Bool
nonzero text = ok true

abbrev unplugged : Battery Bool
unplugged = (set_charging phone nonzero none 5 false plugged).1

switches_off : set_charging phone nonzero none 5 false plugged ≡ (ok tt, unplugged)
unfolding set_charging get_charging hardware_set_charging discover_device_profile get_battery_info
    parse_battery is_powered find_profile clear_power_data wait_for
switches_off = refl

set_charging_off_is_read_example :
    ((t : Battery Bool) × (get_charging phone none 5 t ≡ (ok false, unplugged)))
    × ((get_charging phone none 5 plugged ≡ (ok false, unplugged))
        ⊎ WasSwitchedOff phone none 5 nonzero unplugged)
set_charging_off_is_read_example =
    set_charging_off_is_read phone none 5 nonzero plugged unplugged switches_off

wait_charged_ends_example : EndsCharged phone nonzero none 50 1 (
    wait_charged phone nonzero none 50 1 60
      (record { battery = plugged; charge_failure_count = 0; last_charge_value = 0 }))
wait_charged_ends_example = wait_charged_ends phone nonzero none 50 1 60 plugged (omega arith)

abbrev rows : List (List Text)
rows =
    (codes "9" ∷ codes "0" ∷ codes "i" ∷ codes "uid" ∷ codes "7" ∷ codes "a" ∷ [])
    ∷ (codes "9" ∷ codes "7" ∷ codes "l" ∷ codes "pwi" ∷ codes "uid" ∷ codes "12" ∷ [])
    ∷ (codes "9" ∷ codes "7" ∷ codes "l" ∷ codes "pwi" ∷ codes "wifi" ∷ codes "3" ∷ [])
    ∷ []

abbrev float_of : Text → Outcome BatteryError ℤ
float_of text = elim (int_of text) [ none ↦ err value_error | some i ↦ ok i ]

abbrev after_scan : Battery Bool
after_scan = (get_power_data float_of phone (λ lines. rows) none 5 plugged).1

abbrev power_found : PowerData ℤ
power_found = record {
  system_total = none;
  per_package = (codes "a", record { uid = codes "7"; power = pos 12 ∷ pos 3 ∷ [] }) ∷ [];
}

power_found_is :
    get_power_data float_of phone (λ lines. rows) none 5 plugged ≡ (ok power_found, after_scan)
unfolding get_power_data int_of scan_rows scan_row known_row per_package_of
power_found_is = refl

get_power_data_measures_example :
    power_found.per_package
    ≡ measured float_of rows (uids_of float_of phone (λ lines. rows) none 5 after_scan)
get_power_data_measures_example =
    get_power_data_measures float_of phone (λ lines. rows) none 5 (charge_lines true) true plugged
      after_scan power_found refl power_found_is
