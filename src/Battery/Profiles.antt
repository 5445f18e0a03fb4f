-- ===== src/Battery/Profiles.antt =====
-- devil/devil/android/battery_utils.py: `_DEVICE_PROFILES`, how each known device switches charging.
use udroid.Prelude.{Option, none, some, List, [], ◌∷◌, Text, codes}

pub record DeviceProfile : Type 0 where
  pub name : List Text
  pub enable_command : Option Text
  pub disable_command : Option Text
  pub charge_counter : Option Text
  pub voltage : Option Text
  pub current : Option Text

abbrev nexus_4 : DeviceProfile
nexus_4 = record {
  name = codes "Nexus 4" ∷ [];
  enable_command =
      some
        (codes "echo 0 > /sys/module/pm8921_charger/parameters/disabled && dumpsys battery reset");
  disable_command = some (
      codes
        "echo 1 > /sys/module/pm8921_charger/parameters/disabled && dumpsys battery set ac 0 && dumpsys battery set usb 0");
  charge_counter = none;
  voltage = none;
  current = none;
}

abbrev pub nexus_5 : DeviceProfile
nexus_5 = record {
  name = codes "Nexus 5" ∷ [];
  enable_command = some (
      codes
        "echo 0x4A > /sys/kernel/debug/bq24192/INPUT_SRC_CONT && chmod 644 /sys/class/power_supply/usb/online && echo 1 > /sys/class/power_supply/usb/online && dumpsys battery reset");
  disable_command = some (
      codes
        "echo 0xCA > /sys/kernel/debug/bq24192/INPUT_SRC_CONT && chmod 644 /sys/class/power_supply/usb/online && echo 0 > /sys/class/power_supply/usb/online && dumpsys battery set ac 0 && dumpsys battery set usb 0");
  charge_counter = none;
  voltage = none;
  current = none;
}

abbrev nexus_6 : DeviceProfile
nexus_6 = record {
  name = codes "Nexus 6" ∷ [];
  enable_command =
      some (
        codes "echo 1 > /sys/class/power_supply/battery/charging_enabled && dumpsys battery reset");
  disable_command = some (
      codes
        "echo 0 > /sys/class/power_supply/battery/charging_enabled && dumpsys battery set ac 0 && dumpsys battery set usb 0");
  charge_counter = some (codes "/sys/class/power_supply/max170xx_battery/charge_counter_ext");
  voltage = some (codes "/sys/class/power_supply/max170xx_battery/voltage_now");
  current = some (codes "/sys/class/power_supply/max170xx_battery/current_now");
}

abbrev nexus_9 : DeviceProfile
nexus_9 = record {
  name = codes "Nexus 9" ∷ [];
  enable_command = some (
      codes
        "echo Disconnected > /sys/bus/i2c/drivers/bq2419x/0-006b/input_cable_state && dumpsys battery reset");
  disable_command = some (
      codes
        "echo Connected > /sys/bus/i2c/drivers/bq2419x/0-006b/input_cable_state && dumpsys battery set ac 0 && dumpsys battery set usb 0");
  charge_counter = some (codes "/sys/class/power_supply/battery/charge_counter_ext");
  voltage = some (codes "/sys/class/power_supply/battery/voltage_now");
  current = some (codes "/sys/class/power_supply/battery/current_now");
}

abbrev nexus_10 : DeviceProfile
nexus_10 = record {
  name = codes "Nexus 10" ∷ [];
  enable_command = none;
  disable_command = none;
  charge_counter = none;
  voltage = some (codes "/sys/class/power_supply/ds2784-fuelgauge/voltage_now");
  current = some (codes "/sys/class/power_supply/ds2784-fuelgauge/current_now");
}

abbrev nexus_5x : DeviceProfile
nexus_5x = record {
  name = codes "Nexus 5X" ∷ [];
  enable_command =
      some (
        codes "echo 1 > /sys/class/power_supply/battery/charging_enabled && dumpsys battery reset");
  disable_command = some (
      codes
        "echo 0 > /sys/class/power_supply/battery/charging_enabled && dumpsys battery set ac 0 && dumpsys battery set usb 0");
  charge_counter = none;
  voltage = none;
  current = none;
}

abbrev sm_g900h : DeviceProfile
sm_g900h = record {
  name = codes "SM-G900H" ∷ [];
  enable_command = some (
      codes
        "chmod 644 /sys/class/power_supply/battery/test_mode && chmod 644 /sys/class/power_supply/sec-charger/current_now && echo 0 > /sys/class/power_supply/battery/test_mode && echo 9999 > /sys/class/power_supply/sec-charger/current_now &&dumpsys battery reset");
  disable_command = some (
      codes
        "chmod 644 /sys/class/power_supply/battery/test_mode && chmod 644 /sys/class/power_supply/sec-charger/current_now && echo 1 > /sys/class/power_supply/battery/test_mode && echo 0 > /sys/class/power_supply/sec-charger/current_now && dumpsys battery set ac 0 && dumpsys battery set usb 0");
  charge_counter = none;
  voltage = some (codes "/sys/class/power_supply/sec-fuelgauge/voltage_now");
  current = some (codes "/sys/class/power_supply/sec-charger/current_now");
}

abbrev sm_g920f : DeviceProfile
sm_g920f = record {
  name = codes "SM-G920F" ∷ codes "SM-G920V" ∷ codes "SM-G925V" ∷ [];
  enable_command = some (
      codes
        "chmod 644 /sys/class/power_supply/battery/test_mode && chmod 644 /sys/class/power_supply/max77843-charger/current_now && echo 0 > /sys/class/power_supply/battery/test_mode && echo 9999 > /sys/class/power_supply/max77843-charger/current_now &&dumpsys battery reset");
  disable_command = some (
      codes
        "chmod 644 /sys/class/power_supply/battery/test_mode && chmod 644 /sys/class/power_supply/max77843-charger/current_now && echo 1 > /sys/class/power_supply/battery/test_mode && echo 0 > /sys/class/power_supply/max77843-charger/current_now && dumpsys battery set ac 0 && dumpsys battery set usb 0");
  charge_counter = none;
  voltage = some (codes "/sys/class/power_supply/max77843-fuelgauge/voltage_now");
  current = some (codes "/sys/class/power_supply/max77843-charger/current_now");
}

abbrev w6210_4560mmx_b_fingerprint : DeviceProfile
w6210_4560mmx_b_fingerprint = record {
  name = codes "W6210 (4560MMX_b fingerprint)" ∷ [];
  enable_command =
      some (codes "echo \"0 0\" > /proc/mtk_battery_cmd/current_cmd && dumpsys battery reset");
  disable_command = some (
      codes
        "echo \"0 1\" > /proc/mtk_battery_cmd/current_cmd && dumpsys battery set ac 0 && dumpsys battery set usb 0");
  charge_counter = none;
  voltage = none;
  current = none;
}

-- What a device that is in no profile is taken for.
abbrev pub unknown_profile : DeviceProfile
unknown_profile = record {
  name = [];
  enable_command = none;
  disable_command = none;
  charge_counter = none;
  voltage = none;
  current = none;
}

abbrev pub device_profiles : List DeviceProfile
device_profiles =
    nexus_4 ∷ nexus_5 ∷ nexus_6 ∷ nexus_9 ∷ nexus_10 ∷ nexus_5x ∷ sm_g900h ∷ sm_g920f
    ∷ w6210_4560mmx_b_fingerprint ∷ []
