-- ===== src/Battery/Charging/LastRead.antt =====
-- What a method that switches charging has read of the device when it returns.
use udroid.Prelude.{
  ℕ, Bool, true, false, Option, none, some, Text, codes, if◌then◌else◌, ◌≡◌, refl, ap, inl, inr,
  Bool-cases,
}
use udroid.Prelude.Effects.{Outcome, ok, err, Exec, continue}
use udroid.Retry.{WatchdogTimer, Waited, met, not_met, timed_out, failed, still_waiting, wait_for}
use udroid.Retry.Meeting.{EndsMet, wait_for-EndsMet, is_not_met, wait_for_keeps_on}
use udroid.Battery.Profiles.{DeviceProfile}
use udroid.Battery.Charging.{
  set_charging, switch_charging, by_hardware, by_software, clear_power_data, set_battery,
  disable_battery_updates,
}
use udroid.Battery.{
  BatteryError, Device, Battery, Task, ended, when_true, wait_until, get_charging,
  discover_device_profile, truthy, or_empty_text, set_with, is_charging_as, same_bool,
  hardware_set_charging, on_device,
}

module _ {W : Type 0} (device : Device W) (group : Option WatchdogTimer) (fuel : ℕ) where
  -- A wait that returns has left the battery where its condition held.
  abbrev Saw : Task device group fuel Bool → Outcome BatteryError (Unit {0}) × Battery W → Type 0
  Saw condition (err e, s) = Unit
  Saw condition (ok _, s) = (t : Battery W) × (condition t ≡ (ok true, s))

  was_true :
      (m : Outcome BatteryError Bool × Battery W) (s : Battery W)
      → when_true device group fuel m ≡ (ok (some tt), s)
      → m ≡ (ok true, s)
  was_true (ok true, t) s h =
      ap (λ (x : Outcome BatteryError (Option (Unit {0})) × Battery W). (ok true, x.1)) h
  was_true (ok false, t) s h = cc
  was_true (err e, t) s h = cc

  wait_until-Saw :
      (wait_period : ℕ) (condition : Task device group fuel Bool) (s : Battery W)
      → Saw condition (wait_until device group fuel wait_period condition s)
  wait_until-Saw wait_period condition s =
      go (wait_for now sleep check fuel group wait_period none s)
        (wait_for-EndsMet now sleep check group wait_period fuel none s)
        (wait_for_keeps_on now sleep check group wait_period fuel s)
    where
      now : Battery W → ℕ
      now t = device.now t.world

      sleep : ℕ → Battery W → Battery W
      sleep period t = record t { world = device.sleep period t.world }

      check : Exec BatteryError (Battery W) (Option (Unit {0}))
      check t = when_true device group fuel (condition t)

      go :
          (m : Waited BatteryError (Unit {0}) × Battery W)
          → EndsMet now sleep check group wait_period m
          → is_not_met now sleep check group wait_period m.0 ≡ false
          → Saw condition (ended device group fuel m)
      go (met a, u) (t, e) n = (t, was_true (condition t) u e)
      go (not_met, u) e n = cc
      go (failed x, u) e n = tt
      go (timed_out, u) e n = tt
      go (still_waiting, u) e n = tt

  -- The reading of the device that ends at `s` says `enabled`.
  abbrev pub WasRead : Bool → Outcome BatteryError (Unit {0}) × Battery W → Type 0
  WasRead enabled (err e, s) = Unit
  WasRead enabled (ok _, s) = (t : Battery W) × (get_charging device group fuel t ≡ (ok enabled, s))

  charging_as :
      (enabled : Bool) (m : Outcome BatteryError Bool × Battery W) (s : Battery W)
      → continue m (λ charging t. (ok (same_bool charging enabled), t)) ≡ (ok true, s)
      → m ≡ (ok enabled, s)
  charging_as true (ok true, t) s h =
      ap (λ (x : Outcome BatteryError Bool × Battery W). (ok true, x.1)) h
  charging_as true (ok false, t) s h = cc
  charging_as false (ok true, t) s h = cc
  charging_as false (ok false, t) s h =
      ap (λ (x : Outcome BatteryError Bool × Battery W). (ok false, x.1)) h
  charging_as enabled (err e, t) s h = cc

  seen_charging :
      (enabled : Bool) (m : Outcome BatteryError (Unit {0}) × Battery W)
      → Saw (is_charging_as device group fuel enabled) m
      → WasRead enabled m
  seen_charging enabled (ok _, s) (t, e) =
      (t, charging_as enabled (get_charging device group fuel t) s e)
  seen_charging enabled (err e, s) h = tt

  wait-WasRead :
      (enabled : Bool) (s : Battery W)
      → WasRead enabled
          (wait_until device group fuel 1 (is_charging_as device group fuel enabled) s)
  wait-WasRead enabled s =
      seen_charging enabled
        (wait_until device group fuel 1 (is_charging_as device group fuel enabled) s)
        (wait_until-Saw 1 (is_charging_as device group fuel enabled) s)

  WasRead-continue :
      {A : Type 0} (enabled : Bool) (m : Outcome BatteryError A × Battery W)
      (f : A → Task device group fuel (Unit {0}))
      → ((a : A) (s : Battery W) → WasRead enabled (f a s))
      → WasRead enabled (continue m f)
  WasRead-continue enabled (ok a, s) f h = h a s
  WasRead-continue enabled (err e, s) f h = tt

  set_with-WasRead :
      (enabled : Bool) (profile : DeviceProfile) (s : Battery W)
      → WasRead enabled (set_with device group fuel enabled profile s)
  set_with-WasRead enabled profile s = elim (Bool-cases (truthy profile.enable_command)) [
    | inr e ↦ rw e tt
    | inl e ↦ rw e (
        WasRead-continue enabled
          (on_device device group fuel
            (device.run_as_root
              (or_empty_text (if enabled then profile.enable_command else profile.disable_command)))
            s)
          _ (λ _ t. wait-WasRead enabled t))
  ]

  hardware_set_charging-WasRead :
      (enabled : Bool) (s : Battery W)
      → WasRead enabled (hardware_set_charging device group fuel enabled s)
  unfolding hardware_set_charging
  hardware_set_charging-WasRead enabled s =
      WasRead-continue enabled (discover_device_profile device group fuel s) _
        (λ profile t. set_with-WasRead enabled profile t)

  module _ (is_nonzero : Text → Outcome BatteryError Bool) where
    disable_battery_updates-WasRead :
        (s : Battery W) → WasRead false (disable_battery_updates device is_nonzero group fuel s)
    unfolding disable_battery_updates
    disable_battery_updates-WasRead s =
        WasRead-continue false (clear_power_data device is_nonzero group fuel s) _ λ _ t.
          WasRead-continue false
            (set_battery device is_nonzero group fuel (codes "ac") (codes "0") t) _
            λ _ u.
              WasRead-continue false
                (set_battery device is_nonzero group fuel (codes "usb") (codes "0") u) _
                (λ _ v. wait-WasRead false v)

    switch_off-WasRead :
        (s : Battery W) → WasRead false (switch_charging device is_nonzero group fuel false s)
    switch_off-WasRead s =
        WasRead-continue false (discover_device_profile device group fuel s) _
          (λ profile t. go profile t)
      where
        go :
            (profile : DeviceProfile) (t : Battery W)
            → WasRead false (
                (if truthy profile.enable_command
                    then by_hardware device is_nonzero group fuel false
                    else by_software device is_nonzero group fuel false)
                  t)
        go profile t = elim (Bool-cases (truthy profile.enable_command)) [
          | inl e ↦ rw e (
              WasRead-continue false (clear_power_data device is_nonzero group fuel t) _
                (λ _ u. hardware_set_charging-WasRead false u))
          | inr e ↦ rw e (disable_battery_updates-WasRead t)
        ]

    pub set_charging-WasRead :
        (s : Battery W) → WasRead false (set_charging device is_nonzero group fuel false s)
    unfolding set_charging
    set_charging-WasRead s = go (get_charging device group fuel s) refl
      where
        go :
            (m : Outcome BatteryError Bool × Battery W)
            → get_charging device group fuel s ≡ m
            → WasRead false (
                continue m (λ charging.
                  if same_bool charging false
                  then (λ t. (ok tt, t))
                  else switch_charging device is_nonzero group fuel false))
        go (ok true, t) e = switch_off-WasRead t
        go (ok false, t) e = (s, e)
        go (err x, t) e = tt
