-- ===== src/Battery/Charging/Restored.antt =====
-- How a SetCharging(False) that returns has switched charging off.
use udroid.Prelude.{
  ℕ, Bool, true, false, Option, Text, codes, if◌then◌else◌, subst, ◌≡◌, ◌⊎◌, refl, inl, inr,
  Bool-cases,
}
use udroid.Prelude.Effects.{Outcome, ok, err, continue}
use udroid.Retry.{WatchdogTimer}
use udroid.Battery.Profiles.{DeviceProfile}
use udroid.Battery.Charging.{
  set_charging, switch_charging, by_hardware, by_software, clear_power_data, set_battery,
  disable_battery_updates,
}
use udroid.Battery.{
  BatteryError, Device, Battery, Task, wait_until, get_charging, discover_device_profile, truthy,
  or_empty_text, set_with, is_charging_as, same_bool, hardware_set_charging, on_device,
}
use udroid.Battery.Charging.LastRead.{WasRead, set_charging-WasRead}

module _ {W : Type 0} (device : Device W) (group : Option WatchdogTimer) (fuel : ℕ) where
  -- What is known of the battery where a call returns.
  abbrev Leaves : (Battery W → Type 0) → Outcome BatteryError (Unit {0}) × Battery W → Type 0
  Leaves Known (err e, s) = Unit
  Leaves Known (ok _, s) = Known s

  Leaves-continue :
      {A : Type 0} (Known : Battery W → Type 0) (m : Outcome BatteryError A × Battery W)
      (f : A → Task device group fuel (Unit {0}))
      → ((a : A) (s : Battery W) → m ≡ (ok a, s) → Leaves Known (f a s))
      → Leaves Known (continue m f)
  Leaves-continue Known (ok a, s) f h = h a s refl
  Leaves-continue Known (err e, s) f h = tt

  Leaves-last :
      (Known : Battery W → Type 0) (m : Outcome BatteryError (Unit {0}) × Battery W)
      → ((s : Battery W) → m ≡ (ok tt, s) → Known s)
      → Leaves Known m
  Leaves-last Known (ok tt, s) h = h s refl
  Leaves-last Known (err e, s) h = tt

  -- The wait for a device that is not charging, from `v` on, has ended with `s`.
  abbrev WaitedOff : Battery W → Battery W → Type 0
  WaitedOff v s =
      wait_until device group fuel 1 (is_charging_as device group fuel false) v ≡ (ok tt, s)

  -- The profile of the device has commands for charging; that which disables it was run as root, and
  -- then it was waited.
  abbrev pub OffByHardware : Battery W → Type 0
  OffByHardware s =
      (t u v : Battery W) × (p : DeviceProfile) × (discover_device_profile device group fuel t
        ≡ (ok p, u))
      × (truthy p.enable_command ≡ true)
      × (on_device device group fuel (device.run_as_root (or_empty_text p.disable_command)) u
          ≡ (ok tt, v))
      × WaitedOff v s

  set_with-OffByHardware :
      (t u : Battery W) (p : DeviceProfile)
      → discover_device_profile device group fuel t ≡ (ok p, u)
      → Leaves OffByHardware (set_with device group fuel false p u)
  set_with-OffByHardware t u p found = elim (Bool-cases (truthy p.enable_command)) [
    | inr e ↦ rw e tt
    | inl e ↦ rw e (
        Leaves-continue OffByHardware
          (on_device device group fuel (device.run_as_root (or_empty_text p.disable_command)) u) _
          (λ _ v ran.
            Leaves-last OffByHardware
              (wait_until device group fuel 1 (is_charging_as device group fuel false) v)
              (λ s waited. (t, u, v, p, found, e, ran, waited))))
  ]

  hardware_set_charging-OffByHardware :
      (s : Battery W) → Leaves OffByHardware (hardware_set_charging device group fuel false s)
  unfolding hardware_set_charging
  hardware_set_charging-OffByHardware s =
      Leaves-continue OffByHardware (discover_device_profile device group fuel s) _
        (λ p u found. set_with-OffByHardware s u p found)

  module _ (is_nonzero : Text → Outcome BatteryError Bool) where
    -- The profile of the device has no command that enables charging; the battery service was
    -- told that neither AC nor USB gives power, and then it was waited.
    abbrev pub OffBySoftware : Battery W → Type 0
    OffBySoftware s =
        (t t' u v w : Battery W) × (p : DeviceProfile) × (discover_device_profile device group fuel
            t
          ≡ (ok p, t'))
        × (truthy p.enable_command ≡ false)
        × (set_battery device is_nonzero group fuel (codes "ac") (codes "0") u ≡ (ok tt, v))
        × (set_battery device is_nonzero group fuel (codes "usb") (codes "0") v ≡ (ok tt, w))
        × WaitedOff w s

    abbrev pub WasSwitchedOff : Battery W → Type 0
    WasSwitchedOff s = OffByHardware s ⊎ OffBySoftware s

    by_hardware-WasSwitchedOff :
        (m : Outcome BatteryError (Unit {0}) × Battery W)
        → Leaves OffByHardware m
        → Leaves WasSwitchedOff m
    by_hardware-WasSwitchedOff (ok _, s) h = inl h
    by_hardware-WasSwitchedOff (err e, s) h = tt

    disable_battery_updates-WasSwitchedOff :
        (t t' : Battery W) (p : DeviceProfile) (s : Battery W)
        → discover_device_profile device group fuel t ≡ (ok p, t')
        → truthy p.enable_command ≡ false
        → Leaves WasSwitchedOff (disable_battery_updates device is_nonzero group fuel s)
    unfolding disable_battery_updates
    disable_battery_updates-WasSwitchedOff t t' p s found none_set =
        Leaves-continue WasSwitchedOff (clear_power_data device is_nonzero group fuel s) _ λ _ u _.
          Leaves-continue WasSwitchedOff
            (set_battery device is_nonzero group fuel (codes "ac") (codes "0") u) _
            λ _ v ac.
              Leaves-continue WasSwitchedOff
                (set_battery device is_nonzero group fuel (codes "usb") (codes "0") v) _
                λ _ w usb.
                  Leaves-last WasSwitchedOff
                    (wait_until device group fuel 1 (is_charging_as device group fuel false) w)
                    (λ s' waited. inr (t, t', u, v, w, p, found, none_set, ac, usb, waited))

    switch_off-WasSwitchedOff :
        (s : Battery W)
        → Leaves WasSwitchedOff (switch_charging device is_nonzero group fuel false s)
    switch_off-WasSwitchedOff s =
        Leaves-continue WasSwitchedOff (discover_device_profile device group fuel s) _
          (λ p t found. go p t found)
      where
        go :
            (p : DeviceProfile) (t : Battery W)
            → discover_device_profile device group fuel s ≡ (ok p, t)
            → Leaves WasSwitchedOff (
                (if truthy p.enable_command
                    then by_hardware device is_nonzero group fuel false
                    else by_software device is_nonzero group fuel false)
                  t)
        go p t found = elim (Bool-cases (truthy p.enable_command)) [
          | inl e ↦ rw e (
              Leaves-continue WasSwitchedOff (clear_power_data device is_nonzero group fuel t) _
                (λ _ u _.
                  by_hardware-WasSwitchedOff (hardware_set_charging device group fuel false u)
                    (hardware_set_charging-OffByHardware u)))
          | inr e ↦ rw e (disable_battery_updates-WasSwitchedOff s t p t found e)
        ]

    set_charging-WasSwitchedOff :
        (s : Battery W)
        → Leaves
            (λ s'. (get_charging device group fuel s ≡ (ok false, s')) ⊎ WasSwitchedOff s')
            (set_charging device is_nonzero group fuel false s)
    unfolding set_charging
    set_charging-WasSwitchedOff s = go (get_charging device group fuel s)
      where
        switched :
            (m : Outcome BatteryError Bool × Battery W)
            (n : Outcome BatteryError (Unit {0}) × Battery W)
            → Leaves WasSwitchedOff n
            → Leaves (λ s'. (m ≡ (ok false, s')) ⊎ WasSwitchedOff s') n
        switched m (ok _, t) h = inr h
        switched m (err e, t) h = tt

        go :
            (m : Outcome BatteryError Bool × Battery W)
            → Leaves
                (λ s'. (m ≡ (ok false, s')) ⊎ WasSwitchedOff s')
                (continue m (λ charging.
                  if same_bool charging false
                  then (λ t. (ok tt, t))
                  else switch_charging device is_nonzero group fuel false))
        go (ok true, t) =
            switched (ok true, t) (switch_charging device is_nonzero group fuel false t)
              (switch_off-WasSwitchedOff t)
        go (ok false, t) = inl refl
        go (err x, t) = tt

    -- When SetCharging(False) returns, the last thing that it did was to read of the device, in some
    -- state `t`, that it is not charging. Either that was its first reading, or it was switched off and
    -- waited for: by hardware, with the command of the device's profile that disables charging run as
    -- root, or, where the profile has no command that enables it, by software, with `dumpsys battery set`
    -- of ac and usb to 0. No assumption is made on how the device answers.
    pub set_charging_off_is_read :
        (s s' : Battery W)
        → set_charging device is_nonzero group fuel false s ≡ (ok tt, s')
        → ((t : Battery W) × (get_charging device group fuel t ≡ (ok false, s')))
          × ((get_charging device group fuel s ≡ (ok false, s')) ⊎ WasSwitchedOff s')
    set_charging_off_is_read s s' h = (
      subst (WasRead device group fuel false) h
          (set_charging-WasRead device group fuel is_nonzero s),
      subst (Leaves (λ v. (get_charging device group fuel s ≡ (ok false, v)) ⊎ WasSwitchedOff v)) h
          (set_charging-WasSwitchedOff s),
    )
