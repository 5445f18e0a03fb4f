-- ===== src/Battery/Power.antt =====
-- devil/devil/android/battery_utils.py: GetPowerData and GetNetworkData. The csv module and `float`
-- are parameters.
pub mod Readings
use udroid.Prelude.{
  ℕ, Bool, true, false, not, ◌&&◌, ◌||◌, Option, none, some, List, [], ◌∷◌, ◌++◌, Text, codes,
  is_empty, is_some, contains, if◌then◌else◌, Dict, lookup, insert, text_eq, ℤ, pos,
}
use udroid.Prelude.Effects.{Outcome, ok, err, Exec, pure, raise, continue, ◌>>=◌, ◌>>◌}
use udroid.Retry.{WatchdogTimer}
use udroid.Battery.{
  BatteryError, command_failed_error, shell_command_failed_error, device_version_error, value_error,
  index_error, assertion_error, Device, Battery, Task, shell, on_device, nth, int_at,
}

-- What GetPowerData has gathered of the rows so far.
pub record Scan (Number : Type 0) : Type 0 where
  pub uids : Dict Text
  pub pwi_entries : Dict (List Number)
  pub system_total : Option Number

pub record PackagePower (Number : Type 0) : Type 0 where
  pub uid : Text
  pub power : List Number

pub record PowerData (Number : Type 0) : Type 0 where
  pub system_total : Option Number
  pub per_package : Dict (PackagePower Number)

-- `row[n] == word`, where the row is long enough.
abbrev pub is_at : ℕ → Text → List Text → Bool
is_at n word row = elim (nth n row) [ none ↦ false | some cell ↦ text_eq cell word ]

abbrev pub or_nothing : {Number : Type 0} → Option (List Number) → List Number
or_nothing none = []
or_nothing (some numbers) = numbers

-- `pwi_entries[uid]` of a defaultdict.
abbrev pub entries_of : {Number : Type 0} → Text → Dict (List Number) → List Number
entries_of uid entries = or_nothing (lookup uid entries)

abbrev pub conflicts : Option Text → Text → Bool
conflicts none uid = false
conflicts (some known) uid = not (is_empty known) && not (text_eq known uid)

module _ {Number : Type 0} (float_of : Text → Outcome BatteryError Number) where
  abbrev pub Scanned : Type 0
  Scanned = Outcome BatteryError (Unit {0}) × Scan Number

  abbrev pub known_uid : Scan Number → Option Text → Option Text → Scanned
  known_uid c (some uid) (some app) =
      if conflicts (lookup app c.uids) uid
      then (err command_failed_error, c)
      else (ok tt, record c { uids = insert app uid c.uids })
  known_uid c _ _ = (err index_error, c)

  abbrev pub add_power : Scan Number → Text → Outcome BatteryError Number → Scanned
  add_power c uid (err e) = (err e, c)
  add_power c uid (ok number) = (
    ok tt,
    record c {
      pwi_entries = insert uid (entries_of uid c.pwi_entries ++ number ∷ []) c.pwi_entries;
    },
  )

  abbrev pub set_total : Scan Number → Outcome BatteryError Number → Scanned
  set_total c (err e) = (err e, c)
  set_total c (ok number) = (ok tt, record c { system_total = some number })

  abbrev pub power_row : Scan Number → Option Text → Option Text → Scanned
  power_row c (some uid) (some power) = add_power c uid (float_of power)
  power_row c _ _ = (ok tt, c)

  abbrev pub total_row : Scan Number → Option Text → Scanned
  total_row c (some power) =
      if is_some c.system_total then (err assertion_error, c) else set_total c (float_of power)
  total_row c none = (ok tt, c)

  -- The rows of a version that is understood.
  unfoldable pub known_row : List Text → Scan Number → Scanned
  known_row row c =
      if is_at 3 (codes "uid") row
      then known_uid c (nth 4 row) (nth 5 row)
      else if is_some (nth 5 row) && is_at 3 (codes "pwi") row && is_at 2 (codes "l") row
      then power_row c (nth 1 row) (nth 5 row)
      else if is_some (nth 5 row) && is_at 3 (codes "pws") row && is_at 2 (codes "l") row
      then total_row c (nth 5 row)
      else (ok tt, c)

  -- The body of the loop.
  unfoldable pub scan_row : List Text → Scan Number → Scanned
  unfolding known_row
  scan_row [] c = (err index_error, c)
  scan_row (version ∷ row) c =
      if contains version (codes "8" ∷ codes "9" ∷ [])
      then known_row (version ∷ row) c
      else (err device_version_error, c)

  unfoldable pub scan_rows : List (List Text) → Scan Number → Scanned
  unfolding scan_row
  scan_rows [] c = (ok tt, c)
  scan_rows (row ∷ rows) c = continue (scan_row row c) (λ _. scan_rows rows)

  -- The dict comprehension at the end.
  unfoldable pub per_package_of : Dict Text → Dict (List Number) → Dict (PackagePower Number)
  per_package_of [] entries = []
  per_package_of ((app, uid) ∷ uids) entries =
      (app, record { uid = uid; power = entries_of uid entries }) ∷ per_package_of uids entries

  module _ {W : Type 0} (device : Device W) (csv_rows : List Text → List (List Text))
      (group : Option WatchdogTimer) (fuel : ℕ) where
    abbrev pub uids_of : Battery W → Dict Text
    uids_of s = elim s.uids [ none ↦ [] | some uids ↦ uids ]

    abbrev pub power_result : Scan Number → PowerData Number
    power_result c = record {
      system_total = c.system_total;
      per_package = per_package_of c.uids c.pwi_entries;
    }

    abbrev pub scanned : Battery W → Scanned → Outcome BatteryError (PowerData Number) × Battery W
    scanned s (ok _, c) = (ok (power_result c), record s { uids = some c.uids })
    scanned s (err e, c) = (err e, record s { uids = some c.uids })

    -- `GetPowerData`; the uids that are found are cached, also before an exception.
    unfoldable pub get_power_data : Task device group fuel (PowerData Number)
    unfolding scan_rows per_package_of
    get_power_data = do
      λ s. (ok tt, record s { uids = some (uids_of s) })
      lines ← shell device group fuel (codes "dumpsys" ∷ codes "batterystats" ∷ codes "-c" ∷ [])
      λ s. scanned s (
          scan_rows (csv_rows lines)
            (record { uids = uids_of s; pwi_entries = []; system_total = none }))

    abbrev pub or_zero : Outcome BatteryError Text × W → Outcome BatteryError ℤ × W
    or_zero (ok text, w) = (int_at (some text), w)
    or_zero (err shell_command_failed_error, w) = (ok (pos 0), w)
    or_zero (err e, w) = (err e, w)

    -- A counter of /proc/uid_stat; one that is not there is 0.
    unfoldable pub read_traffic : Text → Text → Task device group fuel ℤ
    read_traffic uid file =
        on_device device group fuel
          (λ w. or_zero (device.read_file (codes "/proc/uid_stat/" ++ (uid ++ (b'/' ∷ file))) w))

    abbrev pub traffic_of : Option Text → Task device group fuel (Option (ℤ × ℤ))
    traffic_of none = pure none
    traffic_of (some uid) = do
      send_data ← read_traffic uid (codes "tcp_snd")
      recv_data ← read_traffic uid (codes "tcp_rcv")
      pure (some (send_data, recv_data))

    abbrev pub traffic_after_scan : Text → Option Text → Task device group fuel (Option (ℤ × ℤ))
    traffic_after_scan app (some uid) = traffic_of (some uid)
    traffic_after_scan app none = do get_power_data; λ s. traffic_of (lookup app (uids_of s)) s

    -- `GetNetworkData`
    unfoldable pub get_network_data : Text → Task device group fuel (Option (ℤ × ℤ))
    unfolding get_power_data read_traffic
    get_network_data app = do
      λ s. (ok tt, record s { uids = some (uids_of s) })
      λ s. traffic_after_scan app (lookup app (uids_of s)) s
