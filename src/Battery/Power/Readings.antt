-- ===== src/Battery/Power/Readings.antt =====
-- The readings that GetPowerData gathers are those of the rows of the uid.
use udroid.Prelude.{
  Bool, true, false, ◌&&◌, Option, none, some, List, [], ◌∷◌, ◌++◌, Text, codes, is_some, contains,
  if◌then◌else◌, Dict, lookup, insert, lookup-insert, text_eq, text_eq-eq, ℕ, subst, ◌≡◌, refl, sym,
  ap, ◌∙◌, inl, inr, Bool-cases, append_assoc, append-nil,
}
use udroid.Prelude.Effects.{Outcome, ok, err, continue}
use udroid.Retry.{WatchdogTimer}
use udroid.Battery.{BatteryError, Device, Battery}
use udroid.Battery.Power.{
  or_nothing, Scan, Scanned, entries_of, conflicts, known_uid, add_power, set_total, total_row,
  known_row, scan_row, scan_rows, PackagePower, PowerData, per_package_of, uids_of, scanned,
  get_power_data,
}

module _ {Number : Type 0} (float_of : Text → Outcome BatteryError Number) where
  abbrev pub number_in : Outcome BatteryError Number → List Number
  number_in (ok number) = number ∷ []
  number_in (err e) = []

  -- A row `version, uid, l, pwi, label, power` has one reading of its uid.
  abbrev pub reading : Text → List Text → List Number
  reading uid (version ∷ u ∷ aggregation ∷ kind ∷ label ∷ power ∷ rest) =
      if text_eq uid u && text_eq aggregation (codes "l") && text_eq kind (codes "pwi")
      then number_in (float_of power)
      else []
  reading uid _ = []

  abbrev pub readings : Text → List (List Text) → List Number
  readings uid [] = []
  readings uid (row ∷ rows) = reading uid row ++ readings uid rows

  -- A scan that returns has added `more` to the entries of the uid.
  abbrev Added : Text → Scan Number → List Number → Scanned float_of → Type 0
  Added uid c more (err e, c') = Unit
  Added uid c more (ok _, c') = entries_of uid c'.pwi_entries ≡ entries_of uid c.pwi_entries ++ more

  entries_of-insert :
      (uid u : Text) (numbers : List Number) (entries : Dict (List Number))
      → entries_of uid (insert u numbers entries)
        ≡ (if text_eq uid u then numbers else entries_of uid entries)
  entries_of-insert uid u numbers entries =
      ap or_nothing (lookup-insert uid u numbers entries)
      ∙ (elim (Bool-cases (text_eq uid u)) [ inl e ↦ rw e refl | inr e ↦ rw e refl ])

  unchanged : (uid : Text) (c : Scan Number) → Added uid c [] (ok tt, c)
  unchanged uid c = sym (append-nil (entries_of uid c.pwi_entries))

  add_power-Added :
      (uid u : Text) (c : Scan Number) (number : Outcome BatteryError Number)
      → Added uid c (if text_eq uid u then number_in number else []) (add_power float_of c u number)
  add_power-Added uid u c (err e) = tt
  add_power-Added uid u c (ok number) = elim (Bool-cases (text_eq uid u)) [
    | inl e ↦
        rw
          (
            entries_of-insert uid u (entries_of u c.pwi_entries ++ number ∷ []) c.pwi_entries,
            e,
            text_eq-eq uid u e,
          )
          refl
    | inr e ↦
        rw (entries_of-insert uid u (entries_of u c.pwi_entries ++ number ∷ []) c.pwi_entries, e)
          (sym (append-nil (entries_of uid c.pwi_entries)))
  ]

  known_uid-Added :
      (uid : Text) (c : Scan Number) (u app : Option Text)
      → Added uid c [] (known_uid float_of c u app)
  known_uid-Added uid c none none = tt
  known_uid-Added uid c none (some app) = tt
  known_uid-Added uid c (some u) none = tt
  known_uid-Added uid c (some u) (some app) = elim (Bool-cases (conflicts (lookup app c.uids) u)) [
    | inl e ↦ rw e tt
    | inr e ↦ rw e (sym (append-nil (entries_of uid c.pwi_entries)))
  ]

  set_total-Added :
      (uid : Text) (c : Scan Number) (number : Outcome BatteryError Number)
      → Added uid c [] (set_total float_of c number)
  set_total-Added uid c (err e) = tt
  set_total-Added uid c (ok number) = unchanged uid c

  total_row-Added :
      (uid : Text) (c : Scan Number) (power : Text)
      → Added uid c [] (total_row float_of c (some power))
  total_row-Added uid c power = elim (Bool-cases (is_some c.system_total)) [
    | inl e ↦ rw e tt
    | inr e ↦ rw e (set_total-Added uid c (float_of power))
  ]

  -- A row with no sixth cell.
  short_row-Added :
      (uid : Text) (c : Scan Number) (is_uid : Bool) (u : Option Text)
      → Added uid c [] (if is_uid then known_uid float_of c u none else (ok tt, c))
  short_row-Added uid c true none = tt
  short_row-Added uid c true (some u) = tt
  short_row-Added uid c false u = unchanged uid c

  and_false : (b : Bool) → (b && false) ≡ false
  and_false true = refl
  and_false false = refl

  not_counted : (b is_l is_pwi : Bool) → is_l && is_pwi ≡ false → (b && is_l && is_pwi) ≡ false
  not_counted true is_l is_pwi h = h
  not_counted false is_l is_pwi h = refl

  counted : (b : Bool) → (b && true && true) ≡ b
  counted true = refl
  counted false = refl

  other_row-Added :
      (uid power : Text) (is_l is_pws : Bool) (c : Scan Number)
      → Added uid c [] (if is_pws && is_l then total_row float_of c (some power) else (ok tt, c))
  other_row-Added uid power true true c = total_row-Added uid c power
  other_row-Added uid power is_l false c = unchanged uid c
  other_row-Added uid power false true c = unchanged uid c

  counted_row-Added :
      (uid u power : Text) (is_l is_pwi is_pws : Bool) (c : Scan Number)
      → Added uid c (if text_eq uid u && is_l && is_pwi then number_in (float_of power) else []) (
          if is_pwi && is_l
          then add_power float_of c u (float_of power)
          else if is_pws && is_l
          then total_row float_of c (some power)
          else (ok tt, c))
  counted_row-Added uid u power true true w c =
      rw (counted (text_eq uid u)) (add_power-Added uid u c (float_of power))
  counted_row-Added uid u power is_l false w c =
      rw (not_counted (text_eq uid u) is_l false (and_false is_l))
        (other_row-Added uid power is_l w c)
  counted_row-Added uid u power false true w c =
      rw (not_counted (text_eq uid u) false true refl) (other_row-Added uid power false w c)

  long_row-Added :
      (uid version u aggregation kind label power : Text) (rest : List Text) (c : Scan Number)
      → Added uid c
          (reading uid (version ∷ u ∷ aggregation ∷ kind ∷ label ∷ power ∷ rest))
          (known_row float_of (version ∷ u ∷ aggregation ∷ kind ∷ label ∷ power ∷ rest) c)
  unfolding known_row
  long_row-Added uid version u aggregation kind label power rest c =
      elim (Bool-cases (text_eq kind (codes "uid"))) [
        | inl e ↦
            rw
              (
                text_eq-eq kind (codes "uid") e,
                not_counted (text_eq uid u) (text_eq aggregation (codes "l")) false
                    (and_false (text_eq aggregation (codes "l"))),
              )
              (known_uid-Added uid c (some label) (some power))
        | inr e ↦ rw e (
            counted_row-Added uid u power (text_eq aggregation (codes "l"))
              (text_eq kind (codes "pwi")) (text_eq kind (codes "pws")) c)
      ]

  known_row-Added :
      (uid : Text) (row : List Text) (c : Scan Number)
      → Added uid c (reading uid row) (known_row float_of row c)
  unfolding known_row
  known_row-Added uid [] c = unchanged uid c
  known_row-Added uid (v ∷ []) c = unchanged uid c
  known_row-Added uid (v ∷ u ∷ []) c = unchanged uid c
  known_row-Added uid (v ∷ u ∷ a ∷ []) c = unchanged uid c
  known_row-Added uid (v ∷ u ∷ a ∷ k ∷ []) c = short_row-Added uid c (text_eq k (codes "uid")) none
  known_row-Added uid (v ∷ u ∷ a ∷ k ∷ l ∷ []) c =
      short_row-Added uid c (text_eq k (codes "uid")) (some l)
  known_row-Added uid (v ∷ u ∷ a ∷ k ∷ l ∷ p ∷ rest) c = long_row-Added uid v u a k l p rest c

  scan_row-Added :
      (uid : Text) (row : List Text) (c : Scan Number)
      → Added uid c (reading uid row) (scan_row float_of row c)
  unfolding scan_row
  scan_row-Added uid [] c = tt
  scan_row-Added uid (version ∷ row) c =
      elim (Bool-cases (contains version (codes "8" ∷ codes "9" ∷ []))) [
        | inl e ↦ rw e (known_row-Added uid (version ∷ row) c)
        | inr e ↦ rw e tt
      ]

  then_rows-Added :
      (uid : Text) (c : Scan Number) (more rest : List Number) (m : Scanned float_of)
      (f : Scan Number → Scanned float_of)
      → Added uid c more m
      → ((d : Scan Number) → Added uid d rest (f d))
      → Added uid c (more ++ rest) (continue m (λ _. f))
  then_rows-Added uid c more rest (err e, d) f h k = tt
  then_rows-Added uid c more rest (ok _, d) f h k = go (f d) (k d)
    where
      go : (n : Scanned float_of) → Added uid d rest n → Added uid c (more ++ rest) n
      go (err e, _) p = tt
      go (ok _, d') p =
          p
          ∙ (ap (λ (ns : List Number). ns ++ rest) h
              ∙ append_assoc (entries_of uid c.pwi_entries) more rest)

  scan_rows-Added :
      (uid : Text) (rows : List (List Text)) (c : Scan Number)
      → Added uid c (readings uid rows) (scan_rows float_of rows c)
  unfolding scan_rows
  scan_rows-Added uid [] c = unchanged uid c
  scan_rows-Added uid (row ∷ rows) c =
      then_rows-Added uid c (reading uid row) (readings uid rows) (scan_row float_of row c)
        (scan_rows float_of rows) (scan_row-Added uid row c) (scan_rows-Added uid rows)

  -- The power of each package, read off the rows.
  abbrev pub measured : List (List Text) → Dict Text → Dict (PackagePower Number)
  measured rows [] = []
  measured rows ((app, uid) ∷ uids) =
      (app, record { uid = uid; power = readings uid rows }) ∷ measured rows uids

  per_package_of-measured :
      (rows : List (List Text)) (entries : Dict (List Number))
      → ((uid : Text) → entries_of uid entries ≡ readings uid rows)
      → (uids : Dict Text) → per_package_of float_of uids entries ≡ measured rows uids
  unfolding per_package_of
  per_package_of-measured rows entries h [] = refl
  per_package_of-measured rows entries h ((app, uid) ∷ uids) =
      rw (h uid, per_package_of-measured rows entries h uids) refl

  module _ {W : Type 0} (device : Device W) (csv_rows : List Text → List (List Text))
      (group : Option WatchdogTimer) (fuel : ℕ) where
    abbrev IsMeasured :
        List (List Text) → Outcome BatteryError (PowerData Number) × Battery W → Type 0
    IsMeasured rows (err e, s) = Unit
    IsMeasured rows (ok result, s) =
        result.per_package ≡ measured rows (uids_of float_of device csv_rows group fuel s)

    scanned-IsMeasured :
        (rows : List (List Text)) (s : Battery W) (c : Scan Number) (m : Scanned float_of)
        → c.pwi_entries ≡ []
        → ((uid : Text) → Added uid c (readings uid rows) m)
        → IsMeasured rows (scanned float_of device csv_rows group fuel s m)
    scanned-IsMeasured rows s c (err e, d) h added = tt
    scanned-IsMeasured rows s c (ok _, d) h added =
        per_package_of-measured rows d.pwi_entries
          (λ (uid : Text).
            added uid
            ∙ ap (λ (entries : Dict (List Number)). entries_of uid entries ++ readings uid rows) h)
          d.uids

    abbrev pub batterystats : List Text
    batterystats = codes "dumpsys" ∷ codes "batterystats" ∷ codes "-c" ∷ []

    get_power_data-IsMeasured :
        (lines : List Text) (w : W) (s : Battery W)
        → device.run_shell_command batterystats s.world ≡ (ok lines, w)
        → IsMeasured (csv_rows lines) (get_power_data float_of device csv_rows group fuel s)
    unfolding get_power_data
    get_power_data-IsMeasured lines w s h = rw h (
        scanned-IsMeasured (csv_rows lines)
          (record s { uids = some (uids_of float_of device csv_rows group fuel s); world = w })
          start (scan_rows float_of (csv_rows lines) start) refl
          (λ (uid : Text). scan_rows-Added uid (csv_rows lines) start))
      where
        start : Scan Number
        start = record {
          uids = uids_of float_of device csv_rows group fuel s;
          pwi_entries = [];
          system_total = none;
        }

    -- When GetPowerData returns, the power of each package whose uid is cached by then is the list of
    -- the numbers of those rows of `dumpsys batterystats -c`, in their order, that are of kind pwi and
    -- aggregation l, have a sixth cell and are of the package's uid: the one pass over the rows, which
    -- gathers them in a dict by uid, agrees with reading the rows once for each package.
    pub get_power_data_measures :
        (lines : List Text) (w : W) (s s' : Battery W) (result : PowerData Number)
        → device.run_shell_command batterystats s.world ≡ (ok lines, w)
        → get_power_data float_of device csv_rows group fuel s ≡ (ok result, s')
        → result.per_package
          ≡ measured (csv_rows lines) (uids_of float_of device csv_rows group fuel s')
    get_power_data_measures lines w s s' result h e =
        subst (IsMeasured (csv_rows lines)) e (get_power_data-IsMeasured lines w s h)
