-- ===== src/FlagChanger.antt =====
-- devil/devil/android/flag_changer.py: class FlagChanger and CustomCommandLineFlags. The device is
-- the two files that the class touches, the SDK level and the SELinux mode; its calls
-- (DeviceUtils.PathExists, ReadFile, WriteFile, RemovePath, GetEnforce, SetEnforce) are taken to
-- succeed. A Python set is the list of its members in the order in which it is iterated; that
-- order is the parameter `set` of the section.
pub mod Stack
pub mod Session
mod Samples
use udroid.Prelude.{
  ℕ, suc, ◌≡◌, Bool, true, false, ◌&&◌, ◌||◌, Option, none, some, List, [], ◌∷◌, ◌++◌, Text, codes,
  leb, ltb, length, ◌==◌, if◌then◌else◌, is_some, contains, difference,
}
use udroid.Flags.{parse_flags, serialize_flags}
use udroid.Flags.Strip.{read_back}

pub data Error : Type 0 where
  value_error assertion_error index_error : Error

pub data Result {ℓ} (A : Type ℓ) : Type ℓ where
  ok : A → Result A
  err : Error → Result A

pub record Device : Type 0 where
  pub cmdline : Option Text
  pub legacy : Option Text
  pub sdk : ℕ
  pub enforcing : Bool

-- `state_stack` has the top first.
pub record FlagChanger : Type 0 where
  pub device : Device
  pub state_stack : List (List Text)

-- The text that GetCurrentFlags parses.
unfoldable pub command_line : Device → Text
command_line d = read_back d.cmdline

-- `char in text`
unfoldable pub has_char : ℕ → Text → Bool
has_char c [] = false
has_char c (x ∷ xs) = x == c || has_char c xs

pub nougat : ℕ
nougat = 24

-- The command line file after WriteFile, or after RemovePath.
pub write_command_line : List Text → Device → Device
write_command_line flags d = record d { cmdline = serialize_flags flags }

pub remove_legacy : Device → Device
remove_legacy d = if is_some d.legacy then record d { legacy = none } else d

pub needs_permissive : Device → Bool
needs_permissive d = leb nougat d.sdk && d.enforcing

-- SetEnforce(enabled=False) and SetEnforce(enabled=True), if they are needed.
pub set_permissive : Bool → Device → Device
set_permissive needs d = if needs then record d { enforcing = false } else d

pub set_enforcing : Bool → Device → Device
set_enforcing needs d = if needs then record d { enforcing = true } else d

-- A constructor's object, unless a call in it raised.
abbrev pub instead {ℓ κ} : {A : Type ℓ} {B : Type κ} → Result A → B → Result B
instead (ok a) b = ok b
instead (err e) b = err e

-- A `finally` block's error hides the result of the block before it.
abbrev pub and_then {ℓ κ} : {A : Type ℓ} {B : Type κ} → Result A → Result B → Result B
and_then (ok a) r = r
and_then (err e) r = err e

-- The body runs if the call before it returned.
abbrev pub run_body :
    Result (List Text) → (Device → Result (Unit {0}) × Device) → Device → Result (Unit {0}) × Device
run_body (ok flags) body d = body d
run_body (err e) body d = (err e, d)

module _ (set : List Text → List Text) where
  -- `self._state_stack[-1] = set(flags)`; an empty stack raises.
  pub store_top : List (List Text) → List Text → Device → Result (List Text) × FlagChanger
  store_top [] flags d = (err index_error, record { device = d; state_stack = [] })
  store_top (top ∷ rest) flags d = (ok flags, record { device = d; state_stack = set flags ∷ rest })

  pub get_current_flags : FlagChanger → Result (List Text) × FlagChanger
  get_current_flags c = elim (parse_flags (command_line c.device)) [
    | none ↦ (err index_error, c)
    | some flags ↦ store_top c.state_stack flags c.device
  ]

  pub update_command_line_file : List (List Text) → Device → Result (List Text) × FlagChanger
  update_command_line_file [] d = (err index_error, record { device = d; state_stack = [] })
  update_command_line_file (top ∷ rest) d =
      get_current_flags (record { device = write_command_line top d; state_stack = top ∷ rest })

  pub replace_flags : List Text → FlagChanger → Result (List Text) × FlagChanger
  replace_flags flags c = update_command_line_file (set flags ∷ c.state_stack) c.device

  -- `new_flags` of PushFlags; an omitted argument is the empty list.
  pub pushed : List Text → List Text → List Text → List Text
  pushed add remove top = set (difference (top ++ add) remove)

  pub push_flags : List Text → List Text → FlagChanger → Result (List Text) × FlagChanger
  push_flags add remove c = elim c.state_stack [
    | [] ↦ (err index_error, c)
    | top ∷ rest ↦ replace_flags (pushed add remove top) c
  ]

  pub add_flags : List Text → FlagChanger → Result (List Text) × FlagChanger
  add_flags flags = push_flags flags []

  pub remove_flags : List Text → FlagChanger → Result (List Text) × FlagChanger
  remove_flags flags = push_flags [] flags

  pub restore_stack : List (List Text) → FlagChanger → Result (List Text) × FlagChanger
  restore_stack (top ∷ next ∷ rest) c = update_command_line_file (next ∷ rest) c.device
  restore_stack _ c = (err assertion_error, c)

  pub restore : FlagChanger → Result (List Text) × FlagChanger
  restore c = restore_stack c.state_stack c

  -- `__init__`. The stack begins as `[None]`, whose entry GetCurrentFlags replaces. A constructor
  -- that raises leaves no object, and the device as it is.
  pub new_flag_changer : Text → Device → Result FlagChanger × Device
  new_flag_changer cmdline_file d =
      if has_char b'/' cmdline_file
      then (err value_error, d)
      else let (flags, c) =
          get_current_flags (record { device = remove_legacy d; state_stack = [] ∷ [] }) in
        (instead flags c, c.device)

  -- The inner `finally` block.
  pub after_body : Result (Unit {0}) → FlagChanger → Result (Unit {0}) × Device
  after_body result c = let (restored, c') = restore c in (and_then restored result, c'.device)

  -- The block after ReplaceFlags. `body` is what the caller does to the device.
  pub in_block :
      (Device → Result (Unit {0}) × Device)
      → Result (List Text) × FlagChanger
      → Result (Unit {0}) × Device
  in_block body (flags, c) =
      let (result, d) = run_body flags body c.device in after_body result (record c { device = d })

  pub with_flags :
      (Device → Result (Unit {0}) × Device) → List Text → FlagChanger → Result (Unit {0}) × Device
  with_flags body flags c = in_block body (replace_flags flags c)

  -- The inner block is entered if the constructor returned.
  pub with_changer :
      (Device → Result (Unit {0}) × Device)
      → List Text
      → Result FlagChanger
      → Device
      → Result (Unit {0}) × Device
  with_changer body flags (err e) d = (err e, d)
  with_changer body flags (ok c) d = with_flags body flags c

  pub custom_command_line_flags :
      (Device → Result (Unit {0}) × Device) → Text → List Text → Device → Result (Unit {0}) × Device
  custom_command_line_flags body cmdline_name flags d =
      let needs = needs_permissive d in
      let (made, d') = new_flag_changer cmdline_name (set_permissive needs d) in
      let (result, d'') = with_changer body flags made d' in (result, set_enforcing needs d'')
