-- ===== src/Usb/Ttys.antt =====
-- devil/devil/utils/find_usb_devices.py: the addresses of the serial ports, from udevadm. The output
-- of each command is given; lines are those of `splitlines`.
use udroid.Prelude.{
  ℕ, Option, none, some, List, [], ◌∷◌, Text, codes, if◌then◌else◌, is_digit, natural_of, is_in,
  pos, Table, put,
}
use udroid.Prelude.Effects.{Outcome, ok, err, pure, ◌>>=◌, ◌>>◌}
use udroid.Usb.{UsbError, value_error}
use udroid.Usb.Lines.{Match, literal, matched}
use udroid.Usb.Building.{Address, same_address, and_then}

-- `GetTTYList`
unfoldable pub get_tty_list : List Text → List Text
get_tty_list [] = []
get_tty_list (x ∷ xs) =
    let rest = get_tty_list xs in if is_in (codes "ttyUSB") x then x ∷ rest else rest

abbrev pub with_digit : ℕ → Text × Text → Text × Text
with_digit c (digits, rest) = (c ∷ digits, rest)

-- The digits at the start of a text, and the rest.
abbrev pub span_digits : Text → Text × Text
span_digits [] = ([], [])
span_digits (c ∷ text) =
    let more = span_digits text in if is_digit c then with_digit c more else ([], c ∷ text)

-- `(\d*)`
abbrev pub any_digits : Match Text
any_digits text = let (digits, rest) = span_digits text in (ok digits, rest)

abbrev pub attribute : Text → Match Text
attribute name = do literal name; digits ← any_digits; literal (b'"' ∷ []); pure digits

abbrev pub or_here : Option Text → Option Text → Option Text
or_here none here = here
or_here (some later) here = some later

-- `.*` takes as much as it can: the last place where the attribute stands.
unfoldable pub last_attribute : Text → Text → Option Text
last_attribute name [] = none
last_attribute name (c ∷ text) =
    or_here (last_attribute name text) (matched (attribute name (c ∷ text)))

-- `_BUS_NUM_REGEX.match(line)` and `_DEVICE_NUM_REGEX.match(line)`
abbrev pub bus_num_in : Text → Option Text
bus_num_in line = last_attribute (codes "ATTRS{busnum}==\"") line

abbrev pub device_num_in : Text → Option Text
device_num_in line = last_attribute (codes "ATTRS{devnum}==\"") line

-- `int(match.group(1))` the first time; no digit is a ValueError.
abbrev pub first_number : Option ℕ → Option Text → Outcome UsbError (Option ℕ)
first_number (some n) found = ok (some n)
first_number none none = ok none
first_number none (some digits) = elim (natural_of digits) [
  | none ↦ err value_error
  | some n ↦ ok (some n)
]

abbrev pub both : Option ℕ → Option ℕ → Outcome UsbError Address
both (some bus) (some device) = ok (bus, pos device)
both _ _ = err value_error

-- The loop of GetBusDeviceFromTTY, and what follows it.
abbrev pub scan_attributes : Option ℕ → Option ℕ → List Text → Outcome UsbError Address
scan_attributes bus device [] = both bus device
scan_attributes bus device (line ∷ lines) = and_then (first_number bus (bus_num_in line)) (λ bus'.
    and_then (first_number device (device_num_in line))
      (λ device'. scan_attributes bus' device' lines))

-- `GetBusDeviceFromTTY`, of the lines that udevadm prints.
unfoldable pub get_bus_device_from_tty : List Text → Outcome UsbError Address
unfolding last_attribute
get_bus_device_from_tty lines = scan_attributes none none lines

module _ (udevadm_info : Text → List Text) where
  abbrev pub add_ttys : Table Address Text → List Text → Outcome UsbError (Table Address Text)
  add_ttys result [] = ok result
  add_ttys result (tty ∷ ttys) =
      and_then (get_bus_device_from_tty (udevadm_info tty))
        (λ address. add_ttys (put same_address address tty result) ttys)

  -- `GetBusDeviceToTTYMap`, of the names in /dev.
  unfoldable pub get_bus_device_to_tty_map : List Text → Outcome UsbError (Table Address Text)
  unfolding get_bus_device_from_tty get_tty_list
  get_bus_device_to_tty_map names = add_ttys [] (get_tty_list names)
