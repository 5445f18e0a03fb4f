-- ===== src/Usb/Lines.antt =====
-- devil/devil/utils/find_usb_devices.py: the patterns of the lines of usb-devices and of lsusb. A
-- match goes from the left through the line; what is left over is the state.
pub mod Printed
use udroid.Prelude.{
  ℕ, zero, suc, Bool, true, false, Option, none, some, [], ◌∷◌, Text, codes, if◌then◌else◌, ◌==◌,
  is_digit, digits_value,
}
use udroid.Prelude.Effects.{Outcome, ok, err, Exec, pure, raise, continue, ◌>>=◌, ◌>>◌}

pub data NoMatch : Type 0 where
  no_match : NoMatch

abbrev pub Match : Type 0 → Type 0
Match A = Exec NoMatch Text A

abbrev pub literal : Text → Match (Unit {0})
literal [] text = (ok tt, text)
literal (c ∷ cs) [] = (err no_match, [])
literal (c ∷ cs) (d ∷ text) = if c == d then literal cs text else (err no_match, d ∷ text)

-- One character that satisfies the test.
abbrev pub one_of : (ℕ → Bool) → Match ℕ
one_of p [] = (err no_match, [])
one_of p (c ∷ text) = if p c then (ok c, text) else (err no_match, c ∷ text)

-- `\d{2}`
abbrev pub two_digits : Match Text
two_digits = do a ← one_of is_digit; b ← one_of is_digit; pure (a ∷ b ∷ [])

-- `\d{3}`
abbrev pub three_digits : Match Text
three_digits = do
  a ← one_of is_digit
  b ← one_of is_digit
  c ← one_of is_digit
  pure (a ∷ b ∷ c ∷ [])

abbrev pub maybe_digit : Text → Match Text
maybe_digit (a ∷ b ∷ []) (c ∷ text) =
    if is_digit c then (ok (a ∷ b ∷ c ∷ []), text) else (ok (a ∷ b ∷ []), c ∷ text)
maybe_digit digits text = (ok digits, text)

-- `\d{2,3}`
abbrev pub two_or_three_digits : Match Text
two_or_three_digits = do digits ← two_digits; maybe_digit digits

-- `.{3}`
abbrev pub three_characters : Match Text
three_characters = do
  a ← one_of (λ c. true)
  b ← one_of (λ c. true)
  c ← one_of (λ c. true)
  pure (a ∷ b ∷ c ∷ [])

pub record TopologyLine : Type 0 where
  pub bus : ℕ
  pub parent : ℕ
  pub port : ℕ
  pub dev : Text

abbrev pub matched : {A : Type 0} → Outcome NoMatch A × Text → Option A
matched (ok a, text) = some a
matched (err e, text) = none

abbrev pub topology_line : Match TopologyLine
topology_line = do
  literal (codes "T:  Bus=")
  bus ← two_digits
  literal (codes " Lev=")
  lev ← two_digits
  literal (codes " Prnt=")
  parent ← two_or_three_digits
  literal (codes " Port=")
  port ← two_digits
  literal (codes " Cnt=")
  cnt ← two_digits
  literal (codes " Dev#=")
  dev ← three_characters
  literal (codes " ")
  pure (record {
    bus = digits_value 0 bus;
    parent = digits_value 0 parent;
    port = digits_value 0 port;
    dev = dev;
  })

-- `_T_LINE_REGEX.match(line)`
unfoldable pub match_t_line : Text → Option TopologyLine
match_t_line line = matched (topology_line line)

-- What is left of the line.
abbrev pub the_rest : Match Text
the_rest text = (ok text, [])

abbrev pub serial_line : Match Text
serial_line = do literal (codes "S:  SerialNumber="); the_rest

-- `_S_LINE_REGEX.match(line)`
unfoldable pub match_s_line : Text → Option Text
match_s_line line = matched (serial_line line)

pub record LsusbLine : Type 0 where
  pub bus : ℕ
  pub dev : ℕ
  pub desc : Text

abbrev pub lsusb_line : Match LsusbLine
lsusb_line = do
  literal (codes "Bus ")
  bus ← three_digits
  literal (codes " Device ")
  dev ← three_digits
  literal (codes ": ")
  desc ← the_rest
  pure (record { bus = digits_value 0 bus; dev = digits_value 0 dev; desc = desc })

-- `_LSUSB_BUS_DEVICE_RE.match(line)`
unfoldable pub match_lsusb_line : Text → Option LsusbLine
match_lsusb_line line = matched (lsusb_line line)
