-- ===== src/Usb/Lines/Printed.antt =====
-- The pattern of a T line reads back the numbers of a line that is printed in the form of usb-devices.
use udroid.Prelude.{
  ℕ, ◌+◌, ◌/◌, ◌%◌, ◌<◌, true, some, [], ◌∷◌, ◌++◌, Text, codes, is_digit, digits_value, ◌≡◌, refl,
  arith,
}
use udroid.Prelude.Effects.{ok}
use udroid.Usb.Lines.{two_digits, match_t_line}

abbrev tens : ℕ → ℕ
tens n = b'0' + n / 10

abbrev units : ℕ → ℕ
units n = b'0' + n % 10

-- `%02d` of a number below 100, before the rest of the line.
abbrev two : ℕ → Text → Text
two n rest = tens n ∷ units n ∷ rest

-- The line that stands for the numbers; `dev` is three characters wide.
abbrev pub t_line : (bus lev parent port cnt a b c : ℕ) → Text → Text
t_line bus lev parent port cnt a b c rest =
    codes "T:  Bus="
    ++ two bus (
        codes " Lev="
        ++ two lev (
            codes " Prnt="
            ++ two parent (
                codes " Port="
                ++ two port
                    (codes " Cnt=" ++ two cnt (codes " Dev#=" ++ a ∷ b ∷ c ∷ b' ' ∷ rest)))))

digit-tens : (n : ℕ) → n < 100 → is_digit (tens n) ≡ true
digit-tens n h = ground arith

digit-units : (n : ℕ) → is_digit (units n) ≡ true
digit-units n = ground arith

value-two : (n : ℕ) → n < 100 → digits_value 0 (tens n ∷ units n ∷ []) ≡ n
value-two n h = omega arith

two_digits-two :
    (n : ℕ) (rest : Text) → n < 100 → two_digits (two n rest) ≡ (ok (tens n ∷ units n ∷ []), rest)
two_digits-two n rest h = rw (digit-tens n h, digit-units n) refl

-- Of a line in the form of usb-devices, with numbers below 100 in two digits each, any three
-- characters for the device number and anything behind the next space, the pattern of a T line gives
-- the bus, the parent, the port and the three characters.
pub match_t_line-t_line :
    (bus lev parent port cnt a b c : ℕ) (rest : Text)
    → bus < 100
    → lev < 100
    → parent < 100
    → port < 100
    → cnt < 100
    → match_t_line (t_line bus lev parent port cnt a b c rest)
      ≡ some (record { bus = bus; parent = parent; port = port; dev = a ∷ b ∷ c ∷ [] })
unfolding match_t_line
match_t_line-t_line bus lev parent port cnt a b c rest hb hl hp ho hc =
    rw
      (
        digit-tens bus hb,
        digit-units bus,
        digit-tens lev hl,
        digit-units lev,
        digit-tens parent hp,
        digit-units parent,
        digit-tens port ho,
        digit-units port,
        digit-tens cnt hc,
        digit-units cnt,
      )
      (rw (value-two bus hb, value-two parent hp, value-two port ho) refl)
