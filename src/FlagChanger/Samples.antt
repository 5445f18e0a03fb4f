-- ===== src/FlagChanger/Samples.antt =====
-- The theorems about flag_changer.py at concrete flags and devices.
use udroid.Prelude.{
  ◌≡◌, refl, ap, ◌∙◌, inl, inr, Bool, true, false, not, ◌&&◌, ◌||◌, none, some, List, [], ◌∷◌, Text,
  codes, if◌then◌else◌, contains, text_eq, text_eq-eq, Bool-cases, length, ◌↔◌, ◌<◌,
}
use udroid.Flags.{parse_flags, serialize_flags, needs_quoting, split_value}
use udroid.Flags.Strip.{read_back, parse-serialize}
use udroid.Flags.Total.{parse_flags_total}
use udroid.Flags.Losses.{last_backslash_becomes_quote}
use udroid.FlagChanger.{
  Device, FlagChanger, Result, ok, err, value_error, assertion_error, command_line,
  write_command_line, push_flags, restore, custom_command_line_flags, has_char,
}
use udroid.FlagChanger.Stack.{push_all, restore_times, restore_undoes_pushes, restore_raises}
use udroid.FlagChanger.Session.{IsSetOrder, push_flags_members, session_restores}

-- A set that is iterated in the order of the last insertions.
abbrev distinct : List Text → List Text
distinct [] = []
distinct (x ∷ xs) = let rest = distinct xs in if contains x rest then rest else x ∷ rest

contains-distinct : (xs : List Text) (t : Text) → contains t (distinct xs) ≡ contains t xs
contains-distinct [] t = refl
contains-distinct (x ∷ xs) t = elim (Bool-cases (contains x (distinct xs))) [
  | inl e ↦ rw e (elim (Bool-cases (text_eq t x)) [
    | inl q ↦ rw q (ap (λ (u : Text). contains u (distinct xs)) (text_eq-eq t x q) ∙ e)
    | inr q ↦ rw q (contains-distinct xs t)
  ])
  | inr e ↦ rw e (ap (λ (b : Bool). text_eq t x || b) (contains-distinct xs t))
]

distinct-IsSetOrder : IsSetOrder distinct
distinct-IsSetOrder = record { members = contains-distinct }

abbrev flag_a : Text
flag_a = codes "--a=b \"c\""

abbrev flag_b : Text
flag_b = codes "--single-process"

abbrev phone : Device
phone = record {
  cmdline = some (codes "_ --single-process \n");
  legacy = none;
  sdk = 24;
  enforcing = true;
}

parse-serialize_example :
    parse_flags (read_back (serialize_flags (flag_a ∷ flag_b ∷ []))) ≡ some (flag_a ∷ flag_b ∷ [])
parse-serialize_example = parse-serialize (flag_a ∷ flag_b ∷ []) refl

parse_flags_total_example : (flags : List Text) × (parse_flags (codes "\"\\\"' \\") ≡ some flags)
parse_flags_total_example = parse_flags_total (codes "\"\\\"' \\")

last_backslash_becomes_quote_example :
    parse_flags (read_back (serialize_flags (codes "c: d\\" ∷ []))) ≡ some (codes "c: d\"" ∷ [])
unfolding split_value needs_quoting
last_backslash_becomes_quote_example = last_backslash_becomes_quote (codes "c: d") refl

restore_undoes_pushes_example :
    restore_times distinct 2 (
      push_all distinct
        ((flag_a ∷ [], []) ∷ ([], flag_b ∷ []) ∷ [])
        (record { device = phone; state_stack = (flag_b ∷ []) ∷ [] }))
    ≡ record {
      device = write_command_line (flag_b ∷ []) phone;
      state_stack = distinct (flag_b ∷ []) ∷ [];
    }
restore_undoes_pushes_example =
    restore_undoes_pushes distinct (flag_a ∷ [], []) (([], flag_b ∷ []) ∷ []) (flag_b ∷ []) [] phone
      refl

restore_raises_example :
    let c : FlagChanger = record { device = phone; state_stack = [] ∷ [] } in
    ((restore distinct c ≡ (err assertion_error, c)) ↔ (length c.state_stack < 2))
restore_raises_example = restore_raises distinct (record { device = phone; state_stack = [] ∷ [] })

push_flags_members_example :
    (now : List Text) × (push_flags distinct
        (flag_a ∷ [])
        (flag_b ∷ [])
        (record { device = phone; state_stack = (flag_b ∷ []) ∷ [] })
      ≡ (
        ok now,
        record {
          device = write_command_line now phone;
          state_stack = distinct now ∷ (flag_b ∷ []) ∷ [];
        },
      ))
    × ((t : Text)
        → contains t now ≡ (
            (contains t (flag_b ∷ []) || contains t (flag_a ∷ []))
            && not (contains t (flag_b ∷ []))))
push_flags_members_example =
    push_flags_members distinct distinct-IsSetOrder (flag_a ∷ []) (flag_b ∷ []) (flag_b ∷ []) []
      phone refl refl

-- A block that writes a command line of its own.
abbrev careless : Device → Result (Unit {0}) × Device
careless d = (err value_error, record d { cmdline = some (codes "_ --mine") })

session_restores_example :
    (inside : Device) × (parse_flags (command_line inside) ≡ some (distinct (flag_a ∷ [])))
    × (inside.enforcing ≡ false)
    × ((custom_command_line_flags distinct careless (codes "x") (flag_a ∷ []) phone).0
        ≡ (careless inside).0)
    × ((custom_command_line_flags distinct careless (codes "x") (flag_a ∷ []) phone).1.cmdline
        ≡ serialize_flags (distinct (flag_b ∷ [])))
    × ((custom_command_line_flags distinct careless (codes "x") (flag_a ∷ []) phone).1.enforcing
        ≡ true)
unfolding parse_flags command_line read_back has_char
session_restores_example =
    session_restores distinct distinct-IsSetOrder careless (codes "x") (flag_a ∷ []) (flag_b ∷ [])
      phone refl refl refl refl (λ x. refl)
