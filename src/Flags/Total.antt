-- ===== src/Flags/Total.antt =====
-- The tokenizer of flag_changer.py never raises.
use udroid.Prelude.{
  ℕ, ◌≢◌, ◌≡◌, refl, ◌&&◌, inl, inr, Option, none, some, List, [], ◌∷◌, ◌++◌, Text, ◌==◌,
  get_last?-cons, Bool-cases,
}
use udroid.Flags.{
  escape, Lexer, start, scan, step, delimiter, delimits, is_space, unquoted, finish, parse_flags,
}

-- `current_flag` is None or has a last character.
abbrev HasLast : Lexer → Type 0
HasLast s = s.current_flag ≢ some []

abbrev Goes : Option Lexer → Type 0
Goes none = ⊥
Goes (some s) = HasLast s

snoc_HasLast : (xs : Text) (c : ℕ) → some (xs ++ c ∷ []) ≢ some []
snoc_HasLast [] c e = cc
snoc_HasLast (x ∷ xs) c e = cc

delimiter-Goes :
    (s : Lexer) (c : ℕ) (flag : Option Text)
    → s.current_flag ≡ flag
    → HasLast s
    → Goes (delimiter s c flag)
unfolding delimiter
delimiter-Goes s c none e h = h
delimiter-Goes s c (some []) e h = absurd (h e)
delimiter-Goes s c (some (x ∷ xs)) e h =
    let (l, last) = get_last?-cons x xs in
    elim (Bool-cases (l == escape)) [
      | inl t ↦ rw (last, delimiter) (rw t (snoc_HasLast _ c))
      | inr t ↦ rw (last, delimiter) (rw t h)
    ]

step-Goes : (s : Lexer) (c : ℕ) → HasLast s → Goes (step s c)
unfolding step
step-Goes s c h = elim (Bool-cases (delimits s.current_quote c)) [
  | inl d ↦ rw d (delimiter-Goes s c s.current_flag refl h)
  | inr d ↦ rw d (elim (Bool-cases (unquoted s.current_quote && is_space c)) [
    | inl w ↦ rw w (λ p. cc)
    | inr w ↦ rw w (snoc_HasLast _ c)
  ])
]

step_total : (s : Lexer) (c : ℕ) → HasLast s → (s' : Lexer) × (step s c ≡ some s') × HasLast s'
step_total s c h = go (step s c) (step-Goes s c h)
  where
    go : (r : Option Lexer) → Goes r → (s' : Lexer) × (r ≡ some s') × HasLast s'
    go none g = absurd g
    go (some s') g = (s', refl, g)

scan_total : (line : Text) (s : Lexer) → HasLast s → (s' : Lexer) × (scan line s ≡ some s')
unfolding scan
scan_total [] s h = (s, refl)
scan_total (c ∷ cs) s h =
    let (s', e, h') = step_total s c h in
    let (s'', e') = scan_total cs s' h' in (s'', rw (e, scan) e')

-- Every command line parses: no `current_flag[-1]` raises an IndexError.
pub parse_flags_total : (line : Text) → (flags : List Text) × (parse_flags line ≡ some flags)
unfolding parse_flags
parse_flags_total line =
    let (s, e) = scan_total line start (λ p. cc) in (finish s, rw (e, parse_flags) refl)
