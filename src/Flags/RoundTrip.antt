-- ===== src/Flags/RoundTrip.antt =====
-- The command line that flag_changer.py writes, read back by its tokenizer.
use udroid.Prelude.{
  ℕ, ◌≡◌, refl, ap, ◌∙◌, inl, inr, Bool, true, false, not, Option, none, some, List, [], ◌∷◌, ◌++◌,
  Text, codes, map, arith, ◌==◌, all, get_last?, get_last?-snoc, append_assoc, append-nil,
  Bool-cases, ==_iff,
}
use udroid.Flags.{
  escape, equals, space, Lexer, start, scan, step, end_flag, join_words, parse_flags, finish,
  without_program, quote_value, quote_flag, split_value, join_value, needs_quoting,
}
use udroid.Flags.Lexing.{at, Closed, scan-cons, flag_of, step_literal}
use udroid.Flags.Quoting.{is_plain, scan_plain, scan-quoted}

-- A flag that survives: it is not empty and does not end in a backslash.
abbrev pub is_restorable : Text → Bool
is_restorable flag = elim (get_last? flag) [ none ↦ false | some l ↦ not (l == escape) ]

Closed-of_restorable : (flag : Text) → is_restorable flag ≡ true → Closed flag
Closed-of_restorable flag h e = ground arith

word_IsPlain : (w : Text) → needs_quoting w ≡ false → all is_plain w ≡ true
unfolding needs_quoting
word_IsPlain [] h = refl
word_IsPlain (c ∷ cs) h = ground (arith, word_IsPlain cs)

all-snoc :
    (w : Text) (c : ℕ)
    → all is_plain w ≡ true
    → is_plain c ≡ true
    → all is_plain (w ++ c ∷ []) ≡ true
all-snoc [] c h k = ground arith
all-snoc (x ∷ xs) c h k = ground (arith, all-snoc xs c)

-- `split` loses nothing.
abbrev pub glue : Text × Option Text → Text
glue (key, none) = key
glue (key, some value) = key ++ (equals ∷ value)

pub glue-split_value : (flag : Text) → glue (split_value flag) ≡ flag
unfolding split_value
glue-split_value [] = refl
glue-split_value (c ∷ cs) = elim (Bool-cases (c == equals)) [
  | inl e ↦ rw (e, (==_iff c equals).0 e)
  | inr e ↦ rw e (go (split_value cs) (glue-split_value cs))
]
  where
    go : (s : Text × Option Text) → glue s ≡ cs → glue (c ∷ s.0, s.1) ≡ c ∷ cs
    go (key, none) e = ap (λ (t : Text). c ∷ t) e
    go (key, some v) e = ap (λ (t : Text). c ∷ t) e

Closed-after_equals : (key : Text) → Closed (key ++ equals ∷ [])
Closed-after_equals key e = ground (arith, get_last?-snoc key equals)

module _ (flags : List Text) (rest : Text) where
  scan_value :
      (value text : Text)
      → Closed text
      → Closed (text ++ value)
      → scan (quote_value value ++ rest) (at flags none text)
        ≡ scan rest (at flags none (text ++ value))
  unfolding quote_value
  scan_value value text h k = elim (Bool-cases (needs_quoting value)) [
    | inl e ↦ rw e (scan-quoted flags value rest text h k)
    | inr e ↦ rw e (scan_plain flags value rest text (word_IsPlain value e))
  ]

  scan_joined :
      (s : Text × Option Text)
      → needs_quoting s.0 ≡ false
      → Closed (glue s)
      → scan (join_value s.0 s.1 ++ rest) (at flags none []) ≡ scan rest (at flags none (glue s))
  unfolding join_value
  scan_joined (key, none) w h = scan_plain flags key rest [] (word_IsPlain key w)
  scan_joined (key, some value) w h =
      rw (append_assoc key (equals ∷ quote_value value) rest)
        (scan_plain flags key (equals ∷ (quote_value value ++ rest)) [] (word_IsPlain key w))
      ∙ scan-cons _ _ equals (quote_value value ++ rest)
          (step_literal flags none key equals refl (inr refl))
      ∙ scan_value value (key ++ equals ∷ []) (λ e. Closed-after_equals key e)
          (λ e. h (rw (append_assoc key (equals ∷ []) value) at e))
      ∙ rw (append_assoc key (equals ∷ []) value)

  scan-quote_flag :
      (flag : Text)
      → is_restorable flag ≡ true
      → scan (quote_flag flag ++ rest) (at flags none []) ≡ scan rest (at flags none flag)
  unfolding quote_flag
  scan-quote_flag [] h = cc
  scan-quote_flag (c ∷ cs) h = elim (Bool-cases (needs_quoting (split_value (c ∷ cs)).0)) [
    | inl e ↦ rw e (scan-quoted flags (c ∷ cs) rest [] (λ p. cc) (Closed-of_restorable (c ∷ cs) h))
    | inr e ↦ rw e (
        scan_joined (split_value (c ∷ cs)) e
          (rw (glue-split_value (c ∷ cs)) (Closed-of_restorable (c ∷ cs) h))
        ∙ rw (glue-split_value (c ∷ cs)))
  ]

-- The flags that the loop leaves, the open one included.
abbrev pub ended : Option Lexer → Option (List Text)
ended none = none
ended (some s) = some (end_flag s.flags s.current_flag)

end_flag-flag_of :
    (flags : List Text) (flag : Text)
    → is_restorable flag ≡ true
    → end_flag flags (flag_of flag) ≡ flags ++ flag ∷ []
unfolding end_flag
end_flag-flag_of flags [] h = cc
end_flag-flag_of flags (c ∷ cs) h = refl

step-space :
    (flags : List Text) (flag : Text)
    → is_restorable flag ≡ true
    → step (at flags none flag) space ≡ some (at (flags ++ flag ∷ []) none [])
unfolding step
step-space flags flag h = rw (end_flag-flag_of flags flag h)

pub scan_line :
    (flags : List Text) (flag : Text) (more : List Text)
    → is_restorable flag ≡ true
    → all is_restorable more ≡ true
    → ended (scan (join_words (quote_flag flag) (map quote_flag more)) (at flags none []))
      ≡ some (flags ++ flag ∷ more)
unfolding join_words
scan_line flags flag [] h k =
    ap ended (rw (append-nil (quote_flag flag)) at (scan-quote_flag flags [] flag h))
    ∙ (unfold scan in ap (λ (fs : List Text). some fs) (end_flag-flag_of flags flag h))
scan_line flags flag (next ∷ more) h k =
    let line = join_words (quote_flag next) (map quote_flag more) in
    ap ended (
      scan-quote_flag flags (space ∷ line) flag h
      ∙ scan-cons _ _ space line (step-space flags flag h))
    ∙ scan_line (flags ++ flag ∷ []) next more (ground arith) (ground arith)
    ∙ rw (append_assoc flags (flag ∷ []) (next ∷ more))

pub parse_of_ended :
    (line : Text) (program : Text) (flags : List Text)
    → ended (scan line start) ≡ some (program ∷ flags)
    → parse_flags line ≡ some flags
unfolding parse_flags finish without_program
parse_of_ended line program flags e = ground arith

pub parse-line :
    (flags : List Text)
    → all is_restorable flags ≡ true
    → parse_flags (join_words (codes "_") (map quote_flag flags)) ≡ some flags
parse-line flags h = parse_of_ended _ (codes "_") flags (
    unfold quote_flag split_value needs_quoting join_value in scan_line [] (codes "_") flags refl h)
