-- ===== src/Flags/Losses.antt =====
-- Flags that flag_changer.py writes and does not read back.
use udroid.Prelude.{
  ℕ, ◌≡◌, refl, ap, ◌∙◌, true, none, some, List, [], ◌∷◌, ◌++◌, Text, codes, all, arith,
}
use udroid.Flags.{
  quote, escape, scan, end_flag, join_words, serialize_flags, parse_flags, quote_flag, quoted,
  escape_quotes, split_value, needs_quoting,
}
use udroid.Flags.Lexing.{at, flag_of, scan-cons, step_escaped}
use udroid.Flags.Quoting.{scan_escaped}
use udroid.Flags.RoundTrip.{is_restorable, ended, scan_line, parse_of_ended}
use udroid.Flags.Strip.{read_back, strip-line}

-- An empty flag in front of others vanishes: what comes back is the others.
pub empty_flag_vanishes :
    (flags : List Text)
    → all is_restorable flags ≡ true
    → parse_flags (read_back (serialize_flags ([] ∷ flags))) ≡ some flags
empty_flag_vanishes [] h = unfold parse_flags read_back serialize_flags in refl
empty_flag_vanishes (flag ∷ flags) h =
    unfold read_back serialize_flags in
    rw (strip-line ([] ∷ flag ∷ flags)) (
      parse_of_ended _ (codes "_") (flag ∷ flags)
        (unfold parse_flags in scan_line (codes "_" ∷ []) flag flags (ground arith) (ground arith)))

scan_unclosed :
    (flags : List Text) (text : Text)
    → scan (escape_quotes (text ++ escape ∷ []) ++ quote ∷ []) (at flags (some quote) [])
      ≡ some (at flags (some quote) (text ++ quote ∷ []))
scan_unclosed flags text =
    scan_escaped flags (text ++ escape ∷ []) (quote ∷ []) []
    ∙ scan-cons _ _ quote [] (step_escaped flags (some quote) text quote refl)
    ∙ (unfold scan in refl)

end_flag-snoc :
    (flags : List Text) (text : Text) (c : ℕ)
    → end_flag flags (flag_of (text ++ c ∷ [])) ≡ flags ++ (text ++ c ∷ []) ∷ []
unfolding end_flag
end_flag-snoc flags [] c = refl
end_flag-snoc flags (x ∷ xs) c = refl

quote_flag-quoted :
    (flag : Text) → needs_quoting (split_value flag).0 ≡ true → quote_flag flag ≡ quoted flag
unfolding quote_flag
quote_flag-quoted [] h = refl
quote_flag-quoted (c ∷ cs) h = rw h refl

-- A flag whose key needs quoting and that ends in a backslash comes back with a double quote in
-- the place of the backslash, since the backslash takes the closing quote.
pub last_backslash_becomes_quote :
    (text : Text)
    → needs_quoting (split_value (text ++ escape ∷ [])).0 ≡ true
    → parse_flags (read_back (serialize_flags ((text ++ escape ∷ []) ∷ [])))
      ≡ some ((text ++ quote ∷ []) ∷ [])
last_backslash_becomes_quote text h =
    unfold read_back serialize_flags in
    rw (strip-line ((text ++ escape ∷ []) ∷ [])) (
      parse_of_ended _ (codes "_") ((text ++ quote ∷ []) ∷ []) (
        unfold parse_flags join_words in
        ap (λ (w : Text). ended (scan w (at (codes "_" ∷ []) none [])))
          (quote_flag-quoted (text ++ escape ∷ []) h)
        ∙ ap ended (unfold quoted in scan_unclosed (codes "_" ∷ []) text)
        ∙ ap (λ (fs : List Text). some fs) (end_flag-snoc (codes "_" ∷ []) text quote)))
