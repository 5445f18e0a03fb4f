-- ===== src/Flags/Quoting.antt =====
-- What the tokenizer of flag_changer.py makes of a quoted flag.
use udroid.Prelude.{
  ℕ, ◌≡◌, refl, ◌∙◌, inl, inr, Bool, true, not, ◌&&◌, none, some, List, [], ◌∷◌, ◌++◌, Text, arith,
  ◌==◌, all, append_assoc, append-nil, Bool-cases, ==_iff,
}
use udroid.Flags.{quote, escape, is_space, delimits, scan, escape_quotes, quoted}
use udroid.Flags.Lexing.{at, Closed, scan-cons, step_literal, step_escaped, step_open, step_close}

abbrev pub is_plain : ℕ → Bool
is_plain c = not (delimits none c) && not (is_space c)

module _ (flags : List Text) where
  pub scan_plain :
      (w rest text : Text)
      → all is_plain w ≡ true
      → scan (w ++ rest) (at flags none text) ≡ scan rest (at flags none (text ++ w))
  scan_plain [] rest text h = rw (append-nil text)
  scan_plain (c ∷ cs) rest text h =
      scan-cons _ _ c (cs ++ rest)
        (step_literal flags none text c (ground arith) (inr (ground arith)))
      ∙ scan_plain cs rest (text ++ c ∷ []) (ground arith)
      ∙ rw (append_assoc text (c ∷ []) cs)

  pub scan_escaped :
      (w rest text : Text)
      → scan (escape_quotes w ++ rest) (at flags (some quote) text)
        ≡ scan rest (at flags (some quote) (text ++ w))
  unfolding escape_quotes
  scan_escaped [] rest text = rw (append-nil text)
  scan_escaped (c ∷ cs) rest text = elim (Bool-cases (c == quote)) [
    | inl e ↦
        rw (e, (==_iff c quote).0 e)
          (scan-cons _ _ escape (quote ∷ (escape_quotes cs ++ rest))
              (step_literal flags (some quote) text escape refl (inl (λ h. cc)))
            ∙ scan-cons _ _ quote (escape_quotes cs ++ rest)
                (step_escaped flags (some quote) text quote refl)
            ∙ scan_escaped cs rest (text ++ quote ∷ [])
            ∙ rw (append_assoc text (quote ∷ []) cs))
    | inr e ↦ rw e (
        scan-cons _ _ c (escape_quotes cs ++ rest)
          (step_literal flags (some quote) text c e (inl (λ h. cc)))
        ∙ scan_escaped cs rest (text ++ c ∷ [])
        ∙ rw (append_assoc text (c ∷ []) cs))
  ]

  pub scan-quoted :
      (w rest text : Text)
      → Closed text
      → Closed (text ++ w)
      → scan (quoted w ++ rest) (at flags none text) ≡ scan rest (at flags none (text ++ w))
  unfolding quoted
  scan-quoted w rest text h k =
      scan-cons _ _ quote ((escape_quotes w ++ quote ∷ []) ++ rest) (step_open flags text h)
      ∙ rw (append_assoc (escape_quotes w) (quote ∷ []) rest) (scan_escaped w (quote ∷ rest) text)
      ∙ scan-cons _ _ quote rest (step_close flags (text ++ w) k)
