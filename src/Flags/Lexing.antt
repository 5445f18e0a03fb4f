-- ===== src/Flags/Lexing.antt =====
-- How the tokenizer of flag_changer.py runs over a word, a quoted block and a space. A state is
-- written `at flags q text`: what is collected, the open quote, and the text of the flag so far.
use udroid.Prelude.{
  ◌⊎◌, inl, inr, ℕ, ◌≡◌, ◌≢◌, refl, true, false, Option, none, some, List, [], ◌∷◌, ◌++◌, Text,
  arith, get_last?, get_last?-snoc, get_last?-cons, drop_last-snoc,
}
use udroid.Flags.{quote, escape, is_space, delimits, Lexer, step, scan, delimiter, text_of}

-- `current_flag` is never an empty text: it is absent until its first character.
abbrev pub flag_of : Text → Option Text
flag_of [] = none
flag_of (c ∷ cs) = some (c ∷ cs)

abbrev pub at : List Text → Option ℕ → Text → Lexer
at flags q text = record { flags = flags; current_quote = q; current_flag = flag_of text }

flag_of-snoc : (text : Text) (c : ℕ) → flag_of (text ++ c ∷ []) ≡ some (text ++ c ∷ [])
flag_of-snoc [] c = refl
flag_of-snoc (x ∷ xs) c = refl

text_of-flag_of : (text : Text) → text_of (flag_of text) ≡ text
text_of-flag_of [] = refl
text_of-flag_of (x ∷ xs) = refl

pub scan-cons :
    (s s' : Lexer) (c : ℕ) (cs : Text) → step s c ≡ some s' → scan (c ∷ cs) s ≡ scan cs s'
unfolding scan
scan-cons s s' c cs e = rw (e, scan)

-- A text that does not end in a backslash, so that a quote behind it is a delimiter.
abbrev pub Closed : Text → Type 0
Closed text = get_last? text ≢ some escape

-- A character that neither delimits nor separates joins the flag.
pub step_literal :
    (flags : List Text) (q : Option ℕ) (text : Text) (c : ℕ)
    → delimits q c ≡ false
    → (q ≢ none) ⊎ (is_space c ≡ false)
    → step (at flags q text) c ≡ some (at flags q (text ++ c ∷ []))
unfolding step
step_literal flags none text c d (inl h) = absurd (h refl)
step_literal flags none text c d (inr h) = rw (d, h, flag_of-snoc, text_of-flag_of)
step_literal flags (some q) text c d h = rw (d, flag_of-snoc, text_of-flag_of)

-- A quote behind a backslash replaces it.
pub step_escaped :
    (flags : List Text) (q : Option ℕ) (text : Text) (c : ℕ)
    → delimits q c ≡ true
    → step (at flags q (text ++ escape ∷ [])) c ≡ some (at flags q (text ++ c ∷ []))
unfolding step delimiter
step_escaped flags q text c d =
    rw (d, flag_of-snoc text escape, flag_of-snoc text c, delimiter)
      (rw (get_last?-snoc text escape, drop_last-snoc text escape))

-- Any other quote opens or closes a block.
pub step_open :
    (flags : List Text) (text : Text)
    → Closed text
    → step (at flags none text) quote ≡ some (at flags (some quote) text)
unfolding step delimiter
step_open flags [] h = refl
step_open flags (x ∷ xs) h = ground (arith, get_last?-cons x xs)

pub step_close :
    (flags : List Text) (text : Text)
    → Closed text
    → step (at flags (some quote) text) quote ≡ some (at flags none text)
unfolding step delimiter
step_close flags [] h = refl
step_close flags (x ∷ xs) h = ground (arith, get_last?-cons x xs)
