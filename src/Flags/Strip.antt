-- ===== src/Flags/Strip.antt =====
-- `str.strip`, and the lines that it leaves alone.
use udroid.Prelude.{
  ℕ, ◌≡◌, refl, inl, inr, Bool, true, false, not, ◌&&◌, List, [], ◌∷◌, ◌++◌, Text, codes, map,
  Option, none, some, arith, is_empty, all, if◌then◌else◌, Bool-cases,
}
use udroid.Flags.{
  quote, equals, space, is_space, join_words, parse_flags, serialize_flags, escape_quotes, quoted,
  quote_value, quote_flag, split_value, join_value, needs_quoting,
}
use udroid.Flags.RoundTrip.{is_restorable, parse-line, glue, glue-split_value}

pub lstrip : Text → Text
lstrip [] = []
lstrip (c ∷ cs) = let rest = lstrip cs in if is_space c then rest else c ∷ cs

pub rstrip : Text → Text
rstrip [] = []
rstrip (c ∷ cs) = let rest = rstrip cs in if is_space c && is_empty rest then [] else c ∷ rest

unfoldable pub strip : Text → Text
unfolding lstrip rstrip
strip line = rstrip (lstrip line)

-- A text whose last character is there and is no space.
abbrev ends_solid : Text → Bool
ends_solid [] = false
ends_solid (c ∷ []) = not (is_space c)
ends_solid (c ∷ d ∷ cs) = ends_solid (d ∷ cs)

ends_solid-append : (xs ys : Text) → ends_solid ys ≡ true → ends_solid (xs ++ ys) ≡ true
ends_solid-append [] ys h = h
ends_solid-append (x ∷ []) [] h = cc
ends_solid-append (x ∷ []) (y ∷ ys) h = h
ends_solid-append (x ∷ z ∷ xs) ys h = ends_solid-append (z ∷ xs) ys h

rstrip_solid : (xs : Text) → ends_solid xs ≡ true → rstrip xs ≡ xs
unfolding rstrip
rstrip_solid [] h = refl
rstrip_solid (c ∷ []) h = ground arith
rstrip_solid (c ∷ d ∷ cs) h = ground (arith, rstrip_solid (d ∷ cs) h)

word_solid : (c : ℕ) (cs : Text) → needs_quoting (c ∷ cs) ≡ false → ends_solid (c ∷ cs) ≡ true
unfolding needs_quoting
word_solid c [] h = ground arith
word_solid c (d ∷ cs) h = word_solid d cs (ground arith)

quoted_solid : (text : Text) → ends_solid (quoted text) ≡ true
unfolding quoted
quoted_solid text = ends_solid-append (quote ∷ escape_quotes text) (quote ∷ []) refl

value_solid : (value : Text) → ends_solid (equals ∷ quote_value value) ≡ true
unfolding quote_value
value_solid [] = unfold needs_quoting in refl
value_solid (c ∷ cs) = elim (Bool-cases (needs_quoting (c ∷ cs))) [
  | inl e ↦ rw e (ends_solid-append (equals ∷ []) (quoted (c ∷ cs)) (quoted_solid (c ∷ cs)))
  | inr e ↦ rw e (word_solid c cs e)
]

join_value_solid :
    (c : ℕ) (cs : Text) (s : Text × Option Text)
    → needs_quoting s.0 ≡ false
    → glue s ≡ c ∷ cs
    → ends_solid (join_value s.0 s.1) ≡ true
unfolding join_value
join_value_solid c cs ([], none) w e = cc
join_value_solid c cs (x ∷ xs, none) w e = word_solid x xs w
join_value_solid c cs (key, some value) w e =
    ends_solid-append key (equals ∷ quote_value value) (value_solid value)

quote_flag_solid : (flag : Text) → ends_solid (quote_flag flag) ≡ true
unfolding quote_flag
quote_flag_solid [] = quoted_solid []
quote_flag_solid (c ∷ cs) = elim (Bool-cases (needs_quoting (split_value (c ∷ cs)).0)) [
  | inl e ↦ rw e (quoted_solid (c ∷ cs))
  | inr e ↦ rw e (join_value_solid c cs (split_value (c ∷ cs)) e (glue-split_value (c ∷ cs)))
]

solid_after_space : (t : Text) → ends_solid t ≡ true → ends_solid (space ∷ t) ≡ true
solid_after_space [] k = cc
solid_after_space (x ∷ xs) k = k

join_words_solid :
    (first : Text) (flags : List Text)
    → ends_solid first ≡ true
    → ends_solid (join_words first (map quote_flag flags)) ≡ true
unfolding join_words
join_words_solid first [] h = h
join_words_solid first (flag ∷ flags) h =
    let rest = join_words (quote_flag flag) (map quote_flag flags) in
    ends_solid-append first (space ∷ rest)
      (solid_after_space rest (join_words_solid (quote_flag flag) flags (quote_flag_solid flag)))

lstrip_underscore : (cs : Text) → lstrip (b'_' ∷ cs) ≡ b'_' ∷ cs
unfolding lstrip
lstrip_underscore cs = refl

line_head :
    (flags : List Text) → (cs : Text) × (join_words (codes "_") (map quote_flag flags) ≡ b'_' ∷ cs)
unfolding join_words
line_head [] = ([], refl)
line_head (flag ∷ flags) = (space ∷ join_words (quote_flag flag) (map quote_flag flags), refl)

-- `strip` leaves a serialised command line alone.
pub strip-line :
    (flags : List Text)
    → strip (join_words (codes "_") (map quote_flag flags))
      ≡ join_words (codes "_") (map quote_flag flags)
unfolding strip
strip-line flags =
    let (cs, e) = line_head flags in
    let solid = join_words_solid (codes "_") flags refl in
    rw e (rw (lstrip_underscore cs) (rstrip_solid (b'_' ∷ cs) (rw e at solid)))

-- What GetCurrentFlags parses: the stripped file, or nothing where there is no file.
unfoldable pub read_back : Option Text → Text
unfolding strip
read_back none = []
read_back (some text) = strip text

-- Flags that are neither empty nor end in a backslash come back, in order, from the file that
-- they were written to; no flags remove the file, and come back from that too.
pub parse-serialize :
    (flags : List Text)
    → all is_restorable flags ≡ true
    → parse_flags (read_back (serialize_flags flags)) ≡ some flags
parse-serialize [] h = unfold parse_flags read_back serialize_flags in refl
parse-serialize (flag ∷ flags) h =
    unfold read_back serialize_flags in rw (strip-line (flag ∷ flags)) (parse-line (flag ∷ flags) h)
