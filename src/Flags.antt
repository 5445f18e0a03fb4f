-- ===== src/Flags.antt =====
-- armhf/udroid/wrapper/systrace-dir/catapult/devil/devil/android/flag_changer.py: the command line
-- of Chrome as text. Quoting and serialising flags, and the tokenizer that reads them back.
pub mod Quoting
pub mod Lexing
pub mod RoundTrip
pub mod Total
pub mod Strip
pub mod Losses
use udroid.Prelude.{
  ℕ, ◌≡◌, refl, Bool, true, false, not, ◌&&◌, ◌||◌, Option, none, some, List, [], ◌∷◌, ◌++◌, map,
  Text, codes, leb, ◌==◌, if◌then◌else◌, is_empty, get_last?, drop_last,
}

abbrev pub quote : ℕ
quote = 34

abbrev pub apostrophe : ℕ
apostrophe = 39

abbrev pub escape : ℕ
escape = 92

abbrev pub equals : ℕ
equals = 61

abbrev pub space : ℕ
space = 32

-- `[\w-]` of `_RE_NEEDS_QUOTING`: letters, digits, underscore, hyphen.
abbrev pub is_word : ℕ → Bool
is_word c =
    (leb b'a' c && leb c b'z')
    || (leb b'A' c && leb c b'Z')
    || (leb b'0' c && leb c b'9')
    || c == b'_'
    || c == b'-'

-- `_RE_NEEDS_QUOTING.search`
unfoldable pub needs_quoting : Text → Bool
needs_quoting [] = false
needs_quoting (c ∷ cs) = not (is_word c) || needs_quoting cs

-- `flag.split('=', 1)`, with `none` for a flag that has no equals sign.
unfoldable pub split_value : Text → Text × Option Text
split_value [] = ([], none)
split_value (c ∷ cs) =
    let (key, value) = split_value cs in if c == equals then ([], some cs) else (c ∷ key, value)

-- `text.replace('"', r'\"')`
pub escape_quotes : Text → Text
escape_quotes [] = []
escape_quotes (c ∷ cs) =
    if c == quote then escape ∷ quote ∷ escape_quotes cs else c ∷ escape_quotes cs

pub quoted : Text → Text
quoted text = quote ∷ (escape_quotes text ++ quote ∷ [])

pub quote_value : Text → Text
quote_value value = if needs_quoting value then quoted value else value

pub join_value : Text → Option Text → Text
join_value key none = key
join_value key (some value) = key ++ (equals ∷ quote_value value)

pub quote_flag : Text → Text
unfolding needs_quoting split_value escape_quotes quoted quote_value join_value
quote_flag flag =
    let (key, value) = split_value flag in
    if is_empty flag || needs_quoting key then quoted flag else join_value key value

-- `' '.join([first] + rest)`
pub join_words : Text → List Text → Text
join_words first [] = first
join_words first (w ∷ ws) = first ++ (space ∷ join_words w ws)

unfoldable pub serialize_flags : List Text → Option Text
unfolding quote_flag join_words
serialize_flags [] = none
serialize_flags (flag ∷ flags) = some (join_words (codes "_") (map quote_flag (flag ∷ flags)))

-- The variables of the loop in `_ParseFlags`.
pub record Lexer : Type 0 where
  pub flags : List Text
  pub current_quote : Option ℕ
  pub current_flag : Option Text

abbrev pub start : Lexer
start = record { flags = []; current_quote = none; current_flag = none }

-- `str.isspace` of one byte.
abbrev pub is_space : ℕ → Bool
is_space c = c == 32 || (leb 9 c && leb c 13)

-- The test of the first branch: `c` starts or ends a quoted block.
abbrev pub delimits : Option ℕ → ℕ → Bool
delimits none c = c == quote || c == apostrophe
delimits (some q) c = c == q

abbrev pub toggled : Option ℕ → ℕ → Option ℕ
toggled none c = some c
toggled (some q) c = none

-- The first branch, at `current_flag`; `none` stands for an IndexError of `current_flag[-1]`.
pub delimiter : Lexer → ℕ → Option Text → Option Lexer
delimiter s c none = some (record s { current_quote = toggled s.current_quote c })
delimiter s c (some flag) = elim (get_last? flag) [
  | none ↦ none
  | some l ↦
      if l == escape
      then some (record s { current_flag = some (drop_last flag ++ c ∷ []) })
      else some (record s { current_quote = toggled s.current_quote c })
]

pub end_flag : List Text → Option Text → List Text
end_flag flags none = flags
end_flag flags (some flag) = flags ++ flag ∷ []

abbrev pub text_of : Option Text → Text
text_of none = []
text_of (some flag) = flag

abbrev pub unquoted : Option ℕ → Bool
unquoted none = true
unquoted (some q) = false

-- One round of the loop.
pub step : Lexer → ℕ → Option Lexer
step s c =
    if delimits s.current_quote c
    then delimiter s c s.current_flag
    else if unquoted s.current_quote && is_space c
    then some (record s { flags = end_flag s.flags s.current_flag; current_flag = none })
    else some (record s { current_flag = some (text_of s.current_flag ++ c ∷ []) })

pub scan : Text → Lexer → Option Lexer
scan [] s = some s
scan (c ∷ cs) s = elim (step s c) [ none ↦ none | some s' ↦ scan cs s' ]

-- `flags[1:]`
pub without_program : List Text → List Text
without_program [] = []
without_program (program ∷ flags) = flags

pub finish : Lexer → List Text
finish s = without_program (end_flag s.flags s.current_flag)

unfoldable pub parse_flags : Text → Option (List Text)
unfolding scan step delimiter end_flag finish without_program
parse_flags line = elim (scan line start) [ none ↦ none | some s ↦ some (finish s) ]

parse_sample :
    parse_flags (codes "_ --a=b --msg=\"x \\\"y\\\" z\" ' q'")
    ≡ some (codes "--a=b" ∷ codes "--msg=x \"y\" z" ∷ codes " q" ∷ [])
unfolding parse_flags
parse_sample = refl
