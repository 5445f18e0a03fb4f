-- ===== src/Prelude/Ints.antt =====
-- Integers over the native numbers, Python's `int` of a text, and `split` and `strip`.
use Prim.Native.Nat.{ℕ, zero, suc, ◌+◌, ◌-◌, ◌*◌, ◌/◌, ◌%◌}
use mathlib.Core.Path.{◌≡◌}
use mathlib.Core.List.{List, [], ◌∷◌, ◌++◌}
use mathlib.Core.Bool.{Bool, true, false, ◌&&◌, ◌||◌, not}
use mathlib.Core.Option.{Option, none, some}
use native.Mathlib.Omega.{arith}
use udroid.Prelude.Tests.{leb, ltb, ◌==◌, if◌then◌else◌}
use udroid.Prelude.Lists.{Text, all, is_empty}

-- `negsuc n` is -(n + 1).
pub data ℤ : Type 0 where
  pos : ℕ → ℤ
  negsuc : ℕ → ℤ

abbrev pub same_int : ℤ → ℤ → Bool
same_int (pos a) (pos b) = a == b
same_int (negsuc a) (negsuc b) = a == b
same_int _ _ = false

abbrev pub le_int : ℤ → ℤ → Bool
le_int (pos a) (pos b) = leb a b
le_int (pos a) (negsuc b) = false
le_int (negsuc a) (pos b) = true
le_int (negsuc a) (negsuc b) = leb b a

pub same_int-eq : (a b : ℤ) → same_int a b ≡ true → a ≡ b
same_int-eq (pos a) (pos b) h = ground arith
same_int-eq (pos a) (negsuc b) h = cc
same_int-eq (negsuc a) (pos b) h = cc
same_int-eq (negsuc a) (negsuc b) h = ground arith

pub same_int_refl : (a : ℤ) → same_int a a ≡ true
same_int_refl (pos a) = ground arith
same_int_refl (negsuc a) = ground arith

-- The characters that `str.strip` takes away.
abbrev pub is_space : ℕ → Bool
is_space c = c == b' ' || leb 9 c && leb c 13

abbrev pub strip_left : Text → Text
strip_left [] = []
strip_left (c ∷ text) = let rest = strip_left text in if is_space c then rest else c ∷ text

abbrev pub keep_right : ℕ → Text → Text
keep_right c [] = if is_space c then [] else c ∷ []
keep_right c (d ∷ text) = c ∷ d ∷ text

abbrev pub strip_right : Text → Text
strip_right [] = []
strip_right (c ∷ text) = keep_right c (strip_right text)

abbrev pub strip : Text → Text
strip text = strip_right (strip_left text)

abbrev pub is_digit : ℕ → Bool
is_digit c = leb b'0' c && leb c b'9'

abbrev pub digits_value : ℕ → Text → ℕ
digits_value n [] = n
digits_value n (c ∷ text) = digits_value (n * 10 + (c - b'0')) text

abbrev pub natural_of : Text → Option ℕ
natural_of text =
    if not (is_empty text) && all is_digit text then some (digits_value 0 text) else none

abbrev pub negated : ℕ → ℤ
negated zero = pos 0
negated (suc n) = negsuc n

abbrev pub as_int : Option ℕ → (ℕ → ℤ) → Option ℤ
as_int none f = none
as_int (some n) f = some (f n)

abbrev pub signed_of : Text → Option ℤ
signed_of [] = none
signed_of (c ∷ text) =
    if c == b'-'
    then as_int (natural_of text) negated
    else if c == b'+'
    then as_int (natural_of text) (λ n. pos n)
    else as_int (natural_of (c ∷ text)) (λ n. pos n)

-- `int(text)`; no value is a ValueError.
unfoldable pub int_of : Text → Option ℤ
int_of text = signed_of (strip text)

abbrev pub cons_head : ℕ → List Text → List Text
cons_head c [] = (c ∷ []) ∷ []
cons_head c (t ∷ ts) = (c ∷ t) ∷ ts

-- `text.split(separator)` of one character.
abbrev pub split : ℕ → Text → List Text
split separator [] = [] ∷ []
split separator (c ∷ text) =
    let rest = split separator text in if c == separator then [] ∷ rest else cons_head c rest

-- The digits of a number, of at most `fuel` of them.
abbrev pub digits_of : ℕ → ℕ → Text
digits_of zero n = []
digits_of (suc fuel) n =
    let before = digits_of fuel (n / 10) in
    if ltb n 10 then (b'0' + n) ∷ [] else before ++ (b'0' + n % 10) ∷ []

-- `'%d' % n`
abbrev pub decimal : ℕ → Text
decimal n = digits_of (suc n) n
