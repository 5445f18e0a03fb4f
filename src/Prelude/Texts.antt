-- ===== src/Prelude/Texts.antt =====
-- Equality and membership of texts, as Python's `==` and `in` decide them.
use mathlib.Core.Path.{◌≡◌, refl, ap}
use mathlib.Core.Logic.{inl, inr}
use mathlib.Core.List.{List, [], ◌∷◌, ◌++◌}
use mathlib.Core.Bool.{Bool, true, false, ◌&&◌, ◌||◌, not}
use native.Mathlib.Omega.{arith}
use udroid.Prelude.Tests.{◌==◌, if◌then◌else◌, Bool-cases}
use udroid.Prelude.Lists.{Text, all}

abbrev pub text_eq : Text → Text → Bool
text_eq [] [] = true
text_eq (x ∷ xs) (y ∷ ys) = x == y && text_eq xs ys
text_eq _ _ = false

pub text_eq_refl : (xs : Text) → text_eq xs xs ≡ true
text_eq_refl [] = refl
text_eq_refl (x ∷ xs) = ground (arith, text_eq_refl xs)

pub text_eq-eq : (xs ys : Text) → text_eq xs ys ≡ true → xs ≡ ys
text_eq-eq [] [] h = refl
text_eq-eq [] (y ∷ ys) h = cc
text_eq-eq (x ∷ xs) [] h = cc
text_eq-eq (x ∷ xs) (y ∷ ys) h = ground (arith, text_eq-eq xs ys)

-- `text in texts`
abbrev pub contains : Text → List Text → Bool
contains t [] = false
contains t (x ∷ xs) = text_eq t x || contains t xs

pub contains-append :
    (t : Text) (xs ys : List Text) → contains t (xs ++ ys) ≡ (contains t xs || contains t ys)
contains-append t [] ys = refl
contains-append t (x ∷ xs) ys = ground (arith, contains-append t xs ys)

-- `set.difference`: the texts that are not in `removed`.
abbrev pub difference : List Text → List Text → List Text
difference [] removed = []
difference (x ∷ xs) removed =
    let rest = difference xs removed in if contains x removed then rest else x ∷ rest

pub contains-difference :
    (t : Text) (xs removed : List Text)
    → contains t (difference xs removed) ≡ (contains t xs && not (contains t removed))
contains-difference t [] removed = refl
contains-difference t (x ∷ xs) removed = ground (arith, contains-difference t xs removed, agree)
  where
    agree : text_eq t x ≡ true → contains t removed ≡ contains x removed
    agree h = ap (λ (u : Text). contains u removed) (text_eq-eq t x h)

-- What holds of each text of a list holds of each text that the list contains.
pub all_of_contains :
    (p : Text → Bool) (t : Text) (xs : List Text)
    → all p xs ≡ true
    → contains t xs ≡ true
    → p t ≡ true
all_of_contains p t [] h k = cc
all_of_contains p t (x ∷ xs) h k = elim (Bool-cases (text_eq t x)) [
  | inl e ↦ ground (arith, ap p (text_eq-eq t x e))
  | inr e ↦ ground (arith, all_of_contains p t xs)
]

pub all_of_subset :
    (p : Text → Bool) (xs ys : List Text)
    → all p xs ≡ true
    → ((t : Text) → contains t ys ≡ true → contains t xs ≡ true)
    → all p ys ≡ true
all_of_subset p xs [] h sub = refl
all_of_subset p xs (y ∷ ys) h sub = ground (
  arith,
  all_of_contains p y xs h (sub y (ground (arith, text_eq_refl y))),
  all_of_subset p xs ys h (λ t k. sub t (ground arith)),
)
