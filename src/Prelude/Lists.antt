-- ===== src/Prelude/Lists.antt =====
-- Lists measured by native numbers, the tests on lists that the program makes, and texts.
use Prim.Native.Nat.{ℕ, suc, ◌+◌}
use Prim.Native.Char.{code}
use Prim.Native.String.{String}
use mathlib.Core.Path.{◌≡◌, refl}
use mathlib.Core.List.{List, [], ◌∷◌, ◌++◌}
use mathlib.Core.Bool.{Bool, true, false, not, ◌&&◌}
use mathlib.Core.Option.{Option, none, some}
use native.Mathlib.Omega.{arith}
use udroid.Prelude.Tests.{if◌then◌else◌}

-- A text as the list of its character codes.
abbrev pub Text : Type 0
Text = List ℕ

abbrev pub codes : String → Text
codes String.[] = []
codes (String.◌∷◌ c s) = code c ∷ codes s

module _ {ℓ} {A : Type ℓ} where
  abbrev pub length : List A → ℕ
  length [] = 0
  length (x ∷ xs) = suc (length xs)

  abbrev pub is_empty : List A → Bool
  is_empty [] = true
  is_empty (x ∷ xs) = false

  -- Python's `xs[-1]`; `none` is the IndexError of an empty list.
  abbrev pub get_last? : List A → Option A
  get_last? [] = none
  get_last? (x ∷ []) = some x
  get_last? (x ∷ y ∷ xs) = get_last? (y ∷ xs)

  -- Python's `xs[:-1]`.
  abbrev pub drop_last : List A → List A
  drop_last [] = []
  drop_last (x ∷ []) = []
  drop_last (x ∷ y ∷ xs) = x ∷ drop_last (y ∷ xs)

  pub get_last?-snoc : (xs : List A) (a : A) → get_last? (xs ++ a ∷ []) ≡ some a
  get_last?-snoc [] a = refl
  get_last?-snoc (x ∷ []) a = refl
  get_last?-snoc (x ∷ y ∷ xs) a = get_last?-snoc (y ∷ xs) a

  pub get_last?-cons : (x : A) (xs : List A) → (l : A) × (get_last? (x ∷ xs) ≡ some l)
  get_last?-cons x [] = (x, refl)
  get_last?-cons x (y ∷ xs) = get_last?-cons y xs

  pub drop_last-snoc : (xs : List A) (a : A) → drop_last (xs ++ a ∷ []) ≡ xs
  drop_last-snoc [] a = refl
  drop_last-snoc (x ∷ []) a = refl
  drop_last-snoc (x ∷ y ∷ xs) a = rw (drop_last-snoc (y ∷ xs) a)

  pub length-append : (xs ys : List A) → length (xs ++ ys) ≡ length xs + length ys
  length-append [] ys = omega arith
  length-append (x ∷ xs) ys = omega (arith, length-append xs ys)

  abbrev pub all : (A → Bool) → List A → Bool
  all p [] = true
  all p (x ∷ xs) = p x && all p xs

  -- How many members of the list satisfy the test.
  abbrev pub how_many : (A → Bool) → List A → ℕ
  how_many p [] = 0
  how_many p (x ∷ xs) = if p x then suc (how_many p xs) else how_many p xs

  pub how_many-append :
      (p : A → Bool) (xs ys : List A) → how_many p (xs ++ ys) ≡ how_many p xs + how_many p ys
  how_many-append p [] ys = omega arith
  how_many-append p (x ∷ xs) ys = ground (arith, how_many-append p xs ys)

  pub how_many-all :
      (p : A → Bool) (xs : List A) → how_many (λ x. not (p x)) xs ≡ 0 → all p xs ≡ true
  how_many-all p [] h = refl
  how_many-all p (x ∷ xs) h = ground (arith, how_many-all p xs)
