-- ===== src/Prelude/Maps.antt =====
-- A Python dict with texts for keys, as the list of its items in the order of insertion.
use mathlib.Core.Path.{◌≡◌, refl, ap}
use mathlib.Core.List.{List, [], ◌∷◌}
use mathlib.Core.Bool.{true, false}
use mathlib.Core.Logic.{inl, inr}
use mathlib.Core.Option.{Option, none, some}
use native.Mathlib.Omega.{arith}
use udroid.Prelude.Tests.{if◌then◌else◌, Bool-cases}
use udroid.Prelude.Lists.{Text}
use udroid.Prelude.Texts.{text_eq, text_eq-eq}

abbrev pub Dict {ℓ} : Type ℓ → Type ℓ
Dict V = List (Text × V)

module _ {ℓ} {V : Type ℓ} where
  -- `d.get(k)`
  abbrev pub lookup : Text → Dict V → Option V
  lookup k [] = none
  lookup k ((j, v) ∷ d) = if text_eq k j then some v else lookup k d

  -- `d[k] = v`: a key that is there keeps its place.
  abbrev pub insert : Text → V → Dict V → Dict V
  insert k v [] = (k, v) ∷ []
  insert k v ((j, u) ∷ d) = if text_eq k j then (j, v) ∷ d else (j, u) ∷ insert k v d

  pub lookup_same : (j k : Text) (d : Dict V) → text_eq j k ≡ true → lookup j d ≡ lookup k d
  lookup_same j k d h = ap (λ (t : Text). lookup t d) (text_eq-eq j k h)

  pub lookup-insert :
      (j k : Text) (v : V) (d : Dict V)
      → lookup j (insert k v d) ≡ (if text_eq j k then some v else lookup j d)
  lookup-insert j k v [] = refl
  lookup-insert j k v ((i, u) ∷ d) = elim (Bool-cases (text_eq k i)) [
    | inl e ↦ rw (e, text_eq-eq k i e) (ground arith)
    | inr e ↦ rw e (elim (Bool-cases (text_eq j i)) [
      | inl q ↦ rw q (ground (arith, differ q e))
      | inr q ↦ rw q (lookup-insert j k v d)
    ])
  ]
    where
      differ : text_eq j i ≡ true → text_eq k i ≡ false → text_eq j k ≡ false
      differ q e = elim (Bool-cases (text_eq j k)) [
        | inl s ↦ ground (arith, ap (λ (t : Text). text_eq t i) (text_eq-eq j k s))
        | inr s ↦ s
      ]
