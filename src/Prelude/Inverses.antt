-- ===== src/Prelude/Inverses.antt =====
-- Two tables of which the second maps the values of the first back to the keys.
use mathlib.Core.Path.{◌≡◌, refl, ap, ◌∙◌, sym}
use mathlib.Core.Bool.{Bool, true, false}
use mathlib.Core.Logic.{inl, inr}
use mathlib.Core.Option.{Option, none, some}
use native.Mathlib.Omega.{arith}
use udroid.Prelude.Tests.{Bool-cases}
use udroid.Prelude.Tables.{DecidesEq, Table, get, put, remove, get-put, get-remove}

module _ {K V : Type 0} {same : K → K → Bool} {same' : V → V → Bool} (eq : DecidesEq same)
    (eq' : DecidesEq same') where
  -- What `u` says of a value, `t` says of the key.
  abbrev pub Undoes : Table V K → Table K V → Type 0
  Undoes u t = (k : K) (v : V) → get same' v u ≡ some k → get same k t ≡ some v

  abbrev is_value : V → Option V → Bool
  is_value v none = false
  is_value v (some j) = same' j v

  pub Undoes-put :
      (k : K) (v : V) (u : Table V K) (t : Table K V)
      → Undoes u t
      → get same k t ≡ none
      → Undoes (put same' v k u) (put same k v t)
  Undoes-put k v u t h free p j e = elim (Bool-cases (same' j v)) [
    | inl q ↦
        let back = ap (λ (x : V). some x) (sym (DecidesEq.same-eq eq' j v q)) in
        let at_key : same k p ≡ true =
          ground (arith, get-put same' eq' j v k u, DecidesEq.same_refl eq k) in
        let key = DecidesEq.same-eq eq k p at_key in
        get-put same eq p k v t
        ∙ (rw (ap (λ (x : K). same x k) (sym key) ∙ DecidesEq.same_refl eq k) back)
    | inr q ↦
        let old = h p j (sym (get-put same' eq' j v k u ∙ (rw q refl)) ∙ e) in
        elim (Bool-cases (same p k)) [
          | inl r ↦
              let none_some : none ≡ some j =
                sym (ap (λ (x : K). get same x t) (DecidesEq.same-eq eq p k r) ∙ free) ∙ old in
              cc
          | inr r ↦ get-put same eq p k v t ∙ (rw r old)
        ]
  ]

  pub Undoes-remove :
      (k : K) (v : V) (u : Table V K) (t : Table K V)
      → Undoes u t
      → get same k t ≡ some v
      → Undoes (remove same' v u) (remove same k t)
  Undoes-remove k v u t h there p j e = elim (Bool-cases (same' j v)) [
    | inl q ↦ ground (arith, get-remove same' eq' j v u)
    | inr q ↦
        let old = h p j (sym (get-remove same' eq' j v u ∙ (rw q refl)) ∙ e) in
        elim (Bool-cases (same p k)) [
          | inl r ↦
              let one_value : some j ≡ some v =
                sym old ∙ ap (λ (x : K). get same x t) (DecidesEq.same-eq eq p k r) ∙ there in
              let clash : false ≡ true =
                sym q ∙ ap (is_value v) one_value ∙ DecidesEq.same_refl eq' v in
              cc
          | inr r ↦ get-remove same eq p k t ∙ (rw r old)
        ]
  ]
