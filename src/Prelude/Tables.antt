-- ===== src/Prelude/Tables.antt =====
-- A Python dict with keys of any type that is compared by a test, as the list of its items.
use mathlib.Core.Path.{◌≡◌, refl, ap, ◌∙◌}
use mathlib.Core.List.{List, [], ◌∷◌}
use mathlib.Core.Bool.{Bool, true, false}
use mathlib.Core.Logic.{inl, inr}
use mathlib.Core.Option.{Option, none, some}
use native.Mathlib.Omega.{arith}
use udroid.Prelude.Tests.{if◌then◌else◌, Bool-cases}

-- A test that decides equality.
pub record DecidesEq {K : Type 0} (same : K → K → Bool) : Type 0 where
  pub same-eq : (a b : K) → same a b ≡ true → a ≡ b
  pub same_refl : (a : K) → same a a ≡ true

module _ {K : Type 0} {same : K → K → Bool} (eq : DecidesEq same) where
  open eq use {same-eq, same_refl}

  differ : (i j k : K) → same i j ≡ true → same k j ≡ false → same i k ≡ false
  differ i j k p q = elim (Bool-cases (same i k)) [
    | inl e ↦ ground (arith, ap (λ (x : K). same x j) (same-eq i k e))
    | inr e ↦ e
  ]

  agree : (i j k : K) → same i j ≡ true → same i k ≡ same j k
  agree i j k p = ap (λ (x : K). same x k) (same-eq i j p)

  agree_right : (i j k : K) → same i j ≡ true → same k i ≡ same k j
  agree_right i j k p = ap (same k) (same-eq i j p)

  pub same_sym : (j k : K) → same j k ≡ false → same k j ≡ false
  same_sym j k h = elim (Bool-cases (same k j)) [
    | inl e ↦ ground (arith, agree k j j e, agree_right k j j e, same_refl j, agree_right k j k e)
    | inr e ↦ e
  ]

abbrev pub Table : Type 0 → Type 0 → Type 0
Table K V = List (K × V)

module _ {K V : Type 0} (same : K → K → Bool) where
  -- `t.get(k)`
  abbrev pub get : K → Table K V → Option V
  get k [] = none
  get k ((j, v) ∷ t) = if same k j then some v else get k t

  -- `t[k] = v`
  abbrev pub put : K → V → Table K V → Table K V
  put k v [] = (k, v) ∷ []
  put k v ((j, u) ∷ t) = if same k j then (j, v) ∷ t else (j, u) ∷ put k v t

  -- `del t[k]`, of a key that is there; the list has no key twice, and if it had, all would go.
  abbrev pub remove : K → Table K V → Table K V
  remove k [] = []
  remove k ((j, u) ∷ t) = let rest = remove k t in if same k j then rest else (j, u) ∷ rest

  module _ (eq : DecidesEq same) where
    pub get-put :
        (j k : K) (v : V) (t : Table K V)
        → get j (put k v t) ≡ (if same j k then some v else get j t)
    get-put j k v [] = refl
    get-put j k v ((i, u) ∷ t) = elim (Bool-cases (same k i)) [
      | inl e ↦ rw e (ground (arith, agree_right eq k i j e))
      | inr e ↦ rw e (elim (Bool-cases (same j i)) [
        | inl q ↦ rw (q, differ eq j i k q e) refl
        | inr q ↦ rw q (get-put j k v t)
      ])
    ]

    pub get-remove :
        (j k : K) (t : Table K V) → get j (remove k t) ≡ (if same j k then none else get j t)
    get-remove j k [] = ground arith
    get-remove j k ((i, u) ∷ t) = elim (Bool-cases (same k i)) [
      | inl e ↦ rw e (get-remove j k t ∙ ground (arith, agree_right eq k i j e))
      | inr e ↦ rw e (elim (Bool-cases (same j i)) [
        | inl q ↦ rw (q, differ eq j i k q e) refl
        | inr q ↦ rw q (get-remove j k t)
      ])
    ]

module _ {K V : Type 0} (same : K → K → Bool) where
  -- No key of the list stands in it twice.
  abbrev pub Distinct : Table K V → Type 0
  Distinct [] = Unit
  Distinct ((k, v) ∷ t) = (get same k t ≡ none) × Distinct t

  -- Each item is what the table has at its key, and no key is met twice.
  abbrev pub Listed : Table K V → Table K V → Type 0
  Listed [] t = Unit
  Listed ((k, v) ∷ items) t = (get same k t ≡ some v) × (get same k items ≡ none) × Listed items t

  module _ (eq : DecidesEq same) where
    pub Distinct-put : (k : K) (v : V) (t : Table K V) → Distinct t → Distinct (put same k v t)
    Distinct-put k v [] h = (refl, tt)
    Distinct-put k v ((j, u) ∷ t) h = elim (Bool-cases (same k j)) [
      | inl e ↦ rw e h
      | inr e ↦
          rw e (get-put same eq j k v t ∙ (rw (same_sym eq k j e) h.0), Distinct-put k v t h.1)
    ]

    pub Distinct-remove : (k : K) (t : Table K V) → Distinct t → Distinct (remove same k t)
    Distinct-remove k [] h = tt
    Distinct-remove k ((j, u) ∷ t) h = elim (Bool-cases (same k j)) [
      | inl e ↦ rw e (Distinct-remove k t h.1)
      | inr e ↦
          rw e (get-remove same eq j k t ∙ (rw (same_sym eq k j e) h.0), Distinct-remove k t h.1)
    ]

    absent-cons :
        (k j : K) (u : V) (t : Table K V)
        → get same k ((j, u) ∷ t) ≡ none
        → (same k j ≡ false) × (get same k t ≡ none)
    absent-cons k j u t h = ground arith

    Listed-cons :
        (k : K) (v : V) (items t : Table K V)
        → get same k items ≡ none
        → Listed items t
        → Listed items ((k, v) ∷ t)
    Listed-cons k v [] t h l = tt
    Listed-cons k v ((j, u) ∷ items) t h l =
        let (e, h') = absent-cons k j u items h in
        (rw (same_sym eq k j e) l.0, l.1, Listed-cons k v items t h' l.2)

    pub Listed-remove :
        (k : K) (items t : Table K V)
        → get same k items ≡ none
        → Listed items t
        → Listed items (remove same k t)
    Listed-remove k [] t h l = tt
    Listed-remove k ((j, u) ∷ items) t h l =
        let (e, h') = absent-cons k j u items h in
        (
          get-remove same eq j k t ∙ (rw (same_sym eq k j e) l.0),
          l.1,
          Listed-remove k items t h' l.2,
        )

    pub Listed-self : (t : Table K V) → Distinct t → Listed t t
    Listed-self [] h = tt
    Listed-self ((k, v) ∷ t) h =
        (rw (DecidesEq.same_refl eq k) refl, h.0, Listed-cons k v t t h.0 (Listed-self t h.1))
