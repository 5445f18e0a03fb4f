-- ===== src/Threads/Collecting.antt =====
-- What is left of the threads when all have ended: the values in their order, or the first exception.
use udroid.Prelude.{ℕ, true, false, Option, none, some, List, [], ◌∷◌, map, ◌≡◌, refl, ap, arith}
use udroid.Prelude.Effects.{Outcome, ok, err}
use udroid.Threads.{
  System, GroupError, raised, timeout_error, assertion_error, unfinished, is_member,
  reraise_if_exception, then_ret, get_return_value, reraise_all, any_alive, cons_value,
  return_values,
}

module _ {W E A : Type 0} (system : System W E A) where
  -- The exception of the first of the threads that has one.
  abbrev pub first_exception : List ℕ → W → Option E
  first_exception [] w = none
  first_exception (t ∷ ts) w = elim (system.exc_info t w) [
    | some e ↦ some e
    | none ↦ first_exception ts w
  ]

  abbrev pub rets : List ℕ → W → List (Option A)
  rets ts w = map (λ t. system.ret t w) ts

  pub none_alive :
      (ts : List ℕ) (w : W)
      → ((u : ℕ) → is_member u ts ≡ true → system.is_alive u w ≡ false)
      → any_alive system ts w ≡ false
  none_alive [] w h = refl
  none_alive (t ∷ ts) w h =
      rw (h t (ground arith), none_alive ts w (λ u m. h u (ground arith))) refl

  -- A call that returns has met no exception, and one that reraises has met that as the first.
  abbrev pub Reraised : {B : Type 0} → Option E → Outcome (GroupError E) B → Type 0
  Reraised first (ok b) = first ≡ none
  Reraised first (err (raised e)) = first ≡ some e
  Reraised first (err timeout_error) = Unit
  Reraised first (err assertion_error) = Unit
  Reraised first (err unfinished) = Unit

  pub reraise_all-Reraised :
      (ts : List ℕ) (w : W) → Reraised (first_exception ts w) (reraise_all system ts w)
  unfolding reraise_all reraise_if_exception
  reraise_all-Reraised [] w = refl
  reraise_all-Reraised (t ∷ ts) w = go (system.exc_info t w) (reraise_all-Reraised ts w)
    where
      go :
          (m : Option E)
          → Reraised (first_exception ts w) (reraise_all system ts w)
          → Reraised
              (elim m [ some e ↦ some e | none ↦ first_exception ts w ])
              (elim (elim m as (λ _. Outcome (GroupError E) (Unit {0})) [
                | none ↦ ok tt
                | some e ↦ err (raised e)
              ])
                as (λ _. Outcome (GroupError E) (Unit {0})) [
                  | err e ↦ err e
                  | ok _ ↦ reraise_all system ts w
                ])
      go none h = h
      go (some e) h = refl

  -- What return_values gives: the values of all the threads, in their order, or the first exception.
  abbrev pub Collected : List ℕ → W → Outcome (GroupError E) (List (Option A)) → Type 0
  Collected ts w (ok values) = (values ≡ rets ts w) × (first_exception ts w ≡ none)
  Collected ts w (err (raised e)) = first_exception ts w ≡ some e
  Collected ts w (err timeout_error) = Unit
  Collected ts w (err assertion_error) = Unit
  Collected ts w (err unfinished) = Unit

  pub return_values-Collected : (ts : List ℕ) (w : W) → Collected ts w (return_values system ts w)
  unfolding return_values get_return_value reraise_if_exception
  return_values-Collected [] w = (refl, refl)
  return_values-Collected (t ∷ ts) w =
      go (system.exc_info t w) (return_values system ts w) (return_values-Collected ts w)
    where
      Here : Option E → Outcome (GroupError E) (List (Option A)) → Type 0
      Here m (ok values) =
          (values ≡ rets (t ∷ ts) w)
          × (elim m [ some e ↦ some e | none ↦ first_exception ts w ] ≡ none)
      Here m (err (raised e)) = elim m [ some e ↦ some e | none ↦ first_exception ts w ] ≡ some e
      Here m (err timeout_error) = Unit
      Here m (err assertion_error) = Unit
      Here m (err unfinished) = Unit

      go :
          (m : Option E) (rest : Outcome (GroupError E) (List (Option A)))
          → Collected ts w rest
          → Here m (
              cons_value system
                (then_ret system t w (elim m [ none ↦ ok tt | some e ↦ err (raised e) ]))
                rest)
      go (some e) rest h = refl
      go none (ok values) (h, n) = (ap (λ (vs : List (Option A)). system.ret t w ∷ vs) h, n)
      go none (err (raised e)) h = h
      go none (err timeout_error) h = tt
      go none (err assertion_error) h = tt
      go none (err unfinished) h = tt
