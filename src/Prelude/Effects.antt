-- ===== src/Prelude/Effects.antt =====
-- Calls that change a world and may raise: what was written before an exception stays written.
use mathlib.Core.Bool.{Bool, true, false}

pub data Outcome (E A : Type 0) : Type 0 where
  ok : A → Outcome E A
  err : E → Outcome E A

abbrev pub Exec : Type 0 → Type 0 → Type 0 → Type 0
Exec E W A = W → Outcome E A × W

abbrev pub is_ok : {E A : Type 0} → Outcome E A → Bool
is_ok (ok a) = true
is_ok (err e) = false

module _ {E W A : Type 0} where
  abbrev pub pure : A → Exec E W A
  pure a w = (ok a, w)

  abbrev pub raise : E → Exec E W A
  raise e w = (err e, w)

module _ {E W A B : Type 0} where
  abbrev pub continue : Outcome E A × W → (A → Exec E W B) → Outcome E B × W
  continue (ok a, w) f = f a w
  continue (err e, w) f = (err e, w)

  infixl 30 ◌>>=◌ ◌>>◌
  abbrev pub ◌>>=◌ : Exec E W A → (A → Exec E W B) → Exec E W B
  ◌>>=◌ m f w = continue (m w) f

  abbrev pub ◌>>◌ : Exec E W A → Exec E W B → Exec E W B
  m >> k = m >>= λ _. k

  -- What holds of the state wherever the first call may leave it, holds after both.
  pub continue_keeps :
      (P : W → Type 0) (m : Outcome E A × W) (f : A → Exec E W B)
      → P m.1
      → ((a : A) (w : W) → P w → P (f a w).1)
      → P (continue m f).1
  continue_keeps P (ok a, w) f h k = k a w h
  continue_keeps P (err e, w) f h k = h

  -- What is known of a call and then of what follows it.
  pub bind_rule :
      (Q : Outcome E A × W → Type 0) (P : Outcome E B × W → Type 0) (m : Outcome E A × W)
      (f : A → Exec E W B)
      → Q m
      → ((e : E) (w : W) → Q (err e, w) → P (err e, w))
      → ((a : A) (w : W) → Q (ok a, w) → P (f a w))
      → P (continue m f)
  bind_rule Q P (ok a, w) f q raised h = h a w q
  bind_rule Q P (err e, w) f q raised h = raised e w q

abbrev pub when : {E W : Type 0} → Bool → Exec E W (Unit {0}) → Exec E W (Unit {0})
when true m = m
when false m = pure tt
