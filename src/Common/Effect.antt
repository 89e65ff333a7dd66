-- ===== src/Common/Effect.antt =====
-- Calls that change a state and may fail: the state comes back after a failure too, since what a
-- call wrote before it failed stays written.
use mathlib.Core.Bool.{Bool}
use mathlib.Core.Option.{Option, none, some}
use rymevisor.Common.Tests.{if◌then◌else◌}

pub data Result (E A : Type 0) : Type 0 where
  ok : A → Result E A
  err : E → Result E A

abbrev pub Action : Type 0 → Type 0 → Type 0 → Type 0
Action S E A = S → Result E A × S

module _ {S E : Type 0} where
  abbrev pub pure : {A : Type 0} → A → Action S E A
  pure a s = (ok a, s)

  abbrev pub fail : {A : Type 0} → E → Action S E A
  fail e s = (err e, s)

  abbrev pub gets : {A : Type 0} → (S → A) → Action S E A
  gets f s = (ok (f s), s)

  abbrev pub modify : (S → S) → Action S E (Unit {0})
  modify f s = (ok tt, f s)

  -- `if c { return err }`
  abbrev pub fail_if : Bool → E → Action S E (Unit {0})
  fail_if c e s = (if c then err e else ok tt, s)

  -- `if x == nil { return err }`
  abbrev pub or_fail : {A : Type 0} → Option A → E → Action S E A
  or_fail none e s = (err e, s)
  or_fail (some a) e s = (ok a, s)

  -- `_ = call`: the result of the call is dropped.
  abbrev pub ignore : {A : Type 0} → Action S E A → Action S E (Unit {0})
  ignore m s = (ok tt, (m s).1)

  -- `x, err := call; if err == nil`: an error becomes `none`.
  abbrev pub attempt : {A : Type 0} → Action S E A → Action S E (Option A)
  attempt m s = let (r, s') = m s in elim r [ ok a ↦ (ok (some a), s') | err e ↦ (ok none, s') ]

  -- `err := call`, for a branch on the error.
  abbrev pub caught : {A : Type 0} → Action S E A → Action S E (Result E A)
  caught m s = let (r, s') = m s in (ok r, s')

  infixl 5 ◌>>=◌ ◌>>◌
  abbrev pub ◌>>=◌ : {A B : Type 0} → Action S E A → (A → Action S E B) → Action S E B
  ◌>>=◌ m f s = let (r, s') = m s in elim r [ ok a ↦ f a s' | err e ↦ (err e, s') ]

  abbrev pub ◌>>◌ : {A B : Type 0} → Action S E A → Action S E B → Action S E B
  m >> k = m >>= λ _. k
