-- ===== src/Common/Triple.antt =====
-- Hoare triples for actions, with a condition for each way that a call ends.
use mathlib.Core.Path.{◌≡◌, refl}
use mathlib.Core.Bool.{Bool, true, false}
use rymevisor.Common.Tests.{if◌then◌else◌}
use mathlib.Core.Option.{Option, none, some}
use rymevisor.Common.Effect.{
  Action, Result, ok, err, pure, fail_if, ignore, attempt, caught, ◌>>=◌, ◌>>◌,
}

-- What holds of a call's result, or after its failure.
abbrev pub Attempted : {S A : Type 0} → (A → S → Type 0) → (S → Type 0) → Option A → S → Type 0
Attempted Q N none s = N s
Attempted Q N (some a) s = Q a s

module _ {S E : Type 0} where
  abbrev pub Ends : {A : Type 0} → (A → S → Type 0) → (E → S → Type 0) → Result E A × S → Type 0
  Ends Q X (ok a, s) = Q a s
  Ends Q X (err e, s) = X e s

  -- From a state with P, the action ends with Q of its result, or with X of its error.
  pub record Triple {A : Type 0} (P : S → Type 0) (m : Action S E A) (Q : A → S → Type 0)
      (X : E → S → Type 0) : Type 0 where
    pub run : (s : S) → P s → Ends Q X (m s)

  module _ {A B : Type 0} {Q : A → S → Type 0} {R : B → S → Type 0} {X : E → S → Type 0} where
    Ends->>= :
        (f : A → Action S E B)
        → ((a : A) → Triple (Q a) (f a) R X)
        → (o : Result E A × S) → Ends Q X o
        → Ends R X (let (r, s) = o in elim r [ ok a ↦ f a s | err e ↦ (err e, s) ])
    Ends->>= f next (ok a, s) q = (next a).run s q
    Ends->>= f next (err e, s) x = x

    pub triple->>= :
        {P : S → Type 0} (m : Action S E A) (f : A → Action S E B)
        → Triple P m Q X
        → ((a : A) → Triple (Q a) (f a) R X)
        → Triple P (m >>= f) R X
    triple->>= m f first next = record { run = λ s p. Ends->>= f next (m s) (first.run s p) }

  module _ {A : Type 0} where
    pub triple->> :
        {B : Type 0} {P : S → Type 0} {Q : S → Type 0} {R : B → S → Type 0} {X : E → S → Type 0}
        (m : Action S E A) (k : Action S E B)
        → Triple P m (λ _. Q) X
        → Triple Q k R X
        → Triple P (m >> k) R X
    triple->> m k first next = triple->>= m (λ _. k) first (λ _. next)

    -- A call whose error is dropped, when it leaves the same condition either way.
    pub Ends-ignore : (Q : S → Type 0) (o : Result E A × S) → Ends (λ _. Q) (λ _. Q) o → Q o.1
    Ends-ignore Q (ok a, s) q = q
    Ends-ignore Q (err e, s) q = q

    pub triple-ignore :
        {P : S → Type 0} {Q : S → Type 0} {X : E → S → Type 0} (m : Action S E A)
        → Triple P m (λ _. Q) (λ _. Q)
        → Triple P (ignore m) (λ _. Q) X
    triple-ignore {Q = Q} m t = record { run = λ s p. Ends-ignore Q (m s) (t.run s p) }

    Ends-attempt :
        (Q : S → Type 0) (X : E → S → Type 0) (o : Result E A × S)
        → Ends (λ _. Q) (λ _. Q) o
        → Ends {A = Option A}
            (λ _. Q)
            X
            (let (r, s) = o in elim r [ ok a ↦ (ok (some a), s) | err e ↦ (ok none, s) ])
    Ends-attempt Q X (ok a, s) q = q
    Ends-attempt Q X (err e, s) q = q

    pub triple-attempt :
        {P : S → Type 0} {Q : S → Type 0} {X : E → S → Type 0} (m : Action S E A)
        → Triple P m (λ _. Q) (λ _. Q)
        → Triple P (attempt m) (λ _. Q) X
    triple-attempt {Q = Q} {X = X} m t = record { run = λ s p. Ends-attempt Q X (m s) (t.run s p) }

    Ends-weaken :
        {Q R : A → S → Type 0} {X Y : E → S → Type 0}
        → ((a : A) (s : S) → Q a s → R a s)
        → ((e : E) (s : S) → X e s → Y e s)
        → (o : Result E A × S) → Ends Q X o
        → Ends R Y o
    Ends-weaken good bad (ok a, s) q = good a s q
    Ends-weaken good bad (err e, s) x = bad e s x

    pub triple-weaken :
        {P : S → Type 0} {Q R : A → S → Type 0} {X Y : E → S → Type 0} {m : Action S E A}
        → Triple P m Q X
        → ((a : A) (s : S) → Q a s → R a s)
        → ((e : E) (s : S) → X e s → Y e s)
        → Triple P m R Y
    triple-weaken {m = m} t good bad = record {
      run = λ s p. Ends-weaken good bad (m s) (t.run s p);
    }

    pub triple-strengthen :
        {P R : S → Type 0} {Q : A → S → Type 0} {X : E → S → Type 0} {m : Action S E A}
        → Triple P m Q X
        → ((s : S) → R s → P s)
        → Triple R m Q X
    triple-strengthen t from = record { run = λ s r. t.run s (from s r) }

    Ends-attempt_cases :
        (Q : A → S → Type 0) (N : S → Type 0) (Y : E → S → Type 0) (o : Result E A × S)
        → Ends Q (λ _. N) o
        → Ends {A = Option A}
            (Attempted Q N)
            Y
            (let (r, s) = o in elim r [ ok a ↦ (ok (some a), s) | err e ↦ (ok none, s) ])
    Ends-attempt_cases Q N Y (ok a, s) q = q
    Ends-attempt_cases Q N Y (err e, s) q = q

    -- The same, with what a result tells.
    pub triple-attempt_cases :
        {P : S → Type 0} {Q : A → S → Type 0} {N : S → Type 0} {Y : E → S → Type 0}
        (m : Action S E A)
        → Triple P m Q (λ _. N)
        → Triple P (attempt m) (Attempted Q N) Y
    triple-attempt_cases {Q = Q} {N = N} {Y = Y} m t = record {
      run = λ s p. Ends-attempt_cases Q N Y (m s) (t.run s p);
    }

    Ends-if :
        (Q : A → S → Type 0) (X : E → S → Type 0) (c : Bool) (m k : Action S E A) (s : S)
        → (c ≡ true → Ends Q X (m s))
        → (c ≡ false → Ends Q X (k s))
        → Ends Q X ((if c then m else k) s)
    Ends-if Q X true m k s on off = on refl
    Ends-if Q X false m k s on off = off refl

    pub triple-if :
        {P : S → Type 0} {Q : A → S → Type 0} {X : E → S → Type 0} (c : Bool) (m k : Action S E A)
        → (c ≡ true → Triple P m Q X)
        → (c ≡ false → Triple P k Q X)
        → Triple P (if c then m else k) Q X
    triple-if {Q = Q} {X = X} c m k on off = record {
      run = λ s p. Ends-if Q X c m k s (λ h. (on h).run s p) (λ h. (off h).run s p);
    }

    -- A call whose result, an error or not, is looked at.
    pub triple-caught :
        {P : S → Type 0} {Q : A → S → Type 0} {X Y : E → S → Type 0} (m : Action S E A)
        → Triple P m Q X
        → Triple P (caught m) (λ r s. Ends Q X (r, s)) Y
    triple-caught m t = record { run = λ s p. t.run s p }

    pub triple-pure :
        {P : S → Type 0} {Q : A → S → Type 0} {X : E → S → Type 0} (a : A)
        → ((s : S) → P s → Q a s)
        → Triple P (pure a) Q X
    triple-pure a good = record { run = good }

  Ends-fail_if :
      (P : S → Type 0) (X : E → S → Type 0) (c : Bool) (e : E) (s : S)
      → (P s → X e s)
      → P s
      → Ends (λ _ s. (c ≡ false) × P s) X (fail_if c e s)
  Ends-fail_if P X true e s bad p = bad p
  Ends-fail_if P X false e s bad p = (refl, p)

  pub triple-fail_if :
      {P : S → Type 0} {X : E → S → Type 0} (c : Bool) (e : E)
      → ((s : S) → P s → X e s)
      → Triple P (fail_if c e) (λ _ s. (c ≡ false) × P s) X
  triple-fail_if {P = P} {X = X} c e bad = record { run = λ s p. Ends-fail_if P X c e s (bad s) p }

  -- A fact that does not depend on the state.
  pub triple-given :
      {A : Type 0} {F : Type 0} {P : S → Type 0} {Q : A → S → Type 0} {X : E → S → Type 0}
      {m : Action S E A}
      → (F → Triple P m Q X)
      → Triple (λ s. F × P s) m Q X
  triple-given t = record { run = λ s p. (t p.0).run s p.1 }

  -- A call that keeps one condition and meets another does both.
  Ends-both :
      {A : Type 0} (Q R : A → S → Type 0) (X Y : E → S → Type 0) (o : Result E A × S)
      → Ends Q X o
      → Ends R Y o
      → Ends (λ a s. Q a s × R a s) (λ e s. X e s × Y e s) o
  Ends-both Q R X Y (ok a, s) q r = (q, r)
  Ends-both Q R X Y (err e, s) q r = (q, r)

  pub triple-both :
      {A : Type 0} {P P' : S → Type 0} {Q R : A → S → Type 0} {X Y : E → S → Type 0}
      (m : Action S E A)
      → Triple P m Q X
      → Triple P' m R Y
      → Triple (λ s. P s × P' s) m (λ a s. Q a s × R a s) (λ e s. X e s × Y e s)
  triple-both {Q = Q} {R = R} {X = X} {Y = Y} m t u = record {
    run = λ s p. Ends-both Q R X Y (m s) (t.run s p.0) (u.run s p.1);
  }
