-- ===== src/Agent/Keeps.antt =====
-- Rules for what a call of the operating system keeps.
use rymevisor.Common.{Bool, true, false, if◌then◌else◌}
use rymevisor.Common.Effect.{ok, err}
use rymevisor.Common.Triple.{Ends, Triple}
use rymevisor.Agent.Host.{Platform, Host, AgentError, advance, os_call}

module _ (os : Platform) where
  Ends-call :
      (Q : Host → Type 0) (X : AgentError → Host → Type 0) (b : Bool) (e : AgentError) (h : Host)
      → Q h
      → X e h
      → Ends {A = Unit {0}} (λ _. Q) X (if b then err e else ok tt, h)
  Ends-call Q X true e h q x = x
  Ends-call Q X false e h q x = q

  pub os_call-keeps :
      (P Q : Host → Type 0) (X : AgentError → Host → Type 0) (e : AgentError)
      → ((h : Host) → P h → Q (advance os h))
      → ((h : Host) → P h → X e (advance os h))
      → Triple P (os_call os e) (λ _. Q) X
  unfolding os_call
  os_call-keeps P Q X e good bad = record {
    run = λ h p. Ends-call Q X (os.fails h.calls) e (advance os h) (good h p) (bad h p);
  }
