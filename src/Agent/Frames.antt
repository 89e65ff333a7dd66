-- ===== src/Agent/Frames.antt =====
-- What the operations on a VM leave alone: what the agent has acknowledged, and what it has published.
mod Qemu
pub mod Start
use rymevisor.Common.{
  ℕ, zero, suc, ◌+◌, ◌≡◌, refl, Bool, true, false, not, ◌&&◌, Option, none, some, List, [], ◌∷◌,
  ◌++◌, if◌then◌else◌, String, str_eq, arith,
}
use rymevisor.Common.Effect.{
  Result, ok, err, pure, fail, fail_if, gets, modify, or_fail, ignore, attempt, caught, ◌>>=◌, ◌>>◌,
}
use rymevisor.Common.Int.{ℤ, pos}
use rymevisor.Common.Triple.{
  Ends, Triple, triple->>=, triple->>, triple-if, triple-pure, triple-attempt, triple-ignore,
  triple-fail_if, triple-weaken,
}
use rymevisor.Common.Table.{select}
use rymevisor.Net.{Text}
use rymevisor.Agent.{VmCommandResult, Entry}
use rymevisor.Agent.Host.{
  Platform, Host, AgentError, Act, QmpCommand, entry_key, advance, os_call, ask, make_dir,
  make_entry, blank_entry, write_entry, read_pid, is_alive, left_of, kill_failed, no_process,
  is_gone, send_qmp, run,
}
use rymevisor.Agent.Qemu.{kill}
use rymevisor.Agent.Keeps.{os_call-keeps}

-- What was acknowledged and what was published, so far.
abbrev pub Answered : List Bool → List VmCommandResult → Host → Type 0
Answered acks es h = (h.acked ≡ acks) × (h.events ≡ es)

module _ (os : Platform) (acks : List Bool) (es : List VmCommandResult) where
  abbrev Kept : Host → Type 0
  Kept = Answered acks es

  abbrev pub IsSilent : {A : Type 0} → Act os A → Type 0
  IsSilent m = Triple Kept m (λ _. Kept) (λ _. Kept)

  advance-Kept : (h : Host) → Kept h → Kept (advance os h)
  unfolding advance
  advance-Kept h k = k

  pub bind-IsSilent :
      {A B : Type 0} (m : Act os A) (f : A → Act os B)
      → IsSilent m
      → ((a : A) → IsSilent (f a))
      → IsSilent (m >>= f)
  bind-IsSilent m f first next = triple->>= m f first next

  pub then-IsSilent :
      {A B : Type 0} (m : Act os A) (k : Act os B) → IsSilent m → IsSilent k → IsSilent (m >> k)
  then-IsSilent m k first next = triple->> m k first next

  pub attempt-IsSilent : {A : Type 0} (m : Act os A) → IsSilent m → IsSilent (attempt m)
  attempt-IsSilent m t = triple-attempt m t

  pub ignore-IsSilent : {A : Type 0} (m : Act os A) → IsSilent m → IsSilent (ignore m)
  ignore-IsSilent m t = triple-ignore m t

  pub if-IsSilent :
      {A : Type 0} (c : Bool) (m k : Act os A)
      → IsSilent m
      → IsSilent k
      → IsSilent (if c then m else k)
  if-IsSilent c m k on off = triple-if c m k (λ _. on) (λ _. off)

  pub pure-IsSilent : {A : Type 0} (a : A) → IsSilent (pure a)
  pure-IsSilent a = record { run = λ h k. k }

  pub fail-IsSilent : {A : Type 0} (e : AgentError) → IsSilent {A = A} (fail e)
  fail-IsSilent e = record { run = λ h k. k }

  pub gets-IsSilent : {A : Type 0} (f : Host → A) → IsSilent (gets f)
  gets-IsSilent f = record { run = λ h k. k }

  pub os_call-IsSilent : (e : AgentError) → IsSilent (os_call os e)
  os_call-IsSilent e = os_call-keeps os Kept Kept (λ _. Kept) e advance-Kept advance-Kept

  pub ask-IsSilent : {A : Type 0} (f : ℕ → A) → IsSilent (ask os f)
  ask-IsSilent f = record { run = λ h k. advance-Kept h k }

  pub or_fail-IsSilent : {A : Type 0} (o : Option A) (e : AgentError) → IsSilent (or_fail o e)
  or_fail-IsSilent none e = record { run = λ h k. k }
  or_fail-IsSilent (some a) e = record { run = λ h k. k }

  pub fail_if-IsSilent : (c : Bool) (e : AgentError) → IsSilent (fail_if c e)
  fail_if-IsSilent c e = triple-weaken (triple-fail_if c e (λ h k. k)) (λ _ h k. k.1) (λ _ h k. k)

  pub write_entry-IsSilent : (vm : String) (f : Entry → Entry) → IsSilent (write_entry os vm f)
  write_entry-IsSilent vm f = record { run = λ h k. k }

  make_entry-IsSilent : (e : AgentError) (vm : String) → IsSilent (make_entry os e vm)
  make_entry-IsSilent e vm = record { run = λ h k. made (select entry_key vm h.entries) h k }
    where
      checked :
          (b : Bool) (h : Host)
          → Kept h
          → Ends {S = Host} {E = AgentError} {A = Unit {0}}
              (λ _. Kept)
              (λ _. Kept)
              (if b then ok tt else err e, h)
      checked true h k = k
      checked false h k = k

      made :
          (o : Option Entry) (h : Host)
          → Kept h
          → Ends {S = Host} {E = AgentError} {A = Unit {0}}
              (λ _. Kept)
              (λ _. Kept)
              (elim o [
                | none ↦ (ok tt, record h { entries = blank_entry os vm ∷ h.entries })
                | some entry ↦ (if entry.is_dir then ok tt else err e, h)
              ])
      made none h k = k
      made (some entry) h k = checked entry.is_dir h k

  pub make_dir-IsSilent : (e : AgentError) (vm : String) → IsSilent (make_dir os e vm)
  unfolding make_dir
  make_dir-IsSilent e vm = triple->> _ _ (os_call-IsSilent e) (make_entry-IsSilent e vm)

  pub read_pid-IsSilent : (vm : String) → IsSilent (read_pid os vm)
  unfolding read_pid
  read_pid-IsSilent vm = search (bind-IsSilent, then-IsSilent, os_call-IsSilent, gets-IsSilent)

  pub is_gone-IsSilent : (p : ℤ) → IsSilent (is_gone os p)
  unfolding is_gone advance
  is_gone-IsSilent p = record { run = λ h k. k }

  pub run-IsSilent : (words : List Text) → IsSilent (run os words)
  unfolding run advance
  run-IsSilent words = record { run = λ h k. k }

  pub send_qmp-IsSilent : (vm : String) (cmd : QmpCommand) → IsSilent (send_qmp os vm cmd)
  unfolding send_qmp advance
  send_qmp-IsSilent vm cmd = record { run = λ h k. ground (arith, k) }

  -- Signals and the changes of the processes
  pub kill-IsSilent : (p : ℤ) → IsSilent (kill os p)
  unfolding kill
  kill-IsSilent p =
      then-IsSilent (os_call os kill_failed) (gets there >>= killed) (os_call-IsSilent kill_failed)
        (bind-IsSilent (gets there) killed (gets-IsSilent there) after)
    where
      there : Host → Bool
      there h = is_alive p h.processes

      killed : Bool → Act os (Unit {0})
      killed b = if b then modify (λ h. record h { killed = p ∷ h.killed }) else fail no_process

      after : (b : Bool) → IsSilent (killed b)
      after true = record { run = λ h k. k }
      after false = record { run = λ h k. k }

pub ruleset silent = (
  bind-IsSilent, then-IsSilent, attempt-IsSilent, ignore-IsSilent, if-IsSilent, pure-IsSilent,
  fail-IsSilent, gets-IsSilent, os_call-IsSilent, ask-IsSilent, or_fail-IsSilent, fail_if-IsSilent,
  write_entry-IsSilent, make_dir-IsSilent, read_pid-IsSilent, is_gone-IsSilent, run-IsSilent,
  send_qmp-IsSilent,
)
