-- ===== src/Agent/Stopped/Process.antt =====
-- What the steps of StopVM leave of the process that a pid file names.
use rymevisor.Common.{
  ◌≡◌, ◌⊎◌, inl, inr, sym, subst, ◌++◌, refl, Bool, true, false, Option, none, some, List, [], ◌∷◌,
  if◌then◌else◌, String, arith,
}
use rymevisor.Common.Effect.{fail, gets, modify, or_fail, ignore, ◌>>=◌, ◌>>◌}
use rymevisor.Common.Int.{ℤ}
use rymevisor.Common.Table.{select}
use rymevisor.Common.Triple.{Ends, Triple, triple->>=, triple->>, triple-ignore}
use rymevisor.Net.{Text}
use rymevisor.Agent.{Entry}
use rymevisor.Agent.Host.{
  Platform, Host, AgentError, read_pid_file, parse_pid, kill_failed, no_process, Act, QmpCommand,
  entry_key, is_alive, left_of, int_eq, has_text, advance, os_call, read_pid, is_gone, send_qmp,
  write_entry,
}
use rymevisor.Agent.Keeps.{os_call-keeps}
use rymevisor.Net.Strings.{trim_space, atoi}
use rymevisor.Agent.Qemu.{kill, kill_process, remove_pid}

pub is_alive-left_of :
    (p : ℤ) (ended ps : List ℤ) → is_alive p ps ≡ false → is_alive p (left_of ended ps) ≡ false
unfolding is_alive left_of
is_alive-left_of p ended [] dead = refl
is_alive-left_of p ended (q ∷ qs) dead = ground (arith, is_alive-left_of p ended qs)

int_eq_refl : (p : ℤ) → int_eq p p ≡ true
unfolding int_eq
int_eq_refl p = ground arith

is_alive-cons_self : (p : ℤ) (ps : List ℤ) → is_alive p (p ∷ ps) ≡ true
unfolding is_alive
is_alive-cons_self p ps = ground (arith, int_eq_refl p)

pub has_text-append :
    (t : String) (us vs : List String) → has_text t vs ≡ true → has_text t (us ++ vs) ≡ true
unfolding has_text
has_text-append t [] vs h = h
has_text-append t (u ∷ us) vs h = ground (arith, has_text-append t us vs h)

-- The pid file of a VM as it was written, if it has one.
abbrev pub pid_file_of : String → Host → Option Text
pid_file_of vm h = elim (select entry_key vm h.entries) [ none ↦ none | some e ↦ e.pid_file ]

abbrev pub IsDead : ℤ → Host → Type 0
IsDead p h = is_alive p h.processes ≡ false

-- QEMU has removed the VM's pid file.
abbrev pub IsUnlinked : String → Host → Type 0
IsUnlinked vm h = has_text vm h.unlinked ≡ true

-- The process has ended, or has been sent SIGKILL, or QEMU has removed its pid file.
abbrev pub IsOver : String → ℤ → Host → Type 0
IsOver vm p h = IsDead p h ⊎ ((is_alive p h.killed ≡ true) ⊎ IsUnlinked vm h)

module _ (os : Platform) (vm : String) (text : Text) (p : ℤ)
    (reads : atoi (trim_space text) ≡ some p) where
  abbrev HasPid : Host → Type 0
  HasPid h = pid_file_of vm h ≡ some text

  abbrev Any : AgentError → Host → Type 0
  Any e h = Unit {0}

  abbrev Always : Host → Type 0
  Always h = Unit {0}

  advance-Over : (h : Host) → IsOver vm p h → IsOver vm p (advance os h)
  unfolding advance
  advance-Over h (inl dead) = inl (is_alive-left_of p (os.exits h.calls) h.processes dead)
  advance-Over h (inr (inl sent)) = inr (inl sent)
  advance-Over h (inr (inr gone)) =
      inr (inr (has_text-append vm (os.unlinks h.calls) h.unlinked gone))

  -- The removal of a file, whose error is dropped.
  pub remove_file-Over :
      (e : AgentError) (f : Entry → Entry)
      → Triple (IsOver vm p) (ignore (do os_call os e; write_entry os vm f)) (λ _. IsOver vm p) Any
  remove_file-Over e f =
      triple-ignore (do os_call os e; write_entry os vm f)
        (triple->> (os_call os e) (write_entry os vm f)
          (os_call-keeps os (IsOver vm p) (IsOver vm p) (λ _. IsOver vm p) e advance-Over
            advance-Over)
          (record { run = λ h over. over }))

  -- What a read of the pid file finds: its text, or nothing once QEMU has removed it.
  abbrev pub Seen : Option Text → Host → Type 0
  Seen o h = ((o ≡ some text) ⊎ ((o ≡ none) × IsUnlinked vm h)) × HasPid h

  read_pid-Seen : Triple HasPid (read_pid os vm) Seen Any
  unfolding read_pid os_call advance
  read_pid-Seen = record { run = λ h pid. ground (arith, pid) }

  module _ {A : Type 0} {R : A → Host → Type 0} where
    -- What follows a read, for a text and for no file.
    pub after_read :
        (k : Option Text → Act os A)
        → Triple (λ h. IsUnlinked vm h × HasPid h) (k none) R Any
        → Triple HasPid (k (some text)) R Any
        → (o : Option Text) → Triple (Seen o) (k o) R Any
    after_read k missing there o = record {
      run = λ h seen. elim seen.0 [
        | inl e ↦ subst (λ x. Ends R Any (k x h)) (sym e) (there.run h seen.1)
        | inr (e, gone) ↦ subst (λ x. Ends R Any (k x h)) (sym e) (missing.run h (gone, seen.1))
      ];
    }

    pub read_pid-triple :
        (k : Option Text → Act os A)
        → Triple (λ h. IsUnlinked vm h × HasPid h) (k none) R Any
        → Triple HasPid (k (some text)) R Any
        → Triple HasPid (read_pid os vm >>= k) R Any
    read_pid-triple k missing there =
        triple->>= (read_pid os vm) k read_pid-Seen (after_read k missing there)

  pub is_gone-Pid : Triple HasPid (is_gone os p) (λ g h. (g ≡ true → IsOver vm p h) × HasPid h) Any
  unfolding is_gone advance
  is_gone-Pid = record { run = λ h pid. (λ g. inl (ground (arith, g)), pid) }

  pub send_qmp-Pid :
      (cmd : QmpCommand) → Triple HasPid (send_qmp os vm cmd) (λ _. HasPid) (λ _. HasPid)
  unfolding send_qmp advance
  send_qmp-Pid cmd = record { run = λ h pid. ground (arith, pid) }

  kill-Over : Triple HasPid (kill os p) (λ _. IsOver vm p) Any
  unfolding kill
  kill-Over =
      triple->> (os_call os kill_failed) (gets (λ h. is_alive p (Host.processes h)) >>= signal)
        (os_call-keeps os HasPid Always Any kill_failed (λ h _. tt) (λ h _. tt))
        (record { run = λ h _. (signal-Over (is_alive p h.processes)).run h tt })
    where
      signal : Bool → Act os (Unit {0})
      signal there =
          if there then modify (λ h. record h { killed = p ∷ h.killed }) else fail no_process

      signal-Over : (there : Bool) → Triple Always (signal there) (λ _. IsOver vm p) Any
      signal-Over true = record { run = λ h _. inr (inl (is_alive-cons_self p h.killed)) }
      signal-Over false = record { run = λ h _. tt }

  pub kill_process-Over : Triple HasPid (kill_process os vm) (λ _. IsOver vm p) Any
  unfolding kill_process
  kill_process-Over = read_pid-triple with_pid (record { run = λ h _. tt }) with_text
    where
      with_pid : Option Text → Act os (Unit {0})
      with_pid found = do
        content ← or_fail found read_pid_file
        pid ← or_fail (atoi (trim_space content)) parse_pid
        kill os pid

      kill_as : Option ℤ → Act os (Unit {0})
      kill_as pid = or_fail pid parse_pid >>= kill os

      parsed : Triple HasPid (kill_as (atoi (trim_space text))) (λ _. IsOver vm p) Any
      parsed = rw reads kill-Over

      with_text : Triple HasPid (with_pid (some text)) (λ _. IsOver vm p) Any
      with_text = parsed

  pub remove_pid-Over : Triple (IsOver vm p) (remove_pid os vm) (λ _. IsOver vm p) Any
  unfolding remove_pid
  remove_pid-Over = remove_file-Over read_pid_file (λ e. record e { pid_file = none })
