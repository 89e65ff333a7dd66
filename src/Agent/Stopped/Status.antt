-- ===== src/Agent/Stopped/Status.antt =====
-- What the manager's status of a VM says of its process.
use rymevisor.Common.{
  inr, ◌≡◌, ◌≢◌, true, Option, none, some, ap, if◌then◌else◌, String, str_eq, eq_iff, arith,
}
use rymevisor.Common.Effect.{pure, attempt}
use rymevisor.Common.Int.{ℤ}
use rymevisor.Common.Triple.{
  Triple, triple->>=, triple-if, triple-pure, triple-attempt, triple-strengthen,
}
use rymevisor.Net.{Text}
use rymevisor.Agent.Host.{Platform, Host, AgentError, query_status, is_gone, send_qmp}
use rymevisor.Net.Strings.{trim_space, atoi}
use rymevisor.Agent.Qemu.{status_of_pid, query_vm, manager_vm_status}
use rymevisor.Agent.Stopped.Process.{
  pid_file_of, IsOver, read_pid-triple, is_gone-Pid, send_qmp-Pid,
}

module _ (os : Platform) (vm : String) (text : Text) (p : ℤ)
    (reads : atoi (trim_space text) ≡ some p) where
  abbrev HasPid : Host → Type 0
  HasPid h = pid_file_of vm h ≡ some text

  abbrev Any : AgentError → Host → Type 0
  Any e h = Unit {0}

  module _ (says : (raw : Option String) → os.status_field raw ≢ some "stopped") where
    abbrev status_from : Option (Option String) → String
    status_from answer = elim answer [
      | none ↦ "running"
      | some raw ↦ elim (os.status_field raw) [ none ↦ "running" | some status ↦ status ]
    ]

    running_not_stopped : ◌≢◌ {A = String} "running" "stopped"
    running_not_stopped e =
        let same : str_eq "running" "stopped" ≡ true = (eq_iff "running" "stopped").1 e in
        ground (arith, same)

    status_from-ne : (answer : Option (Option String)) → status_from answer ≢ "stopped"
    status_from-ne none = running_not_stopped
    status_from-ne (some raw) = named (os.status_field raw) (says raw)
      where
        named :
            (o : Option String)
            → o ≢ some "stopped"
            → ◌≢◌ {A = String} (elim o [ none ↦ "running" | some s ↦ s ]) "stopped"
        named none h = running_not_stopped
        named (some s) h = λ e. h (ap some e)

    abbrev pub Told : String → Host → Type 0
    Told s h = (s ≡ "stopped" → IsOver vm p h) × HasPid h

    query_vm-Pid : Triple HasPid (query_vm os vm) Told Any
    unfolding query_vm
    query_vm-Pid =
        triple->>= (attempt (send_qmp os vm query_status)) (λ answer. pure (status_from answer))
          (triple-attempt (send_qmp os vm query_status)
            ((send_qmp-Pid os vm text p reads) query_status))
          (λ answer.
            triple-pure (status_from answer)
              (λ h pid. (λ e. absurd (status_from-ne answer e), pid)))

    status_of_pid-Pid : Triple HasPid (status_of_pid os vm (some text)) Told Any
    unfolding status_of_pid
    status_of_pid-Pid = rw reads (
        triple->>= (is_gone os p) (λ gone. if gone then pure "stopped" else query_vm os vm)
          (is_gone-Pid os vm text p reads)
          (λ gone.
            triple-if gone (pure "stopped") (query_vm os vm)
              (λ g. triple-pure "stopped" (λ h seen. (λ _. seen.0 g, seen.1)))
              (λ g. triple-strengthen query_vm-Pid (λ h seen. seen.1))))

    pub manager_vm_status-Pid : Triple HasPid (manager_vm_status os vm) Told Any
    unfolding manager_vm_status
    manager_vm_status-Pid =
        read_pid-triple os vm text p reads (status_of_pid os vm)
          (unfold status_of_pid in (record { run = λ h seen. (λ _. inr (inr seen.0), seen.1) }))
          status_of_pid-Pid
