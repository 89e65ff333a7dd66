-- ===== src/Agent/Stopped.antt =====
-- What StopVM and a forced RebootVM leave of the VM's process.
pub mod Process
mod Status
use rymevisor.Common.{
  inr, ℕ, zero, suc, ◌≡◌, ◌≢◌, refl, Bool, true, false, Option, none, some, List, [], ◌∷◌, ap,
  if◌then◌else◌, String, str_eq, eq_iff, arith,
}
use rymevisor.Common.Effect.{
  Result, pure, fail, fail_if, gets, modify, or_fail, ignore, attempt, ◌>>=◌, ◌>>◌,
}
use rymevisor.Common.Int.{ℤ}
use rymevisor.Common.Table.{select}
use rymevisor.Common.Triple.{
  Ends, Triple, triple->>=, triple->>, triple-if, triple-pure, triple-attempt, triple-ignore,
  triple-given, triple-strengthen, triple-fail_if,
}
use rymevisor.Net.{Text}
use rymevisor.Agent.{Entry}
use rymevisor.Agent.Host.{
  Platform, Host, AgentError, force_reboot, persist_failed, cannot_reboot_stopped, read_pid_file,
  parse_pid, kill_failed, no_process, Act, QmpCommand, quit, system_powerdown, query_status,
  entry_key, is_alive, left_of, int_eq, advance, os_call, read_pid, is_gone, send_qmp, write_entry,
}
use rymevisor.Agent.Keeps.{os_call-keeps}
use rymevisor.Net.Strings.{trim_space, atoi}
use rymevisor.Agent.Qemu.{
  status_of_pid, query_vm, manager_vm_status, kill, kill_process, remove_pid, wait_for_exit,
  manager_stop_vm, manager_reboot_vm,
}
use rymevisor.Agent.Stopped.Process.{
  pid_file_of, IsOver, remove_file-Over, after_read, read_pid-triple, Seen, is_gone-Pid,
  send_qmp-Pid, kill_process-Over, remove_pid-Over,
}
use rymevisor.Agent.Stopped.Status.{manager_vm_status-Pid}
use rymevisor.Agent.Service.{remove_vm_json, stop_vm, reboot_vm}

module _ (os : Platform) (vm : String) (text : Text) (p : ℤ)
    (reads : atoi (trim_space text) ≡ some p) where
  abbrev HasPid : Host → Type 0
  HasPid h = pid_file_of vm h ≡ some text

  abbrev Any : AgentError → Host → Type 0
  Any e h = Unit {0}

  module _ (never : (n : ℕ) → os.fails n ≡ false) where
    -- A read does not fail.
    read_pid-never :
        Triple HasPid
          (attempt (read_pid os vm))
          (λ o h. (elim o [ none ↦ ⊥ | some found ↦ Seen os vm text p reads found h ]))
          Any
    unfolding read_pid os_call advance
    read_pid-never = record { run = λ h pid. ground (arith, never h.calls, pid) }

    wait_for_exit-Over : (n : ℕ) → Triple HasPid (wait_for_exit os vm n) (λ _. IsOver vm p) Any
    unfolding wait_for_exit
    wait_for_exit-Over zero = record { run = λ h _. tt }
    wait_for_exit-Over (suc n) =
        triple->>= (attempt (read_pid os vm)) with_file read_pid-never
          (found_as (wait_for_exit-Over n))
      where
        look : Option ℤ → Act os (Unit {0})
        look o = elim o [
          | none ↦ pure tt
          | some pid ↦ (do
            gone ← is_gone os pid
            (if gone then remove_pid os vm else wait_for_exit os vm n))
        ]

        with_file : Option (Option Text) → Act os (Unit {0})
        with_file found = elim found [
          | none ↦ pure tt
          | some none ↦ pure tt
          | some (some content) ↦ look (atoi (trim_space content))
        ]

        parsed :
            Triple HasPid (wait_for_exit os vm n) (λ _. IsOver vm p) Any
            → Triple HasPid (look (atoi (trim_space text))) (λ _. IsOver vm p) Any
        parsed again = rw reads (
            triple->>= (is_gone os p)
              (λ gone. if gone then remove_pid os vm else wait_for_exit os vm n)
              (is_gone-Pid os vm text p reads)
              (λ gone.
                triple-if gone (remove_pid os vm) (wait_for_exit os vm n)
                  (λ g. triple-strengthen (remove_pid-Over os vm text p reads) (λ h seen. seen.0 g))
                  (λ g. triple-strengthen again (λ h seen. seen.1))))

        found_as :
            Triple HasPid (wait_for_exit os vm n) (λ _. IsOver vm p) Any
            → (o : Option (Option Text))
            → Triple
                (λ h. (elim o [ none ↦ ⊥ | some found ↦ Seen os vm text p reads found h ]))
                (with_file o)
                (λ _. IsOver vm p)
                Any
        found_as again none = record { run = λ h e. absurd e }
        found_as again (some found) =
            after_read os vm text p reads (λ o. with_file (some o))
              (record { run = λ h gone. inr (inr gone.0) }) (parsed again) found

    waited : Act os (Unit {0})
    waited = gets (λ h. os.polls h.calls) >>= wait_for_exit os vm

    waited-Over : Triple HasPid waited (λ _. IsOver vm p) Any
    unfolding waited
    waited-Over = record { run = λ h pid. (wait_for_exit-Over (os.polls h.calls)).run h pid }

    send_attempt-Pid :
        (cmd : QmpCommand) → Triple HasPid (attempt (send_qmp os vm cmd)) (λ _. HasPid) Any
    send_attempt-Pid cmd =
        triple-attempt (send_qmp os vm cmd) ((send_qmp-Pid os vm text p reads) cmd)

    -- The process is killed when QMP fails, and waited for when not.
    manager_stop_vm-Over :
        (force : Bool) → Triple HasPid (manager_stop_vm os vm force) (λ _. IsOver vm p) Any
    unfolding manager_stop_vm waited
    manager_stop_vm-Over force =
        triple->>= (attempt (send_qmp os vm (if force then quit else system_powerdown))) _
          (send_attempt-Pid (if force then quit else system_powerdown)) after
      where
        after :
            (answer : Option (Option String))
            → Triple HasPid
                (elim answer [ none ↦ kill_process os vm | some _ ↦ waited ])
                (λ _. IsOver vm p)
                Any
        after none = (kill_process-Over os vm text p reads)
        after (some r) = waited-Over

    remove_vm_json-Over : Triple (IsOver vm p) (remove_vm_json os vm) (λ _. IsOver vm p) Any
    unfolding remove_vm_json
    remove_vm_json-Over =
        (remove_file-Over os vm text p reads) persist_failed (λ e. record e { vm_json = none })

    module _ (says : (raw : Option String) → os.status_field raw ≢ some "stopped") where
      stop_vm-Over : (force : Bool) → Triple HasPid (stop_vm os vm force) (λ _. IsOver vm p) Any
      unfolding stop_vm
      stop_vm-Over force =
          triple->>= (manager_vm_status os vm) _ (manager_vm_status-Pid os vm text p reads says)
            (λ status.
              triple-if (str_eq status "stopped") (pure tt)
                (do manager_stop_vm os vm force; remove_vm_json os vm)
                (λ s. triple-pure tt (λ h told. told.0 ((eq_iff status "stopped").0 s)))
                (λ s.
                  triple->> (manager_stop_vm os vm force) (remove_vm_json os vm)
                    (triple-strengthen (manager_stop_vm-Over force) (λ h told. told.1))
                    remove_vm_json-Over))

      -- A forced reboot only ends the process.
      reboot_vm-Over : Triple HasPid (reboot_vm os vm true) (λ _. IsOver vm p) Any
      unfolding reboot_vm manager_reboot_vm waited
      reboot_vm-Over =
          triple->>= (manager_vm_status os vm) _ (manager_vm_status-Pid os vm text p reads says)
            (λ status.
              triple->> (fail_if (str_eq status "stopped") cannot_reboot_stopped) _
                (triple-strengthen
                  (triple-fail_if (str_eq status "stopped") cannot_reboot_stopped (λ h _. tt))
                  (λ h told. told.1))
                (triple-given (λ _.
                  triple->>= (attempt (send_qmp os vm quit)) _ (send_attempt-Pid quit) after)))
        where
          after :
              (answer : Option (Option String))
              → Triple HasPid
                  (elim answer [
                    | none ↦ kill_process os vm
                    | some _ ↦ (do waited; fail force_reboot)
                  ])
                  (λ _. IsOver vm p)
                  Any
          after none = (kill_process-Over os vm text p reads)
          after (some r) =
              triple->> waited (fail force_reboot) waited-Over (record { run = λ h _. tt })

-- What a platform without failing calls promises of QEMU: its status is not called "stopped".
pub record IsReliable (os : Platform) : Type 0 where
  pub never : (n : ℕ) → os.fails n ≡ false
  pub says : (raw : Option String) → os.status_field raw ≢ some "stopped"

-- A success leaves the process over.
abbrev pub Gone : String → ℤ → Result AgentError (Unit {0}) × Host → Type 0
Gone vm p = Ends (λ _ h. IsOver vm p h) (λ _ _. Unit {0})

-- Where no call of the operating system fails and QEMU's status is not called "stopped", StopVM and a
-- forced RebootVM succeed only when the process that the VM's pid file names has ended, or has been
-- sent SIGKILL, or QEMU has removed the pid file on its way out; however QEMU answers, and whenever
-- processes end.
pub stop_vm_ends :
    (os : Platform) (vm : String) (text : Text) (p : ℤ) (h : Host)
    → IsReliable os
    → atoi (trim_space text) ≡ some p
    → pid_file_of vm h ≡ some text
    → ((force : Bool) → Gone vm p (stop_vm os vm force h)) × Gone vm p (reboot_vm os vm true h)
stop_vm_ends os vm text p h reliable reads pid = (
  λ force. (stop_vm-Over os vm text p reads reliable.never reliable.says force).run h pid,
  (reboot_vm-Over os vm text p reads reliable.never reliable.says).run h pid,
)
