-- ===== src/Agent/Frames/Qemu.antt =====
-- The operations of the QEMU manager, of its disks and bridges, and of cloud-init answer nothing.
use rymevisor.Common.{if◌then◌else◌, ℕ, zero, suc, Bool, Option, none, some, List, [], ◌∷◌, String}
use rymevisor.Common.Effect.{pure, ignore, attempt, ◌>>=◌}
use rymevisor.Common.Int.{ℤ}
use rymevisor.Net.{Text}
use rymevisor.Agent.{VmCommandResult, Nic, VmConfig}
use rymevisor.Agent.Host.{Platform, Act, ask, read_pid, is_gone}
use rymevisor.Agent.Bridges.{masquerade, bring_up, add_bridge, ensure_bridge}
use rymevisor.Net.Strings.{atoi, trim_space}
use rymevisor.Agent.Qemu.{
  spawn, note_launch, settle, wait_for_socket, manager_start_vm, query_vm, status_of_pid,
  manager_vm_status, kill, kill_process, remove_pid, wait_for_exit, manager_stop_vm,
  manager_reboot_vm, ensure_bridges,
}
use rymevisor.Agent.Frames.{
  IsSilent, silent, if-IsSilent, then-IsSilent, bind-IsSilent, attempt-IsSilent, kill-IsSilent,
}

module _ (os : Platform) (acks : List Bool) (es : List VmCommandResult) where
  abbrev Silent : {A : Type 0} → Act os A → Type 0
  Silent = IsSilent os acks es

  masquerade-IsSilent : (b g ip : Text) → Silent (masquerade os b g ip)
  unfolding masquerade
  masquerade-IsSilent b g ip = search silent depth 12

  bring_up-IsSilent : (b g ip : Text) → Silent (bring_up os b g ip)
  unfolding bring_up
  bring_up-IsSilent b [] ip = search silent
  bring_up-IsSilent b (c ∷ cs) ip = search (silent, masquerade-IsSilent)

  add_bridge-IsSilent : (b g ip : Text) → Silent (add_bridge os b g ip)
  unfolding add_bridge
  add_bridge-IsSilent b g ip = search (silent, bring_up-IsSilent)

  pub ensure_bridge-IsSilent : (b g ip : Text) → Silent (ensure_bridge os b g ip)
  unfolding ensure_bridge
  ensure_bridge-IsSilent b g ip = search (silent, add_bridge-IsSilent)

  query_vm-IsSilent : (vm : String) → Silent (query_vm os vm)
  unfolding query_vm
  query_vm-IsSilent vm = search silent

  status_of_pid-IsSilent : (vm : String) (t : Option Text) → Silent (status_of_pid os vm t)
  unfolding status_of_pid
  status_of_pid-IsSilent vm none = search silent
  status_of_pid-IsSilent vm (some t) = search (silent, query_vm-IsSilent)

  pub manager_vm_status-IsSilent : (vm : String) → Silent (manager_vm_status os vm)
  unfolding manager_vm_status
  manager_vm_status-IsSilent vm = search (silent, status_of_pid-IsSilent)

  remove_pid-IsSilent : (vm : String) → Silent (remove_pid os vm)
  unfolding remove_pid
  remove_pid-IsSilent vm = search silent

  kill_process-IsSilent : (vm : String) → Silent (kill_process os vm)
  unfolding kill_process kill
  kill_process-IsSilent vm = search (silent, kill-IsSilent)

  wait_for_exit-IsSilent : (vm : String) (n : ℕ) → Silent (wait_for_exit os vm n)
  unfolding wait_for_exit
  wait_for_exit-IsSilent vm zero = search silent
  wait_for_exit-IsSilent vm (suc n) =
      bind-IsSilent os acks es (attempt (read_pid os vm)) with_file (search silent)
        (with_file-IsSilent (wait_for_exit-IsSilent vm n))
    where
      look : Option ℤ → Act os (Unit {0})
      look o = elim o [
        | none ↦ pure tt
        | some pid ↦ (do
          gone ← is_gone os pid
          (if gone then remove_pid os vm else wait_for_exit os vm n))
      ]

      look-IsSilent : Silent (wait_for_exit os vm n) → (o : Option ℤ) → Silent (look o)
      look-IsSilent again none = search silent
      look-IsSilent again (some pid) = search (silent, remove_pid-IsSilent)

      with_file : Option (Option Text) → Act os (Unit {0})
      with_file found = elim found [
        | none ↦ pure tt
        | some none ↦ pure tt
        | some (some text) ↦ look (atoi (trim_space text))
      ]

      with_file-IsSilent :
          Silent (wait_for_exit os vm n) → (o : Option (Option Text)) → Silent (with_file o)
      with_file-IsSilent again none = search silent
      with_file-IsSilent again (some none) = search silent
      with_file-IsSilent again (some (some text)) = look-IsSilent again (atoi (trim_space text))

  wait_for_socket-IsSilent : (n : ℕ) → Silent (wait_for_socket os n)
  unfolding wait_for_socket
  wait_for_socket-IsSilent zero = search silent
  wait_for_socket-IsSilent (suc n) =
      bind-IsSilent os acks es (ask os os.connects)
        (λ connected. if connected then pure tt else wait_for_socket os n) (search silent)
        (λ connected.
          if-IsSilent os acks es connected (pure tt) (wait_for_socket os n) (search silent)
            (wait_for_socket-IsSilent n))

  -- A call whose error decides what comes next.
  attempted-IsSilent :
      {A B : Type 0} (m : Act os A) (f : Option A → Act os B)
      → Silent m
      → Silent (f none)
      → ((a : A) → Silent (f (some a)))
      → Silent (attempt m >>= f)
  attempted-IsSilent m f first bad good =
      bind-IsSilent os acks es (attempt m) f (attempt-IsSilent os acks es m first) after
    where
      after : (o : Option _) → Silent (f o)
      after none = bad
      after (some a) = good a

  pub manager_stop_vm-IsSilent : (vm : String) (force : Bool) → Silent (manager_stop_vm os vm force)
  unfolding manager_stop_vm
  manager_stop_vm-IsSilent vm force =
      search (silent, attempted-IsSilent, kill_process-IsSilent, wait_for_exit-IsSilent)

  pub manager_reboot_vm-IsSilent :
      (vm : String) (force : Bool) → Silent (manager_reboot_vm os vm force)
  unfolding manager_reboot_vm
  manager_reboot_vm-IsSilent vm force =
      search (silent, attempted-IsSilent, kill_process-IsSilent, wait_for_exit-IsSilent) depth 8

  ensure_bridges-IsSilent : (ns : List Nic) → Silent (ensure_bridges os ns)
  unfolding ensure_bridges
  ensure_bridges-IsSilent [] = search silent
  ensure_bridges-IsSilent (n ∷ ns) =
      then-IsSilent os acks es (ignore (ensure_bridge os n.bridge [] [])) (ensure_bridges os ns)
        (search (silent, ensure_bridge-IsSilent)) (ensure_bridges-IsSilent ns)

  note_launch-IsSilent : (base : String) (cfg : VmConfig) → Silent (note_launch os base cfg)
  note_launch-IsSilent base cfg = record { run = λ h k. k }

  settle-IsSilent : (cfg : VmConfig) (o : Option (ℤ × Text)) → Silent (settle os cfg o)
  unfolding settle
  settle-IsSilent cfg none = search silent
  settle-IsSilent cfg (some (p, text)) = record { run = λ h k. k }

  spawn-IsSilent : (base : String) (cfg : VmConfig) → Silent (spawn os base cfg)
  unfolding spawn
  spawn-IsSilent base cfg = search (silent, note_launch-IsSilent, settle-IsSilent) depth 8

  pub manager_start_vm-IsSilent :
      (base : String) (cfg : VmConfig) → Silent (manager_start_vm os base cfg)
  unfolding manager_start_vm
  manager_start_vm-IsSilent base cfg =
      search (silent, ensure_bridges-IsSilent, spawn-IsSilent, wait_for_socket-IsSilent) depth 12
