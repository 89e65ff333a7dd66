-- ===== src/Control/Power.antt =====
-- What the power operations do to the table of VMs, whichever calls fail.
use rymevisor.Common.{
  ◌≡◌, ◌⊎◌, inl, inr, sym, refl, Bool, true, false, not, ◌&&◌, ◌||◌, Option, some, List, String,
  arith,
}
use rymevisor.Common.Triple.{
  Ends, Triple, triple->>=, triple->>, triple-fail_if, triple-pure, triple-given,
}
use rymevisor.Common.Table.{select}
use rymevisor.Control.{VmStatus, running, stopped, rebooting, shutting_down, VirtualMachine}
use rymevisor.Control.Store.{
  vm_event, World, Environment, update_status, cannot_power_off, cannot_reboot, vm_key, set_status,
}
use rymevisor.Control.Lifecycle.{
  can_power_off, is_running, power_off, reboot, power_off_found, reboot_found,
}
use rymevisor.Control.Rows.{
  Row, Left, send-triple, send_command-triple, require_vm-triple, put_status-triple,
}

guard_passed : (a b : Bool) → (not a && not b) ≡ false → (a || b) ≡ true
guard_passed a b h = ground arith

-- A VM with a status that the guard allows, answered with its new status and stored so; the rows of
-- other VMs are as before.
abbrev pub Moved :
    List VirtualMachine
    → String
    → Option VirtualMachine
    → (VmStatus → Bool)
    → VmStatus
    → VirtualMachine
    → World
    → Type 0
Moved rows id row guard status vm w =
    (old : VirtualMachine) × (row ≡ some old)
    × (guard old.status ≡ true)
    × (vm ≡ set_status status old)
    × Row rows id (some vm) w

-- The row that a failed call leaves: the old one, or one with the status between.
abbrev pub Between : Option VirtualMachine → VmStatus → Option VirtualMachine → Type 0
Between row status left =
    (left ≡ row) ⊎ ((vm : VirtualMachine) × (row ≡ some vm) × (left ≡ some (set_status status vm)))

module _ (env : Environment) (rows : List VirtualMachine) (id : String)
    (row : Option VirtualMachine) where
  pub power_off-triple :
      (force : Bool)
      → Triple
          (Row rows id row)
          (power_off env id force)
          (Moved rows id row (λ s. can_power_off s || force) stopped)
          (Left rows id (Between row shutting_down))
  unfolding power_off power_off_found
  power_off-triple force =
      triple->>= _ (power_off_found env id force)
        (require_vm-triple env rows id (λ e w p. (row, inl refl, p)))
        (λ vm. triple-given (λ (found, is).
          triple->> _ _
            (triple-fail_if (not (can_power_off vm.status) && not force)
              (cannot_power_off vm.status) (λ w p. (some vm, inl (sym found), p)))
            (triple-given (λ guard.
              triple->> _ _
                (put_status-triple env rows id update_status shutting_down
                  (λ w p. (some vm, inl (sym found), p)))
                (triple->> _ _ (send_command-triple env rows id "stop" vm) (
                  triple->> _ _
                    (put_status-triple env rows id update_status stopped
                      (λ w p. (_, inr (vm, found, refl), p)))
                    (triple->> _ _ (send-triple env rows id (vm_event "stopped" id))
                      (triple-pure _ (λ w p. (vm, found, guard_passed _ _ guard, refl, p))))))))))

  pub reboot-triple :
      (force : Bool)
      → Triple
          (Row rows id row)
          (reboot env id force)
          (Moved rows id row (λ s. is_running s || force) running)
          (Left rows id (Between row rebooting))
  unfolding reboot reboot_found
  reboot-triple force =
      triple->>= _ (reboot_found env id force)
        (require_vm-triple env rows id (λ e w p. (row, inl refl, p)))
        (λ vm. triple-given (λ (found, is).
          triple->> _ _
            (triple-fail_if (not (is_running vm.status) && not force) (cannot_reboot vm.status)
              (λ w p. (some vm, inl (sym found), p)))
            (triple-given (λ guard.
              triple->> _ _
                (put_status-triple env rows id update_status rebooting
                  (λ w p. (some vm, inl (sym found), p)))
                (triple->> _ _ (send_command-triple env rows id "reboot" vm) (
                  triple->> _ _
                    (put_status-triple env rows id update_status running
                      (λ w p. (_, inr (vm, found, refl), p)))
                    (triple->> _ _ (send-triple env rows id (vm_event "rebooted" id))
                      (triple-pure _ (λ w p. (vm, found, guard_passed _ _ guard, refl, p))))))))))

-- PowerOff, whichever calls fail, changes no row of another VM. On success the VM existed, was running
-- or paused unless forced, and is answered and stored as stopped. On an error its row is as before, or
-- is left with the status shutting_down.
pub power_off_total :
    (env : Environment) (id : String) (force : Bool) (w : World)
    → let row = select vm_key id w.vms in
      Ends
        (Moved w.vms id row (λ s. can_power_off s || force) stopped)
        (Left w.vms id (Between row shutting_down))
        (power_off env id force w)
power_off_total env id force w =
    (power_off-triple env w.vms id (select vm_key id w.vms) force).run w (refl, λ other ne. refl)

-- Reboot, whichever calls fail, changes no row of another VM. On success the VM existed, was running
-- unless forced, and is answered and stored as running. On an error its row is as before, or
-- is left with the status rebooting.
pub reboot_total :
    (env : Environment) (id : String) (force : Bool) (w : World)
    → let row = select vm_key id w.vms in
      Ends
        (Moved w.vms id row (λ s. is_running s || force) running)
        (Left w.vms id (Between row rebooting))
        (reboot env id force w)
reboot_total env id force w =
    (reboot-triple env w.vms id (select vm_key id w.vms) force).run w (refl, λ other ne. refl)
