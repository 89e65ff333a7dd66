-- ===== src/Control/Sizing.antt =====
-- The sizes of VMs under the power operations.
use rymevisor.Common.{Bool, true, not, ◌&&◌, Option, none, some, String, arith}
use rymevisor.Common.Effect.{pure, ◌>>=◌, ◌>>◌}
use rymevisor.Common.Triple.{
  triple->>=, triple->>, triple-ignore, triple-attempt, triple-pure, triple-given,
}
use rymevisor.Control.{running, stopped, rebooting, shutting_down, VirtualMachine, Node}
use rymevisor.Control.Store.{
  Message, vm_event, Environment, update_status, assign_node, cannot_power_on, cannot_power_off,
  cannot_reboot, is_online, Db, set_status, put_status, first_node, find_node, send,
}
use rymevisor.Control.Lifecycle.{
  can_power_on, can_power_off, is_running, node_of, require_vm, command_node, send_command,
  send_start, power_on, place_at, place_online, place_newest, place_on, power_off, reboot,
  power_on_found, power_off_found, reboot_found,
}
use rymevisor.Control.Sizes.{
  Sized, Keeps, put_status-Keeps, put_node-Keeps, Keeps-same, require_vm-Keeps, fail_if-Keeps,
}

module _ (env : Environment) where
  pub send-Keeps : (m : Message) → Keeps env (send env m)
  unfolding send
  send-Keeps m = Keeps-same env _ (λ w. ground arith)

  send_command-Keeps :
      (action : String) (vm : VirtualMachine) → Keeps env (send_command env action vm)
  unfolding send_command command_node find_node send
  send_command-Keeps action vm = Keeps-same env _ (λ w. ground arith)

  send_start-Keeps : (vm : VirtualMachine) → Keeps env (send_start env vm)
  unfolding send_start send_command command_node find_node send
  send_start-Keeps vm = Keeps-same env _ (λ w. ground arith)

  first_node-Keeps : (p : Node → Bool) → Keeps env (first_node env p)
  unfolding first_node
  first_node-Keeps p = Keeps-same env _ (λ w. ground arith)

  place_on-Keeps : (vm : VirtualMachine) (n : Node) → Keeps env (place_on env vm n)
  place_on-Keeps vm n =
      triple->> _ _ (triple-ignore _ (put_node-Keeps env assign_node vm.id n.id))
        (triple-pure _ (λ w p. p))

  place_newest-Keeps :
      (vm : VirtualMachine) (found : Option (Option Node)) → Keeps env (place_newest env vm found)
  unfolding place_newest
  place_newest-Keeps vm none = triple-pure _ (λ w p. p)
  place_newest-Keeps vm (some none) = triple-pure _ (λ w p. p)
  place_newest-Keeps vm (some (some n)) = place_on-Keeps vm n

  place_online-Keeps :
      (vm : VirtualMachine) (found : Option (Option Node)) → Keeps env (place_online env vm found)
  unfolding place_online
  place_online-Keeps vm none =
      triple->>= _ (place_newest env vm) (triple-attempt _ (first_node-Keeps (λ n. true)))
        (place_newest-Keeps vm)
  place_online-Keeps vm (some none) =
      triple->>= _ (place_newest env vm) (triple-attempt _ (first_node-Keeps (λ n. true)))
        (place_newest-Keeps vm)
  place_online-Keeps vm (some (some n)) = place_on-Keeps vm n

  place_at-Keeps : (vm : VirtualMachine) (node : Option String) → Keeps env (place_at env vm node)
  unfolding place_at
  place_at-Keeps vm (some node) = triple-pure _ (λ w p. p)
  place_at-Keeps vm none =
      triple->>= _ (place_online env vm) (triple-attempt _ (first_node-Keeps is_online))
        (place_online-Keeps vm)

  started-Keeps :
      (id : String) (placed : VirtualMachine)
      → Keeps env (
          put_status env update_status id running
          >> (send_start env (set_status running placed)
              >> (send env (vm_event "started" id) >> pure (set_status running placed))))
  started-Keeps id placed = triple->> _ _ (put_status-Keeps env update_status id running) (
      triple->> _ _ (send_start-Keeps (set_status running placed))
        (triple->> _ _ (send-Keeps (vm_event "started" id)) (triple-pure _ (λ w p. p))))

  -- An operation on a VM that is read first.
  pub found-Keeps :
      {A : Type 0} (id : String) (f : VirtualMachine → Db env A)
      → ((vm : VirtualMachine) → Sized vm → Keeps env (f vm))
      → Keeps env (require_vm env id >>= f)
  found-Keeps id f keeps = triple->>= _ f (require_vm-Keeps env id) (λ vm. triple-given (keeps vm))

  pub power_on-Keeps : (id : String) → Keeps env (power_on env id)
  unfolding power_on power_on_found
  power_on-Keeps id = found-Keeps id (power_on_found env id) (λ vm sized.
      triple->> _ _ (fail_if-Keeps env (not (can_power_on vm.status)) (cannot_power_on vm.status)) (
        triple->>= _
          (λ placed.
            put_status env update_status id running
            >> (send_start env (set_status running placed)
                >> (send env (vm_event "started" id) >> pure (set_status running placed))))
          (place_at-Keeps vm (node_of vm)) (started-Keeps id)))

  pub power_off-Keeps : (id : String) (force : Bool) → Keeps env (power_off env id force)
  unfolding power_off power_off_found
  power_off-Keeps id force = found-Keeps id (power_off_found env id force) (λ vm sized.
      triple->> _ _
        (fail_if-Keeps env (not (can_power_off vm.status) && not force)
          (cannot_power_off vm.status))
        (triple->> _ _ (put_status-Keeps env update_status id shutting_down) (
          triple->> _ _ (send_command-Keeps "stop" vm) (
            triple->> _ _ (put_status-Keeps env update_status id stopped)
              (triple->> _ _ (send-Keeps (vm_event "stopped" id)) (triple-pure _ (λ w p. p)))))))

  pub reboot-Keeps : (id : String) (force : Bool) → Keeps env (reboot env id force)
  unfolding reboot reboot_found
  reboot-Keeps id force = found-Keeps id (reboot_found env id force) (λ vm sized.
      triple->> _ _
        (fail_if-Keeps env (not (is_running vm.status) && not force) (cannot_reboot vm.status))
        (triple->> _ _ (put_status-Keeps env update_status id rebooting) (
          triple->> _ _ (send_command-Keeps "reboot" vm) (
            triple->> _ _ (put_status-Keeps env update_status id running)
              (triple->> _ _ (send-Keeps (vm_event "rebooted" id)) (triple-pure _ (λ w p. p)))))))
