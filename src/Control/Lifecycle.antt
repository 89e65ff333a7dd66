-- ===== src/Control/Lifecycle.antt =====
-- The VM operations of services/controlplane/service.go: power, resize, update, deletion, snapshots
-- and restores. Each `do` line is one call or guard, in the order of the source. A command carries
-- its node, its action and its VM; its other fields are left out.
use rymevisor.Common.{
  Bool, true, false, not, ◌&&◌, Option, none, some, List, [], ◌∷◌, if◌then◌else◌, String, str_eq,
}
use rymevisor.Common.Effect.{pure, fail_if, or_fail, ignore, attempt, ◌>>=◌, ◌>>◌}
use rymevisor.Common.Int.{ℤ, pos, ltb_ℤ}
use rymevisor.Control.{
  VmStatus, creating, running, stopped, paused, rebooting, shutting_down, NetworkInterface,
  VirtualMachine, UpdateVmRequest, Node,
}
use rymevisor.Control.Store.{
  node_command, vm_event, Environment, get_vm, vm_not_found, update_vm, delete_vm, update_status,
  assign_node, vcpus_too_small, memory_too_small, must_be_stopped, cannot_power_on,
  cannot_power_off, cannot_reboot, get_keypair, is_online, Db, call, find_vm, set_status, set_node,
  put_status, put_node, put_vm, drop_vm, first_node, find_node, send,
}

abbrev pub is_stopped : VmStatus → Bool
is_stopped s = elim s [ stopped ↦ true | _ ↦ false ]

abbrev pub is_running : VmStatus → Bool
is_running s = elim s [ running ↦ true | _ ↦ false ]

abbrev pub can_power_on : VmStatus → Bool
can_power_on s = elim s [ stopped ↦ true | paused ↦ true | creating ↦ true | _ ↦ false ]

abbrev pub can_power_off : VmStatus → Bool
can_power_off s = elim s [ running ↦ true | paused ↦ true | _ ↦ false ]

-- The node of a VM, none if it is nil or empty.
abbrev pub node_of : VirtualMachine → Option String
node_of vm = elim vm.node_id [ none ↦ none | some n ↦ if str_eq n "" then none else some n ]

-- Whether publishVMStart builds a command: it wants an interface, and a network id in each.
unfoldable pub networks_set : List NetworkInterface → Bool
networks_set [] = true
networks_set (nic ∷ nics) = not (str_eq nic.network_id "") && networks_set nics

abbrev pub has_nics : VirtualMachine → Bool
has_nics vm = elim vm.network_interfaces [ [] ↦ false | nic ∷ nics ↦ networks_set (nic ∷ nics) ]

module _ (env : Environment) where
  -- GetByID and the two checks after it
  unfoldable pub require_vm : String → Db env VirtualMachine
  require_vm id = do or_fail (← find_vm env get_vm id) vm_not_found

  -- nodeCommandSubject: the node's name when it is known, else its id.
  unfoldable pub command_node : String → Db env String
  unfolding find_node
  command_node node = do
    found ← attempt (find_node env node)
    pure (elim found [ some (some n) ↦ if str_eq n.name "" then node else n.name | _ ↦ node ])

  -- A command to the VM's node, when a publisher and a node are set.
  unfoldable pub send_command : String → VirtualMachine → Db env (Unit {0})
  unfolding command_node send
  send_command action vm = elim (node_of vm) [
    | none ↦ pure tt
    | some node ↦
        if env.has_publisher
        then (do name ← command_node node; send env (node_command name action vm.id))
        else pure tt
  ]

  -- The read of the VM's SSH key.
  abbrev pub read_key : VirtualMachine → Db env (Unit {0})
  read_key vm = elim vm.ssh_key_id [
    | none ↦ pure tt
    | some key ↦
        if env.has_keypairs && not (str_eq key "") then ignore (call env get_keypair) else pure tt
  ]

  -- publishVMStart, whose errors PowerOn only logs
  unfoldable pub send_start : VirtualMachine → Db env (Unit {0})
  unfolding send_command networks_set
  send_start vm =
      if env.has_publisher && has_nics vm
      then (elim (node_of vm) [
        | none ↦ pure tt
        | some n ↦ (do read_key vm; send_command "start" vm)
      ])
      else pure tt

  abbrev pub place_on : VirtualMachine → Node → Db env VirtualMachine
  place_on vm n = do ignore (put_node env assign_node vm.id n.id); pure (set_node n.id vm)

  -- On the newest node.
  unfoldable pub place_newest : VirtualMachine → Option (Option Node) → Db env VirtualMachine
  unfolding put_node
  place_newest vm none = pure vm
  place_newest vm (some none) = pure vm
  place_newest vm (some (some n)) = place_on vm n

  -- On the newest node that is online, else on the newest node.
  unfoldable pub place_online : VirtualMachine → Option (Option Node) → Db env VirtualMachine
  unfolding first_node put_node place_newest
  place_online vm (some (some n)) = place_on vm n
  place_online vm none = attempt (first_node env (λ n. true)) >>= place_newest vm
  place_online vm (some none) = attempt (first_node env (λ n. true)) >>= place_newest vm

  -- The scheduling in PowerOn, of a VM without a node.
  unfoldable pub place_at : VirtualMachine → Option String → Db env VirtualMachine
  unfolding first_node place_online
  place_at vm (some node) = pure vm
  place_at vm none = attempt (first_node env is_online) >>= place_online vm

  abbrev pub place_vm : VirtualMachine → Db env VirtualMachine
  unfolding place_at
  place_vm vm = place_at vm (node_of vm)

  -- PowerOn, once the VM is read
  unfoldable pub power_on_found : String → VirtualMachine → Db env VirtualMachine
  unfolding place_at put_status send_start send
  power_on_found id vm = do
    fail_if (not (can_power_on vm.status)) (cannot_power_on vm.status)
    placed ← place_vm vm
    put_status env update_status id running
    send_start (set_status running placed)
    send env (vm_event "started" id)
    pure (set_status running placed)

  unfoldable pub power_on : String → Db env VirtualMachine
  unfolding require_vm power_on_found
  power_on id = require_vm id >>= power_on_found id

  -- PowerOff, once the VM is read
  unfoldable pub power_off_found : String → Bool → VirtualMachine → Db env VirtualMachine
  unfolding put_status send_command send
  power_off_found id force vm = do
    fail_if (not (can_power_off vm.status) && not force) (cannot_power_off vm.status)
    put_status env update_status id shutting_down
    send_command "stop" vm
    put_status env update_status id stopped
    send env (vm_event "stopped" id)
    pure (set_status stopped vm)

  unfoldable pub power_off : String → Bool → Db env VirtualMachine
  unfolding require_vm power_off_found
  power_off id force = require_vm id >>= power_off_found id force

  -- Reboot, once the VM is read
  unfoldable pub reboot_found : String → Bool → VirtualMachine → Db env VirtualMachine
  unfolding put_status send_command send
  reboot_found id force vm = do
    fail_if (not (is_running vm.status) && not force) (cannot_reboot vm.status)
    put_status env update_status id rebooting
    send_command "reboot" vm
    put_status env update_status id running
    send env (vm_event "rebooted" id)
    pure (set_status running vm)

  unfoldable pub reboot : String → Bool → Db env VirtualMachine
  unfolding require_vm reboot_found
  reboot id force = require_vm id >>= reboot_found id force

  -- Resize, once the VM is read
  unfoldable pub resize_found : String → ℤ → ℤ → VirtualMachine → Db env VirtualMachine
  unfolding put_vm send
  resize_found id vcpus memory_mb vm = do
    fail_if (ltb_ℤ vcpus (pos 1)) vcpus_too_small
    fail_if (ltb_ℤ memory_mb (pos 256)) memory_too_small
    let resized = record vm { vcpus = vcpus; memory_mb = memory_mb }
    put_vm env update_vm resized
    send env (vm_event "resized" id)
    pure resized

  unfoldable pub resize : String → ℤ → ℤ → Db env VirtualMachine
  unfolding require_vm resize_found
  resize id vcpus memory_mb = require_vm id >>= resize_found id vcpus memory_mb

  -- The fields that UpdateVM overwrites.
  abbrev pub updated : UpdateVmRequest → VirtualMachine → VirtualMachine
  updated req vm = record vm {
    name = if str_eq req.name "" then vm.name else req.name;
    metadata = elim req.metadata [ none ↦ vm.metadata | some m ↦ m ];
    labels = elim req.labels [ none ↦ vm.labels | some l ↦ l ];
    tags = elim req.tags [ none ↦ vm.tags | some t ↦ t ];
  }

  -- UpdateVM, once the VM is read
  unfoldable pub update_found : String → UpdateVmRequest → VirtualMachine → Db env VirtualMachine
  unfolding put_vm
  update_found id req vm = do put_vm env update_vm (updated req vm); pure (updated req vm)

  unfoldable pub update_vm_fields : String → UpdateVmRequest → Db env VirtualMachine
  unfolding require_vm update_found
  update_vm_fields id req = require_vm id >>= update_found id req

  -- DeleteVM, once the VM is read
  unfoldable pub delete_found : String → Bool → VirtualMachine → Db env (Unit {0})
  unfolding drop_vm
  delete_found id force vm = do
    fail_if (not force && not (is_stopped vm.status)) (must_be_stopped vm.status)
    drop_vm env delete_vm id

  unfoldable pub delete_vm_by_id : String → Bool → Db env (Unit {0})
  unfolding require_vm delete_found
  delete_vm_by_id id force = require_vm id >>= delete_found id force
