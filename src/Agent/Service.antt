-- ===== src/Agent/Service.antt =====
-- The operations of services/nodeagent/agent.go on VMs: their status, their end, their reboot, the
-- recovery after a restart, the heartbeat, and the handling of a command.
use rymevisor.Common.{
  Bool, true, false, not, ◌&&◌, Option, none, some, List, [], ◌∷◌, if◌then◌else◌, String, str_eq,
}
use rymevisor.Common.Effect.{
  Result, ok, err, pure, fail, fail_if, gets, modify, or_fail, ignore, attempt, caught, ◌>>=◌, ◌>>◌,
}
use rymevisor.Common.Int.{pos}
use rymevisor.Common.Table.{select}
use rymevisor.Control.{VmStatus, running, paused, stopped, rebooting}
use rymevisor.Agent.{VmStartConfig, VmCommand, VmCommandResult, VmInfo, Heartbeat, Entry}
use rymevisor.Agent.Host.{
  Platform, AgentError, Act, persist_failed, read_base_dir, cannot_reboot_stopped, unknown_action,
  collect_heartbeat_failed, publish_failed, entry_key, os_call, ask, write_entry, advance,
}
use rymevisor.Agent.Qemu.{manager_stop_vm, manager_reboot_vm, manager_vm_status}
use rymevisor.Agent.Disks.{create_disk, attach_disk, detach_disk}
use rymevisor.Agent.Start.{load_vm_config, start_vm}

-- The status that GetVMStatus makes of QEMU's.
abbrev pub status_named : String → VmStatus
status_named s =
    if str_eq s "running"
    then running
    else if str_eq s "paused"
    then paused
    else if str_eq s "reboot"
    then rebooting
    else stopped

abbrev pub result_of : VmCommand → Result AgentError (Unit {0}) → VmCommandResult
result_of cmd (ok _) = record {
  vm_id = cmd.vm_id;
  action = cmd.action;
  status = "success";
  failed = false;
}
result_of cmd (err e) = record {
  vm_id = cmd.vm_id;
  action = cmd.action;
  status = "error";
  failed = true;
}

abbrev pub is_ok : {A : Type 0} → Result AgentError A → Bool
is_ok (ok a) = true
is_ok (err e) = false

module _ (os : Platform) where
  unfoldable pub agent_vm_status : String → Act os VmStatus
  unfolding manager_vm_status
  agent_vm_status vm = do status ← manager_vm_status os vm; pure (status_named status)

  -- os.Remove(vm.json), whose error is dropped
  unfoldable pub remove_vm_json : String → Act os (Unit {0})
  unfolding os_call
  remove_vm_json vm =
      ignore (do os_call os persist_failed; write_entry os vm (λ e. record e { vm_json = none }))

  unfoldable pub stop_vm : String → Bool → Act os (Unit {0})
  unfolding manager_vm_status manager_stop_vm remove_vm_json
  stop_vm vm force = do
    status ← manager_vm_status os vm
    (if str_eq status "stopped"
        then pure tt
        else (do manager_stop_vm os vm force; remove_vm_json vm))

  unfoldable pub reboot_vm : String → Bool → Act os (Unit {0})
  unfolding manager_vm_status manager_reboot_vm
  reboot_vm vm force = do
    status ← manager_vm_status os vm
    fail_if (str_eq status "stopped") cannot_reboot_stopped
    manager_reboot_vm os vm force

  -- msg.Ack or msg.Nak
  abbrev pub acknowledge : Bool → Act os (Unit {0})
  acknowledge b = modify (λ h. record h { acked = b ∷ h.acked })

  -- The publication of the result, whose error is dropped.
  unfoldable pub publish_result : VmCommandResult → Act os (Unit {0})
  unfolding os_call
  publish_result r =
      ignore (do os_call os publish_failed; modify (λ h. record h { events = r ∷ h.events }))

  module _ (base images : String) where
    -- What remains of an entry of the directory: a directory with a file vm.json.
    unfoldable pub recover_vm : String → Act os (Unit {0})
    unfolding manager_vm_status load_vm_config start_vm
    recover_vm vm = do
      status ← attempt (manager_vm_status os vm)
      (if (elim status [ none ↦ false | some s ↦ str_eq s "running" ]) then pure tt else (do
        found ← attempt (load_vm_config os vm)
        (elim found [
          | none ↦ pure tt
          | some cfg ↦ ignore (start_vm os base images vm (some cfg))
        ])))

    -- os.Stat of vm.json: whether it reports that there is none.
    unfoldable pub json_missing : String → Act os Bool
    unfolding advance
    json_missing vm h = (
      ok (
          not (os.fails h.calls) && elim (select entry_key vm h.entries) [
            | none ↦ true
            | some e ↦ elim e.vm_json [ none ↦ true | some _ ↦ false ]
          ]),
      advance os h,
    )

    unfoldable pub recover_entry : Entry → Act os (Unit {0})
    unfolding json_missing recover_vm
    recover_entry e =
        if e.is_dir
        then (do missing ← json_missing e.name; (if missing then pure tt else recover_vm e.name))
        else pure tt

    unfoldable pub recover_all : List Entry → Act os (Unit {0})
    unfolding recover_entry
    recover_all [] = pure tt
    recover_all (e ∷ es) = do recover_entry e; recover_all es

    unfoldable pub recover_vms : Act os (Unit {0})
    unfolding os_call recover_all
    recover_vms =
        if os.has_base
        then (do os_call os read_base_dir; entries ← gets (λ h. h.entries); recover_all entries)
        else pure tt

    unfoldable pub create_for : String → Option VmStartConfig → Act os (Unit {0})
    unfolding create_disk
    create_for vm none = pure tt
    create_for vm (some cfg) = do create_disk os base vm "disk" (pos 10737418240); pure tt

    unfoldable pub attach_for : String → Option VmStartConfig → Act os (Unit {0})
    unfolding attach_disk
    attach_for vm none = pure tt
    attach_for vm (some cfg) = attach_disk os vm cfg.disk_path 1

    -- The switch of handleCommand.
    unfoldable pub dispatch : VmCommand → Act os (Unit {0})
    unfolding start_vm stop_vm reboot_vm create_for attach_for detach_disk
    dispatch cmd =
        if str_eq cmd.action "start"
        then start_vm os base images cmd.vm_id cmd.config
        else if str_eq cmd.action "stop"
        then stop_vm cmd.vm_id cmd.force
        else if str_eq cmd.action "reboot"
        then reboot_vm cmd.vm_id cmd.force
        else if str_eq cmd.action "create_disk"
        then create_for cmd.vm_id cmd.config
        else if str_eq cmd.action "attach_disk"
        then attach_for cmd.vm_id cmd.config
        else if str_eq cmd.action "detach_disk"
        then detach_disk os cmd.vm_id cmd.vm_id
        else fail unknown_action

    -- handleCommand; a message that does not decode is `none`.
    unfoldable pub handle_command : Option VmCommand → Act os (Unit {0})
    unfolding dispatch publish_result
    handle_command none = acknowledge false
    handle_command (some cmd) = do
      r ← caught (dispatch cmd)
      publish_result (result_of cmd r)
      acknowledge (is_ok r)

    -- The messages of the subscription, the newest first.
    unfoldable pub handle_all : List (Option VmCommand) → Act os (Unit {0})
    unfolding handle_command
    handle_all [] = pure tt
    handle_all (m ∷ ms) = do handle_all ms; handle_command m

  -- listVMs, of the entries that the directory has
  unfoldable pub list_entries : List Entry → Act os (List VmInfo)
  unfolding manager_vm_status
  list_entries [] = pure []
  list_entries (e ∷ es) =
      if e.is_dir
      then (do
        status ← attempt (manager_vm_status os e.name)
        rest ← list_entries es
        pure (elim status [
          | none ↦ rest
          | some s ↦ record { id = e.name; status = s; cpus = pos 1; memory = pos 512 } ∷ rest
        ]))
      else list_entries es

  unfoldable pub list_vms : Act os (List VmInfo)
  unfolding os_call list_entries
  list_vms =
      if os.has_base
      then (do os_call os read_base_dir; entries ← gets (λ h. h.entries); list_entries entries)
      else pure []

  unfoldable pub collect_heartbeat : String → Act os Heartbeat
  unfolding list_vms
  collect_heartbeat node = do
    total ← ask os os.total_cpus
    cpus ← or_fail total collect_heartbeat_failed
    used ← ask os os.used_cpus
    busy ← or_fail used collect_heartbeat_failed
    memory ← ask os os.memory
    sizes ← or_fail memory collect_heartbeat_failed
    vms ← attempt list_vms
    pure (record {
      node_id = node;
      total_cpus = cpus;
      used_cpus = busy;
      total_memory_mb = sizes.0;
      used_memory_mb = sizes.1;
      vms = elim vms [ none ↦ [] | some found ↦ found ];
    })

  unfoldable pub send_heartbeat : String → Act os (Unit {0})
  unfolding collect_heartbeat os_call
  send_heartbeat node = do
    beat ← collect_heartbeat node
    os_call os publish_failed
    modify (λ h. record h { heartbeats = beat ∷ h.heartbeats })
