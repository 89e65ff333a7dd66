-- ===== src/Control/Restore.antt =====
-- Snapshots and restores of services/controlplane/service.go.
use rymevisor.Common.{Option, ◌∷◌, String}
use rymevisor.Common.Effect.{pure, gets, modify, or_fail, ◌>>=◌, ◌>>◌}
use rymevisor.Common.Table.{select}
use rymevisor.Control.{running, stopped, VirtualMachine, Snapshot, Backup}
use rymevisor.Control.Store.{
  vm_event, Environment, stop_vm, restart_vm, create_snapshot, get_snapshot, snapshot_not_found,
  get_backup, backup_not_found, snapshot_key, backup_key, Db, call, set_status, put_status, send,
}
use rymevisor.Control.Lifecycle.{require_vm}

abbrev pub new_snapshot : String → String → String → String → Snapshot
new_snapshot id vm_id name description = record {
  id = id;
  vm_id = vm_id;
  name = name;
  description = description;
  status = "creating";
}

module _ (env : Environment) where
  -- snapRepo.GetByID, backupRepo.GetByID
  abbrev pub find_snapshot : String → Db env (Option Snapshot)
  find_snapshot id = do call env get_snapshot; gets (λ w. select snapshot_key id w.snapshots)

  abbrev pub find_backup : String → Db env (Option Backup)
  find_backup id = do call env get_backup; gets (λ w. select backup_key id w.backups)

  -- snapRepo.Create
  abbrev pub put_snapshot : Snapshot → Db env (Unit {0})
  put_snapshot s = do
    call env create_snapshot
    modify (λ w. record w { snapshots = s ∷ w.snapshots })

  unfoldable pub snapshot : String → String → String → Db env Snapshot
  unfolding require_vm send
  snapshot vm_id name description = do
    vm ← require_vm env vm_id
    id ← gets (λ w. env.new_uuid w.calls)
    let snap = new_snapshot id vm_id name description
    put_snapshot snap
    send env (vm_event "snapshot_created" vm_id)
    pure snap

  unfoldable pub restore_snapshot : String → Db env VirtualMachine
  unfolding require_vm put_status send
  restore_snapshot id = do
    snap ← or_fail (← find_snapshot id) snapshot_not_found
    vm ← require_vm env snap.vm_id
    put_status env stop_vm vm.id stopped
    send env (vm_event "restoring" vm.id)
    put_status env restart_vm vm.id running
    pure (set_status running vm)

  unfoldable pub restore_backup : String → String → Db env (Unit {0})
  unfolding require_vm put_status send
  restore_backup backup_id vm_id = do
    or_fail (← find_backup backup_id) backup_not_found
    require_vm env vm_id
    put_status env stop_vm vm_id stopped
    send env (vm_event "restoring_backup" vm_id)
    put_status env restart_vm vm_id running
