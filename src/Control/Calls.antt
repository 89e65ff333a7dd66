-- ===== src/Control/Calls.antt =====
-- The sizes of VMs under sequences of calls.
use rymevisor.Common.{◌≡◌, refl, Bool, false, not, ◌&&◌, List, [], ◌∷◌, String, arith}
use rymevisor.Common.Effect.{Result, ok, err, pure, gets, modify, or_fail, ◌>>=◌, ◌>>◌}
use rymevisor.Common.Triple.{Ends, triple->>=, triple->>, triple-fail_if, triple-pure, triple-given}
use rymevisor.Common.Int.{ℤ, pos, ltb_ℤ, ◌≤ℤ◌}
use rymevisor.Control.Restore.{
  snapshot, restore_snapshot, restore_backup, find_snapshot, find_backup, put_snapshot,
  new_snapshot,
}
use rymevisor.Common.Table.{delete}
use rymevisor.Control.{running, stopped, UpdateVmRequest}
use rymevisor.Control.Store.{
  Message, vm_event, World, Environment, Failure, update_vm, delete_vm, stop_vm, restart_vm,
  snapshot_not_found, backup_not_found, vcpus_too_small, memory_too_small, must_be_stopped, vm_key,
  Db, call, set_status, put_status, drop_vm, send,
}
use rymevisor.Control.Lifecycle.{
  is_stopped, power_on, resize, resize_found, update_vm_fields, update_found, updated,
  delete_vm_by_id, delete_found, power_off, reboot,
}
use rymevisor.Control.Sizing.{
  send-Keeps, found-Keeps, power_on-Keeps, power_off-Keeps, reboot-Keeps,
}
use rymevisor.Control.Sizes.{
  AllSized, delete-Sized, Keeps, put_status-Keeps, put_vm-Keeps, Keeps-same, fail_if-Keeps,
}

module _ (env : Environment) where
  guard_min : (a b : ℤ) → ltb_ℤ b a ≡ false → a ≤ℤ b
  guard_min a b h = ground (arith, h)

  resize-Keeps : (id : String) (vcpus memory_mb : ℤ) → Keeps env (resize env id vcpus memory_mb)
  unfolding resize resize_found
  resize-Keeps id vcpus memory_mb =
      found-Keeps env id (resize_found env id vcpus memory_mb) (λ vm sized.
        triple->> _ _ (triple-fail_if (ltb_ℤ vcpus (pos 1)) vcpus_too_small (λ w p. p)) (
          triple-given (λ cpus.
            triple->> _ _ (triple-fail_if (ltb_ℤ memory_mb (pos 256)) memory_too_small (λ w p. p)) (
              triple-given (λ memory.
                triple->> _ _
                  (put_vm-Keeps env update_vm (record vm { vcpus = vcpus; memory_mb = memory_mb })
                    (guard_min (pos 1) vcpus cpus, guard_min (pos 256) memory_mb memory))
                  (triple->> _ _ (send-Keeps env (vm_event "resized" id))
                    (triple-pure _ (λ w p. p))))))))

  update-Keeps : (id : String) (req : UpdateVmRequest) → Keeps env (update_vm_fields env id req)
  unfolding update_vm_fields update_found
  update-Keeps id req = found-Keeps env id (update_found env id req) (λ vm sized.
      triple->> _ _ (put_vm-Keeps env update_vm (updated env req vm) sized)
        (triple-pure _ (λ w p. p)))

  drop_vm-Keeps : (id : String) → Keeps env (drop_vm env delete_vm id)
  unfolding drop_vm
  drop_vm-Keeps id =
      triple->> _ (modify (λ w. record w { vms = delete vm_key id w.vms }))
        (Keeps-same env (call env delete_vm) (λ w. refl))
        (record { run = λ w p. delete-Sized id w.vms p })

  delete-Keeps : (id : String) (force : Bool) → Keeps env (delete_vm_by_id env id force)
  unfolding delete_vm_by_id delete_found
  delete-Keeps id force = found-Keeps env id (delete_found env id force) (λ vm sized.
      triple->> _ _
        (fail_if-Keeps env (not force && not (is_stopped vm.status)) (must_be_stopped vm.status))
        (drop_vm-Keeps id))

  -- The two status updates of a restore.
  restored-Keeps :
      {A : Type 0} (id : String) (event : Message) (answer : A)
      → Keeps env (
          put_status env stop_vm id stopped
          >> (send env event >> (put_status env restart_vm id running >> pure answer)))
  restored-Keeps id event answer = triple->> _ _ (put_status-Keeps env stop_vm id stopped) (
      triple->> _ _ (send-Keeps env event)
        (triple->> _ _ (put_status-Keeps env restart_vm id running) (triple-pure _ (λ w p. p))))

  find_snapshot-Keeps : (id : String) → Keeps env (find_snapshot env id)
  find_snapshot-Keeps id = Keeps-same env (find_snapshot env id) (λ w. ground arith)

  restore_snapshot-Keeps : (id : String) → Keeps env (restore_snapshot env id)
  unfolding restore_snapshot
  restore_snapshot-Keeps id = triple->>= _ _ (find_snapshot-Keeps id) (λ found.
      triple->>= _ _ (Keeps-same env (or_fail found snapshot_not_found) (λ w. ground arith))
        (λ snap.
          found-Keeps env snap.vm_id _ (λ vm sized.
            restored-Keeps vm.id (vm_event "restoring" vm.id) (set_status running vm))))

  find_backup-Keeps : (id : String) → Keeps env (find_backup env id)
  find_backup-Keeps id = Keeps-same env (find_backup env id) (λ w. ground arith)

  restore_backup-Keeps : (backup_id vm_id : String) → Keeps env (restore_backup env backup_id vm_id)
  unfolding restore_backup
  restore_backup-Keeps backup_id vm_id = triple->>= _ _ (find_backup-Keeps backup_id) (λ found.
      triple->> _ _ (Keeps-same env (or_fail found backup_not_found) (λ w. ground arith)) (
        found-Keeps env vm_id _ (λ vm sized.
          triple->> _ _ (put_status-Keeps env stop_vm vm_id stopped) (
            triple->> _ _ (send-Keeps env (vm_event "restoring_backup" vm_id))
              (put_status-Keeps env restart_vm vm_id running)))))

  snapshot-Keeps :
      (vm_id name description : String) → Keeps env (snapshot env vm_id name description)
  unfolding snapshot
  snapshot-Keeps vm_id name description =
      found-Keeps env vm_id
        (λ vm. gets (λ w. env.new_uuid w.calls) >>= λ id.
          put_snapshot env (new_snapshot id vm_id name description)
          >> (send env (vm_event "snapshot_created" vm_id)
              >> pure (new_snapshot id vm_id name description)))
        (λ vm sized.
          triple->>= _ _ (Keeps-same env (gets (λ w. env.new_uuid w.calls)) (λ w. refl)) (λ id.
            triple->> _ _
              (Keeps-same env (put_snapshot env (new_snapshot id vm_id name description))
                (λ w. ground arith))
              (triple->> _ _ (send-Keeps env (vm_event "snapshot_created" vm_id))
                (triple-pure (new_snapshot id vm_id name description) (λ w p. p)))))

-- The calls on VMs.
pub data Call : Type 0 where
  on_of : String → Call
  off_of reboot_of : String → Bool → Call
  resize_of : String → ℤ → ℤ → Call
  update_of : String → UpdateVmRequest → Call
  delete_of : String → Bool → Call
  snapshot_of : String → String → String → Call
  restore_snapshot_of : String → Call
  restore_backup_of : String → String → Call

module _ (env : Environment) where
  -- What a call makes of the database; a later call comes whether or not it failed.
  unfoldable pub make_call : Call → World → World
  make_call (on_of id) w = (power_on env id w).1
  make_call (off_of id force) w = (power_off env id force w).1
  make_call (reboot_of id force) w = (reboot env id force w).1
  make_call (resize_of id vcpus memory_mb) w = (resize env id vcpus memory_mb w).1
  make_call (update_of id req) w = (update_vm_fields env id req w).1
  make_call (delete_of id force) w = (delete_vm_by_id env id force w).1
  make_call (snapshot_of vm_id name description) w = (snapshot env vm_id name description w).1
  make_call (restore_snapshot_of id) w = (restore_snapshot env id w).1
  make_call (restore_backup_of backup_id vm_id) w = (restore_backup env backup_id vm_id w).1

  unfoldable pub make_calls : List Call → World → World
  unfolding make_call
  make_calls [] w = w
  make_calls (c ∷ cs) w = make_calls cs (make_call c w)

  after-Keeps :
      {A : Type 0} {m : Db env A} → Keeps env m → (w : World) → AllSized w → AllSized (m w).1
  after-Keeps {A} {m} t w p = either (m w) (t.run w p)
    where
      either :
          (o : Result Failure A × World) → Ends (λ _. AllSized) (λ _. AllSized) o → AllSized o.1
      either (ok a, s) q = q
      either (err e, s) q = q

  make_call-AllSized : (c : Call) (w : World) → AllSized w → AllSized (make_call c w)
  unfolding make_call
  make_call-AllSized (on_of id) = after-Keeps (power_on-Keeps env id)
  make_call-AllSized (off_of id force) = after-Keeps (power_off-Keeps env id force)
  make_call-AllSized (reboot_of id force) = after-Keeps (reboot-Keeps env id force)
  make_call-AllSized (resize_of id vcpus memory_mb) =
      after-Keeps (resize-Keeps env id vcpus memory_mb)
  make_call-AllSized (update_of id req) = after-Keeps (update-Keeps env id req)
  make_call-AllSized (delete_of id force) = after-Keeps (delete-Keeps env id force)
  make_call-AllSized (snapshot_of vm_id name description) =
      after-Keeps (snapshot-Keeps env vm_id name description)
  make_call-AllSized (restore_snapshot_of id) = after-Keeps (restore_snapshot-Keeps env id)
  make_call-AllSized (restore_backup_of backup_id vm_id) =
      after-Keeps (restore_backup-Keeps env backup_id vm_id)

-- Where every stored VM has at least one CPU and 256 MB, each has so after any sequence of power,
-- resize, update, delete, snapshot and restore calls, whichever database calls fail in them.
pub make_calls-AllSized :
    (env : Environment) (cs : List Call) (w : World) → AllSized w → AllSized (make_calls env cs w)
unfolding make_calls
make_calls-AllSized env [] w p = p
make_calls-AllSized env (c ∷ cs) w p =
    make_calls-AllSized env cs (make_call env c w) (make_call-AllSized env c w p)
