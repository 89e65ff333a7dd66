-- ===== src/Control/Restored.antt =====
-- What the restore of a snapshot does to the table of VMs, and what it sends.
use rymevisor.Common.{
  ◌+◌, ◌≡◌, inl, inr, subst, sym, refl, true, false, Option, some, String, arith, Bool-cases,
}
use rymevisor.Common.Effect.{ok, err, pure, or_fail, ◌>>=◌, ◌>>◌}
use rymevisor.Common.Triple.{Ends, Triple, triple->>=, triple->>, triple-pure, triple-given}
use rymevisor.Control.Restore.{restore_snapshot, find_snapshot}
use rymevisor.Control.Power.{Moved, Between}
use rymevisor.Common.Table.{select}
use rymevisor.Control.{running, stopped, VirtualMachine, Snapshot}
use rymevisor.Control.Store.{
  vm_event, World, Environment, stop_vm, restart_vm, get_snapshot, snapshot_not_found, vm_key,
  snapshot_key, Db, set_status, put_status, send,
}
use rymevisor.Control.Lifecycle.{require_vm}
use rymevisor.Control.Rows.{Row, Left, send-triple, require_vm-triple, put_status-triple}

module _ (env : Environment) (w : World) (sid : String) (snap : Snapshot)
    (found : select snapshot_key sid w.snapshots ≡ some snap) where
  abbrev before : Option VirtualMachine
  before = select vm_key snap.vm_id w.vms

  find_snapshot-triple :
      Triple
        (λ v. v ≡ w)
        (find_snapshot env sid)
        (λ s v. (s ≡ some snap) × Row w.vms snap.vm_id before v)
        (Left w.vms snap.vm_id (Between before stopped))
  find_snapshot-triple = record {
    run = λ v p.
        subst
          (λ x.
            Ends (λ s v. (s ≡ some snap) × Row w.vms snap.vm_id before v)
              (Left w.vms snap.vm_id (Between before stopped)) (find_snapshot env sid x))
          (sym p) found_at;
  }
    where
      bumped : World
      bumped = record w { calls = w.calls + 1 }

      fails : env.fails w.calls ≡ true → find_snapshot env sid w ≡ (err get_snapshot, bumped)
      fails h = ground arith

      done : env.fails w.calls ≡ false → find_snapshot env sid w ≡ (ok (some snap), bumped)
      done h = ground (arith, found)

      found_at :
          Ends
            (λ s v. (s ≡ some snap) × Row w.vms snap.vm_id before v)
            (Left w.vms snap.vm_id (Between before stopped))
            (find_snapshot env sid w)
      found_at = elim (Bool-cases (env.fails w.calls)) [
        | inl h ↦ rw (fails h) (before, inl refl, (refl, λ other ne. refl))
        | inr h ↦ rw (done h) (refl, (refl, λ other ne. refl))
      ]

  restore_found-triple :
      Triple
        (λ v. v ≡ w)
        (restore_snapshot env sid)
        (Moved w.vms snap.vm_id before (λ s. true) running)
        (Left w.vms snap.vm_id (Between before stopped))
  unfolding restore_snapshot
  restore_found-triple = triple->>= _ _ find_snapshot-triple (λ s. triple-given (λ is.
      subst
        (λ s.
          Triple (Row w.vms snap.vm_id before) (or_fail s snapshot_not_found >>= restore_at)
            (Moved w.vms snap.vm_id before (λ s. true) running)
            (Left w.vms snap.vm_id (Between before stopped)))
        (sym is) restore_at-triple))
    where
      restore_vm : VirtualMachine → Db env VirtualMachine
      restore_vm vm =
          put_status env stop_vm vm.id stopped
          >> (send env (vm_event "restoring" vm.id)
              >> (put_status env restart_vm vm.id running >> pure (set_status running vm)))

      restore_at : Snapshot → Db env VirtualMachine
      restore_at s = require_vm env s.vm_id >>= restore_vm

      restore_vm-triple :
          (vm : VirtualMachine)
          → before ≡ some vm
          → vm.id ≡ snap.vm_id
          → Triple
              (Row w.vms snap.vm_id (some vm))
              (restore_vm vm)
              (Moved w.vms snap.vm_id before (λ s. true) running)
              (Left w.vms snap.vm_id (Between before stopped))
      restore_vm-triple vm h is =
          subst
            (λ k.
              Triple (Row w.vms snap.vm_id (some vm))
                (put_status env stop_vm k stopped
                  >> (send env (vm_event "restoring" k)
                      >> (put_status env restart_vm k running >> pure (set_status running vm))))
                (Moved w.vms snap.vm_id before (λ s. true) running)
                (Left w.vms snap.vm_id (Between before stopped)))
            (sym is)
            (triple->> _ _
              (put_status-triple env w.vms snap.vm_id stop_vm stopped
                (λ v p. (some vm, inl (sym h), p)))
              (triple->> _ _ (send-triple env w.vms snap.vm_id (vm_event "restoring" snap.vm_id)) (
                triple->> _ _
                  (put_status-triple env w.vms snap.vm_id restart_vm running
                    (λ v p. (_, inr (vm, h, refl), p)))
                  (triple-pure _ (λ v p. (vm, h, refl, refl, p))))))

      restore_at-triple :
          Triple
            (Row w.vms snap.vm_id before)
            (restore_at snap)
            (Moved w.vms snap.vm_id before (λ s. true) running)
            (Left w.vms snap.vm_id (Between before stopped))
      restore_at-triple =
          triple->>= _ restore_vm
            (require_vm-triple env w.vms snap.vm_id (λ e v p. (before, inl refl, p)))
            (λ vm. triple-given (λ (h, is). restore_vm-triple vm h is))

-- RestoreSnapshot of a stored snapshot, whichever calls fail, changes no row of a VM other than the
-- snapshot's. On success that VM, whatever its status was, is answered and stored as running. On an
-- error its row is as before, or is left with the status stopped.
pub restore_snapshot_total :
    (env : Environment) (w : World) (sid : String) (snap : Snapshot)
    → select snapshot_key sid w.snapshots ≡ some snap
    → let row = select vm_key snap.vm_id w.vms in
      Ends
        (Moved w.vms snap.vm_id row (λ s. true) running)
        (Left w.vms snap.vm_id (Between row stopped))
        (restore_snapshot env sid w)
restore_snapshot_total env w sid snap found = (restore_found-triple env w sid snap found).run w refl
