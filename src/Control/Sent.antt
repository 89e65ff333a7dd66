-- ===== src/Control/Sent.antt =====
-- What the restore of a snapshot sends.
use rymevisor.Common.{
  ◌≡◌, ◌⊎◌, inl, inr, ◌∙◌, subst, sym, ap, refl, List, ◌∷◌, String, arith, Bool-cases,
}
use rymevisor.Common.Effect.{Result, ok, err, or_fail}
use rymevisor.Common.Triple.{Ends, Triple, triple->>=, triple->>, triple-pure}
use rymevisor.Control.Restore.{restore_snapshot, find_snapshot}
use rymevisor.Control.{VmStatus, running, stopped, VirtualMachine}
use rymevisor.Control.Store.{
  Message, vm_event, World, Environment, Failure, stop_vm, restart_vm, snapshot_not_found, Db,
  set_status, put_status, send,
}
use rymevisor.Control.Lifecycle.{require_vm}

-- Events alone were sent.
abbrev pub Unsent : List Message → List Message → Type 0
Unsent before after =
    (after ≡ before) ⊎ ((kind : String) × (id : String) × (after ≡ vm_event kind id ∷ before))

module _ (env : Environment) (old : List Message) where
  abbrev Quiet : World → Type 0
  Quiet w = w.published ≡ old

  abbrev Sent : World → Type 0
  Sent w = Unsent old w.published

  -- An action that publishes nothing.
  quiet :
      {A : Type 0} (m : Db env A)
      → ((w : World) → (m w).1.published ≡ w.published)
      → Triple Quiet m (λ _. Quiet) (λ _. Sent)
  quiet {A} m same = record { run = λ w p. either (m w) (same w ∙ p) }
    where
      either : (o : Result Failure A × World) → Quiet o.1 → Ends (λ _. Quiet) (λ _. Sent) o
      either (ok a, v) p = p
      either (err e, v) p = inl p

  still-Sent :
      {A : Type 0} (m : Db env A)
      → ((w : World) → (m w).1.published ≡ w.published)
      → Triple Sent m (λ _. Sent) (λ _. Sent)
  still-Sent {A} m same = record { run = λ w p. either (m w) (subst (Unsent old) (sym (same w)) p) }
    where
      either : (o : Result Failure A × World) → Sent o.1 → Ends (λ _. Sent) (λ _. Sent) o
      either (ok a, v) p = p
      either (err e, v) p = p

  event-triple :
      (kind id : String) → Triple Quiet (send env (vm_event kind id)) (λ _. Sent) (λ _. Sent)
  unfolding send
  event-triple kind id = record { run = sent }
    where
      sent : (w : World) → Quiet w → Ends (λ _. Sent) (λ _. Sent) (send env (vm_event kind id) w)
      sent w p = elim (Bool-cases env.has_publisher) [
        | inl h ↦ elim (Bool-cases (env.fails w.calls)) [
          | inl f ↦ rw (h, f, Ends) (inl p)
          | inr f ↦ rw (h, f, Ends) (inr (kind, id, ap (λ x. vm_event kind id ∷ x) p))
        ]
        | inr h ↦ rw (h, Ends) (inl p)
      ]

  status_quiet :
      (e : Failure) (id : String) (s : VmStatus) (w : World)
      → (put_status env e id s w).1.published ≡ w.published
  unfolding put_status
  status_quiet e id s w = ground arith

  require_quiet : (id : String) (w : World) → (require_vm env id w).1.published ≡ w.published
  unfolding require_vm
  require_quiet id w = ground arith

  restore_snapshot-triple :
      (sid : String) → Triple Quiet (restore_snapshot env sid) (λ _. Sent) (λ _. Sent)
  unfolding restore_snapshot
  restore_snapshot-triple sid =
      triple->>= _ _ (quiet (find_snapshot env sid) (λ w. ground arith)) (λ found.
        triple->>= _ _ (quiet (or_fail found snapshot_not_found) (λ w. ground arith)) (λ snap.
          triple->>= _ _ (quiet (require_vm env snap.vm_id) (require_quiet snap.vm_id)) (λ vm.
            triple->> _ _
              (quiet (put_status env stop_vm vm.id stopped) (status_quiet stop_vm vm.id stopped))
              (triple->> _ _ (event-triple "restoring" vm.id) (
                triple->> _ _
                  (still-Sent (put_status env restart_vm vm.id running)
                    (status_quiet restart_vm vm.id running))
                  (triple-pure (set_status running vm) (λ w p. p)))))))

-- RestoreSnapshot sends at most one message, and that is an event: no command goes to any node, also
-- where the VM is stored as running afterwards.
pub restore_snapshot_sends :
    (env : Environment) (w : World) (sid : String)
    → Unsent w.published (restore_snapshot env sid w).1.published
restore_snapshot_sends env w sid =
    either (restore_snapshot env sid w) ((restore_snapshot-triple env w.published sid).run w refl)
  where
    either :
        (o : Result Failure VirtualMachine × World)
        → Ends (λ _ v. Unsent w.published v.published) (λ _ v. Unsent w.published v.published) o
        → Unsent w.published o.1.published
    either (ok a, v) p = p
    either (err e, v) p = p
