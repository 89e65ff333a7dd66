-- ===== src/Control/Settled.antt =====
-- Recovery after a restart: what it makes of a VM that was left shutting down.
use rymevisor.Common.{
  ℕ, ◌+◌, ◌≡◌, ◌∙◌, subst, sym, ap, refl, false, some, List, [], ◌∷◌, ◌++◌, String, arith, take,
  All,
}
use rymevisor.Common.Effect.{Result, ok, err}
use rymevisor.Common.Triple.{Ends, Triple, triple->>, triple-ignore}
use rymevisor.Common.Table.{select, update, select-update_self}
use rymevisor.Control.{
  VmStatus, creating, running, stopped, paused, rebooting, shutting_down, terminated, error,
  migrating, snapshottting, VirtualMachine,
}
use rymevisor.Control.Store.{
  World, Environment, Failure, update_status, vm_key, set_status, put_status,
}
use rymevisor.Control.Rows.{write_vm_done}
use rymevisor.Control.Recovery.{mark, reconcile_as, reconcile_all, reconcile_vms}
use rymevisor.Control.Reconcile.{
  Recovers, shutting_down_stopped, Recovered, reconcile_as-triple, reconcile_all-triple,
}
use rymevisor.Control.Restart.{PrimaryKey, All-take, All-map, row_of}

module _ (env : Environment) (working : (n : ℕ) → env.fails n ≡ false) (id : String)
    (vm : VirtualMachine) (is : vm.id ≡ id) (left : vm.status ≡ shutting_down) where
  -- Any status, and the status that a VM that was shutting down comes to.
  abbrev AnyStatus : VmStatus → Type 0
  AnyStatus s = Unit

  abbrev Stopped : VmStatus → Type 0
  Stopped s = s ≡ stopped

  stop-triple :
      {X : Failure → World → Type 0}
      → Triple
          (Recovered env id vm AnyStatus)
          (reconcile_as env vm shutting_down)
          (λ _. Recovered env id vm Stopped)
          X
  unfolding reconcile_as mark put_status
  stop-triple = triple-ignore (put_status env update_status vm.id stopped) (record {
    run = λ w (s, m, row).
        subst (Ends (λ _. Recovered env id vm Stopped) (λ _. Recovered env id vm Stopped))
          (sym (write_vm_done env update_status vm.id (set_status stopped) w (working w.calls)))
          (
            stopped,
            refl,
            subst
                (λ x.
                  select vm_key id (update vm_key x (set_status stopped) w.vms)
                  ≡ some (set_status stopped vm))
                (sym is)
                (select-update_self vm_key (set_status stopped) (λ r. refl) id w.vms
                  (set_status s vm) row),
          );
  })

  Recovers-stopped : (s : VmStatus) → Recovers shutting_down s → s ≡ stopped
  Recovers-stopped stopped shutting_down_stopped = refl
  Recovers-stopped creating m = elim m [ ]
  Recovers-stopped running m = elim m [ ]
  Recovers-stopped paused m = elim m [ ]
  Recovers-stopped rebooting m = elim m [ ]
  Recovers-stopped shutting_down m = elim m [ ]
  Recovers-stopped terminated m = elim m [ ]
  Recovers-stopped error m = elim m [ ]
  Recovers-stopped migrating m = elim m [ ]
  Recovers-stopped snapshottting m = elim m [ ]

  settle-triple :
      {X : Failure → World → Type 0}
      → (before after : List VirtualMachine) → All (λ r. r.id ≡ id → r ≡ vm) after
      → Triple
          (Recovered env id vm AnyStatus)
          (reconcile_all env (before ++ vm ∷ after))
          (λ _. Recovered env id vm Stopped)
          X
  unfolding reconcile_all
  settle-triple {X = X} [] after same =
      triple->> _ (reconcile_all env after)
        (subst
          (λ s.
            Triple (Recovered env id vm AnyStatus) (reconcile_as env vm s)
              (λ _. Recovered env id vm Stopped) X)
          (sym left) stop-triple)
        (reconcile_all-triple env id vm Stopped after (
          All-map
            (λ r eq same_id s m.
              Recovers-stopped s
                (subst (λ x. Recovers x s) (ap (λ x. x.status) (eq same_id) ∙ left) m))
            after same))
  settle-triple (r ∷ before) after same =
      triple->> _ (reconcile_all env (before ++ vm ∷ after))
        (reconcile_as-triple env id vm AnyStatus r r.status (λ same_id s m. tt))
        (settle-triple before after same)

  reconcile_vms_listed :
      (w : World)
      → reconcile_vms env w ≡ reconcile_all env (take 1000 w.vms) (record w { calls = w.calls + 1 })
  unfolding reconcile_vms
  reconcile_vms_listed w = ground (arith, working w.calls)

All-after :
    (P : VirtualMachine → Type 0) (before : List VirtualMachine) (vm : VirtualMachine)
    (after : List VirtualMachine)
    → All P (before ++ vm ∷ after)
    → All P after
All-after P [] vm after a = a.1
All-after P (r ∷ before) vm after a = All-after P before vm after a.1

-- An action that cannot fail answers.
Ends-ok :
    (P : World → Type 0) (o : Result Failure (Unit {0}) × World)
    → Ends (λ _. P) (λ _ _. ⊥) o
    → (o.0 ≡ ok tt) × P o.1
Ends-ok P (ok a, s) p = (refl, p)
Ends-ok P (err e, s) p = elim p [ ]

-- Where no call fails, recovery succeeds and stores as stopped each VM that was left shutting down, if
-- it is among the newest 1000.
pub reconcile_vms_stops :
    (env : Environment) (w : World) (vm : VirtualMachine) (before after : List VirtualMachine)
    → ((n : ℕ) → env.fails n ≡ false)
    → PrimaryKey w.vms
    → vm.status ≡ shutting_down
    → select vm_key vm.id w.vms ≡ some vm
    → take 1000 w.vms ≡ before ++ vm ∷ after
    → ((reconcile_vms env w).0 ≡ ok tt)
      × (select vm_key vm.id (reconcile_vms env w).1.vms ≡ some (set_status stopped vm))
reconcile_vms_stops env w vm before after working keyed left found page =
    rw (reconcile_vms_listed env working vm.id vm refl left w, page)
      (let p =
          Ends-ok (Recovered env vm.id vm (λ s. s ≡ stopped))
            (reconcile_all env (before ++ vm ∷ after) listed_world)
            ((settle-triple env working vm.id vm refl left before after same).run listed_world
              (vm.status, tt, found)) in
        (p.0, stored (reconcile_all env (before ++ vm ∷ after) listed_world).1 p.1))
  where
    listed_world : World
    listed_world = record w { calls = w.calls + 1 }

    same : All (λ r. r.id ≡ vm.id → r ≡ vm) after
    same = All-after _ before vm after (
        subst (All _) page (
          All-take _ 1000 w.vms
            (All-map (λ r own is. row_of w.vms vm.id vm r found own is) w.vms keyed)))

    stored :
        (v : World)
        → Recovered env vm.id vm (λ s. s ≡ stopped) v
        → select vm_key vm.id v.vms ≡ some (set_status stopped vm)
    stored v (s, m, row) = row ∙ ap (λ x. some (set_status x vm)) m
