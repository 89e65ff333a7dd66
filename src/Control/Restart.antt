-- ===== src/Control/Restart.antt =====
-- Recovery after a restart: what it may change of a VM.
use rymevisor.Common.{
  ℕ, zero, suc, ◌+◌, ◌≡◌, ◌⊎◌, inl, inr, ◌∙◌, subst, sym, ap, refl, true, false, some, List, [],
  ◌∷◌, String, arith, Bool-cases, take, All,
}
use rymevisor.Common.Effect.{Result, ok, err}
use rymevisor.Common.Triple.{Ends, Triple, triple->>=, triple-given}
use rymevisor.Common.Table.{select}
use rymevisor.Control.{VmStatus, VirtualMachine}
use rymevisor.Control.Store.{World, Environment, Failure, list_vms, vm_key, set_status}
use rymevisor.Control.Recovery.{reconcile_all, reconcile_vms, list_page}
use rymevisor.Control.Reconcile.{Recovers, Recovered, reconcile_all-triple}

-- Each row is the one that its id selects, as the primary key of the table makes sure.
abbrev pub PrimaryKey : List VirtualMachine → Type 0
PrimaryKey rows = All (λ r. select vm_key r.id rows ≡ some r) rows

pub All-take :
    (P : VirtualMachine → Type 0) (n : ℕ) (rows : List VirtualMachine)
    → All P rows
    → All P (take n rows)
All-take P zero rows a = tt
All-take P (suc n) [] a = tt
All-take P (suc n) (r ∷ rows) a = (a.0, All-take P n rows a.1)

pub All-map :
    {P Q : VirtualMachine → Type 0}
    → ((r : VirtualMachine) → P r → Q r)
    → (rows : List VirtualMachine) → All P rows
    → All Q rows
All-map f [] a = tt
All-map f (r ∷ rows) a = (f r a.0, All-map f rows a.1)

some-injective : (a b : VirtualMachine) → some a ≡ some b → a ≡ b
some-injective a b h = ground (arith, h)

-- A row with the id of a VM is that VM.
pub row_of :
    (rows : List VirtualMachine) (id : String) (vm r : VirtualMachine)
    → select vm_key id rows ≡ some vm
    → select vm_key r.id rows ≡ some r
    → r.id ≡ id
    → r ≡ vm
row_of rows id vm r found own is =
    some-injective r vm (sym own ∙ ap (λ k. select vm_key k rows) is ∙ found)

module _ (env : Environment) (id : String) (vm : VirtualMachine) (rows : List VirtualMachine) where
  -- The status as before, or one that recovery gives.
  abbrev pub KeptOrRecovered : VmStatus → Type 0
  KeptOrRecovered s = (s ≡ vm.status) ⊎ Recovers vm.status s

  list_page-triple :
      Triple
        (λ w. (w.vms ≡ rows) × Recovered env id vm KeptOrRecovered w)
        (list_page env)
        (λ page w. (page ≡ take 1000 rows) × Recovered env id vm KeptOrRecovered w)
        (λ _. Recovered env id vm KeptOrRecovered)
  list_page-triple = record {
    run = λ w p. elim (Bool-cases (env.fails w.calls)) [
      | inl h ↦
          subst
            (Ends (λ page w. (page ≡ take 1000 rows) × Recovered env id vm KeptOrRecovered w)
              (λ _. Recovered env id vm KeptOrRecovered))
            (sym (list_fails w h)) p.1
      | inr h ↦
          subst
            (Ends (λ page w. (page ≡ take 1000 rows) × Recovered env id vm KeptOrRecovered w)
              (λ _. Recovered env id vm KeptOrRecovered))
            (sym (list_done w h)) (ap (take 1000) p.0, p.1)
    ];
  }
    where
      list_fails :
          (w : World)
          → env.fails w.calls ≡ true
          → list_page env w ≡ (err list_vms, record w { calls = w.calls + 1 })
      list_fails w h = ground arith

      list_done :
          (w : World)
          → env.fails w.calls ≡ false
          → list_page env w ≡ (ok (take 1000 w.vms), record w { calls = w.calls + 1 })
      list_done w h = ground arith

  reconcile_vms-triple :
      select vm_key id rows ≡ some vm
      → PrimaryKey rows
      → Triple
          (λ w. (w.vms ≡ rows) × Recovered env id vm KeptOrRecovered w)
          (reconcile_vms env)
          (λ _. Recovered env id vm KeptOrRecovered)
          (λ _. Recovered env id vm KeptOrRecovered)
  unfolding reconcile_vms
  reconcile_vms-triple found keyed = triple->>= _ (reconcile_all env) list_page-triple (λ page.
      triple-given (λ is. reconcile_all-triple env id vm KeptOrRecovered page (
        subst (All _) (sym is) (
          All-take _ 1000 rows (
            All-map
              (λ r own same s m. inr (
                subst (λ x. Recovers x s) (ap (λ x. x.status) (row_of rows id vm r found own same))
                  m))
              rows keyed)))))

-- Recovery, whichever calls fail, changes nothing of a VM but its status, and that only from running,
-- rebooting, migrating or creating to error, or from shutting_down to stopped.
pub reconcile_vms_total :
    (env : Environment) (w : World) (id : String) (vm : VirtualMachine)
    → PrimaryKey w.vms
    → select vm_key id w.vms ≡ some vm
    → (status : VmStatus) × ((status ≡ vm.status) ⊎ Recovers vm.status status)
      × (select vm_key id (reconcile_vms env w).1.vms ≡ some (set_status status vm))
reconcile_vms_total env w id vm keyed found =
    ends_either (reconcile_vms env w) (
      (reconcile_vms-triple env id vm w.vms found keyed).run w (refl, (vm.status, inl refl, found)))
  where
    ends_either :
        (o : Result Failure (Unit {0}) × World)
        → Ends
            (λ _. Recovered env id vm (KeptOrRecovered env id vm w.vms))
            (λ _. Recovered env id vm (KeptOrRecovered env id vm w.vms))
            o
        → Recovered env id vm (KeptOrRecovered env id vm w.vms) o.1
    ends_either (ok a, s) p = p
    ends_either (err e, s) p = p
