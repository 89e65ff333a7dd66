-- ===== src/Control/Rows.antt =====
-- What single calls of the VM operations do to the table of VMs, whichever calls fail.
use rymevisor.Common.{
  ◌+◌, ◌≡◌, ◌≢◌, inl, inr, ◌∙◌, subst, sym, refl, true, false, Option, none, some, List, String,
  arith, Bool-cases,
}
use rymevisor.Common.Effect.{ok, err, or_fail}
use rymevisor.Common.Triple.{Ends, Triple, triple->>=}
use rymevisor.Common.Table.{select, update, key-select, select-update_self, select-update_ne}
use rymevisor.Control.{VmStatus, VirtualMachine}
use rymevisor.Control.Store.{
  Message, World, Environment, Failure, get_vm, vm_not_found, vm_key, find_vm, set_status,
  put_status, find_node, send, write_vm,
}
use rymevisor.Control.Lifecycle.{require_vm, command_node, send_command, send_start}

-- The table of VMs where the row of one VM is replaced, or removed, and other rows are as before.
abbrev pub Row : List VirtualMachine → String → Option VirtualMachine → World → Type 0
Row rows id row w =
    (select vm_key id w.vms ≡ row)
    × ((other : String) → other ≢ id → select vm_key other w.vms ≡ select vm_key other rows)

-- A failure that leaves one of some rows.
abbrev pub Left :
    List VirtualMachine → String → (Option VirtualMachine → Type 0) → Failure → World → Type 0
Left rows id rows_left e w = (row : Option VirtualMachine) × rows_left row × Row rows id row w

module _ (env : Environment) where
  pub write_vm_fails :
      (e : Failure) (k : String) (f : VirtualMachine → VirtualMachine) (w : World)
      → env.fails w.calls ≡ true
      → write_vm env e k f w ≡ (err e, record w { calls = w.calls + 1 })
  write_vm_fails e k f w h = ground arith

  pub write_vm_done :
      (e : Failure) (k : String) (f : VirtualMachine → VirtualMachine) (w : World)
      → env.fails w.calls ≡ false
      → write_vm env e k f w
        ≡ (ok tt, record w { vms = update vm_key k f w.vms; calls = w.calls + 1 })
  write_vm_done e k f w h = ground arith

module _ (env : Environment) (rows : List VirtualMachine) (id : String) where
  -- A call that answers, and writes no VM.
  module _ {row : Option VirtualMachine} {X : Failure → World → Type 0} where
    pub send-triple : (m : Message) → Triple (Row rows id row) (send env m) (λ _. Row rows id row) X
    unfolding send
    send-triple m = record { run = λ w p. ground (arith, p) }

    pub send_command-triple :
        (action : String) (vm : VirtualMachine)
        → Triple (Row rows id row) (send_command env action vm) (λ _. Row rows id row) X
    unfolding send_command command_node find_node send
    send_command-triple action vm = record { run = λ w p. ground (arith, p) }

    pub send_start-triple :
        (vm : VirtualMachine)
        → Triple (Row rows id row) (send_start env vm) (λ _. Row rows id row) X
    unfolding send_start send_command command_node find_node send
    send_start-triple vm = record { run = λ w p. ground (arith, p) }

    -- The VM of the row, or a failure that leaves the row.
    pub require_vm-triple :
        ((e : Failure) (w : World) → Row rows id row w → X e w)
        → Triple
            (Row rows id row)
            (require_vm env id)
            (λ vm w. ((row ≡ some vm) × (vm.id ≡ id)) × Row rows id (some vm) w)
            X
    unfolding require_vm
    require_vm-triple bad =
        triple->>= (find_vm env get_vm id) _
          (record { run = λ w p. ground (arith, p, bad get_vm (record w { calls = w.calls + 1 })) })
          (λ found. found_vm found)
      where
        found_vm :
            (found : Option VirtualMachine)
            → Triple
                (λ w. (row ≡ found) × Row rows id row w)
                (or_fail found vm_not_found)
                (λ vm w. ((row ≡ some vm) × (vm.id ≡ id)) × Row rows id (some vm) w)
                X
        found_vm none = record { run = λ w p. bad vm_not_found w p.1 }
        found_vm (some vm) = record {
          run = λ w p. ((p.0, key-select vm_key id w.vms vm (p.1.0 ∙ p.0)), (p.1.0 ∙ p.0, p.1.1));
        }

  -- A write to the row, or a failure that leaves it.
  module _ {vm : VirtualMachine} {X : Failure → World → Type 0} where
    pub write_vm-triple :
        (e : Failure) (f : VirtualMachine → VirtualMachine)
        → ((r : VirtualMachine) → (f r).id ≡ r.id)
        → ((w : World) → Row rows id (some vm) w → X e w)
        → Triple (Row rows id (some vm)) (write_vm env e id f) (λ _. Row rows id (some (f vm))) X
    write_vm-triple e f keeps bad = record {
      run = λ w p. elim (Bool-cases (env.fails w.calls)) [
        | inl h ↦
            subst (Ends (λ _. Row rows id (some (f vm))) X) (sym (write_vm_fails env e id f w h))
              (bad (record w { calls = w.calls + 1 }) p)
        | inr h ↦
            subst (Ends (λ _. Row rows id (some (f vm))) X) (sym (write_vm_done env e id f w h)) (
              select-update_self vm_key f keeps id w.vms vm p.0,
              λ other ne. select-update_ne vm_key f keeps other id w.vms ne ∙ p.1 other ne,
            )
      ];
    }

    pub put_status-triple :
        (e : Failure) (status : VmStatus)
        → ((w : World) → Row rows id (some vm) w → X e w)
        → Triple
            (Row rows id (some vm))
            (put_status env e id status)
            (λ _. Row rows id (some (set_status status vm)))
            X
    unfolding put_status
    put_status-triple e status = write_vm-triple e (set_status status) (λ r. refl)
