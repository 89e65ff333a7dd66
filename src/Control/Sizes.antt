-- ===== src/Control/Sizes.antt =====
-- The sizes of VMs under single calls of the database.
use rymevisor.Common.{
  ◌+◌, ◌≡◌, inl, inr, subst, sym, refl, Bool, true, false, Option, none, some, List, [], ◌∷◌,
  if◌then◌else◌, String, str_eq, arith, All, Bool-cases,
}
use rymevisor.Common.Effect.{Result, ok, err, fail_if, or_fail}
use rymevisor.Common.Triple.{Ends, Triple, triple->>=, triple-given}
use rymevisor.Common.Int.{pos, ◌≤ℤ◌}
use rymevisor.Common.Table.{select, update, delete}
use rymevisor.Control.{VmStatus, VirtualMachine}
use rymevisor.Control.Store.{
  World, Environment, Failure, get_vm, vm_not_found, vm_key, Db, find_vm, set_status, set_node,
  set_columns, put_status, put_node, put_vm, write_vm,
}
use rymevisor.Control.Lifecycle.{require_vm}
use rymevisor.Control.Store.{write_vm}
use rymevisor.Control.Rows.{write_vm_fails, write_vm_done}

-- At least one CPU and 256 MB.
abbrev pub Sized : VirtualMachine → Type 0
Sized vm = (pos 1 ≤ℤ vm.vcpus) × (pos 256 ≤ℤ vm.memory_mb)

abbrev pub AllSized : World → Type 0
AllSized w = All Sized w.vms

select-Sized :
    (id : String) (rows : List VirtualMachine) (vm : VirtualMachine)
    → All Sized rows
    → select vm_key id rows ≡ some vm
    → Sized vm
unfolding select
select-Sized id [] vm a h = ground arith
select-Sized id (r ∷ rows) vm a h = elim (Bool-cases (str_eq r.id id)) [
  | inl e ↦ subst Sized {x = r} {y = vm} (ground (arith, h, e)) a.0
  | inr e ↦ select-Sized id rows vm a.1 (ground (arith, h, e))
]

update-Sized :
    (f : VirtualMachine → VirtualMachine) (id : String) (rows : List VirtualMachine)
    → ((r : VirtualMachine) → Sized r → Sized (f r))
    → All Sized rows
    → All Sized (update vm_key id f rows)
unfolding update
update-Sized f id [] keeps a = tt
update-Sized f id (r ∷ rows) keeps a =
    elim (str_eq r.id id) as (λ b. All Sized ((if b then f r else r) ∷ update vm_key id f rows)) [
      | true ↦ (keeps r a.0, update-Sized f id rows keeps a.1)
      | false ↦ (a.0, update-Sized f id rows keeps a.1)
    ]

pub delete-Sized :
    (id : String) (rows : List VirtualMachine) → All Sized rows → All Sized (delete vm_key id rows)
unfolding delete
delete-Sized id [] a = tt
delete-Sized id (r ∷ rows) a =
    elim (str_eq r.id id)
      as (λ b. All Sized (if b then delete vm_key id rows else r ∷ delete vm_key id rows)) [
        | true ↦ delete-Sized id rows a.1
        | false ↦ (a.0, delete-Sized id rows a.1)
      ]

-- An action that keeps every VM sized, also when it fails.
abbrev pub Keeps : (env : Environment) {A : Type 0} → Db env A → Type 0
Keeps env m = Triple AllSized m (λ _. AllSized) (λ _. AllSized)

module _ (env : Environment) where
  pub write_vm-Keeps :
      (e : Failure) (id : String) (f : VirtualMachine → VirtualMachine)
      → ((r : VirtualMachine) → Sized r → Sized (f r))
      → Keeps env (write_vm env e id f)
  write_vm-Keeps e id f keeps = record {
    run = λ w p. elim (Bool-cases (env.fails w.calls)) [
      | inl h ↦ subst (Ends (λ _. AllSized) (λ _. AllSized)) (sym (write_vm_fails env e id f w h)) p
      | inr h ↦
          subst (Ends (λ _. AllSized) (λ _. AllSized)) (sym (write_vm_done env e id f w h))
            (update-Sized f id w.vms keeps p)
    ];
  }

  pub put_status-Keeps :
      (e : Failure) (id : String) (status : VmStatus) → Keeps env (put_status env e id status)
  unfolding put_status
  put_status-Keeps e id status = write_vm-Keeps e id (set_status status) (λ r p. p)

  pub put_node-Keeps : (e : Failure) (id node : String) → Keeps env (put_node env e id node)
  unfolding put_node
  put_node-Keeps e id node = write_vm-Keeps e id (set_node node) (λ r p. p)

  pub put_vm-Keeps : (e : Failure) (vm : VirtualMachine) → Sized vm → Keeps env (put_vm env e vm)
  unfolding put_vm
  put_vm-Keeps e vm sized = write_vm-Keeps e vm.id (set_columns vm) (λ r p. sized)

  -- An action that writes no VM.
  pub Keeps-same : {A : Type 0} (m : Db env A) → ((w : World) → (m w).1.vms ≡ w.vms) → Keeps env m
  Keeps-same {A} m same = record { run = λ w p. both (m w) (subst (All Sized) (sym (same w)) p) }
    where
      both : (o : Result Failure A × World) → AllSized o.1 → Ends (λ _. AllSized) (λ _. AllSized) o
      both (ok a, s) p = p
      both (err e, s) p = p

  -- What a read of a VM finds.
  abbrev FoundSized : Option VirtualMachine → Type 0
  FoundSized found = (vm : VirtualMachine) → found ≡ some vm → Sized vm

  find_vm-Keeps :
      (e : Failure) (id : String)
      → Triple AllSized
          (find_vm env e id)
          (λ found w. FoundSized found × AllSized w)
          (λ _. AllSized)
  find_vm-Keeps e id = record {
    run = λ w p. elim (Bool-cases (env.fails w.calls)) [
      | inl h ↦
          subst (Ends (λ found w. FoundSized found × AllSized w) (λ _. AllSized)) (sym (fails w h))
            p
      | inr h ↦
          subst (Ends (λ found w. FoundSized found × AllSized w) (λ _. AllSized)) (sym (done w h))
            (λ vm eq. select-Sized id w.vms vm p eq, p)
    ];
  }
    where
      fails :
          (w : World)
          → env.fails w.calls ≡ true
          → find_vm env e id w ≡ (err e, record w { calls = w.calls + 1 })
      fails w h = ground arith

      done :
          (w : World)
          → env.fails w.calls ≡ false
          → find_vm env e id w ≡ (ok (select vm_key id w.vms), record w { calls = w.calls + 1 })
      done w h = ground arith

  or_fail-Keeps :
      (found : Option VirtualMachine) (e : Failure)
      → FoundSized found
      → Triple AllSized (or_fail found e) (λ vm w. Sized vm × AllSized w) (λ _. AllSized)
  or_fail-Keeps none e f = record { run = λ w p. p }
  or_fail-Keeps (some vm) e f = record { run = λ w p. (f vm refl, p) }

  pub require_vm-Keeps :
      (id : String)
      → Triple AllSized (require_vm env id) (λ vm w. Sized vm × AllSized w) (λ _. AllSized)
  unfolding require_vm
  require_vm-Keeps id =
      triple->>= _ (λ found. or_fail found vm_not_found) (find_vm-Keeps get_vm id)
        (λ found. triple-given (λ f. or_fail-Keeps found vm_not_found f))

  pub fail_if-Keeps : (c : Bool) (e : Failure) → Keeps env (fail_if c e)
  fail_if-Keeps true e = record { run = λ w p. p }
  fail_if-Keeps false e = record { run = λ w p. p }
