-- ===== src/Control/Reconcile.antt =====
-- What the recovery after a restart does to the table of VMs, whichever calls fail.
use rymevisor.Common.{
  ◌+◌, ◌≡◌, inl, inr, ◌∙◌, subst, sym, refl, true, false, Option, none, some, List, [], ◌∷◌,
  if◌then◌else◌, String, str_eq, eq_iff, arith, Bool-cases, All,
}
use rymevisor.Common.Effect.{pure, ◌>>◌}
use rymevisor.Common.Triple.{
  Ends, Triple, triple->>=, triple->>, triple-ignore, triple-attempt, triple-pure,
}
use rymevisor.Common.Table.{select, update, select-update_self, select-update_ne}
use rymevisor.Control.{
  VmStatus, creating, running, stopped, paused, rebooting, shutting_down, terminated, error,
  migrating, snapshottting, Disk, VirtualMachine, Node,
}
use rymevisor.Control.Store.{
  World, Environment, Failure, update_status, vm_key, is_online, set_status, put_status, find_node,
}
use rymevisor.Control.Lifecycle.{node_of}
use rymevisor.Control.Rows.{write_vm_fails, write_vm_done}
use rymevisor.Control.Recovery.{
  mark, image_failed, judge_node, check_node, check_disks, reconcile_as, reconcile_all,
}

-- The status that recovery may give a VM, by its status before.
pub data Recovers : VmStatus → VmStatus → Type 0 where
  running_error : Recovers running error
  rebooting_error : Recovers rebooting error
  migrating_error : Recovers migrating error
  creating_error : Recovers creating error
  shutting_down_stopped : Recovers shutting_down stopped

module _ (env : Environment) (id : String) (vm : VirtualMachine) (May : VmStatus → Type 0) where
  -- The row is the VM with a status that it may have.
  abbrev pub Recovered : World → Type 0
  Recovered w =
      (status : VmStatus) × May status × (select vm_key id w.vms ≡ some (set_status status vm))

  write-Recovered :
      (k : String) (status : VmStatus) (w : World)
      → (k ≡ id → May status)
      → Recovered w
      → Recovered
          (record w { vms = update vm_key k (set_status status) w.vms; calls = w.calls + 1 })
  write-Recovered k status w may (s, m, row) = elim (Bool-cases (str_eq k id)) [
    | inl h ↦
        (let is = (eq_iff k id).0 h in
          (
            status,
            may is,
            subst
                (λ x.
                  select vm_key id (update vm_key x (set_status status) w.vms)
                  ≡ some (set_status status vm))
                (sym is)
                (select-update_self vm_key (set_status status) (λ r. refl) id w.vms
                  (set_status s vm) row),
          ))
    | inr h ↦ (
      s,
      m,
      select-update_ne vm_key (set_status status) (λ r. refl) id k w.vms
            (λ is. ground (arith, eq_iff k id, is, h))
          ∙ row,
    )
  ]

  module _ {X : Failure → World → Type 0} where
    mark-triple :
        (k : String) (status : VmStatus)
        → (k ≡ id → May status)
        → Triple Recovered (mark env k status) (λ _. Recovered) X
    unfolding mark put_status
    mark-triple k status may = triple-ignore (put_status env update_status k status) (record {
      run = λ w p. elim (Bool-cases (env.fails w.calls)) [
        | inl h ↦
            subst (Ends (λ _. Recovered) (λ _. Recovered))
              (sym (write_vm_fails env update_status k (set_status status) w h)) p
        | inr h ↦
            subst (Ends (λ _. Recovered) (λ _. Recovered))
              (sym (write_vm_done env update_status k (set_status status) w h))
              (write-Recovered k status w may p)
      ];
    })

    judge_node-triple :
        (k : String) (found : Option (Option Node))
        → (k ≡ id → May error)
        → Triple Recovered (judge_node env k found) (λ _. Recovered) X
    unfolding judge_node
    judge_node-triple k none may = mark-triple k error may
    judge_node-triple k (some none) may = mark-triple k error may
    judge_node-triple k (some (some n)) may =
        elim (is_online n)
          as (λ b. Triple Recovered (if b then pure tt else mark env k error) (λ _. Recovered) X) [
            | true ↦ triple-pure tt (λ w p. p)
            | false ↦ mark-triple k error may
          ]

    check_node-triple :
        (k : String) (node : Option String)
        → (k ≡ id → May error)
        → Triple Recovered (check_node env k node) (λ _. Recovered) X
    unfolding check_node find_node
    check_node-triple k none may = triple-pure tt (λ w p. p)
    check_node-triple k (some node) may =
        triple->>= _ (judge_node env k)
          (triple-attempt (find_node env node) (record { run = λ w p. ground (arith, p) }))
          (λ found. judge_node-triple k found may)

    image-triple :
        (disk : Disk)
        → Triple Recovered
            (if str_eq disk.image_id "" then pure false else image_failed env disk.image_id)
            (λ _. Recovered)
            X
    image-triple disk = record { run = λ w p. ground (arith, p) }

    check_disks-triple :
        (k : String) (disks : List Disk)
        → (k ≡ id → May error)
        → Triple Recovered (check_disks env k disks) (λ _. Recovered) X
    unfolding check_disks
    check_disks-triple k [] may = triple-pure tt (λ w p. p)
    check_disks-triple k (disk ∷ disks) may =
        triple->>= _ (λ bad. (if bad then mark env k error else pure tt) >> check_disks env k disks)
          (image-triple disk)
          (λ bad.
            triple->> _ (check_disks env k disks)
              (elim bad
                as (λ b.
                  Triple Recovered (if b then mark env k error else pure tt) (λ _. Recovered) X) [
                    | true ↦ mark-triple k error may
                    | false ↦ triple-pure tt (λ w p. p)
                  ])
              (check_disks-triple k disks may))

    pub reconcile_as-triple :
        (r : VirtualMachine) (status : VmStatus)
        → (r.id ≡ id → (s : VmStatus) → Recovers status s → May s)
        → Triple Recovered (reconcile_as env r status) (λ _. Recovered) X
    unfolding reconcile_as
    reconcile_as-triple r running same =
        check_node-triple r.id (node_of r) (λ is. same is error running_error)
    reconcile_as-triple r rebooting same =
        check_node-triple r.id (node_of r) (λ is. same is error rebooting_error)
    reconcile_as-triple r migrating same =
        check_node-triple r.id (node_of r) (λ is. same is error migrating_error)
    reconcile_as-triple r creating same =
        check_disks-triple r.id r.disks (λ is. same is error creating_error)
    reconcile_as-triple r shutting_down same =
        mark-triple r.id stopped (λ is. same is stopped shutting_down_stopped)
    reconcile_as-triple r stopped same = triple-pure tt (λ w p. p)
    reconcile_as-triple r paused same = triple-pure tt (λ w p. p)
    reconcile_as-triple r terminated same = triple-pure tt (λ w p. p)
    reconcile_as-triple r error same = triple-pure tt (λ w p. p)
    reconcile_as-triple r snapshottting same = triple-pure tt (λ w p. p)

    pub reconcile_all-triple :
        (rs : List VirtualMachine)
        → All (λ r. r.id ≡ id → (s : VmStatus) → Recovers r.status s → May s) rs
        → Triple Recovered (reconcile_all env rs) (λ _. Recovered) X
    unfolding reconcile_all
    reconcile_all-triple [] same = triple-pure tt (λ w p. p)
    reconcile_all-triple (r ∷ rs) same =
        triple->> _ (reconcile_all env rs) (reconcile_as-triple r r.status same.0)
          (reconcile_all-triple rs same.1)
