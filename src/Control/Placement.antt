-- ===== src/Control/Placement.antt =====
-- What PowerOn does to the table of VMs, whichever calls fail.
use rymevisor.Common.{
  ℕ, ◌+◌, false, ap, Bool-cases, ◌≡◌, ◌⊎◌, inl, inr, subst, sym, refl, Bool, true, not, Option,
  none, some, List, String, arith,
}
use rymevisor.Common.Effect.{ok, err, pure, attempt, ◌>>◌}
use rymevisor.Common.Triple.{
  Ends, Attempted, Triple, triple-attempt_cases, triple-both, triple-strengthen, triple->>=,
  triple->>, triple-ignore, triple-fail_if, triple-weaken, triple-pure, triple-given,
}
use rymevisor.Common.Table.{select}
use rymevisor.Control.{running, VirtualMachine, Node}
use rymevisor.Control.Store.{
  vm_event, list_nodes, World, Environment, Failure, update_status, assign_node, cannot_power_on,
  vm_key, is_online, set_status, set_node, put_status, put_node, first_node, first_where, send,
  write_vm,
}
use rymevisor.Control.Lifecycle.{
  require_vm, can_power_on, place_on, place_newest, place_online, place_at, node_of, send_start,
  power_on, place_on, place_newest, place_online, place_at, power_on_found,
}
use rymevisor.Control.Rows.{
  write_vm_fails, write_vm_done, Row, Left, send-triple, send_start-triple, require_vm-triple,
  put_status-triple, write_vm-triple,
}

-- Some call of the database fails.
abbrev pub Faulty : Environment → Type 0
Faulty env = (n : ℕ) × (env.fails n ≡ true)

-- The node that PowerOn schedules a VM on: the first of the query for online nodes, or, where there is
-- none or that query fails, the first of the query for all nodes.
abbrev pub IsChosen : Environment → List Node → Node → Type 0
IsChosen env nodes n =
    (first_where is_online nodes ≡ some n)
    ⊎ (((first_where is_online nodes ≡ none) ⊎ Faulty env)
        × (first_where (λ m. true) nodes ≡ some n))

-- Why a VM may keep its node: it has one, there are no nodes, or a call fails.
abbrev pub MayKeep : Environment → List Node → VirtualMachine → Type 0
MayKeep env nodes old =
    ((node : String) × (node_of old ≡ some node))
    ⊎ ((first_where (λ m. true) nodes ≡ none) ⊎ Faulty env)

-- The VM on the chosen node if it had none, or as before where that may be.
abbrev pub Placed : Environment → List Node → VirtualMachine → VirtualMachine → Type 0
Placed env nodes old vm =
    (MayKeep env nodes old × (vm ≡ old))
    ⊎ ((n : Node) × IsChosen env nodes n × (node_of old ≡ none) × (vm ≡ set_node n.id old))

-- The row is the VM, placed or not.
abbrev pub PlacedRow :
    Environment → List Node → List VirtualMachine → String → VirtualMachine → World → Type 0
PlacedRow env nodes rows id old w =
    (vm : VirtualMachine) × Placed env nodes old vm × Row rows id (some vm) w

module _ (env : Environment) (nodes : List Node) (rows : List VirtualMachine) (id : String) where
  -- The nodes are those from before.
  abbrev Known : World → Type 0
  Known w = w.nodes ≡ nodes

  require_vm-Known : Triple Known (require_vm env id) (λ _. Known) (λ _. Known)
  unfolding require_vm
  require_vm-Known = record { run = λ w p. ground (arith, p) }

  module _ (vm : VirtualMachine) where
    abbrev Found : World → Type 0
    Found w = Row rows id (some vm) w × Known w

    abbrev PlacedIn : World → Type 0
    PlacedIn = PlacedRow env nodes rows id vm

    abbrev IsPlaced : VirtualMachine → World → Type 0
    IsPlaced placed w = Placed env nodes vm placed × PlacedIn w

    kept-IsPlaced :
        {X : Failure → World → Type 0} → MayKeep env nodes vm → Triple Found (pure vm) IsPlaced X
    kept-IsPlaced may = triple-pure _ (λ w p. (inl (may, refl), (vm, inl (may, refl), p.0)))

    first_node_fails :
        (p : Node → Bool) (w : World)
        → env.fails w.calls ≡ true
        → first_node env p w ≡ (err list_nodes, record w { calls = w.calls + 1 })
    unfolding first_node
    first_node_fails p w bad = ground arith

    first_node_done :
        (p : Node → Bool) (w : World)
        → env.fails w.calls ≡ false
        → first_node env p w ≡ (ok (first_where p w.nodes), record w { calls = w.calls + 1 })
    unfolding first_node
    first_node_done p w good = ground arith

    first_node-triple :
        (p : Node → Bool)
        → Triple Found
            (first_node env p)
            (λ o w. (first_where p nodes ≡ o) × Found w)
            (λ _ w. Faulty env × Found w)
    first_node-triple p = record {
      run = λ w h. elim (Bool-cases (env.fails w.calls)) [
        | inl bad ↦ subst (Ends _ _) (sym (first_node_fails p w bad)) ((w.calls, bad), h)
        | inr good ↦
            subst (Ends _ _) (sym (first_node_done p w good)) (ap (first_where p) (sym h.1), h)
      ];
    }

    write-Faulty :
        (e : Failure) (k : String) (f : VirtualMachine → VirtualMachine)
        → Triple Found (write_vm env e k f) (λ _ w. Unit {0}) (λ _ w. Faulty env)
    write-Faulty e k f = record {
      run = λ w h. elim (Bool-cases (env.fails w.calls)) [
        | inl bad ↦ subst (Ends _ _) (sym (write_vm_fails env e k f w bad)) (w.calls, bad)
        | inr good ↦ subst (Ends _ _) (sym (write_vm_done env e k f w good)) tt
      ];
    }

    assign-triple :
        vm.id ≡ id
        → node_of vm ≡ none
        → (n : Node) → IsChosen env nodes n
        → Triple Found (put_node env assign_node vm.id n.id) (λ _. PlacedIn) (λ _. PlacedIn)
    unfolding put_node
    assign-triple is without n chosen =
        subst
          (λ k.
            Triple Found (write_vm env assign_node k (set_node n.id)) (λ _. PlacedIn)
              (λ _. PlacedIn))
          (sym is)
          (triple-strengthen
            (triple-weaken
              (triple-both (write_vm env assign_node id (set_node n.id))
                (write_vm-triple env rows id {vm = vm} {X = λ _. Row rows id (some vm)} assign_node
                  (set_node n.id) (λ r. refl) (λ w p. p))
                (write-Faulty assign_node id (set_node n.id)))
              (λ _ w p. (set_node n.id vm, inr (n, chosen, without, refl), p.0))
              (λ _ w p. (vm, inl (inr (inr p.1), refl), p.0)))
            (λ w h. (h.0, h)))

    -- What a query for the first node has found, or that it failed.
    abbrev Asked : (Node → Bool) → Option (Option Node) → World → Type 0
    Asked p = Attempted (λ o w. (first_where p nodes ≡ o) × Found w) (λ w. Faulty env × Found w)

    ask :
        {X : Failure → World → Type 0} (p : Node → Bool)
        → Triple Found (attempt (first_node env p)) (Asked p) X
    ask p = triple-attempt_cases (first_node env p) (first_node-triple p)

    module _ {X : Failure → World → Type 0} (is : vm.id ≡ id) (without : node_of vm ≡ none) where
      place_on-triple :
          (n : Node) → IsChosen env nodes n → Triple Found (place_on env vm n) IsPlaced X
      place_on-triple n chosen =
          triple->> _ _ (triple-ignore _ (assign-triple is without n chosen))
            (triple-pure _ (λ w p. (inr (n, chosen, without, refl), p)))

      place_newest-triple :
          ((first_where is_online nodes ≡ none) ⊎ Faulty env)
          → (found : Option (Option Node))
          → Triple (Asked (λ n. true) found) (place_newest env vm found) IsPlaced X
      unfolding place_newest
      place_newest-triple why none = triple-given (λ bad. kept-IsPlaced (inr (inr bad)))
      place_newest-triple why (some none) = triple-given (λ empty. kept-IsPlaced (inr (inl empty)))
      place_newest-triple why (some (some n)) =
          triple-given (λ first. place_on-triple n (inr (why, first)))

      place_online-triple :
          (found : Option (Option Node))
          → Triple (Asked is_online found) (place_online env vm found) IsPlaced X
      unfolding place_online
      place_online-triple none = triple-given (λ bad.
          triple->>= _ (place_newest env vm) (ask (λ n. true)) (place_newest-triple (inr bad)))
      place_online-triple (some none) = triple-given (λ empty.
          triple->>= _ (place_newest env vm) (ask (λ n. true)) (place_newest-triple (inl empty)))
      place_online-triple (some (some n)) = triple-given (λ first. place_on-triple n (inl first))

    place_at-triple :
        {X : Failure → World → Type 0}
        → vm.id ≡ id
        → (node : Option String) → node_of vm ≡ node
        → Triple Found (place_at env vm node) IsPlaced X
    unfolding place_at
    place_at-triple is (some node) h = kept-IsPlaced (inl (node, h))
    place_at-triple is none h =
        triple->>= _ (place_online env vm) (ask is_online) (place_online-triple is h)

module _ (env : Environment) (nodes : List Node) (rows : List VirtualMachine) (id : String)
    (row : Option VirtualMachine) where
  -- What PowerOn answers and stores: the VM, running, on its old node or on a new one if it had none.
  abbrev pub PoweredOn : VirtualMachine → World → Type 0
  PoweredOn vm w =
      (old : VirtualMachine) × (row ≡ some old)
      × (can_power_on old.status ≡ true)
      × ((placed : VirtualMachine) × Placed env nodes old placed × (vm ≡ set_status running placed))
      × ((stored : VirtualMachine) × Placed env nodes old stored
          × Row rows id (some (set_status running stored)) w)

  -- What a failed PowerOn leaves: the old row, or the VM placed on a node.
  abbrev pub PlacedLeft : Option VirtualMachine → Type 0
  PlacedLeft left =
      (left ≡ row)
      ⊎ ((old : VirtualMachine) × (row ≡ some old)
          × ((vm : VirtualMachine) × Placed env nodes old vm × (left ≡ some vm)))

  -- The end of PowerOn, with the VM placed.
  started-triple :
      (old placed stored : VirtualMachine)
      → row ≡ some old
      → can_power_on old.status ≡ true
      → Placed env nodes old placed
      → Placed env nodes old stored
      → Triple
          (Row rows id (some stored))
          (put_status env update_status id running
            >> (send_start env (set_status running placed)
                >> (send env (vm_event "started" id) >> pure (set_status running placed))))
          PoweredOn
          (Left rows id PlacedLeft)
  started-triple old placed stored found guard at kept =
      triple->> _ _
        (put_status-triple env rows id update_status running
          (λ w p. (some stored, inr (old, found, (stored, kept, refl)), p)))
        (triple->> _ _ (send_start-triple env rows id (set_status running placed)) (
          triple->> _ _ (send-triple env rows id (vm_event "started" id))
            (triple-pure _ (λ w p. (old, found, guard, (placed, at, refl), (stored, kept, p))))))

  power_on-triple :
      Triple
        (λ w. Row rows id row w × (w.nodes ≡ nodes))
        (power_on env id)
        PoweredOn
        (Left rows id PlacedLeft)
  unfolding power_on power_on_found
  power_on-triple =
      triple->>= _ (power_on_found env id)
        (triple-weaken
          (triple-both _
            (require_vm-triple env rows id {row = row} {X = Left rows id PlacedLeft}
              (λ e w p. (row, inl refl, p)))
            (require_vm-Known env nodes rows id))
          (λ vm w p. (p.0.0, (p.0.1, p.1))) (λ e w p. p.0))
        (λ vm. triple-given (λ (found, is).
          triple->> _ _
            (triple-fail_if (not (can_power_on vm.status)) (cannot_power_on vm.status)
              (λ w p. (some vm, inl (sym found), p.0)))
            (triple-given (λ guard.
              triple->>= _
                (λ placed.
                  put_status env update_status id running
                  >> (send_start env (set_status running placed)
                      >> (send env (vm_event "started" id) >> pure (set_status running placed))))
                (place_at-triple env nodes rows id vm is (node_of vm) refl)
                (λ placed. triple-given (λ at. record {
                  run = λ w (stored, kept, p).
                      (started-triple vm placed stored found (ground (arith, guard)) at kept).run w
                        p;
                }))))))

-- PowerOn, whichever calls fail, changes no row of another VM. On success the VM existed and was
-- stopped, paused or being created; it is answered and stored as running, and each of the two is on
-- the VM's node or, if it had none, on the first online node, or on the first node of all where none is
-- online. The first node of all in place of an online one needs a failing call, and so does a VM
-- without a node while there are nodes. On an error its row is as before, or has such a node where it
-- had none.
pub power_on_total :
    (env : Environment) (id : String) (w : World)
    → let row = select vm_key id w.vms in
      Ends
        (PoweredOn env w.nodes w.vms id row)
        (Left w.vms id (PlacedLeft env w.nodes w.vms id row))
        (power_on env id w)
power_on_total env id w =
    (power_on-triple env w.nodes w.vms id (select vm_key id w.vms)).run w
      ((refl, λ other ne. refl), refl)
