-- ===== src/Control/Cloned.antt =====
-- Clone from end to end: what it stores, and that a failure stores nothing.
use rymevisor.Common.{
  ℕ, ◌+◌, ◌≡◌, refl, ap, not, ◌&&◌, Option, none, some, List, [], ◌∷◌, String, str_eq, arith,
  if◌then◌else◌, sym, subst, ◌∙◌,
}
use rymevisor.Common.Effect.{Result, ok, err, pure, or_fail, ◌>>=◌}
use rymevisor.Common.Triple.{
  Ends, Triple, triple->>=, triple-caught, triple-if, triple-weaken, triple-given, triple-attempt,
}
use rymevisor.Common.Table.{select}
use rymevisor.Net.{Text}
use rymevisor.Control.{VirtualMachine, NetworkInterface, Disk}
use rymevisor.Control.Store.{
  World, Environment, Failure, vm_key, get_vm, vm_not_found, find_vm, send, vm_event,
}
use rymevisor.Control.Unique.{is_unique_violation}
use rymevisor.Control.Copied.{AreCopies, IsCopy, made-IsCopy, clone_disks-AreCopies}
use rymevisor.Control.Clone.{
  clone_of, cloned_nic, only_nic, second_addresses, id_or_empty, address_or, clone_nics,
  default_nic, nics_for_clone, clone_readdress, given_back, again, second_try, after_first,
  save_clone, clone_found, clone,
}
use rymevisor.Control.Saved.{IsFromRivals, before, IsStored, put_new_vm-triple}
use rymevisor.Control.Steps.{Grown, Keeps, new_id-Keeps}
use rymevisor.Control.Created.{ensure_default_network-Keeps, allocate_ip-Keeps, send-rows}

module _ (env : Environment) (rows : List VirtualMachine) where
  pure-Keeps : {A : Type 0} (a : A) → Keeps env rows (pure a)
  pure-Keeps a = record { run = λ w p. p }

  address_or-Keeps :
      (old : List Text) (network : String) → Keeps env rows (address_or env old network)
  unfolding address_or
  address_or-Keeps old network =
      triple-if (env.has_ipam && not (str_eq network "")) _ (pure old)
        (λ h.
          triple->>= _ _ (triple-attempt _ (allocate_ip-Keeps env rows network))
            (λ found. pure-Keeps _))
        (λ h. pure-Keeps old)

  clone_nics-Keeps :
      (vm : String) (i : ℕ) (ns : List NetworkInterface) → Keeps env rows (clone_nics env vm i ns)
  unfolding clone_nics
  clone_nics-Keeps vm i [] = pure-Keeps []
  clone_nics-Keeps vm i (n ∷ ns) = triple->>= _ _ (new_id-Keeps env rows) (λ id.
      triple->>= _ _ (address_or-Keeps [] n.network_id) (λ addresses.
        triple->>= _ (λ rest. pure (cloned_nic env vm i n id addresses ∷ rest))
          (clone_nics-Keeps vm (i + 1) ns)
          (λ rest. pure-Keeps (cloned_nic env vm i n id addresses ∷ rest))))

  default_nic-Keeps :
      (source : VirtualMachine) (vm : String) → Keeps env rows (default_nic env source vm)
  unfolding default_nic
  default_nic-Keeps source vm =
      triple->>= _ _
        (triple-attempt _ (ensure_default_network-Keeps env rows source.organization_id))
        (λ network. triple->>= _ _ (new_id-Keeps env rows) (λ id.
          triple->>= _ (λ address. pure (only_nic env vm network id address))
            (triple-attempt _ (allocate_ip-Keeps env rows (id_or_empty network)))
            (λ address. pure-Keeps (only_nic env vm network id address))))

  nics_for-Keeps :
      (source : VirtualMachine) (vm : String) (ns : List NetworkInterface)
      → Keeps env rows {A = List NetworkInterface} (elim ns [
        | n ∷ rest ↦ clone_nics env vm 0 (n ∷ rest)
        | [] ↦
            if env.has_ipam then (do nic ← default_nic env source vm; pure (nic ∷ [])) else pure []
      ])
  nics_for-Keeps source vm (n ∷ rest) = clone_nics-Keeps vm 0 (n ∷ rest)
  nics_for-Keeps source vm [] =
      triple-if env.has_ipam _ (pure [])
        (λ h.
          triple->>= _ (λ nic. pure (nic ∷ [])) (default_nic-Keeps source vm)
            (λ nic. pure-Keeps (nic ∷ [])))
        (λ h. pure-Keeps [])

  nics_for_clone-Keeps :
      (source : VirtualMachine) (vm : String) → Keeps env rows (nics_for_clone env source vm)
  unfolding nics_for_clone
  nics_for_clone-Keeps source vm = nics_for-Keeps source vm source.network_interfaces

  clone_readdress-Keeps :
      (vm : String) (ns : List NetworkInterface) → Keeps env rows (clone_readdress env vm ns)
  unfolding clone_readdress
  clone_readdress-Keeps vm [] = pure-Keeps []
  clone_readdress-Keeps vm (n ∷ ns) =
      triple->>= _ _ (address_or-Keeps n.ipv4_addresses n.network_id) (λ addresses.
        triple->>= _ (λ rest. pure (second_addresses env vm n addresses ∷ rest))
          (clone_readdress-Keeps vm ns)
          (λ rest. pure-Keeps (second_addresses env vm n addresses ∷ rest)))

  -- The given VM stored, but for its interfaces.
  abbrev pub StoredLike : VirtualMachine → VirtualMachine → World → Type 0
  StoredLike vm v w =
      (v ≡ record vm { network_interfaces = v.network_interfaces }) × IsStored env rows v w.vms

  given_back-triple :
      (vm : VirtualMachine) (r : Result Failure (Unit {0}))
      → Triple
          (λ w. Ends (λ _ w. IsStored env rows vm w.vms) (λ _. Grown env rows) (r, w))
          (given_back env vm r)
          (StoredLike vm)
          (λ _. Grown env rows)
  given_back-triple vm (ok _) = record { run = λ w p. (refl, p) }
  given_back-triple vm (err e) = record { run = λ w p. p }

  second_try-triple :
      (vm : VirtualMachine)
      → Triple (Grown env rows) (second_try env vm) (StoredLike vm) (λ _. Grown env rows)
  unfolding second_try again
  second_try-triple vm = triple->>= _ _ (clone_readdress-Keeps vm.id vm.network_interfaces) (λ nics.
      triple->>= _ _
        (triple-caught _ (put_new_vm-triple env rows (record vm { network_interfaces = nics })))
        (λ r.
          triple-weaken (given_back-triple (record vm { network_interfaces = nics }) r) (λ v w p. p)
            (λ e w p. p)))

  after_first-triple :
      (vm : VirtualMachine) (r : Result Failure (Unit {0}))
      → Triple
          (λ w. Ends (λ _ w. IsStored env rows vm w.vms) (λ _. Grown env rows) (r, w))
          (after_first env vm r)
          (StoredLike vm)
          (λ _. Grown env rows)
  unfolding after_first
  after_first-triple vm (ok _) = record { run = λ w p. (refl, p) }
  after_first-triple vm (err e) =
      triple-if (is_unique_violation e) _ _ (λ h. second_try-triple vm)
        (λ h. record { run = λ w p. p })

  save_clone-triple :
      (vm : VirtualMachine)
      → Triple (Grown env rows) (save_clone env vm) (StoredLike vm) (λ _. Grown env rows)
  unfolding save_clone
  save_clone-triple vm =
      triple->>= _ _ (triple-caught _ (put_new_vm-triple env rows vm)) (after_first-triple vm)

  -- A copy of the source, stored.
  abbrev pub IsClone : VirtualMachine → String → String → VirtualMachine → World → Type 0
  IsClone source name node v w = IsCopy env source name node v × IsStored env rows v w.vms

  StoredLike-made :
      (source : VirtualMachine) (id name node : String) (disks : List Disk)
      (nics : List NetworkInterface) (v : VirtualMachine)
      → v ≡ record (clone_of source id name node disks nics) {
        network_interfaces = v.network_interfaces;
      }
      → v ≡ clone_of source v.id name node v.disks v.network_interfaces
  StoredLike-made source id name node disks nics v e =
      subst (λ i. v ≡ clone_of source i name node v.disks v.network_interfaces)
        (sym (ap VirtualMachine.id e))
        (subst (λ ds. v ≡ clone_of source id name node ds v.network_interfaces)
          (sym (ap VirtualMachine.disks e)) e)

  StoredLike-IsCopy :
      (source : VirtualMachine) (id name node : String) (disks : List Disk)
      (nics : List NetworkInterface) (v : VirtualMachine)
      → AreCopies env source.disks disks
      → v ≡ record (clone_of source id name node disks nics) {
        network_interfaces = v.network_interfaces;
      }
      → IsCopy env source name node v
  StoredLike-IsCopy source id name node disks nics v copies e =
      made-IsCopy env source name node v
        (subst (AreCopies env source.disks) (sym (ap VirtualMachine.disks e)) copies)
        (StoredLike-made source id name node disks nics v e)

  clone_found-triple :
      (source : VirtualMachine) (name node : String)
      → Triple
          (Grown env rows)
          (clone_found env source name node)
          (IsClone source name node)
          (λ _. Grown env rows)
  unfolding clone_found
  clone_found-triple source name node = triple->>= _ _ (new_id-Keeps env rows) (λ id.
      triple->>= _ _ (clone_disks-AreCopies env rows source.disks) (λ disks. triple-given (λ copies.
        triple->>= _ _ (nics_for_clone-Keeps source id) (λ nics.
          triple->>= _ (λ v. send env (vm_event v.id "cloned") >>= λ _. pure v)
            (triple-weaken (save_clone-triple (clone_of source id name node disks nics))
              (λ v w p. (StoredLike-IsCopy source id name node disks nics v copies p.0, p.1))
              (λ e w p. p))
            (λ v.
              triple->>= _ (λ _. pure v)
                (send-rows env rows (λ vms. IsCopy env source name node v × IsStored env rows v vms)
                  (vm_event v.id "cloned"))
                (λ _. record { run = λ w p. p }))))))

  find_source :
      (id : String)
      → Triple
          (λ w. w.vms ≡ rows)
          (find_vm env get_vm id)
          (λ o w. (select vm_key id rows ≡ o) × Grown env rows w)
          (λ _. Grown env rows)
  find_source id = record {
    run = λ w p.
        let grown : IsFromRivals env rows w.vms = subst (IsFromRivals env rows) (sym p) before in
        ground (arith, p, grown);
  }

  found_source :
      (o : Option VirtualMachine)
      → Triple
          (Grown env rows)
          (or_fail o vm_not_found)
          (λ s w. (o ≡ some s) × Grown env rows w)
          (λ _. Grown env rows)
  found_source none = record { run = λ w p. p }
  found_source (some s) = record { run = λ w p. (refl, p) }

  -- The clone of the stored VM of an id.
  abbrev pub IsCloneOf : String → String → String → VirtualMachine → World → Type 0
  IsCloneOf id name node v w =
      (source : VirtualMachine) × (select vm_key id rows ≡ some source)
      × IsClone source name node v w

  clone-triple :
      (id name node : String)
      → Triple
          (λ w. w.vms ≡ rows)
          (clone env id name node)
          (IsCloneOf id name node)
          (λ _. Grown env rows)
  unfolding clone
  clone-triple id name node = triple->>= _ _ (find_source id) (λ o. triple-given (λ stored.
      triple->>= _ (λ source. clone_found env source name node) (found_source o)
        (λ source. triple-given (λ e.
          triple-weaken (clone_found-triple source name node) (λ v w p. (source, stored ∙ e, p))
            (λ x w p. p)))))

-- When Clone succeeds, it stores a copy of the VM of the id under an id of its own: being created, with
-- the name asked for, on the node asked for or the source's, without project and SSH key, with copies of
-- the disks under new ids and without images, and else like the source but for the interfaces. No other
-- row has its id, a MAC of its interfaces or a first address of theirs in their network. When it fails,
-- the rows are those from before and those of other creations. This holds whichever calls fail and
-- whatever other creations commit.
pub clone_total :
    (env : Environment) (id name node : String) (w : World)
    → Ends
        (IsCloneOf env w.vms id name node)
        (λ e w'. IsFromRivals env w.vms w'.vms)
        (clone env id name node w)
clone_total env id name node w = (clone-triple env w.vms id name node).run w refl
