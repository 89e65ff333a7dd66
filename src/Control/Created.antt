-- ===== src/Control/Created.antt =====
-- CreateVM from end to end: what it stores, and that a failure stores nothing.
use rymevisor.Common.{
  ℕ, ◌+◌, ◌≡◌, refl, sym, Bool, true, false, not, ◌&&◌, Option, none, some, List, [], ◌∷◌, String,
  str_eq, arith, ap, subst,
}
use rymevisor.Common.Effect.{pure, fail, ◌>>=◌}
use rymevisor.Common.Triple.{
  Ends, Triple, triple->>=, triple->>, triple-if, triple-weaken, triple-given, triple-attempt,
  triple-fail_if,
}
use rymevisor.Common.Int.{pos, ltb_ℤ}
use rymevisor.Network.{PrivateNetwork}
use rymevisor.Control.{VirtualMachine, Disk, CreateVmRequest, CreateNetworkInterfaceRequest}
use rymevisor.Control.Store.{
  World, Environment, Failure, Db, send, vm_event, Message, vcpus_too_small, memory_too_small,
  name_required, ensure_network,
}
use rymevisor.Control.Addresses.{
  find_default, insert_default_network, add_default_subnet, after_insert, default_found,
  ensure_default_network, allocate_ip,
}
use rymevisor.Control.ImageLaws.{Preserves}
use rymevisor.Control.Assigned.{allocate_ip-assigned}
use rymevisor.Control.Create.{
  network_for, address_for, make_nic, make_nics, request_nics, nic_of, new_vm, organization_of,
  create_placed, create_sized, create_vm,
}
use rymevisor.Control.Saved.{IsFromRivals, before, IsStored, save_vm-triple}
use rymevisor.Control.Steps as Steps
use rymevisor.Control.Steps.{
  new_id-Keeps, request_disks-Keeps, sized_by_flavor-Keeps, resolve_keypair-Keeps,
}

module _ (env : Environment) (rows : List VirtualMachine) where
  abbrev Grown : World → Type 0
  Grown = Steps.Grown env rows

  abbrev Keeps : {A : Type 0} → Db env A → Type 0
  Keeps m = Preserves Grown env m

  find_default-Keeps : (o : String) → Keeps (find_default env o)
  unfolding find_default
  find_default-Keeps o = record { run = λ w p. ground (arith, p) }

  insert_default_network-Keeps : (o : String) → Keeps (insert_default_network env o)
  unfolding insert_default_network
  insert_default_network-Keeps o = record { run = λ w p. ground (arith, p) }

  found_default-Keeps :
      (o : String) (found : Option (Option PrivateNetwork))
      → Keeps {A = String} (elim found [ some (some n) ↦ pure n.id | _ ↦ fail ensure_network ])
  found_default-Keeps o none = record { run = λ w p. p }
  found_default-Keeps o (some none) = record { run = λ w p. p }
  found_default-Keeps o (some (some n)) = record { run = λ w p. p }

  after_insert-Keeps : (o : String) (made : Option String) → Keeps (after_insert env o made)
  unfolding after_insert add_default_subnet
  after_insert-Keeps o (some id) = record { run = λ w p. ground (arith, p) }
  after_insert-Keeps o none =
      triple->>= _ _ (triple-attempt _ (find_default-Keeps o)) (found_default-Keeps o)

  default_found-Keeps :
      (o : String) (found : Option (Option PrivateNetwork)) → Keeps (default_found env o found)
  unfolding default_found
  default_found-Keeps o (some (some n)) = record { run = λ w p. p }
  default_found-Keeps o (some none) =
      triple->>= _ _ (triple-attempt _ (insert_default_network-Keeps o)) (after_insert-Keeps o)
  default_found-Keeps o none =
      triple->>= _ _ (triple-attempt _ (insert_default_network-Keeps o)) (after_insert-Keeps o)

  pub ensure_default_network-Keeps : (o : String) → Keeps (ensure_default_network env o)
  unfolding ensure_default_network
  ensure_default_network-Keeps o =
      triple->>= _ _ (triple-attempt _ (find_default-Keeps _)) (default_found-Keeps _)

  pub allocate_ip-Keeps : (network : String) → Keeps (allocate_ip env network)
  allocate_ip-Keeps network =
      triple-weaken (allocate_ip-assigned env (λ vms subnets. IsFromRivals env rows vms) network)
        (λ a w p. p.1) (λ e w p. p)

  network_for-Keeps : (o network : String) → Keeps (network_for env o network)
  unfolding network_for
  network_for-Keeps o network =
      triple-if (str_eq network "" && env.has_ipam) _ (pure network)
        (λ h. ensure_default_network-Keeps o) (λ h. record { run = λ w p. p })

  address_for-Keeps : (network : String) → Keeps (address_for env network)
  unfolding address_for
  address_for-Keeps network =
      triple-if (env.has_ipam && not (str_eq network "")) _ (pure [])
        (λ h.
          triple->>= _ (λ a. pure (a ∷ [])) (allocate_ip-Keeps network)
            (λ a. record { run = λ w p. p }))
        (λ h. record { run = λ w p. p })

  make_nic-Keeps :
      (o vm : String) (i : ℕ) (network : String) (primary : Bool)
      → Keeps (make_nic env o vm i network primary)
  unfolding make_nic
  make_nic-Keeps o vm i network primary = triple->>= _ _ (network_for-Keeps o network) (λ net.
      triple->>= _ _ (new_id-Keeps env rows) (λ id.
        triple->>= _ (λ addresses. pure (nic_of env i vm net id addresses primary))
          (address_for-Keeps net) (λ addresses. record { run = λ w p. p })))

  make_nics-Keeps :
      (o vm : String) (marked : Bool) (i : ℕ) (rs : List CreateNetworkInterfaceRequest)
      → Keeps (make_nics env o vm marked i rs)
  unfolding make_nics
  make_nics-Keeps o vm marked i [] = record { run = λ w p. p }
  make_nics-Keeps o vm marked i (r ∷ rs) =
      triple->>= _ _ (make_nic-Keeps o vm i r.network_id _) (λ nic.
        triple->>= _ (λ rest. pure (nic ∷ rest)) (make_nics-Keeps o vm marked (i + 1) rs)
          (λ rest. record { run = λ w p. p }))

  request_nics-Keeps :
      (o vm : String) (rs : List CreateNetworkInterfaceRequest) → Keeps (request_nics env o vm rs)
  unfolding request_nics
  request_nics-Keeps o vm [] =
      triple->>= _ (λ nic. pure (nic ∷ [])) (make_nic-Keeps o vm 0 "" true)
        (λ nic. record { run = λ w p. p })
  request_nics-Keeps o vm (r ∷ rs) = make_nics-Keeps o vm _ 0 (r ∷ rs)

  -- A row stored with the sizes of a request.
  abbrev pub IsCreated : CreateVmRequest → VirtualMachine → World → Type 0
  IsCreated req vm w =
      (vm.vcpus ≡ req.vcpus) × (vm.memory_mb ≡ req.memory_mb) × IsStored env rows vm w.vms

  pub send-rows :
      {X : Failure → World → Type 0} (Q : List VirtualMachine → Type 0) (m : Message)
      → Triple (λ w. Q w.vms) (send env m) (λ _ w. Q w.vms) X
  unfolding send
  send-rows Q m = record { run = λ w p. ground (arith, p) }

  sent :
      (req : CreateVmRequest) (vm : VirtualMachine)
      → Triple
          (IsCreated req vm)
          (send env (vm_event vm.id "created") >>= λ _. pure vm)
          (IsCreated req)
          (λ e. Grown)
  sent req vm =
      triple->>= _ (λ _. pure vm)
        (send-rows
          (λ vms.
            (vm.vcpus ≡ req.vcpus) × (vm.memory_mb ≡ req.memory_mb) × IsStored env rows vm vms)
          (vm_event vm.id "created"))
        (λ _. record { run = λ w p. p })

  create_placed-triple :
      (req : CreateVmRequest) (id keypair : String) (disks : List Disk)
      → Triple Grown (create_placed env req id keypair disks) (IsCreated req) (λ e. Grown)
  unfolding create_placed
  create_placed-triple req id keypair disks =
      triple->>= _ _ (request_nics-Keeps (organization_of req) id req.network_interfaces) (λ nics.
        triple->>= _ (λ vm. send env (vm_event vm.id "created") >>= λ _. pure vm)
          (triple-weaken
            (save_vm-triple env rows 3 0 (new_vm env req id keypair disks nics) refl (omega arith))
            (λ vm w p. (ap VirtualMachine.vcpus p.0, ap VirtualMachine.memory_mb p.0, p.2))
            (λ e w p. p.1))
          (sent req))

  create_sized-triple :
      (req : CreateVmRequest)
      → Triple Grown
          (create_sized env req)
          (λ vm w.
            ((ltb_ℤ req.vcpus (pos 1) ≡ false) × (ltb_ℤ req.memory_mb (pos 256) ≡ false))
            × IsCreated req vm w)
          (λ e. Grown)
  unfolding create_sized
  create_sized-triple req = triple->>= _ _ (resolve_keypair-Keeps env rows req) (λ keypair.
      triple->> _ _ (triple-fail_if (ltb_ℤ req.vcpus (pos 1)) vcpus_too_small (λ w p. p)) (
        triple-given (λ enough.
          triple->> _ _ (triple-fail_if (ltb_ℤ req.memory_mb (pos 256)) memory_too_small (λ w p. p))
            (triple-given (λ room. triple->>= _ _ (new_id-Keeps env rows) (λ id.
              triple->>= _ (λ disks. create_placed env req id keypair disks)
                (request_disks-Keeps env rows req.disks)
                (λ disks.
                  triple-weaken (create_placed-triple req id keypair disks)
                    (λ vm w p. ((enough, room), p)) (λ e w p. p))))))))

  -- A row stored with enough of each size.
  abbrev pub IsLargeEnough : VirtualMachine → World → Type 0
  IsLargeEnough vm w =
      ((ltb_ℤ vm.vcpus (pos 1) ≡ false) × (ltb_ℤ vm.memory_mb (pos 256) ≡ false))
      × IsStored env rows vm w.vms

  sized-triple :
      (req : CreateVmRequest) → Triple Grown (create_sized env req) IsLargeEnough (λ e. Grown)
  sized-triple req =
      triple-weaken (create_sized-triple req)
        (λ vm w p. (
          (
            subst (λ n. ltb_ℤ n (pos 1) ≡ false) (sym p.1.0) p.0.0,
            subst (λ n. ltb_ℤ n (pos 256) ≡ false) (sym p.1.1) p.0.1,
          ),
          p.1.2,
        ))
        (λ e w p. p)

  create_vm-triple :
      (req : CreateVmRequest) → Triple Grown (create_vm env req) IsLargeEnough (λ e. Grown)
  unfolding create_vm
  create_vm-triple req =
      triple->> _ _ (triple-fail_if (str_eq req.name "") name_required (λ w p. p)) (
        triple-given (λ named.
          triple->>= _ (λ sized. create_sized env sized) (sized_by_flavor-Keeps env rows req)
            sized-triple))

-- When CreateVM succeeds, the VM's row is stored, with one vCPU and 256 MB of memory at least, and no
-- other row has its id, a MAC of its interfaces or a first address of theirs in their network. When it
-- fails, the rows are those from before and those of other creations. This holds whichever calls fail
-- and whatever other creations commit.
pub create_vm_total :
    (env : Environment) (req : CreateVmRequest) (w : World)
    → Ends (IsLargeEnough env w.vms) (λ e w'. IsFromRivals env w.vms w'.vms) (create_vm env req w)
create_vm_total env req w = (create_vm-triple env w.vms req).run w before
