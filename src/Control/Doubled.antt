-- ===== src/Control/Doubled.antt =====
-- A request for two interfaces in one network: AllocateIP gives both the same address, since the first
-- is not stored when the second is asked for.
use rymevisor.Common.{
  ℕ, suc, ◌+◌, ◌≡◌, ◌∙◌, sym, refl, Bool, true, false, not, ◌&&◌, ◌||◌, List, [], ◌∷◌, String,
  str_eq, arith, ◌==◌, head?, All, ◌≤◌, length, subst, ap,
}
use rymevisor.Common.Effect.{pure, ◌>>=◌}
use rymevisor.Common.Triple.{
  Ends, Triple, triple->>=, triple-pure, triple-if, triple-weaken, triple-given,
}
use rymevisor.Network.{Subnet}
use rymevisor.Control.{
  VirtualMachine, NetworkInterface, Disk, CreateVmRequest, CreateNetworkInterfaceRequest,
}
use rymevisor.Control.Store.{World, Environment, new_id, send, vm_event}
use rymevisor.Control.Assigned.{assigned, allocate_ip-assigned}
use rymevisor.Control.Create.{
  network_for, address_for, make_nic, make_nics, request_nics, create_placed, nic_of, new_vm,
  organization_of,
}
use rymevisor.Control.Twins as Twins
use rymevisor.Control.Twins.{is_some}

module _ (env : Environment) (alone : (n : ℕ) → env.rivals n ≡ []) (allocates : env.has_ipam ≡ true)
    (network : String) (named : str_eq network "" ≡ false) (rows : List VirtualMachine)
    (blocks : List Subnet) where
  abbrev Still : List VirtualMachine → List Subnet → Type 0
  Still = Twins.Still env alone allocates network named rows blocks

  abbrev Before : World → Type 0
  Before = Twins.Before env alone allocates network named rows blocks

  abbrev IsThere : NetworkInterface → Type 0
  IsThere = Twins.IsThere env alone allocates network named rows blocks

  abbrev BothThere : List NetworkInterface → Type 0
  BothThere = Twins.BothThere env alone allocates network named rows blocks

  network_for-named :
      (organization : String)
      → Triple Before
          (network_for env organization network)
          (λ net w. (net ≡ network) × Before w)
          (λ _. Before)
  unfolding network_for
  network_for-named organization = record { run = λ w p. ground (arith, named, p) }

  new_id-Before : Triple Before (new_id env) (λ _. Before) (λ _. Before)
  new_id-Before = record { run = λ w p. p }

  address_for-IsThere :
      (net : String)
      → net ≡ network
      → Triple Before
          (address_for env net)
          (λ ips w.
            ((head? ips ≡ assigned env blocks rows network) × (is_some (head? ips) ≡ true))
            × Before w)
          (λ _. Before)
  unfolding address_for
  address_for-IsThere net same =
      triple-if (env.has_ipam && not (str_eq net "")) _ (pure [])
        (λ h.
          triple->>= _ (λ a. pure (a ∷ [])) (allocate_ip-assigned env Still net)
            (λ a.
              triple-pure (a ∷ [])
                (λ w p. (((sym p.0 ∙ (rw (p.1.0, p.1.1, same) refl)), refl), p.1))))
        (λ h. absurd (ground (arith, h, allocates, named, same)))

  -- The rest of an interface once its network is known.
  nic_in-IsThere :
      (vm : String) (i : ℕ) (primary : Bool) (net : String)
      → net ≡ network
      → Triple Before
          (new_id env >>= λ id.
            address_for env net >>= λ addresses. pure (nic_of env i vm net id addresses primary))
          (λ nic w. IsThere nic × Before w)
          (λ _. Before)
  nic_in-IsThere vm i primary net same = triple->>= _ _ new_id-Before (λ id.
      triple->>= _ (λ addresses. pure (nic_of env i vm net id addresses primary))
        (address_for-IsThere net same)
        (λ addresses. triple-given (λ there.
          triple-pure (nic_of env i vm net id addresses primary)
            (λ w p. (record { in_network = same; address = there.0; given = there.1 }, p)))))

  make_nic-IsThere :
      (organization vm : String) (i : ℕ) (primary : Bool)
      → Triple Before
          (make_nic env organization vm i network primary)
          (λ nic w. IsThere nic × Before w)
          (λ _. Before)
  unfolding make_nic
  make_nic-IsThere organization vm i primary =
      triple->>= _ _ (network_for-named organization)
        (λ net. triple-given (λ same. nic_in-IsThere vm i primary net same))

  -- As many interfaces as requests, each in the network with the same address.
  make_nics-IsThere :
      (organization vm : String) (marked : Bool) (i : ℕ) (rs : List CreateNetworkInterfaceRequest)
      → All (λ r. CreateNetworkInterfaceRequest.network_id r ≡ network) rs
      → Triple Before
          (make_nics env organization vm marked i rs)
          (λ nics w. (All IsThere nics × (length nics ≡ length rs)) × Before w)
          (λ _. Before)
  unfolding make_nics
  make_nics-IsThere organization vm marked i [] all = record { run = λ w p. ((tt, refl), p) }
  make_nics-IsThere organization vm marked i (r ∷ rs) all =
      subst
        (λ net.
          Triple Before
            (make_nic env organization vm i net (r.is_primary || ((i == 0) && not marked))
              >>= λ nic.
                  make_nics env organization vm marked (i + 1) rs >>= λ rest. pure (nic ∷ rest))
            (λ nics w. (All IsThere nics × (length nics ≡ suc (length rs))) × Before w)
            (λ _. Before))
        (sym all.0)
        (triple->>= _ _ (make_nic-IsThere organization vm i _) (λ nic. triple-given (λ there.
          triple->>= _ (λ rest. pure (nic ∷ rest))
            (make_nics-IsThere organization vm marked (i + 1) rs all.1)
            (λ rest. triple-pure (nic ∷ rest) (λ w p. (((there, p.0.0), ap suc p.0.1), p.1))))))

  All-BothThere :
      (nics : List NetworkInterface) → All IsThere nics → 2 ≤ length nics → BothThere nics
  All-BothThere [] all long = absurd (omega (arith, long))
  All-BothThere (a ∷ []) all long = absurd (omega (arith, long))
  All-BothThere (a ∷ b ∷ rest) all long = (all.0, all.1.0)

  create_placed-never :
      (req : CreateVmRequest) (id keypair : String) (disks : List Disk)
      → All (λ r. CreateNetworkInterfaceRequest.network_id r ≡ network) req.network_interfaces
      → 2 ≤ length req.network_interfaces
      → Triple Before (create_placed env req id keypair disks) (λ vm w. ⊥) (λ _. Before)
  unfolding create_placed request_nics
  create_placed-never req id keypair disks all long =
      triple->>= _ _ (requested req.network_interfaces all long) (λ nics. triple-given (λ both.
        triple->>= _ (λ vm. send env (vm_event vm.id "created") >>= λ _. pure vm)
          (Twins.save_vm-never env alone allocates network named rows blocks 3 0
            (new_vm env req id keypair disks nics) refl (omega arith) both)
          (λ vm. record { run = λ w p. absurd p })))
    where
      requested :
          (rs : List CreateNetworkInterfaceRequest)
          → All (λ r. CreateNetworkInterfaceRequest.network_id r ≡ network) rs
          → 2 ≤ length rs
          → Triple Before
              (request_nics env (organization_of req) id rs)
              (λ nics w. BothThere nics × Before w)
              (λ _. Before)
      requested [] all long = absurd (omega (arith, long))
      requested (r ∷ rs) all long =
          triple-weaken (make_nics-IsThere (organization_of req) id _ 0 (r ∷ rs) all)
            (λ nics w p. (All-BothThere nics p.0.0 (subst (λ n. 2 ≤ n) (sym p.0.1) long), p.1))
            (λ e w p. p)

-- With an address allocator, and while no other creation commits a row, a request for two or more
-- interfaces that all name one network never makes a VM: CreateVM fails once it has the disks, and
-- the rows of the VMs are as before, whichever calls fail.
pub create_placed_doubled :
    (env : Environment) (req : CreateVmRequest) (id keypair : String) (disks : List Disk)
    (network : String) (w : World)
    → ((n : ℕ) → env.rivals n ≡ [])
    → env.has_ipam ≡ true
    → str_eq network "" ≡ false
    → All (λ r. CreateNetworkInterfaceRequest.network_id r ≡ network) req.network_interfaces
    → 2 ≤ length req.network_interfaces
    → Ends (λ vm w'. ⊥) (λ e w'. w'.vms ≡ w.vms) (create_placed env req id keypair disks w)
create_placed_doubled env req id keypair disks network w alone allocates named all long =
    (triple-weaken
        (create_placed-never env alone allocates network named w.vms w.subnets req id keypair disks
          all long)
        (λ vm s p. p) (λ e s p. p.0)).run
      w (refl, refl)
