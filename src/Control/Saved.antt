-- ===== src/Control/Saved.antt =====
-- The loop of CreateVM that stores the row: each way that it ends, whichever calls fail and whatever
-- other creations commit meanwhile.
use rymevisor.Common.{ℕ, zero, suc, ◌+◌, ◌≤◌, ◌≡◌, ◌++◌, refl, false, List, [], ◌∷◌, arith, ◌==◌}
use rymevisor.Common.Effect.{Result, ok, err, fail}
use rymevisor.Common.Triple.{
  Ends, Triple, triple->>=, triple-caught, triple-pure, triple-if, triple-weaken, triple-given,
}
use rymevisor.Control.{VirtualMachine, NetworkInterface}
use rymevisor.Control.Store.{World, Environment, Failure, create_vm_failed, Db}
use rymevisor.Network.{Subnet}
use rymevisor.Control.Assigned.{Readdressed, Matches, readdress_all-triple}
use rymevisor.Control.Unique.{is_unique_violation, violates, put_new_vm, saved, save_vm}

-- The rows after other creations have committed theirs, any number of times.
pub data IsFromRivals (env : Environment) (rows : List VirtualMachine)
    : List VirtualMachine → Type 0 where
  before : IsFromRivals env rows rows
  commit :
      {later : List VirtualMachine} (n : ℕ)
      → IsFromRivals env rows later
      → IsFromRivals env rows (env.rivals n ++ later)

-- The VM's row in front of such rows, none of which has its id, its addresses or its MACs.
abbrev pub IsStored :
    Environment → List VirtualMachine → VirtualMachine → List VirtualMachine → Type 0
IsStored env rows vm [] = ⊥
IsStored env rows vm (v ∷ later) =
    (v ≡ vm) × IsFromRivals env rows later × (violates vm later ≡ false)

-- An interface with other addresses.
abbrev pub SameNic : NetworkInterface → NetworkInterface → Type 0
SameNic a b =
    (b.id ≡ a.id)
    × (b.name ≡ a.name)
    × (b.network_id ≡ a.network_id)
    × (b.is_primary ≡ a.is_primary)

Matches-same : (nics : List NetworkInterface) → Matches SameNic nics nics
Matches-same [] = tt
Matches-same (a ∷ rest) = ((refl, refl, refl, refl), Matches-same rest)

Matches-trans :
    (nics bs cs : List NetworkInterface)
    → Matches SameNic nics bs
    → Matches SameNic bs cs
    → Matches SameNic nics cs
Matches-trans [] [] [] p q = tt
Matches-trans [] [] (c ∷ cs) p q = q
Matches-trans [] (b ∷ bs) cs p q = absurd p
Matches-trans (a ∷ rest) [] cs p q = absurd p
Matches-trans (a ∷ rest) (b ∷ bs) [] p q = q
Matches-trans (a ∷ rest) (b ∷ bs) (c ∷ cs) p q =
    (ground (arith, p.0, q.0), Matches-trans rest bs cs p.1 q.1)

module _ (env : Environment) where
  module _ (rows : List VirtualMachine) where
    abbrev Grown : World → Type 0
    Grown w = IsFromRivals env rows w.vms

    pub put_new_vm-triple :
        (vm : VirtualMachine)
        → Triple Grown (put_new_vm env vm) (λ _ w. IsStored env rows vm w.vms) (λ _. Grown)
    unfolding put_new_vm
    put_new_vm-triple vm = record { run = λ w p. ground (arith, commit w.calls p) }

    abbrev Rivalled : List VirtualMachine → List Subnet → Type 0
    Rivalled vms subnets = IsFromRivals env rows vms

    any_readdressed : Readdressed env Rivalled SameNic
    any_readdressed = record {
      as_before = λ n. (refl, refl, refl, refl);
      new_mac = λ n mac. (refl, refl, refl, refl);
      new_ip = λ n mac a vms subnets p e. (refl, refl, refl, refl);
    }

    -- The end of the loop: the VM stored with some interfaces, or the error, and no row of it.
    abbrev pub Saves : VirtualMachine → VirtualMachine → World → Type 0
    Saves vm v w =
        (v ≡ record vm { network_interfaces = v.network_interfaces })
        × Matches SameNic vm.network_interfaces v.network_interfaces
        × IsStored env rows v w.vms

    abbrev pub Unsaved : Failure → World → Type 0
    Unsaved e w = (e ≡ create_vm_failed) × IsFromRivals env rows w.vms

    saved-triple :
        (next : VirtualMachine → Db env VirtualMachine) (i : ℕ) (vm : VirtualMachine)
        (r : Result Failure (Unit {0}))
        → ((i == 2) ≡ false → (v : VirtualMachine) → Triple Grown (next v) (Saves v) Unsaved)
        → Triple
            (λ w. Ends (λ _ w. IsStored env rows vm w.vms) (λ _. Grown) (r, w))
            (saved env next i vm r)
            (Saves vm)
            Unsaved
    saved-triple next i vm (ok _) again =
        triple-pure vm (λ w p. (refl, Matches-same vm.network_interfaces, p))
    saved-triple next i vm (err e) again =
        triple-if (is_unique_violation e) _ _
          (λ h.
            triple->>= _ _
              (readdress_all-triple env Rivalled SameNic any_readdressed vm.id _
                vm.network_interfaces)
              (λ ns. triple-given (λ same.
                triple-if (i == 2) (fail create_vm_failed)
                  (next (record vm { network_interfaces = ns }))
                  (λ last. record { run = λ w p. (refl, p) })
                  (λ more.
                    triple-weaken (again more (record vm { network_interfaces = ns }))
                      (λ v w p. (
                        p.0,
                        Matches-trans vm.network_interfaces ns v.network_interfaces same p.1,
                        p.2,
                      ))
                      (λ e w p. p)))))
          (λ h. record { run = λ w p. (refl, p) })

    pub save_vm-triple :
        (left i : ℕ) (vm : VirtualMachine)
        → i + left ≡ 3
        → i ≤ 2
        → Triple Grown (save_vm env left i vm) (Saves vm) Unsaved
    unfolding save_vm
    save_vm-triple zero i vm sum low = absurd (omega (arith, sum, low))
    save_vm-triple (suc left) i vm sum low =
        triple->>= _ (λ r. saved env (save_vm env left (i + 1)) i vm r)
          (triple-caught _ (put_new_vm-triple vm))
          (λ r. saved-triple (save_vm env left (i + 1)) i vm r (λ more v.
            save_vm-triple left (i + 1) v (omega (arith, sum)) (ground (arith, low, more))))

  -- The three tries of CreateVM end with the VM's row stored, the VM as given but for the
  -- addresses of its interfaces, and no other row with its id, an address of its interfaces in their
  -- network or a MAC of theirs; or with the error
  -- "create vm", and the rows are those from before and those of other creations. This holds whichever
  -- calls fail and whatever other creations commit.
  pub save_vm_total :
      (vm : VirtualMachine) (w : World)
      → Ends (Saves w.vms vm) (Unsaved w.vms) (save_vm env 3 0 vm w)
  save_vm_total vm w = (save_vm-triple w.vms 3 0 vm refl (omega arith)).run w before
