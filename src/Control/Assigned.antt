-- ===== src/Control/Assigned.antt =====
-- AllocateIP writes nothing, and its answer is determined by the subnets and the stored VMs.
use rymevisor.Common.{◌≡◌, Option, none, some, List, [], ◌∷◌, String, arith}
use rymevisor.Common.Effect.{pure, ◌>>=◌}
use rymevisor.Common.Triple.{
  Triple, triple->>=, triple-pure, triple-given, triple-if, triple-attempt_cases, Attempted,
}
use rymevisor.Net.{Text}
use rymevisor.Network.{Subnet}
use rymevisor.Ipam.{next_available_ip}
use rymevisor.Control.{VirtualMachine, NetworkInterface}
use rymevisor.Control.Store.{World, Environment, Failure}
use rymevisor.Control.Addresses.{oldest_subnet, used_in, allocate_ip, generate_nic_mac}
use rymevisor.Control.Unique.{readdress, readdress_all}
use Prim.Native.String.{◌++◌ as ◌<>◌}

-- The address that a network's oldest subnet has left.
unfoldable pub assigned : Environment → List Subnet → List VirtualMachine → String → Option Text
unfolding oldest_subnet used_in next_available_ip
assigned env subnets vms network = elim (oldest_subnet network subnets) [
  | none ↦ none
  | some s ↦
      let a = next_available_ip env.canonical s.cidr (used_in network vms) in
      elim a.error [ none ↦ some a.allocated | some e ↦ none ]
]

module _ (env : Environment) (P : List VirtualMachine → List Subnet → Type 0) where
  abbrev pub Holds : World → Type 0
  Holds w = P w.vms w.subnets

  pub allocate_ip-assigned :
      (network : String)
      → Triple Holds
          (allocate_ip env network)
          (λ a w. (assigned env w.subnets w.vms network ≡ some a) × Holds w)
          (λ _. Holds)
  unfolding allocate_ip assigned
  allocate_ip-assigned network = record { run = λ w p. ground (arith, p) }

-- Two lists whose members correspond one by one.
abbrev pub Matches :
    (NetworkInterface → NetworkInterface → Type 0)
    → List NetworkInterface
    → List NetworkInterface
    → Type 0
Matches R [] [] = Unit
Matches R [] (b ∷ bs) = ⊥
Matches R (a ∷ nics) [] = ⊥
Matches R (a ∷ nics) (b ∷ bs) = R a b × Matches R nics bs

-- What an interface's new addresses have to do with its old ones, for the loop to keep it.
pub record Readdressed (env : Environment) (P : List VirtualMachine → List Subnet → Type 0)
    (R : NetworkInterface → NetworkInterface → Type 0) : Type 0 where
  pub as_before : (n : NetworkInterface) → R n n
  pub new_mac : (n : NetworkInterface) (mac : String) → R n (record n { mac_address = mac })
  pub new_ip :
      (n : NetworkInterface) (mac : String) (a : Text) (vms : List VirtualMachine)
      (subnets : List Subnet)
      → P vms subnets
      → assigned env subnets vms n.network_id ≡ some a
      → R n (record n { ipv4_addresses = a ∷ []; mac_address = mac })

module _ (env : Environment) (P : List VirtualMachine → List Subnet → Type 0)
    (R : NetworkInterface → NetworkInterface → Type 0) (laws : Readdressed env P R) where
  readdress-triple :
      {X : Failure → World → Type 0} (vm suffix : String) (nic : NetworkInterface)
      → Triple (Holds env P) (readdress env vm suffix nic) (λ n w. R nic n × Holds env P w) X
  unfolding readdress
  readdress-triple {X = X} vm suffix nic =
      triple-if _ _ _
        (λ h.
          triple->>= _ _ (triple-attempt_cases _ (allocate_ip-assigned env P nic.network_id))
            given_ip)
        (λ h. triple-pure nic (λ w p. (laws.as_before nic, p)))
    where
      given_ip :
          (found : Option Text)
          → Triple {E = Failure}
              (Attempted
                (λ a w. (assigned env w.subnets w.vms nic.network_id ≡ some a) × Holds env P w)
                (Holds env P)
                found)
              (pure (record nic {
                ipv4_addresses = elim found [ some a ↦ a ∷ [] | none ↦ nic.ipv4_addresses ];
                mac_address = generate_nic_mac env vm (nic.id <> suffix);
              }))
              (λ n w. R nic n × Holds env P w)
              X
      given_ip none = triple-pure _ (λ w p. (laws.new_mac nic _, p))
      given_ip (some a) = triple-pure _ (λ w p. (laws.new_ip nic _ a w.vms w.subnets p.1 p.0, p.1))

  -- It never fails.
  pub readdress_all-triple :
      {X : Failure → World → Type 0} (vm suffix : String) (nics : List NetworkInterface)
      → Triple
          (Holds env P)
          (readdress_all env vm suffix nics)
          (λ ns w. Matches R nics ns × Holds env P w)
          X
  unfolding readdress_all
  readdress_all-triple vm suffix [] = record { run = λ w p. (tt, p) }
  readdress_all-triple vm suffix (nic ∷ nics) =
      triple->>= _ (λ n. readdress_all env vm suffix nics >>= λ rest. pure (n ∷ rest))
        (readdress-triple vm suffix nic)
        (λ n. triple-given (λ r.
          triple->>= _ (λ rest. pure (n ∷ rest)) (readdress_all-triple vm suffix nics)
            (λ rest. triple-pure (n ∷ rest) (λ w p. ((r, p.0), p.1)))))
