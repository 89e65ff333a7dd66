-- ===== src/Control/Twins.antt =====
-- Two interfaces in one network with the same address, which no try of CreateVM can store.
use rymevisor.Common.{
  ℕ, zero, suc, ◌+◌, ◌≡◌, ◌∙◌, sym, refl, Bool, true, false, Option, none, some, List, [], ◌∷◌,
  String, str_eq, arith, ◌==◌, head?, eq_iff, ◌≤◌,
}
use rymevisor.Common.Effect.{Result, ok, err, fail}
use rymevisor.Common.Triple.{Ends, Triple, triple->>=, triple-caught, triple-if, triple-given}
use rymevisor.Net.{Text, text_eq}
use rymevisor.Network.{Subnet}
use rymevisor.Control.{VirtualMachine, NetworkInterface}
use rymevisor.Control.Store.{World, Environment, Failure, Db, create_vm_failed}
use rymevisor.Control.Assigned.{assigned, Holds, Matches, Readdressed, readdress_all-triple}
use rymevisor.Control.Unique.{
  same_ip, clashes_with, any_clash, violates, stored_nics, put_new_vm, is_unique_violation, saved,
  save_vm,
}

text_eq_self : (t : Text) → text_eq t t ≡ true
unfolding text_eq
text_eq_self [] = refl
text_eq_self (c ∷ t) = ground (arith, text_eq_self t)

abbrev pub is_some : Option Text → Bool
is_some o = elim o [ none ↦ false | some a ↦ true ]

same_ip_self : (o : Option Text) → is_some o ≡ true → same_ip o o ≡ true
same_ip_self none h = ground arith
same_ip_self (some a) h = text_eq_self a

module _ (env : Environment) (alone : (n : ℕ) → env.rivals n ≡ []) (allocates : env.has_ipam ≡ true)
    (network : String) (named : str_eq network "" ≡ false) (rows : List VirtualMachine)
    (blocks : List Subnet) where
  -- The tables of VMs and subnets are as at the beginning.
  abbrev pub Still : List VirtualMachine → List Subnet → Type 0
  Still vms subnets = (vms ≡ rows) × (subnets ≡ blocks)

  -- An interface in the network with the address that the network's subnet has left.
  pub record IsThere (n : NetworkInterface) : Type 0 where
    pub in_network : n.network_id ≡ network
    pub address : head? n.ipv4_addresses ≡ assigned env blocks rows network
    pub given : is_some (head? n.ipv4_addresses) ≡ true

  abbrev pub BothThere : List NetworkInterface → Type 0
  BothThere [] = ⊥
  BothThere (a ∷ []) = ⊥
  BothThere (a ∷ b ∷ rest) = IsThere a × IsThere b

  abbrev StaysThere : NetworkInterface → NetworkInterface → Type 0
  StaysThere a b = IsThere a → IsThere b

  IsThere-assigned :
      (n : NetworkInterface) (a : Text) (vms : List VirtualMachine) (subnets : List Subnet)
      → Still vms subnets
      → assigned env subnets vms n.network_id ≡ some a
      → n.network_id ≡ network
      → head? n.ipv4_addresses ≡ some a
      → IsThere n
  IsThere-assigned n a vms subnets p e net ip = record {
    in_network = net;
    address = ip ∙ sym e ∙ (rw (p.0, p.1, net) refl);
    given = rw ip refl;
  }

  stays : Readdressed env Still StaysThere
  stays = record {
    as_before = λ n p. p;
    new_mac = λ n mac p. record { in_network = p.in_network; address = p.address; given = p.given };
    new_ip = λ n mac a vms subnets p e q. IsThere-assigned _ a vms subnets p e q.in_network refl;
  }

  both_stay :
      (nics ns : List NetworkInterface) → Matches StaysThere nics ns → BothThere nics → BothThere ns
  both_stay (a ∷ b ∷ rest) (c ∷ d ∷ more) m p = (m.0 p.0, m.1.0 p.1)
  both_stay (a ∷ b ∷ rest) [] m p = absurd m
  both_stay (a ∷ b ∷ rest) (c ∷ []) m p = absurd m.1
  both_stay [] ns m p = absurd p
  both_stay (a ∷ []) ns m p = absurd p

  BothThere-clash :
      (nics stored : List NetworkInterface) → BothThere nics → any_clash nics stored ≡ true
  unfolding any_clash clashes_with
  BothThere-clash [] stored p = absurd p
  BothThere-clash (a ∷ []) stored p = absurd p
  BothThere-clash (a ∷ b ∷ rest) stored p = ground (arith, same, ==text, named)
    where
      same : same_ip (head? b.ipv4_addresses) (head? a.ipv4_addresses) ≡ true
      same = rw (p.0.address, sym p.1.address) (same_ip_self _ p.1.given)

      ==text : str_eq b.network_id a.network_id ≡ true
      ==text = (eq_iff b.network_id a.network_id).1 (p.1.in_network ∙ sym p.0.in_network)

  abbrev pub Before : World → Type 0
  Before = Holds env Still

  abbrev pub Impossible : {A : Type 0} → A → World → Type 0
  Impossible a w = ⊥

  put_new_vm-never :
      (vm : VirtualMachine)
      → BothThere vm.network_interfaces
      → Triple Before (put_new_vm env vm) Impossible (λ _. Before)
  unfolding put_new_vm violates
  put_new_vm-never vm both = record {
    run = λ w p.
        ground
          (arith, p, alone w.calls, BothThere-clash vm.network_interfaces (stored_nics w.vms) both);
  }

  saved-never :
      (next : VirtualMachine → Db env VirtualMachine) (i : ℕ) (vm : VirtualMachine)
      (r : Result Failure (Unit {0}))
      → BothThere vm.network_interfaces
      → ((i == 2) ≡ false
          → (v : VirtualMachine) → BothThere v.network_interfaces
          → Triple Before (next v) Impossible (λ _. Before))
      → Triple
          (λ w. Ends Impossible (λ _. Before) (r, w))
          (saved env next i vm r)
          Impossible
          (λ _. Before)
  saved-never next i vm (ok _) both again = record { run = λ w p. absurd p }
  saved-never next i vm (err e) both again =
      triple-if (is_unique_violation e) _ _
        (λ h.
          triple->>= _ _
            (readdress_all-triple env Still StaysThere stays vm.id _ vm.network_interfaces)
            (λ ns. triple-given (λ stay.
              triple-if (i == 2) (fail create_vm_failed)
                (next (record vm { network_interfaces = ns })) (λ last. record { run = λ w p. p })
                (λ more. again more _ (both_stay vm.network_interfaces ns stay both)))))
        (λ h. record { run = λ w p. p })

  pub save_vm-never :
      (left i : ℕ) (vm : VirtualMachine)
      → i + left ≡ 3
      → i ≤ 2
      → BothThere vm.network_interfaces
      → Triple Before (save_vm env left i vm) Impossible (λ _. Before)
  unfolding save_vm
  save_vm-never zero i vm sum low both = absurd (omega (arith, sum, low))
  save_vm-never (suc left) i vm sum low both =
      triple->>= _ (λ r. saved env (save_vm env left (i + 1)) i vm r)
        (triple-caught _ (put_new_vm-never vm both))
        (λ r. saved-never (save_vm env left (i + 1)) i vm r both (λ more v there.
          save_vm-never left (i + 1) v (omega (arith, sum)) (ground (arith, low, more)) there))
