-- ===== src/Control/Unused.antt =====
-- AllocateIP's address against the unique index on addresses.
use rymevisor.Common.{
  ℕ, ◌≡◌, ◌^◌, ◌<◌, ◌≤◌, refl, ◌++◌, Bool, true, false, ◌||◌, Option, none, some, List, [], ◌∷◌,
  String, str_eq, arith, inl, inr, ◌⊎◌, head?, All, contains, ==_iff, Bool-cases, Option-cases,
  subst,
}
use rymevisor.Common.Triple.{Ends, triple-weaken}
use rymevisor.Net.{Text, text_eq, IpNet, Address, slash, parse_cidr, decimal, dotted_quad}
use rymevisor.Network.{Subnet}
use rymevisor.Ipam.{IpamError, used_set, next_available_ip}
use rymevisor.Ipam.Block.{IsBlock, parse_cidr-IsBlock}
use rymevisor.Ipam.Allocate.{next_available_ip_total}
use rymevisor.Ipam.Reuse.{used_set-dotted_quad}
use rymevisor.Control.{VirtualMachine, NetworkInterface}
use rymevisor.Control.Store.{World, Environment}
use rymevisor.Control.Addresses.{used_of_nics, used_in, oldest_subnet, allocate_ip}
use rymevisor.Control.Unique.{same_ip, stored_nics}
use rymevisor.Control.Assigned.{assigned, allocate_ip-assigned}

abbrev listed : Text → List Text → Bool
listed t [] = false
listed t (u ∷ us) = text_eq t u || listed t us

listed-++ : (t : Text) (us vs : List Text) → listed t (us ++ vs) ≡ (listed t us || listed t vs)
listed-++ t [] vs = refl
listed-++ t (u ∷ us) vs = ground (arith, listed-++ t us vs)

text_eq_sound : (s t : Text) → text_eq s t ≡ true → t ≡ s
unfolding text_eq
text_eq_sound [] [] e = refl
text_eq_sound [] (d ∷ t) e = ground arith
text_eq_sound (c ∷ s) [] e = ground arith
text_eq_sound (c ∷ s) (d ∷ t) e = ground (arith, ==_iff c d, text_eq_sound s t)

-- No interface of some in a network has this first address.
abbrev pub HasNot : String → Text → List NetworkInterface → Type 0
HasNot network a nics =
    All
      (λ n.
        str_eq (NetworkInterface.network_id n) network ≡ true
        → same_ip (some a) (head? n.ipv4_addresses) ≡ false)
      nics

HasNot-++ :
    (network : String) (a : Text) (ms ns : List NetworkInterface)
    → HasNot network a ms
    → HasNot network a ns
    → HasNot network a (ms ++ ns)
HasNot-++ network a [] ns p q = q
HasNot-++ network a (m ∷ ms) ns p q = (p.0, HasNot-++ network a ms ns p.1 q)

used_of_nics-HasNot :
    (network : String) (a : Text) (nics : List NetworkInterface)
    → listed a (used_of_nics network nics) ≡ false
    → HasNot network a nics
unfolding used_of_nics
used_of_nics-HasNot network a [] e = tt
used_of_nics-HasNot network a (n ∷ nics) e =
    (λ same. ground (arith, e, same), used_of_nics-HasNot network a nics (ground (arith, e)))

used_in-HasNot :
    (network : String) (a : Text) (vms : List VirtualMachine)
    → listed a (used_in network vms) ≡ false
    → HasNot network a (stored_nics vms)
unfolding used_in stored_nics
used_in-HasNot network a [] e = tt
used_in-HasNot network a (vm ∷ vms) e =
    HasNot-++ network a vm.network_interfaces (stored_nics vms)
      (used_of_nics-HasNot network a vm.network_interfaces (ground (arith, e, apart)))
      (used_in-HasNot network a vms (ground (arith, e, apart)))
  where
    apart :
        listed a (used_of_nics network vm.network_interfaces ++ used_in network vms)
        ≡ (listed a (used_of_nics network vm.network_interfaces) || listed a (used_in network vms))
    apart = listed-++ a (used_of_nics network vm.network_interfaces) (used_in network vms)

module _ (canonical : Text → Option Text) where
  used_set-tail :
      (a : ℕ) (u : Text) (us : List Text)
      → contains (used_set canonical (u ∷ us)) a ≡ false
      → contains (used_set canonical us) a ≡ false
  unfolding used_set
  used_set-tail a u us e = ground (arith, e)

  -- A text is not listed when its address is not used.
  unused-listed :
      (a k : ℕ) (us : List Text)
      → a < 2 ^ 32
      → k ≤ 32
      → contains (used_set canonical us) a ≡ false
      → listed (dotted_quad a (slash ∷ decimal k [])) us ≡ false
  unused-listed a k [] h low e = refl
  unused-listed a k (u ∷ us) h low e =
      elim (Bool-cases (text_eq (dotted_quad a (slash ∷ decimal k [])) u)) [
        | inl same ↦ absurd (ground (arith, used same))
        | inr other ↦ ground (arith, other, unused-listed a k us h low (used_set-tail a u us e))
      ]
    where
      used :
          text_eq (dotted_quad a (slash ∷ decimal k [])) u ≡ true
          → contains (a ∷ used_set canonical us) a ≡ false
      used same =
          subst (λ s. contains s a ≡ false) (used_set-dotted_quad canonical a k us h low)
            (subst (λ t. contains (used_set canonical (t ∷ us)) a ≡ false) (text_eq_sound _ u same)
              e)

  -- The block that NextAvailableIP allocates from.
  record Block (cidr : Text) : Type 0 where
    address : Address
    net : IpNet
    network : ℕ
    parsed : parse_cidr canonical cidr ≡ some (address, net)
    based : net.base ≡ some network

  next_available_ip-Block :
      (cidr : Text) (us : List Text)
      → (next_available_ip canonical cidr us).error ≡ none
      → Block cidr
  unfolding next_available_ip
  next_available_ip-Block cidr us e = elim (Option-cases (parse_cidr canonical cidr)) [
    | inl p ↦ absurd (ground (arith, p, e))
    | inr (xn, p) ↦ elim (Option-cases (xn.1.base)) [
      | inl b ↦ absurd (ground (arith, p, b, e))
      | inr (network, b) ↦ record {
        address = xn.0;
        net = xn.1;
        network = network;
        parsed = p;
        based = b;
      }
    ]
  ]

  -- NextAvailableIP's text is not among the used ones.
  next_available_ip-listed :
      (cidr : Text) (us : List Text)
      → (next_available_ip canonical cidr us).error ≡ none
      → listed (next_available_ip canonical cidr us).allocated us ≡ false
  next_available_ip-listed cidr us e =
      elim (next_available_ip_total canonical cidr us b.address b.net b.network b.parsed b.based) [
        | inr (full, _) ↦ absurd (ground (arith, full, e))
        | inl (a, first, text, gate, fine) ↦ rw text (
            unused-listed a b.net.ones us (omega (arith, block.fits, first.host)) block.ones_le
              first.unused)
      ]
    where
      b : Block cidr
      b = next_available_ip-Block cidr us e

      block : IsBlock b.net b.network
      block = parse_cidr-IsBlock canonical cidr b.address b.net b.network b.parsed b.based

-- An assigned address is not among those of the network's interfaces.
assigned-listed :
    (env : Environment) (subnets : List Subnet) (vms : List VirtualMachine) (network : String)
    (a : Text)
    → assigned env subnets vms network ≡ some a
    → listed a (used_in network vms) ≡ false
unfolding assigned
assigned-listed env subnets vms network a e = elim (Option-cases (oldest_subnet network subnets)) [
  | inl o ↦ absurd (ground (arith, o, e))
  | inr (s, o) ↦ given s o (Option-cases _)
]
  where
    given :
        (s : Subnet)
        → oldest_subnet network subnets ≡ some s
        → let r = next_available_ip env.canonical s.cidr (used_in network vms) in
          (r.error ≡ none) ⊎ ((x : IpamError) × (r.error ≡ some x))
          → listed a (used_in network vms) ≡ false
    given s o (inl fine) =
        subst (λ t. listed t (used_in network vms) ≡ false) (ground (arith, o, fine, e))
          (next_available_ip-listed env.canonical s.cidr (used_in network vms) fine)
    given s o (inr (x, bad)) = absurd (ground (arith, o, bad, e))

-- AllocateIP leaves the rows of the VMs, and an address that it gives out is not the first address of
-- a stored interface in the network, whichever calls fail.
pub allocate_ip_unused :
    (env : Environment) (network : String) (w : World)
    → Ends
        (λ a w'. HasNot network a (stored_nics w'.vms) × (w'.vms ≡ w.vms))
        (λ e w'. w'.vms ≡ w.vms)
        (allocate_ip env network w)
allocate_ip_unused env network w =
    (triple-weaken (allocate_ip-assigned env (λ vms subnets. vms ≡ w.vms) network)
        (λ a s p.
          (used_in-HasNot network a s.vms (assigned-listed env s.subnets s.vms network a p.0), p.1))
        (λ e s p. p)).run
      w refl
