-- ===== src/Control/Addresses.antt =====
-- The addresses of interfaces: services/controlplane/postgres/ipam_repository.go over
-- internal/ipam, and internal/mac/mac.go.
use rymevisor.Common.{
  ℕ, Bool, true, false, ◌&&◌, Option, none, some, List, [], ◌∷◌, ◌++◌, if◌then◌else◌, String,
  str_eq, head?,
}
use rymevisor.Common.Effect.{pure, fail, gets, modify, or_fail, ignore, attempt, ◌>>=◌, ◌>>◌}
use rymevisor.Common.Numerals.{hex_byte}
use rymevisor.Net.{Text, codes}
use rymevisor.Network.{private, PrivateNetwork, Subnet}
use rymevisor.Ipam.{Allocation, next_available_ip}
use rymevisor.Control.{NetworkInterface, VirtualMachine}
use rymevisor.Control.Store.{
  Environment, ensure_network, no_subnet, query_used_ips, allocate_ip_failed, Db, call, first_where,
  new_id,
}
use Prim.Native.String.{◌++◌ as ◌<>◌}

abbrev pub nil_organization : String
nil_organization = "00000000-0000-0000-0000-000000000000"

abbrev pub is_default_of : String → PrivateNetwork → Bool
is_default_of organization n = str_eq n.organization_id organization && str_eq n.name "default"

abbrev pub default_network : String → String → PrivateNetwork
default_network id organization = record {
  id = id;
  name = "default";
  organization_id = organization;
  vpc_id = none;
  type = private;
  cidr = codes "10.0.0.0/16";
  ipv6_cidr = none;
  internet_gateway = false;
  labels = [];
}

abbrev pub default_subnet : String → String → Subnet
default_subnet id network = record {
  id = id;
  name = "default";
  network_id = network;
  cidr = codes "10.0.0.0/16";
  ipv6_cidr = none;
  dhcp_enabled = true;
  gateway_ip = some (codes "10.0.0.1/16");
}

-- `ORDER BY dhcp_enabled DESC, created_at ASC LIMIT 1` of the subnets of a network, newest first.
unfoldable pub oldest_subnet : String → List Subnet → Option Subnet
oldest_subnet network [] = none
oldest_subnet network (s ∷ rest) =
    let older = oldest_subnet network rest in
    if str_eq s.network_id network
    then (elim older [
      | none ↦ some s
      | some o ↦ if o.dhcp_enabled then some o else if s.dhcp_enabled then some s else some o
    ])
    else older

-- The first IPv4 address of each interface in a network that has one.
unfoldable pub used_of_nics : String → List NetworkInterface → List Text
used_of_nics network [] = []
used_of_nics network (nic ∷ nics) =
    let rest = used_of_nics network nics in
    if str_eq nic.network_id network
    then (elim (head? nic.ipv4_addresses) [ none ↦ rest | some ip ↦ ip ∷ rest ])
    else rest

unfoldable pub used_in : String → List VirtualMachine → List Text
unfolding used_of_nics
used_in network [] = []
used_in network (vm ∷ vms) = used_of_nics network vm.network_interfaces ++ used_in network vms

-- GenerateNICMAC: the first four bytes of the hash; a hash has 32.
abbrev pub mac_text : List ℕ → String
mac_text (a ∷ b ∷ c ∷ d ∷ _) =
    "52:54:" <> hex_byte a <> ":" <> hex_byte b <> ":" <> hex_byte c <> ":" <> hex_byte d
mac_text _ = ""

module _ (env : Environment) where
  unfoldable pub generate_nic_mac : String → String → String
  generate_nic_mac vm nic = mac_text (env.sha256 (codes (vm <> "|" <> nic)))

  -- The subnet's insertion, whose error is dropped.
  unfoldable pub add_default_subnet : String → Db env (Unit {0})
  add_default_subnet network = do
    id ← new_id env
    ignore (do
      call env ensure_network
      modify (λ w. record w { subnets = default_subnet id network ∷ w.subnets }))

  unfoldable pub insert_default_network : String → Db env String
  unfolding add_default_subnet
  insert_default_network organization = do
    id ← new_id env
    call env ensure_network
    modify (λ w. record w { networks = default_network id organization ∷ w.networks })
    pure id

  unfoldable pub find_default : String → Db env (Option PrivateNetwork)
  find_default organization = do
    call env ensure_network
    gets (λ w. first_where (is_default_of organization) w.networks)

  -- What follows the insertion: the subnet, or a second look for the network.
  unfoldable pub after_insert : String → Option String → Db env String
  unfolding add_default_subnet find_default
  after_insert organization (some id) = do add_default_subnet id; pure id
  after_insert organization none = do
    found ← attempt (find_default organization)
    elim found [ some (some n) ↦ pure n.id | _ ↦ fail ensure_network ]

  unfoldable pub default_found : String → Option (Option PrivateNetwork) → Db env String
  unfolding insert_default_network after_insert
  default_found organization (some (some n)) = pure n.id
  default_found organization _ = do
    made ← attempt (insert_default_network organization)
    after_insert organization made

  -- EnsureDefaultNetwork: the network's id. A failed look counts as a missing network.
  unfoldable pub ensure_default_network : String → Db env String
  unfolding find_default default_found
  ensure_default_network given =
      let organization = if str_eq given "" then nil_organization else given in
      do found ← attempt (find_default organization); default_found organization found

  abbrev pub allocated_or_fail : Allocation → Db env Text
  allocated_or_fail a = elim a.error [ none ↦ pure a.allocated | some e ↦ fail allocate_ip_failed ]

  -- AllocateIP, without the gateway and the block, which its callers drop.
  unfoldable pub allocate_ip : String → Db env Text
  unfolding oldest_subnet used_in next_available_ip
  allocate_ip network = do
    call env no_subnet
    subnet ← or_fail (← gets (λ w. oldest_subnet network w.subnets)) no_subnet
    call env query_used_ips
    used ← gets (λ w. used_in network w.vms)
    allocated_or_fail (next_available_ip env.canonical subnet.cidr used)
