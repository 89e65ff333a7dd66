-- ===== src/Network/Service.antt =====
-- services/network/service.go, by name. Each `do` line is one call or guard, in the order of the source.
use rymevisor.Common.{
  Bool, true, not, ◌&&◌, Option, none, some, List, [], ◌∷◌, if◌then◌else◌, String, str_eq,
}
use rymevisor.Common.Effect.{pure, fail, gets, modify, fail_if, or_fail, ignore, ◌>>=◌, ◌>>◌}
use rymevisor.Common.Table.{select, delete}
use rymevisor.Net.{Text, IpNet, text_eq, parse_cidr, contains_v4}
use rymevisor.Ipam.Floating.{found, failed, find_available_ip}
use rymevisor.Network.{
  PrivateNetwork, Subnet, FirewallRule, FloatingIp, CreateNetworkRequest, CreateFirewallRuleRequest,
}
use rymevisor.Control.Addresses.{nil_organization}
use rymevisor.Control.Images.{or_text}
use rymevisor.Control.Store.{
  Environment, Failure, name_required, network_id_required, cidr_required, invalid_cidr,
  network_not_found, list_subnets, get_subnet, subnet_not_found, outside_network, get_rule,
  rule_not_found, find_floating_ip, put_floating_ip, delete_row, unique_violation, Db, call, new_id,
}
use Prim.Native.String.{◌++◌}
use rymevisor.Network.Tables.{
  subnet_key, rule_key, floating_key, network_of, subnet_of, rule_of, port_error, holds_ip, inside,
  is_strict, held_in, is_cidr, find_network, put_new_network, put_new_subnet, put_new_rule,
  drop_subnet, drop_network,
}

-- `if err != nil {return err }` of a check.
abbrev pub check : (env : Environment) → Option Failure → Db env (Unit {0})
check env none = pure tt
check env (some e) = fail e

-- The subnets of a network, as ListByNetwork has them.
unfoldable pub subnets_in : String → List Subnet → List Subnet
subnets_in network [] = []
subnets_in network (s ∷ ss) =
    let rest = subnets_in network ss in if str_eq s.network_id network then s ∷ rest else rest

abbrev text_of : Text → Option Text
text_of [] = none
text_of (c ∷ cs) = some (c ∷ cs)

abbrev pub requested_network : CreateNetworkRequest → String → PrivateNetwork
requested_network req id =
    network_of req id (or_text req.organization_id nil_organization) (text_of req.ipv6_cidr)

abbrev pub default_subnet : CreateNetworkRequest → String → String → Subnet
default_subnet req id network = subnet_of id (req.name ++ "-default") network req.cidr true

abbrev pub floating_of : String → Text → String → String → String → FloatingIp
floating_of id a network vm organization = record {
  id = id;
  ip_address = a;
  network_id = some network;
  vm_id = if str_eq vm "" then none else some vm;
  organization_id = organization;
}

module _ (env : Environment) where
  -- CreateNetwork from the point where the request is checked.
  unfoldable pub insert_network : CreateNetworkRequest → Db env PrivateNetwork
  unfolding put_new_network put_new_subnet
  insert_network req = do
    id ← new_id env
    put_new_network env (requested_network req id)
    subnet ← new_id env
    put_new_subnet env (default_subnet req subnet id)
    pure (requested_network req id)

  unfoldable pub create_network : CreateNetworkRequest → Db env PrivateNetwork
  unfolding insert_network parse_cidr text_eq
  create_network req = do
    fail_if (str_eq req.name "") name_required
    fail_if (text_eq req.cidr []) cidr_required
    fail_if (not (is_cidr env req.cidr)) invalid_cidr
    fail_if (not (text_eq req.ipv6_cidr []) && not (is_cidr env req.ipv6_cidr)) invalid_cidr
    insert_network req

  unfoldable pub drop_subnets : List Subnet → Db env (Unit {0})
  unfolding drop_subnet
  drop_subnets [] = pure tt
  drop_subnets (s ∷ ss) = do
    (if str_eq s.id "" then pure tt else ignore (drop_subnet env s.id))
    drop_subnets ss

  unfoldable pub delete_network : String → Db env (Unit {0})
  unfolding find_network drop_subnets subnets_in drop_network
  delete_network id = do
    n ← or_fail (← find_network env id) network_not_found
    call env list_subnets
    subnets ← gets (λ w. subnets_in id w.subnets)
    drop_subnets subnets
    drop_network env id

  abbrev pub block_or_fail : Text → Db env IpNet
  block_or_fail cidr = elim (parse_cidr env.canonical cidr) [
    | none ↦ fail invalid_cidr
    | some (a, n) ↦ pure n
  ]

  -- CreateSubnet once its network is known.
  unfoldable pub subnet_in : PrivateNetwork → String → String → Text → Bool → Db env Subnet
  unfolding parse_cidr contains_v4 put_new_subnet
  subnet_in parent network name cidr dhcp = do
    n ← block_or_fail cidr
    p ← block_or_fail parent.cidr
    fail_if (not (inside env p n)) outside_network
    id ← new_id env
    put_new_subnet env (subnet_of id name network cidr dhcp)
    pure (subnet_of id name network cidr dhcp)

  unfoldable pub create_subnet : String → String → Text → Bool → Db env Subnet
  unfolding find_network subnet_in text_eq
  create_subnet network name cidr dhcp = do
    fail_if (str_eq network "") network_id_required
    fail_if (str_eq name "") name_required
    fail_if (text_eq cidr []) cidr_required
    parent ← or_fail (← find_network env network) network_not_found
    subnet_in parent network name cidr dhcp

  unfoldable pub delete_subnet : String → Db env (Unit {0})
  unfolding drop_subnet select
  delete_subnet id = do
    call env get_subnet
    s ← or_fail (← gets (λ w. select subnet_key id w.subnets)) subnet_not_found
    drop_subnet env id

  unfoldable pub create_firewall_rule : CreateFirewallRuleRequest → Db env FirewallRule
  unfolding port_error put_new_rule
  create_firewall_rule req = do
    fail_if (str_eq req.network_id "") network_id_required
    fail_if (str_eq req.name "") name_required
    check env (port_error req.port_min req.port_max)
    id ← new_id env
    put_new_rule env (rule_of req id)
    pure (rule_of req id)

  unfoldable pub delete_firewall_rule : String → Db env (Unit {0})
  unfolding select delete
  delete_firewall_rule id = do
    call env get_rule
    r ← or_fail (← gets (λ w. select rule_key id w.firewall_rules)) rule_not_found
    call env delete_row
    modify (λ w. record w { firewall_rules = delete rule_key id w.firewall_rules })

  -- floatingIPRepo.FindAvailableIP: the query's block must be without host bits.
  unfoldable pub propose_ip : Text → String → Db env Text
  unfolding find_available_ip is_strict held_in parse_cidr
  propose_ip cidr organization = do
    n ← block_or_fail cidr
    call env find_floating_ip
    fail_if (not (is_strict env cidr)) find_floating_ip
    held ← gets (λ w. held_in env n organization w.floating_ips)
    elim (find_available_ip env.canonical cidr held) [
      | found a ↦ pure a
      | failed e ↦ fail find_floating_ip
    ]

  -- floatingIPRepo.Allocate, with the unique address
  unfoldable pub put_floating : FloatingIp → Db env (Unit {0})
  unfolding holds_ip
  put_floating f = do
    call env put_floating_ip
    taken ← gets (λ w. holds_ip f.ip_address w.floating_ips)
    fail_if taken unique_violation
    modify (λ w. record w { floating_ips = f ∷ w.floating_ips })

  unfoldable pub allocate_in : PrivateNetwork → String → String → Db env FloatingIp
  unfolding propose_ip put_floating
  allocate_in n network vm = do
    a ← propose_ip n.cidr n.organization_id
    id ← new_id env
    put_floating (floating_of id a network vm n.organization_id)
    pure (floating_of id a network vm n.organization_id)

  unfoldable pub allocate_floating_ip : String → String → Db env FloatingIp
  unfolding find_network allocate_in
  allocate_floating_ip network vm = do
    fail_if (str_eq network "") network_id_required
    n ← or_fail (← find_network env network) network_not_found
    allocate_in n network vm

  unfoldable pub release_floating_ip : String → Db env (Unit {0})
  unfolding delete
  release_floating_ip id = do
    call env delete_row
    modify (λ w. record w { floating_ips = delete floating_key id w.floating_ips })
