-- ===== src/Network/Tables.antt =====
-- The repositories of services/network/postgres, and the rows that services/network/service.go makes.
-- The tables stand in the state of Control.Store, which shares them. As the migration has it, a subnet and a firewall rule
-- refer to a stored network and go with it, the action and the direction of a rule are of two values
-- each, and a floating address is stored once.
use rymevisor.Common.{
  Bool, true, false, not, ◌&&◌, ◌||◌, ◌==◌, Option, none, some, List, [], ◌∷◌, if◌then◌else◌,
  String, str_eq,
}
use rymevisor.Common.Effect.{gets, modify, fail_if, ◌>>=◌, ◌>>◌}
use rymevisor.Common.Int.{ℤ, pos, ltb_ℤ}
use rymevisor.Common.Table.{select, delete}
use rymevisor.Net.{
  Text, v4, v6, IpNet, text_eq, parse_ip, parse_cidr, contains_v4, dotted_quad, slash, decimal,
}
use rymevisor.Network.{
  private, PrivateNetwork, Subnet, FirewallRule, FloatingIp, CreateNetworkRequest,
  CreateFirewallRuleRequest,
}
use rymevisor.Control.Images.{or_text}
use rymevisor.Control.Store.{
  Environment, Failure, get_network, put_network, put_subnet, port_out_of_range, ports_reversed,
  put_rule, delete_row, Db, call,
}

abbrev pub network_key : PrivateNetwork → String
network_key n = n.id

abbrev pub subnet_key : Subnet → String
subnet_key s = s.id

abbrev pub rule_key : FirewallRule → String
rule_key r = r.id

abbrev pub floating_key : FloatingIp → String
floating_key f = f.id

abbrev pub is_some : {A : Type 0} → Option A → Bool
is_some o = elim o [ none ↦ false | some a ↦ true ]

-- The rows of a network that go with it.
abbrev pub keep_others : {A : Type 0} → (A → String) → String → List A → List A
keep_others network_of id [] = []
keep_others network_of id (r ∷ rs) =
    let rest = keep_others network_of id rs in if str_eq (network_of r) id then rest else r ∷ rest

abbrev pub subnet_network : Subnet → String
subnet_network s = s.network_id

abbrev pub rule_network : FirewallRule → String
rule_network r = r.network_id

-- ON DELETE SET NULL
abbrev pub unlink : String → List FloatingIp → List FloatingIp
unlink id [] = []
unlink id (f ∷ fs) =
    let rest = unlink id fs in
    elim f.network_id [
      | none ↦ f ∷ rest
      | some n ↦ if str_eq n id then record f { network_id = none } ∷ rest else f ∷ rest
    ]

abbrev pub network_of : CreateNetworkRequest → String → String → Option Text → PrivateNetwork
network_of req id organization ipv6 = record {
  id = id;
  name = req.name;
  organization_id = organization;
  vpc_id = none;
  type = private;
  cidr = req.cidr;
  ipv6_cidr = ipv6;
  internet_gateway = req.internet_gateway;
  labels = [];
}

abbrev pub subnet_of : String → String → String → Text → Bool → Subnet
subnet_of id name network cidr dhcp = record {
  id = id;
  name = name;
  network_id = network;
  cidr = cidr;
  ipv6_cidr = none;
  dhcp_enabled = dhcp;
  gateway_ip = none;
}

abbrev is_zero : ℤ → Bool
is_zero n = elim n [ pos k ↦ k == 0 | _ ↦ false ]

abbrev pub rule_of : CreateFirewallRuleRequest → String → FirewallRule
rule_of req id = record {
  id = id;
  name = req.name;
  network_id = req.network_id;
  priority = if is_zero req.priority then pos 100 else req.priority;
  action = or_text req.action "allow";
  direction = or_text req.direction "ingress";
  source_cidrs = req.source_cidrs;
  destination_cidrs = req.destination_cidrs;
  protocol = or_text req.protocol "any";
  port_min = req.port_min;
  port_max = req.port_max;
  enabled = true;
}

-- The check of the ports, made when both are given.
unfoldable pub port_error : Option ℤ → Option ℤ → Option Failure
port_error (some low) (some high) =
    if ltb_ℤ low (pos 1) || ltb_ℤ (pos 65535) high
    then some port_out_of_range
    else if ltb_ℤ high low
    then some ports_reversed
    else none
port_error _ _ = none

-- The values of the two enumerations.
abbrev pub is_known_rule : FirewallRule → Bool
is_known_rule r =
    (str_eq r.action "allow" || str_eq r.action "deny")
    && (str_eq r.direction "ingress" || str_eq r.direction "egress")

unfoldable pub holds_ip : Text → List FloatingIp → Bool
holds_ip a [] = false
holds_ip a (f ∷ fs) = text_eq f.ip_address a || holds_ip a fs

module _ (env : Environment) where
  -- The value of a block's network address inside another block.
  abbrev pub inside : IpNet → IpNet → Bool
  inside parent n = elim n.base [ none ↦ false | some a ↦ contains_v4 parent a ]

  -- Whether a text is a block without host bits, as `::cidr` wants it.
  unfoldable pub is_strict : Text → Bool
  unfolding parse_cidr
  is_strict cidr = elim (parse_cidr env.canonical cidr) [
    | none ↦ false
    | some (a, n) ↦ elim n.base [ none ↦ true | some b ↦ elim a [ v4 x ↦ x == b | v6 t ↦ true ] ]
  ]

  -- The addresses in a block that an organization holds, as the database writes them: the query of
  -- FindAvailableIP.
  unfoldable pub held_in : IpNet → String → List FloatingIp → List Text
  held_in n organization [] = []
  held_in n organization (f ∷ fs) =
      let rest = held_in n organization fs in
      elim (parse_ip env.canonical f.ip_address) [
        | some (v4 a) ↦
            if contains_v4 n a && (str_eq organization "" || str_eq f.organization_id organization)
            then dotted_quad a (slash ∷ decimal 32 []) ∷ rest
            else rest
        | _ ↦ rest
      ]

  abbrev pub is_cidr : Text → Bool
  is_cidr t = is_some (parse_cidr env.canonical t)

  -- The repositories
  unfoldable pub find_network : String → Db env (Option PrivateNetwork)
  find_network id = do call env get_network; gets (λ w. select network_key id w.networks)

  unfoldable pub put_new_network : PrivateNetwork → Db env (Unit {0})
  put_new_network n = do call env put_network; modify (λ w. record w { networks = n ∷ w.networks })

  unfoldable pub has_network : String → Db env Bool
  has_network id = gets (λ w. is_some (select network_key id w.networks))

  unfoldable pub put_new_subnet : Subnet → Db env (Unit {0})
  unfolding has_network
  put_new_subnet s = do
    call env put_subnet
    known ← has_network s.network_id
    fail_if (not known) put_subnet
    modify (λ w. record w { subnets = s ∷ w.subnets })

  unfoldable pub put_new_rule : FirewallRule → Db env (Unit {0})
  unfolding has_network
  put_new_rule r = do
    call env put_rule
    known ← has_network r.network_id
    fail_if (not known || not (is_known_rule r)) put_rule
    modify (λ w. record w { firewall_rules = r ∷ w.firewall_rules })

  unfoldable pub drop_subnet : String → Db env (Unit {0})
  drop_subnet id = do
    call env delete_row
    modify (λ w. record w { subnets = delete subnet_key id w.subnets })

  unfoldable pub drop_network : String → Db env (Unit {0})
  drop_network id = do
    call env delete_row
    modify (λ w. record w {
      networks = delete network_key id w.networks;
      subnets = keep_others subnet_network id w.subnets;
      firewall_rules = keep_others rule_network id w.firewall_rules;
      floating_ips = unlink id w.floating_ips;
    })
