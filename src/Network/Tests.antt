-- ===== src/Network/Tests.antt =====
-- Runs of the network service, with two organizations that use one block.
use rymevisor.Common.{◌≡◌, refl, true, false, none, some, [], ◌∷◌, String}
use rymevisor.Common.Effect.{ok, err}
use rymevisor.Common.Triple.{Ends}
use rymevisor.Common.Numerals.{number}
use rymevisor.Common.Table.{select}
use rymevisor.Net.{codes, contains_v4, dotted_quad, text_eq}
use rymevisor.Ipam.{scan}
use rymevisor.Network.{private, PrivateNetwork, CreateNetworkRequest}
use rymevisor.Control.Store.{World, Environment}
use rymevisor.Network.Tables.{holds_ip}
use rymevisor.Network.Service.{create_subnet, allocate_floating_ip}
use rymevisor.Network.Stuck.{proposal, retried, allocate_floating_ip_stuck}

abbrev working : Environment
working = record {
  fails = λ n. false;
  has_publisher = true;
  has_keypairs = false;
  has_ipam = true;
  has_flavors = true;
  has_puller = true;
  has_file = λ id. false;
  rivals = λ n. [];
  canonical = λ t. none;
  sha256 = λ text. text;
  new_uuid = λ n. number n;
}

abbrev empty : World
empty = record {
  vms = [];
  nodes = [];
  images = [];
  snapshots = [];
  backups = [];
  flavors = [];
  keypairs = [];
  networks = [];
  subnets = [];
  firewall_rules = [];
  floating_ips = [];
  downloads = [];
  published = [];
  calls = 0;
}

abbrev network_for : String → String → PrivateNetwork
network_for id organization = record {
  id = id;
  name = "lan";
  organization_id = organization;
  vpc_id = none;
  type = private;
  cidr = codes "10.0.0.0/29";
  ipv6_cidr = none;
  internet_gateway = false;
  labels = [];
}

-- The second organization holds the first address of the block.
abbrev shared_block : World
shared_block = record empty {
  networks = network_for "net-1" "org-1" ∷ network_for "net-2" "org-2" ∷ [];
  floating_ips =
      record {
        id = "ip-1";
        ip_address = codes "10.0.0.2";
        network_id = some "net-2";
        vm_id = none;
        organization_id = "org-2";
      }
      ∷ [];
}

abbrev lan_request : CreateNetworkRequest
lan_request = record {
  name = "lan";
  organization_id = "org-1";
  cidr = codes "10.1.0.0/24";
  ipv6_cidr = [];
  internet_gateway = false;
}

-- A subnet that is larger than its network is accepted.
wider_subnet :
    (let r = create_subnet working "net-1" "wide" (codes "10.0.0.0/8") true shared_block in
      elim r.0 [ ok s ↦ s.cidr | err e ↦ [] ])
    ≡ codes "10.0.0.0/8"
unfolding create_subnet select holds_ip
wider_subnet = refl

allocate_floating_ip_stuck_example :
    Ends
      (λ f w'. ⊥)
      (λ e w'.
        (w'.networks ≡ shared_block.networks) × (w'.floating_ips ≡ shared_block.floating_ips))
      (allocate_floating_ip working "net-1" "vm-1" (retried working "net-1" "vm-1" 2 shared_block))
unfolding select proposal scan contains_v4 dotted_quad holds_ip text_eq
allocate_floating_ip_stuck_example =
    allocate_floating_ip_stuck working "net-1" "vm-1" (network_for "net-1" "org-1")
      (codes "10.0.0.2") shared_block 2 refl refl refl
