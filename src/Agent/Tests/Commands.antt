-- ===== src/Agent/Tests/Commands.antt =====
-- A start command from the control plane to the agent.
use rymevisor.Common.{refl, true, false, none, some, [], ◌∷◌, take}
use rymevisor.Common.Triple.{Ends}
use rymevisor.Common.Int.{pos}
use rymevisor.Net.{Text, codes}
use rymevisor.Control.{stopped, NetworkInterface, VirtualMachine}
use rymevisor.Control.Store.{Environment}
use rymevisor.Control.StartConfig.{nic_config_of, config_with}
use rymevisor.Agent.{VmStartConfig}
use rymevisor.Agent.Interfaces.{fill_nics}
use rymevisor.Agent.Filled.{Matches, fill_nics-start_config}
use rymevisor.Agent.Tests.{quiet, host_with}

abbrev control : Environment
control = record {
  fails = λ n. false;
  has_publisher = true;
  has_keypairs = false;
  has_ipam = true;
  has_flavors = false;
  has_puller = false;
  has_file = λ id. false;
  canonical = λ t. none;
  rivals = λ n. [];
  sha256 = λ text. take 4 text;
  new_uuid = λ n. "uuid";
}

abbrev nic : NetworkInterface
nic = record {
  id = "nic-1";
  name = "";
  network_id = "0aa1-22";
  mac_address = "";
  ipv4_addresses = codes "10.0.0.5/24" ∷ [];
  ipv6_addresses = [];
  is_primary = true;
}

abbrev vm : VirtualMachine
vm = record {
  id = "vm-1";
  name = "web";
  node_id = some "node-1";
  organization_id = "org";
  project_id = none;
  status = stopped;
  vcpus = pos 2;
  memory_mb = pos 1024;
  cpu_model = "host";
  machine_type = "q35";
  enable_secure_boot = false;
  enable_tpm = false;
  hugepages = false;
  cloud_init = "";
  ssh_key_id = none;
  tags = [];
  metadata = [];
  labels = [];
  disks = [];
  network_interfaces = nic ∷ [];
}

abbrev same : Text → Text
same t = t

abbrev command : VmStartConfig
command =
    config_with control same vm none
      (nic_config_of control same "vm-1" (codes "br-0aa122") nic ∷ [])

fill_nics-start_config_example :
    Ends
      (λ ms _. Matches command.network_interfaces ms)
      (λ _ _. ⊥)
      (fill_nics quiet "vm-1" 0 command.network_interfaces (host_with none))
unfolding rymevisor.Control.StartConfig.start_config rymevisor.Ipam.bridge_for_network
fill_nics-start_config_example =
    fill_nics-start_config control same vm none command quiet (host_with none) refl
