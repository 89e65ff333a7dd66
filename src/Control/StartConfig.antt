-- ===== src/Control/StartConfig.antt =====
-- The configuration that publishVMStart of services/controlplane/service.go sends to the node agent,
-- with gatewayFromIP and parseCIDR. `gateway6` stands for the increment of an IPv6 address.
use rymevisor.Common.{
  ℕ, ◌+◌, ◌*◌, ◌/◌, ◌%◌, Option, none, some, List, [], ◌∷◌, ◌==◌, if◌then◌else◌, String, str_eq,
  head?,
}
use rymevisor.Common.Effect.{ok, err}
use rymevisor.Common.Int.{ℤ, pos}
use rymevisor.Net.{
  Text, Address, IpNet, slash, codes, parse_ip, parse_cidr, decimal, dotted_quad, show_ip,
}
use rymevisor.Ipam.{bridge_for_network}
use rymevisor.Control.{Disk, NetworkInterface, VirtualMachine, Keypair}
use rymevisor.Control.Store.{Environment}
use rymevisor.Control.Addresses.{generate_nic_mac}
use rymevisor.Agent.{NicConfig, VmStartConfig}

-- The loop over the bytes, from the last one: an overflow carries on.
unfoldable pub increment : List ℕ → List ℕ
increment [] = []
increment (b ∷ bs) =
    let carried = increment bs in if (b + 1) % 256 == 0 then 0 ∷ carried else (b + 1) % 256 ∷ bs

-- The bytes of an IPv4 address, the last one first, and the address that they make.
abbrev pub bytes_of : ℕ → List ℕ
bytes_of a = a % 256 ∷ a / 256 % 256 ∷ a / 65536 % 256 ∷ a / 16777216 % 256 ∷ []

unfoldable pub number_of : List ℕ → ℕ
number_of [] = 0
number_of (b ∷ bs) = b + 256 * number_of bs

-- ip.String() + "/24"
unfoldable pub with_prefix : Text → Text
with_prefix [] = slash ∷ decimal 24 []
with_prefix (c ∷ cs) = c ∷ with_prefix cs

-- The disk that boots, else the first one, which also stands in for a boot disk without an image.
unfoldable pub boot_disk : List Disk → Option Disk
boot_disk [] = none
boot_disk (d ∷ ds) = let rest = boot_disk ds in if d.boot then some d else rest

abbrev pub image_source : List Disk → String × ℤ
image_source ds = elim (boot_disk ds) [
  | some d ↦ if str_eq d.image_id "" then first ds else (d.image_id, d.size_bytes)
  | none ↦ first ds
]
  where
    first : List Disk → String × ℤ
    first [] = ("", pos 0)
    first (d ∷ _) = (d.image_id, d.size_bytes)

module _ (canonical : Text → Option Text) (gateway6 : Text → Text) where
  -- parseCIDR: the block of the text, or of the address with a prefix of 24.
  unfoldable pub parse_block : Text → Option (Address × IpNet)
  unfolding with_prefix
  parse_block t = elim (parse_cidr canonical t) [
    | some found ↦ some found
    | none ↦ elim (parse_ip canonical t) [
      | none ↦ none
      | some a ↦ elim (parse_cidr canonical (with_prefix (show_ip a))) [
        | none ↦ none
        | some (_, n) ↦ some (a, n)
      ]
    ]
  ]

  unfoldable pub gateway_from_ip : Text → Option Text
  unfolding parse_block increment number_of
  gateway_from_ip t = elim (parse_block t) [
    | none ↦ none
    | some (_, n) ↦ elim n.base [
      | none ↦ some (gateway6 t)
      | some network ↦ some (dotted_quad (number_of (increment (bytes_of network))) [])
    ]
  ]

module _ (env : Environment) (gateway6 : Text → Text) where
  abbrev pub first_address : NetworkInterface → Text
  first_address nic = elim (head? nic.ipv4_addresses) [ none ↦ [] | some ip ↦ ip ]

  abbrev pub mac_of : String → NetworkInterface → String
  mac_of vm nic =
      if str_eq nic.mac_address "" then generate_nic_mac env vm nic.id else nic.mac_address

  abbrev gateway_of : Text → Text
  gateway_of [] = []
  gateway_of (c ∷ cs) = elim (gateway_from_ip env.canonical gateway6 (c ∷ cs)) [
    | none ↦ []
    | some g ↦ g
  ]

  abbrev pub nic_config_of : String → Text → NetworkInterface → NicConfig
  nic_config_of vm bridge nic = record {
    network_id = nic.network_id;
    mac_address = mac_of vm nic;
    ip_address = first_address nic;
    gateway = gateway_of (first_address nic);
    bridge = bridge;
    name = nic.name;
  }

  -- The loop over the interfaces; a network without a bridge ends it.
  unfoldable pub nic_configs : String → List NetworkInterface → Option (List NicConfig)
  unfolding gateway_from_ip generate_nic_mac bridge_for_network
  nic_configs vm [] = some []
  nic_configs vm (nic ∷ nics) = elim (bridge_for_network (codes nic.network_id)) [
    | err e ↦ none
    | ok bridge ↦ elim (nic_configs vm nics) [
      | none ↦ none
      | some rest ↦ some (nic_config_of vm bridge nic ∷ rest)
    ]
  ]

  abbrev pub public_key_of : Option Keypair → Text
  public_key_of key = elim key [ none ↦ [] | some k ↦ codes k.public_key ]

  abbrev legacy_mac : List NicConfig → String
  legacy_mac [] = ""
  legacy_mac (n ∷ ns) = n.mac_address

  abbrev pub config_with : VirtualMachine → Option Keypair → List NicConfig → VmStartConfig
  config_with vm key nics = record {
    name = vm.name;
    vcpus = vm.vcpus;
    memory_mb = vm.memory_mb;
    disk_path = "";
    mac_address = legacy_mac nics;
    ssh_key = public_key_of key;
    image_url = "";
    image_id = (image_source vm.disks).0;
    image_path = "";
    size_bytes = (image_source vm.disks).1;
    machine_type = vm.machine_type;
    network_interfaces = nics;
  }

  -- The configuration of a start command, with the key that was read.
  unfoldable pub start_config : VirtualMachine → Option Keypair → Option VmStartConfig
  unfolding nic_configs boot_disk
  start_config vm key = elim (nic_configs vm.id vm.network_interfaces) [
    | none ↦ none
    | some [] ↦ none
    | some (n ∷ ns) ↦ some (config_with vm key (n ∷ ns))
  ]
