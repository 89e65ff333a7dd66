-- ===== src/Control/Create.antt =====
-- CreateVM of services/controlplane/service.go, in its steps: the flavor, the SSH key, the disks, the
-- interfaces, the row with its unique addresses, and the event. A Go map that is nil is empty here.
use rymevisor.Common.{
  ℕ, ◌+◌, Bool, true, false, not, ◌&&◌, ◌||◌, ◌==◌, Option, none, some, List, [], ◌∷◌,
  if◌then◌else◌, String, str_eq,
}
use rymevisor.Common.Effect.{pure, fail, gets, fail_if, or_fail, attempt, ◌>>=◌, ◌>>◌}
use rymevisor.Common.Int.{pos, ltb_ℤ, ◌*ℤ◌}
use rymevisor.Common.Numerals.{number}
use rymevisor.Net.{Text}
use rymevisor.Control.{
  creating, VirtualMachine, Disk, NetworkInterface, Dictionary, Flavor, Keypair, CreateDiskRequest,
  CreateNetworkInterfaceRequest, CreateVmRequest,
}
use rymevisor.Control.Store.{
  vm_event, Environment, name_required, get_flavor, flavor_not_found, flavor_not_available,
  get_keypair, vcpus_too_small, memory_too_small, Db, call, first_where, new_id, send,
}
use rymevisor.Control.Addresses.{
  nil_organization, generate_nic_mac, ensure_default_network, allocate_ip,
}
use Prim.Native.String.{◌++◌ as ◌<>◌}
use rymevisor.Control.Disks.{is_zero, or_size, request_disks}
use rymevisor.Control.Unique.{save_vm}

-- The value of a key, the empty text if there is none.
unfoldable pub value_of : String → Dictionary → String
value_of k [] = ""
value_of k ((a, v) ∷ rest) = if str_eq a k then v else value_of k rest

abbrev pub organization_of : CreateVmRequest → String
organization_of req =
    let label = value_of "organization_id" req.labels in
    let meta = value_of "organization_id" req.metadata in
    if not (str_eq label "") then label else if not (str_eq meta "") then meta else nil_organization

abbrev flavor_disk : Flavor → CreateDiskRequest
flavor_disk f = record {
  name = "root";
  size_bytes = f.disk_gb *ℤ pos 1073741824;
  type = "qcow2";
  storage_pool = "default";
  image_id = "";
  image = "";
}

-- What a request leaves out, from its flavor.
unfoldable pub with_flavor : CreateVmRequest → Flavor → CreateVmRequest
with_flavor req f = record req {
  vcpus = or_size req.vcpus f.vcpus;
  memory_mb = or_size req.memory_mb f.memory_mb;
  disks = elim req.disks [
    | [] ↦ if ltb_ℤ (pos 0) f.disk_gb then flavor_disk f ∷ [] else []
    | d ∷ ds ↦ d ∷ ds
  ];
}

abbrev named_flavor : CreateVmRequest → Flavor → Bool
named_flavor req f =
    if not (str_eq req.flavor_id "") then str_eq f.id req.flavor_id else str_eq f.name req.flavor

unfoldable pub has_primary : List CreateNetworkInterfaceRequest → Bool
has_primary [] = false
has_primary (n ∷ ns) = n.is_primary || has_primary ns

module _ (env : Environment) where
  unfoldable pub sized_by_flavor : CreateVmRequest → Db env CreateVmRequest
  unfolding with_flavor
  sized_by_flavor req =
      if not (str_eq req.flavor_id "") || not (str_eq req.flavor "")
      then (if env.has_flavors
          then (do
            call env get_flavor
            found ← gets (λ w. first_where (named_flavor req) w.flavors)
            f ← or_fail found flavor_not_found
            pure (with_flavor req f))
          else if is_zero req.vcpus || is_zero req.memory_mb
          then fail flavor_not_available
          else pure req)
      else pure req

  -- The id of the key that is named, when it is found.
  unfoldable pub resolve_keypair : CreateVmRequest → Db env String
  resolve_keypair req =
      if not (str_eq req.keypair "") && str_eq req.keypair_id "" && env.has_keypairs
      then (do
        found ← attempt (do
          call env get_keypair
          gets (λ w. first_where (λ k. str_eq (Keypair.name k) req.keypair) w.keypairs))
        pure (elim found [ some (some k) ↦ k.id | _ ↦ req.keypair_id ]))
      else pure req.keypair_id

  -- The network of an interface: the default one of the organization when none is named.
  unfoldable pub network_for : String → String → Db env String
  unfolding ensure_default_network
  network_for organization network =
      if str_eq network "" && env.has_ipam
      then ensure_default_network env organization
      else pure network

  unfoldable pub address_for : String → Db env (List Text)
  unfolding allocate_ip
  address_for network =
      if env.has_ipam && not (str_eq network "")
      then (do a ← allocate_ip env network; pure (a ∷ []))
      else pure []

  abbrev pub nic_of : ℕ → String → String → String → List Text → Bool → NetworkInterface
  nic_of i vm network id addresses is_primary = record {
    id = id;
    name = "eth" <> number i;
    network_id = network;
    mac_address = generate_nic_mac env vm id;
    ipv4_addresses = addresses;
    ipv6_addresses = [];
    is_primary = is_primary;
  }

  unfoldable pub make_nic : String → String → ℕ → String → Bool → Db env NetworkInterface
  unfolding network_for address_for generate_nic_mac
  make_nic organization vm i network is_primary = do
    net ← network_for organization network
    id ← new_id env
    addresses ← address_for net
    pure (nic_of i vm net id addresses is_primary)

  -- The interfaces from the i-th on; the first is primary when none is marked.
  unfoldable pub make_nics :
      String
      → String
      → Bool
      → ℕ
      → List CreateNetworkInterfaceRequest
      → Db env (List NetworkInterface)
  unfolding make_nic
  make_nics organization vm marked i [] = pure []
  make_nics organization vm marked i (r ∷ rs) = do
    nic ← make_nic organization vm i r.network_id (r.is_primary || ((i == 0) && not marked))
    rest ← make_nics organization vm marked (i + 1) rs
    pure (nic ∷ rest)

  unfoldable pub request_nics :
      String → String → List CreateNetworkInterfaceRequest → Db env (List NetworkInterface)
  unfolding make_nics has_primary
  request_nics organization vm [] = do nic ← make_nic organization vm 0 "" true; pure (nic ∷ [])
  request_nics organization vm (r ∷ rs) =
      make_nics organization vm (has_primary (r ∷ rs)) 0 (r ∷ rs)

  abbrev some_text : String → Option String
  some_text s = if str_eq s "" then none else some s

  abbrev pub new_vm :
      CreateVmRequest → String → String → List Disk → List NetworkInterface → VirtualMachine
  new_vm req id keypair disks nics = record {
    id = id;
    name = req.name;
    node_id = some_text req.node_id;
    organization_id = organization_of req;
    project_id = none;
    status = creating;
    vcpus = req.vcpus;
    memory_mb = req.memory_mb;
    cpu_model = req.cpu_model;
    machine_type = req.machine_type;
    enable_secure_boot = req.enable_secure_boot;
    enable_tpm = req.enable_tpm;
    hugepages = req.hugepages;
    cloud_init = req.cloud_init;
    ssh_key_id = some_text keypair;
    tags = req.tags;
    metadata = req.metadata;
    labels = req.labels;
    disks = disks;
    network_interfaces = nics;
  }

  -- CreateVM once the disks are made: the interfaces, the row and the event.
  unfoldable pub create_placed :
      CreateVmRequest → String → String → List Disk → Db env VirtualMachine
  unfolding value_of request_nics save_vm send
  create_placed req id keypair disks = do
    nics ← request_nics (organization_of req) id req.network_interfaces
    vm ← save_vm env 3 0 (new_vm req id keypair disks nics)
    send env (vm_event vm.id "created")
    pure vm

  -- CreateVM from the point where the sizes are known.
  unfoldable pub create_sized : CreateVmRequest → Db env VirtualMachine
  unfolding resolve_keypair request_disks create_placed
  create_sized req = do
    keypair ← resolve_keypair req
    fail_if (ltb_ℤ req.vcpus (pos 1)) vcpus_too_small
    fail_if (ltb_ℤ req.memory_mb (pos 256)) memory_too_small
    id ← new_id env
    disks ← request_disks env req.disks
    create_placed req id keypair disks

  -- CreateVM
  unfoldable pub create_vm : CreateVmRequest → Db env VirtualMachine
  unfolding sized_by_flavor create_sized
  create_vm req = do
    fail_if (str_eq req.name "") name_required
    sized ← sized_by_flavor req
    create_sized sized
