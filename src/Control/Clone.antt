-- ===== src/Control/Clone.antt =====
-- Clone of services/controlplane/service.go.
use rymevisor.Common.{
  ℕ, ◌+◌, true, not, ◌&&◌, Option, none, some, List, [], ◌∷◌, if◌then◌else◌, String, str_eq,
}
use rymevisor.Common.Effect.{Result, ok, err, pure, fail, or_fail, attempt, caught, ◌>>=◌, ◌>>◌}
use rymevisor.Common.Numerals.{number}
use rymevisor.Net.{Text}
use rymevisor.Control.{creating, VirtualMachine, Disk, NetworkInterface}
use rymevisor.Control.Store.{
  vm_event, Environment, Failure, get_vm, vm_not_found, create_vm_failed, Db, find_vm, new_id, send,
}
use rymevisor.Control.Addresses.{generate_nic_mac, ensure_default_network, allocate_ip}
use rymevisor.Control.Unique.{is_unique_violation, put_new_vm}
use rymevisor.Control.Create.{nic_of}
use Prim.Native.String.{◌++◌ as ◌<>◌}

abbrev clone_node : VirtualMachine → String → Option String
clone_node source node = if str_eq node "" then source.node_id else some node

abbrev pub cloned_disk : Disk → String → Disk
cloned_disk d id = record d { id = id; image_id = "" }

abbrev pub id_or_empty : Option String → String
id_or_empty none = ""
id_or_empty (some n) = n

abbrev pub clone_of :
    VirtualMachine → String → String → String → List Disk → List NetworkInterface → VirtualMachine
clone_of source id name node disks nics = record source {
  id = id;
  name = name;
  node_id = clone_node source node;
  project_id = none;
  ssh_key_id = none;
  status = creating;
  disks = disks;
  network_interfaces = nics;
}

module _ (env : Environment) where
  abbrev clone_mac : String → String → ℕ → String
  clone_mac vm id i =
      let mac = generate_nic_mac env vm id in
      if str_eq mac "" then generate_nic_mac env vm (number i) else mac

  abbrev pub cloned_nic : String → ℕ → NetworkInterface → String → List Text → NetworkInterface
  cloned_nic vm i n id addresses = record (nic_of env i vm n.network_id id addresses n.is_primary) {
    mac_address = clone_mac vm id i;
  }

  -- The one interface of a clone without any.
  abbrev pub only_nic : String → Option String → String → Option Text → NetworkInterface
  only_nic vm network id address =
      nic_of env 0 vm (id_or_empty network) id (elim address [ some a ↦ a ∷ [] | none ↦ [] ∷ [] ])
        true

  abbrev pub second_addresses : String → NetworkInterface → List Text → NetworkInterface
  second_addresses vm n addresses = record n {
    ipv4_addresses = addresses;
    mac_address = generate_nic_mac env vm (n.id <> "-retry");
  }

  -- The disks without their images, each with a new id.
  unfoldable pub clone_disks : List Disk → Db env (List Disk)
  clone_disks [] = pure []
  clone_disks (d ∷ ds) = do id ← new_id env; rest ← clone_disks ds; pure (cloned_disk d id ∷ rest)

  -- A new address in a network, and the old ones when none is allocated.
  unfoldable pub address_or : List Text → String → Db env (List Text)
  unfolding allocate_ip
  address_or old network =
      if env.has_ipam && not (str_eq network "")
      then (do
        found ← attempt (allocate_ip env network)
        pure (elim found [ some a ↦ a ∷ [] | none ↦ old ]))
      else pure old

  unfoldable pub clone_nics : String → ℕ → List NetworkInterface → Db env (List NetworkInterface)
  unfolding address_or generate_nic_mac number
  clone_nics vm i [] = pure []
  clone_nics vm i (n ∷ ns) = do
    id ← new_id env
    addresses ← address_or [] n.network_id
    rest ← clone_nics vm (i + 1) ns
    pure (cloned_nic vm i n id addresses ∷ rest)

  -- The one interface of a clone without any; a failed call leaves an empty text.
  unfoldable pub default_nic : VirtualMachine → String → Db env NetworkInterface
  unfolding ensure_default_network allocate_ip generate_nic_mac
  default_nic source vm = do
    network ← attempt (ensure_default_network env source.organization_id)
    id ← new_id env
    address ← attempt (allocate_ip env (id_or_empty network))
    pure (only_nic vm network id address)

  unfoldable pub nics_for_clone : VirtualMachine → String → Db env (List NetworkInterface)
  unfolding clone_nics default_nic
  nics_for_clone source vm = elim source.network_interfaces [
    | n ∷ ns ↦ clone_nics vm 0 (n ∷ ns)
    | [] ↦ if env.has_ipam then (do nic ← default_nic source vm; pure (nic ∷ [])) else pure []
  ]

  unfoldable pub clone_readdress : String → List NetworkInterface → Db env (List NetworkInterface)
  unfolding address_or generate_nic_mac
  clone_readdress vm [] = pure []
  clone_readdress vm (n ∷ ns) = do
    addresses ← address_or n.ipv4_addresses n.network_id
    rest ← clone_readdress vm ns
    pure (second_addresses vm n addresses ∷ rest)

  abbrev pub given_back : VirtualMachine → Result Failure (Unit {0}) → Db env VirtualMachine
  given_back vm (ok _) = pure vm
  given_back vm (err _) = fail create_vm_failed

  unfoldable pub again : VirtualMachine → Db env VirtualMachine
  unfolding put_new_vm
  again vm = do r ← caught (put_new_vm env vm); given_back vm r

  unfoldable pub second_try : VirtualMachine → Db env VirtualMachine
  unfolding clone_readdress again
  second_try vm = do
    nics ← clone_readdress vm.id vm.network_interfaces
    again (record vm { network_interfaces = nics })

  unfoldable pub after_first : VirtualMachine → Result Failure (Unit {0}) → Db env VirtualMachine
  unfolding second_try
  after_first vm (ok _) = pure vm
  after_first vm (err e) = if is_unique_violation e then second_try vm else fail create_vm_failed

  -- The insertion, with one more try when an address is taken.
  unfoldable pub save_clone : VirtualMachine → Db env VirtualMachine
  unfolding put_new_vm after_first
  save_clone vm = do r ← caught (put_new_vm env vm); after_first vm r

  unfoldable pub clone_found : VirtualMachine → String → String → Db env VirtualMachine
  unfolding clone_disks nics_for_clone save_clone send
  clone_found source name node = do
    id ← new_id env
    disks ← clone_disks source.disks
    nics ← nics_for_clone source id
    vm ← save_clone (clone_of source id name node disks nics)
    send env (vm_event vm.id "cloned")
    pure vm

  -- Clone; `linked` is not read.
  unfoldable pub clone : String → String → String → Db env VirtualMachine
  unfolding clone_found
  clone id name node = do
    source ← or_fail (← find_vm env get_vm id) vm_not_found
    clone_found source name node
