-- ===== src/Control/Store.antt =====
-- The database of the control plane and its message bus: the repositories of
-- services/controlplane/postgres and the publisher of services/controlplane/nats.
-- A call may fail, as the environment decides call by call; a failed statement changes nothing.
use rymevisor.Common.{
  ℕ, ◌+◌, Bool, true, false, Option, none, some, List, [], ◌∷◌, if◌then◌else◌, String,
}
use rymevisor.Net.{Text}
use rymevisor.Common.Effect.{Action, ok, err, gets, modify, ◌>>◌}
use rymevisor.Common.Table.{select, update, delete}
use rymevisor.Control.{
  VmStatus, VirtualMachine, Snapshot, online, Node, Image, Backup, Flavor, Keypair,
}
use rymevisor.Network.{PrivateNetwork, Subnet, FirewallRule, FloatingIp}

-- A message on the bus, by its subject: "commands.node.<node>.<action>" with the VM that the command
-- is about, "events.vm.<vm>.<type>" or
-- "events.node.<node>.<type>".
pub data Message : Type 0 where
  node_command : String → String → String → Message
  vm_event : String → String → Message
  node_event : String → String → Message

pub record World : Type 0 where
  pub vms : List VirtualMachine
  pub nodes : List Node
  pub images : List Image
  pub snapshots : List Snapshot
  pub backups : List Backup
  pub flavors : List Flavor
  pub keypairs : List Keypair
  pub networks : List PrivateNetwork
  pub subnets : List Subnet
  pub firewall_rules : List FirewallRule
  pub floating_ips : List FloatingIp
  pub downloads : List (String × String)
  pub published : List Message
  pub calls : ℕ

-- Which calls fail, which optional parts are set, the VMs that other creations commit before a call,
-- the image files on the disk, the IPv6 reader, SHA-256, and the ids that uuid.New gives out.
pub record Environment : Type 0 where
  pub fails : ℕ → Bool
  pub has_publisher : Bool
  pub has_keypairs : Bool
  pub has_ipam : Bool
  pub has_flavors : Bool
  pub has_puller : Bool
  pub has_file : String → Bool
  pub rivals : ℕ → List VirtualMachine
  pub canonical : Text → Option Text
  pub sha256 : Text → List ℕ
  pub new_uuid : ℕ → String

pub data Failure : Type 0 where
  get_vm vm_not_found update_vm delete_vm update_status stop_vm restart_vm assign_node : Failure
  list_nodes get_node get_image list_vms create_snapshot get_snapshot snapshot_not_found : Failure
  get_backup get_keypair backup_not_found vcpus_too_small memory_too_small : Failure
  name_required get_flavor flavor_not_found flavor_not_available : Failure
  ensure_network no_subnet query_used_ips allocate_ip_failed : Failure
  create_vm_failed unique_violation : Failure
  puller_not_configured check_image image_exists create_image url_required image_not_found : Failure
  image_not_cached unknown_image update_image : Failure
  network_id_required cidr_required invalid_cidr get_network network_not_found : Failure
  put_network put_subnet list_subnets get_subnet subnet_not_found outside_network : Failure
  port_out_of_range ports_reversed put_rule get_rule rule_not_found : Failure
  find_floating_ip put_floating_ip delete_row : Failure
  address_required node_exists create_node node_not_found update_node : Failure
  flavors_not_configured disk_too_small flavor_exists create_flavor delete_flavor_row : Failure
  keypairs_not_configured key_required key_invalid keypair_exists create_keypair : Failure
  keypair_not_found delete_keypair_row vm_id_required create_backup delete_backup_row : Failure
  os_required architecture_required delete_image_row : Failure
  must_be_stopped cannot_power_on cannot_power_off cannot_reboot : VmStatus → Failure

abbrev pub vm_key : VirtualMachine → String
vm_key vm = vm.id

abbrev pub node_key : Node → String
node_key n = n.id

abbrev pub image_key : Image → String
image_key i = i.id

abbrev pub snapshot_key : Snapshot → String
snapshot_key s = s.id

abbrev pub flavor_key : Flavor → String
flavor_key f = f.id

abbrev pub backup_key : Backup → String
backup_key b = b.id

abbrev pub is_online : Node → Bool
is_online n = elim n.status [ online ↦ true | _ ↦ false ]

-- The rows of a query with `WHERE p … LIMIT 1`.
abbrev pub first_where : {A : Type 0} → (A → Bool) → List A → Option A
first_where p [] = none
first_where p (n ∷ ns) = if p n then some n else first_where p ns

abbrev pub set_status : VmStatus → VirtualMachine → VirtualMachine
set_status status vm = record vm { status = status }

abbrev pub set_node : String → VirtualMachine → VirtualMachine
set_node node vm = record vm { node_id = some node }

-- The columns that vmRepo.Update writes.
abbrev pub set_columns : VirtualMachine → VirtualMachine → VirtualMachine
set_columns new vm = record vm {
  name = new.name;
  vcpus = new.vcpus;
  memory_mb = new.memory_mb;
  metadata = new.metadata;
  labels = new.labels;
  tags = new.tags;
}

module _ (env : Environment) where
  abbrev pub Db : Type 0 → Type 0
  Db A = Action World Failure A

  -- One call of the database, with the error that its caller returns.
  abbrev pub call : Failure → Db (Unit {0})
  call e w = (if env.fails w.calls then err e else ok tt, record w { calls = w.calls + 1 })

  -- vmRepo.GetByID
  abbrev pub find_vm : Failure → String → Db (Option VirtualMachine)
  find_vm e id = do call e; gets (λ w. select vm_key id w.vms)

  abbrev pub write_vm : Failure → String → (VirtualMachine → VirtualMachine) → Db (Unit {0})
  write_vm e id f = do call e; modify (λ w. record w { vms = update vm_key id f w.vms })

  -- vmRepo.UpdateStatus, AssignNode, Update and Delete
  unfoldable pub put_status : Failure → String → VmStatus → Db (Unit {0})
  put_status e id status = write_vm e id (set_status status)

  unfoldable pub put_node : Failure → String → String → Db (Unit {0})
  put_node e id node = write_vm e id (set_node node)

  unfoldable pub put_vm : Failure → VirtualMachine → Db (Unit {0})
  put_vm e vm = write_vm e vm.id (set_columns vm)

  unfoldable pub drop_vm : Failure → String → Db (Unit {0})
  drop_vm e id = do call e; modify (λ w. record w { vms = delete vm_key id w.vms })

  -- nodeRepo.List with PerPage 1, nodeRepo.GetByID
  unfoldable pub first_node : (Node → Bool) → Db (Option Node)
  first_node p = do call list_nodes; gets (λ w. first_where p w.nodes)

  unfoldable pub find_node : String → Db (Option Node)
  find_node id = do call get_node; gets (λ w. select node_key id w.nodes)

  -- uuid.New, and uuid_generate_v4 of the database
  abbrev pub new_id : Db String
  new_id w = (ok (env.new_uuid w.calls), record w { calls = w.calls + 1 })

  -- Publish, when a publisher is set; its callers drop or log the error.
  unfoldable pub send : Message → Db (Unit {0})
  send m w =
      if env.has_publisher
      then (if env.fails w.calls
          then (ok tt, record w { calls = w.calls + 1 })
          else (ok tt, record w { published = m ∷ w.published; calls = w.calls + 1 }))
      else (ok tt, w)
