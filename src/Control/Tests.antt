-- ===== src/Control/Tests.antt =====
-- Runs of the operations on one stored VM.
mod Create
mod Download
mod Nodes
mod Offers
use rymevisor.Common.{
  ℕ, ◌≡◌, ◌⊎◌, refl, true, false, ◌||◌, Option, none, some, List, [], ◌∷◌, String, arith, ◌==◌,
  take,
}
use rymevisor.Common.Effect.{ok}
use rymevisor.Common.Triple.{Ends}
use rymevisor.Common.Int.{pos}
use rymevisor.Control.Restore.{restore_snapshot}
use rymevisor.Control.Recovery.{reconcile_vms}
use rymevisor.Control.Lifecycle.{place_at, place_online, place_newest, power_on}
use rymevisor.Control.Power.{Moved, Between, power_off_total, reboot_total}
use rymevisor.Control.Placement.{PoweredOn, PlacedLeft, power_on_total}
use rymevisor.Control.Restored.{restore_snapshot_total}
use rymevisor.Control.Sent.{Unsent, restore_snapshot_sends}
use rymevisor.Control.Reconcile.{Recovers}
use rymevisor.Control.Restart.{reconcile_vms_total}
use rymevisor.Control.Settled.{reconcile_vms_stops}
use rymevisor.Control.Sizes.{AllSized}
use rymevisor.Control.Calls.{Call, on_of, off_of, resize_of, make_calls, make_calls-AllSized}
use rymevisor.Common.Table.{select, update}
use rymevisor.Control.{
  VmStatus, running, stopped, rebooting, shutting_down, online, VirtualMachine, Snapshot, Node,
}
use rymevisor.Control.Store.{
  World, Environment, vm_key, set_status, put_status, put_node, first_node, find_node, send,
}
use rymevisor.Control.Lifecycle.{
  can_power_off, is_running, networks_set, require_vm, command_node, send_command, send_start,
  power_off, reboot, power_on_found, power_off_found,
}
use rymevisor.Control.Rows.{Left}

abbrev vm_with : VmStatus → Option String → VirtualMachine
vm_with status node = record {
  id = "vm-1";
  name = "web";
  node_id = node;
  organization_id = "org";
  project_id = none;
  status = status;
  vcpus = pos 2;
  memory_mb = pos 1024;
  cpu_model = "host";
  machine_type = "q35";
  enable_secure_boot = false;
  enable_tpm = false;
  hugepages = false;
  cloud_init = "";
  ssh_key_id = none;
  tags = [];
  metadata = [];
  labels = [];
  disks = [];
  network_interfaces = [];
}

abbrev node : Node
node = record {
  id = "node-1";
  name = "alpha";
  address = "10.1.0.1";
  port = pos 8090;
  status = online;
  resources = record {
    total_cpus = pos 8;
    used_cpus = pos 0;
    total_memory_mb = pos 16384;
    used_memory_mb = pos 0;
    total_storage_bytes = pos 0;
    used_storage_bytes = pos 0;
    total_gpus = pos 0;
    used_gpus = pos 0;
  };
  labels = [];
  metadata = [];
}

abbrev world_of : VirtualMachine → World
world_of vm = record {
  vms = vm ∷ [];
  nodes = node ∷ [];
  images = [];
  snapshots =
      record { id = "snap-1"; vm_id = "vm-1"; name = "s"; description = ""; status = "creating" }
      ∷ [];
  backups = [];
  flavors = [];
  keypairs = [];
  networks = [];
  subnets = [];
  firewall_rules = [];
  floating_ips = [];
  downloads = [];
  published = [];
  calls = 0;
}

abbrev working : Environment
working = record {
  fails = λ n. false;
  has_publisher = true;
  has_keypairs = false;
  has_ipam = false;
  has_flavors = true;
  has_puller = true;
  has_file = λ id. false;
  canonical = λ t. none;
  rivals = λ n. [];
  sha256 = λ text. take 4 text;
  new_uuid = λ n. "uuid";
}

-- The call with this number fails.
abbrev failing_at : ℕ → Environment
failing_at k = record working { fails = λ n. n == k }

abbrev running_world : World
running_world = world_of (vm_with running (some "node-1"))

abbrev stopped_world : World
stopped_world = world_of (vm_with stopped none)

abbrev leaving_world : World
leaving_world = world_of (vm_with shutting_down (some "node-1"))

-- PowerOff whose second status update fails leaves the VM shutting down.
power_off_interrupted :
    select vm_key "vm-1" (power_off (failing_at 4) "vm-1" false running_world).1.vms
    ≡ some (vm_with shutting_down (some "node-1"))
unfolding power_off power_off_found require_vm put_status send_command command_node find_node send
    select update
power_off_interrupted = refl

-- PowerOn schedules a VM without a node on the node that is online.
power_on_scheduled :
    select vm_key "vm-1" (power_on working "vm-1" stopped_world).1.vms
    ≡ some (vm_with running (some "node-1"))
unfolding power_on power_on_found require_vm place_at place_online place_newest put_node first_node
    put_status send_start send_command command_node find_node networks_set send select update
power_on_scheduled = refl

power_off_total_example :
    Ends
      (Moved running_world.vms "vm-1"
        (select vm_key "vm-1" running_world.vms)
        (λ s. can_power_off s || false)
        stopped)
      (Left running_world.vms "vm-1"
        (Between (select vm_key "vm-1" running_world.vms) shutting_down))
      (power_off (failing_at 4) "vm-1" false running_world)
power_off_total_example = power_off_total (failing_at 4) "vm-1" false running_world

reboot_total_example :
    Ends
      (Moved running_world.vms "vm-1"
        (select vm_key "vm-1" running_world.vms)
        (λ s. is_running s || false)
        running)
      (Left running_world.vms "vm-1" (Between (select vm_key "vm-1" running_world.vms) rebooting))
      (reboot working "vm-1" false running_world)
reboot_total_example = reboot_total working "vm-1" false running_world

power_on_total_example :
    Ends
      (PoweredOn working stopped_world.nodes stopped_world.vms "vm-1"
        (select vm_key "vm-1" stopped_world.vms))
      (Left stopped_world.vms "vm-1" (
        PlacedLeft working stopped_world.nodes stopped_world.vms "vm-1"
          (select vm_key "vm-1" stopped_world.vms)))
      (power_on working "vm-1" stopped_world)
power_on_total_example = power_on_total working "vm-1" stopped_world

abbrev the_snapshot : Snapshot
the_snapshot = record {
  id = "snap-1";
  vm_id = "vm-1";
  name = "s";
  description = "";
  status = "creating";
}

restore_snapshot_total_example :
    Ends
      (Moved stopped_world.vms "vm-1" (select vm_key "vm-1" stopped_world.vms) (λ s. true) running)
      (Left stopped_world.vms "vm-1" (Between (select vm_key "vm-1" stopped_world.vms) stopped))
      (restore_snapshot working "snap-1" stopped_world)
unfolding select
restore_snapshot_total_example =
    restore_snapshot_total working stopped_world "snap-1" the_snapshot refl

restore_snapshot_sends_example :
    Unsent stopped_world.published (restore_snapshot working "snap-1" stopped_world).1.published
restore_snapshot_sends_example = restore_snapshot_sends working stopped_world "snap-1"

reconcile_vms_total_example :
    (status : VmStatus) × ((status ≡ shutting_down) ⊎ Recovers shutting_down status)
    × (select vm_key "vm-1" (reconcile_vms (failing_at 1) leaving_world).1.vms
        ≡ some (set_status status (vm_with shutting_down (some "node-1"))))
unfolding select
reconcile_vms_total_example =
    reconcile_vms_total (failing_at 1) leaving_world "vm-1" (vm_with shutting_down (some "node-1"))
      (refl, tt) refl

reconcile_vms_stops_example :
    ((reconcile_vms working leaving_world).0 ≡ ok tt)
    × (select vm_key "vm-1" (reconcile_vms working leaving_world).1.vms
        ≡ some (vm_with stopped (some "node-1")))
unfolding select
reconcile_vms_stops_example =
    reconcile_vms_stops working leaving_world (vm_with shutting_down (some "node-1")) [] []
      (λ n. refl) (refl, tt) refl refl refl

abbrev some_calls : List Call
some_calls =
    on_of "vm-1"
    ∷ resize_of "vm-1" (pos 0) (pos 512)
    ∷ resize_of "vm-1" (pos 4) (pos 256)
    ∷ off_of "vm-1" false
    ∷ []

make_calls-AllSized_example : AllSized (make_calls working some_calls stopped_world)
make_calls-AllSized_example =
    make_calls-AllSized working some_calls stopped_world ((omega arith, omega arith), tt)
