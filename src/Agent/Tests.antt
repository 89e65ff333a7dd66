-- ===== src/Agent/Tests.antt =====
-- Runs of the agent on a host with one VM.
mod Commands
use rymevisor.Common.{
  inr, Bool, arith, ap, ◌≢◌, str_eq, eq_iff, ℕ, ◌≡◌, refl, true, false, Option, none, some, List,
  [], ◌∷◌, String, take,
}
use rymevisor.Common.Effect.{ok, err, ◌>>◌}
use rymevisor.Common.Int.{pos}
use rymevisor.Net.{Text, codes}
use rymevisor.Agent.{NicConfig, VmStartConfig, VmFile, VmCommand, Entry}
use rymevisor.Agent.Qmp.{QmpMessage, Dialogue, read_response, converse}
use rymevisor.Agent.Host.{Platform, Host, advance}
use rymevisor.Agent.Start.{persisted, decoded, loaded, persist_vm_config, load_vm_config, start_vm}
use rymevisor.Agent.Service.{stop_vm, reboot_vm, recover_vm, handle_all}
use rymevisor.Agent.Interfaces.{gateway_from_cidr}
use rymevisor.Agent.Answered.{Follows, handle_all_refines}
use rymevisor.Agent.Replies.{converse_answers}
use rymevisor.Agent.Stopped.{Gone, stop_vm_ends}
use rymevisor.Agent.Recovered.{stop_vm_restarts, load_vm_config-persist_vm_config}
use rymevisor.Agent.Gateways.{gateway_from_ip-eq-gateway_from_cidr}
use rymevisor.Control.StartConfig.{gateway_from_ip}

some_ne : (s t : String) → str_eq s t ≡ false → some s ≢ some t
some_ne s t off e =
    let same : str_eq s t ≡ true = (eq_iff s t).1 (ap (λ o. elim o [ none ↦ s | some x ↦ x ]) e) in
    ground (arith, off, same)

abbrev reply : QmpMessage
reply = record { returned = some "{}"; error = none; event = none }

abbrev shutdown : QmpMessage
shutdown = record { returned = none; error = none; event = some "SHUTDOWN" }

abbrev dialogue_of : List QmpMessage → Dialogue
dialogue_of ms = record {
  dials = true;
  sets_deadline = true;
  sends_capabilities = true;
  sends_command = true;
  received = reply ∷ reply ∷ ms;
}

-- An event arrives before the reply, which is lost.
converse_answers_example : converse (dialogue_of (shutdown ∷ reply ∷ [])) ≡ err read_response
converse_answers_example =
    converse_answers (dialogue_of (shutdown ∷ reply ∷ [])) reply reply (shutdown ∷ reply ∷ []) refl
      refl (some_ne "SHUTDOWN" "" refl, ((λ e. ground (arith, e)), tt))

abbrev quiet : Platform
quiet = record {
  fails = λ n. false;
  exits = λ n. [];
  unlinks = λ n. [];
  dialogue = λ n. dialogue_of (reply ∷ []);
  spawns = λ n. some (pos 7, codes "7\n");
  connects = λ n. true;
  polls = λ n. 2;
  runs = λ n. (true, []);
  has_kvm = true;
  has_base = true;
  total_cpus = λ n. some (pos 8);
  used_cpus = λ n. some (pos 1);
  memory = λ n. some (pos 16000, pos 900);
  has_file = λ path. false;
  status_field = λ raw. some "running";
  canonical = λ t. none;
  network6 = λ t. t;
  sha256 = λ t. take 4 t;
  image_format = λ path. none;
  is_img = λ path. false;
}

abbrev nic : NicConfig
nic = record {
  network_id = "net-1";
  mac_address = "";
  ip_address = codes "10.0.0.5/24";
  gateway = [];
  bridge = [];
  name = "";
}

abbrev config : VmStartConfig
config = record {
  name = "web";
  vcpus = pos 2;
  memory_mb = pos 1024;
  disk_path = "";
  mac_address = "";
  ssh_key = [];
  image_url = "";
  image_id = "";
  image_path = "";
  size_bytes = pos 0;
  machine_type = "";
  network_interfaces = nic ∷ [];
}

abbrev saved : VmFile
saved = persisted config "/vms/vm-1/root.qcow2" "52:54" "/vms/vm-1/cloud-init/cidata.iso"

abbrev entry : Option Text → Entry
entry pid = record {
  name = "vm-1";
  is_dir = true;
  pid_file = pid;
  vm_json = some (some saved);
  root_disk = true;
  authorized_keys = none;
}

abbrev host_with : Option Text → Host
host_with pid = record {
  entries = entry pid ∷ [];
  processes = pos 7 ∷ [];
  unlinked = [];
  killed = [];
  ran = [];
  sent = [];
  launched = [];
  seeds = [];
  events = [];
  heartbeats = [];
  acked = [];
  calls = 0;
}

-- QEMU has ended by the second call.
abbrev ending : Platform
ending = record quiet { exits = λ n. pos 7 ∷ [] }

stop_vm_ends_example :
    ((force : Bool)
      → Gone "vm-1" (pos 7) (stop_vm ending "vm-1" force (host_with (some (codes " 7\n")))))
    × Gone "vm-1" (pos 7) (reboot_vm ending "vm-1" true (host_with (some (codes " 7\n"))))
unfolding rymevisor.Common.Table.select rymevisor.Net.Strings.atoi rymevisor.Net.Strings.trim_space
stop_vm_ends_example =
    stop_vm_ends ending "vm-1" (codes " 7\n") (pos 7) (host_with (some (codes " 7\n")))
      (record { never = λ n. refl; says = λ raw. some_ne "running" "stopped" refl }) refl refl

-- StartVM makes the root disk, fills the interface and leaves the VM's process.
start_vm_runs :
    (start_vm quiet "/vms" "/images" "vm-1" (some config) (host_with none)).1.processes
    ≡ pos 7 ∷ pos 7 ∷ []
unfolding start_vm rymevisor.Common.Table.select rymevisor.Ipam.bridge_for_network
start_vm_runs = refl

-- The process that the pid file names has ended.
abbrev crashed : Host
crashed = record (host_with (some (codes " 7\n"))) { processes = [] }

stop_vm_restarts_example :
    (stopped : Host) × (stop_vm quiet "vm-1" false crashed ≡ (ok tt, stopped))
    × (stopped.entries ≡ crashed.entries)
    × ((found : Host) × (found.entries ≡ crashed.entries)
        × (recover_vm quiet "/vms" "/images" "vm-1" stopped ≡ (
          ok tt,
          (start_vm quiet "/vms" "/images" "vm-1" (some (loaded (decoded saved))) found).1,
        )))
unfolding rymevisor.Common.Table.select rymevisor.Net.Strings.atoi rymevisor.Net.Strings.trim_space
    rymevisor.Agent.Host.is_alive
stop_vm_restarts_example =
    stop_vm_restarts quiet "/vms" "/images" "vm-1" crashed (entry (some (codes " 7\n"))) saved false
      (λ n. refl) (inr (inr (codes " 7\n", pos 7, refl, refl, refl))) refl refl

load_vm_config-persist_vm_config_example :
    ((do persist_vm_config quiet "vm-1" config "/d" "52:54" "/c"; load_vm_config quiet "vm-1")
      (host_with none)).0
    ≡ ok (record config { disk_path = "/d"; mac_address = "52:54" })
unfolding rymevisor.Common.Table.select
load_vm_config-persist_vm_config_example =
    load_vm_config-persist_vm_config quiet "vm-1" (host_with none) (entry none) config "/d" "52:54"
      "/c" (λ n. refl) refl

gateway_from_ip-eq-gateway_from_cidr_example :
    gateway_from_ip (λ t. none) (λ t. t) (codes "10.0.3.9")
    ≡ gateway_from_cidr quiet (codes "10.0.3.9")
unfolding rymevisor.Net.parse_cidr rymevisor.Net.parse_ip
gateway_from_ip-eq-gateway_from_cidr_example =
    gateway_from_ip-eq-gateway_from_cidr quiet (λ t. t) (codes "10.0.3.9")
      (λ x n e. absurd (ground (arith, e))) (λ u e. ground (arith, e))

abbrev messages : List (Option VmCommand)
messages =
    some (record { action = "stop"; vm_id = "vm-1"; config = none; force = false })
    ∷ none
    ∷ some (record { action = "resize"; vm_id = "vm-1"; config = none; force = false })
    ∷ []

-- The stop succeeds, the message that does not decode and the unknown action are refused.
messages_acked :
    (handle_all quiet "/vms" "/images" messages (host_with none)).1.acked
    ≡ true ∷ false ∷ false ∷ []
unfolding handle_all rymevisor.Common.Table.select
messages_acked = refl

handle_all_refines_example :
    ((handle_all quiet "/vms" "/images" messages (host_with none)).0 ≡ ok tt)
    × Follows [] [] messages
        (Host.acked (handle_all quiet "/vms" "/images" messages (host_with none)).1)
        (Host.events (handle_all quiet "/vms" "/images" messages (host_with none)).1)
handle_all_refines_example = handle_all_refines quiet "/vms" "/images" messages (host_with none)
