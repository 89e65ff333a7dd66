-- ===== src/Control/Tests/Create.antt =====
-- Runs of CreateVM over one network with a subnet of four host addresses.
use rymevisor.Common.{◌≡◌, refl, true, false, none, List, [], ◌∷◌, String, arith}
use rymevisor.Common.Effect.{ok}
use rymevisor.Common.Triple.{Ends}
use rymevisor.Common.Int.{pos}
use rymevisor.Common.Numerals.{number}
use rymevisor.Common.Table.{select}
use rymevisor.Net.{codes, dotted_quad, parse_cidr, contains_v4, text_eq}
use rymevisor.Network.{Subnet}
use rymevisor.Control.{
  stopped, ready, VirtualMachine, Image, CreateVmRequest, CreateNetworkInterfaceRequest,
  ImportImageRequest,
}
use rymevisor.Control.Store.{World, Environment}
use rymevisor.Control.Addresses.{allocate_ip}
use rymevisor.Control.Images.{resolve_and_ensure_image, pull_official_image, import_from_url}
use rymevisor.Control.Names.{NamesDiffer, images-NamesDiffer}
use rymevisor.Control.Unique.{save_vm, stored_nics}
use rymevisor.Control.Saved.{Saves, Unsaved, IsFromRivals, save_vm_total}
use rymevisor.Control.Unused.{HasNot, allocate_ip_unused}
use rymevisor.Control.Create.{create_placed, create_vm}
use rymevisor.Control.Created.{IsLargeEnough, create_vm_total}
use rymevisor.Control.Doubled.{create_placed_doubled}
use rymevisor.Control.Clone.{clone}
use rymevisor.Control.Cloned.{IsCloneOf, clone_total}
use rymevisor.Control.Tests.{vm_with, world_of, working}

abbrev block : Subnet
block = record {
  id = "subnet-1";
  name = "lab";
  network_id = "net-1";
  cidr = codes "10.0.0.0/29";
  ipv6_cidr = none;
  dhcp_enabled = true;
  gateway_ip = none;
}

abbrev image : Image
image = record {
  id = "image-1";
  name = "debian-12";
  description = "";
  os = "debian";
  os_version = "12";
  architecture = "amd64";
  type = "os";
  size_bytes = pos 0;
  status = ready;
  checksum = "";
  source_url = "";
  tags = [];
}

abbrev lab : World
lab = record (world_of (vm_with stopped none)) { subnets = block ∷ []; images = image ∷ [] }

abbrev allocating : Environment
allocating = record working { has_ipam = true; new_uuid = λ n. number n }

abbrev nic_request : CreateNetworkInterfaceRequest
nic_request = record { network_id = "net-1"; is_primary = false }

abbrev request_of : List CreateNetworkInterfaceRequest → CreateVmRequest
request_of nics = record {
  name = "db";
  node_id = "";
  flavor_id = "";
  flavor = "";
  vcpus = pos 2;
  memory_mb = pos 512;
  cpu_model = "";
  machine_type = "";
  enable_secure_boot = false;
  enable_tpm = false;
  hugepages = false;
  cloud_init = "";
  keypair_id = "";
  keypair = "";
  disks = [];
  network_interfaces = nics;
  tags = [];
  metadata = [];
  labels = [];
}

first_address : (allocate_ip allocating "net-1" lab).0 ≡ ok (codes "10.0.0.2/29")
unfolding allocate_ip parse_cidr contains_v4 dotted_quad
first_address = refl

abbrev rows_after : CreateVmRequest → List VirtualMachine
rows_after req = (create_vm allocating req lab).1.vms

stored_address :
    (let rows = rows_after (request_of (nic_request ∷ [])) in
      elim rows [
        | vm ∷ _ ↦ elim vm.network_interfaces [ n ∷ _ ↦ n.ipv4_addresses | [] ↦ [] ]
        | [] ↦ []
      ])
    ≡ codes "10.0.0.2/29" ∷ []
unfolding create_vm parse_cidr contains_v4 text_eq dotted_quad select
stored_address = refl

-- Two interfaces in one network: no VM is stored.
doubled_rows : rows_after (request_of (nic_request ∷ nic_request ∷ [])) ≡ lab.vms
unfolding create_vm parse_cidr contains_v4 text_eq dotted_quad select
doubled_rows = refl

abbrev import_request : ImportImageRequest
import_request = record {
  url = "https://images/a.img";
  name = "a";
  os = "";
  os_version = "";
  architecture = "";
}

images-NamesDiffer_example :
    ((ref : String) → NamesDiffer (resolve_and_ensure_image allocating ref lab).1.images)
    × ((os version arch : String)
        → NamesDiffer (pull_official_image allocating os version arch lab).1.images)
    × ((req : ImportImageRequest) → NamesDiffer (import_from_url allocating req lab).1.images)
images-NamesDiffer_example = images-NamesDiffer allocating lab (tt, tt)

save_vm_total_example :
    Ends
      (Saves allocating lab.vms (vm_with stopped none))
      (Unsaved allocating lab.vms)
      (save_vm allocating 3 0 (vm_with stopped none) lab)
save_vm_total_example = save_vm_total allocating (vm_with stopped none) lab

allocate_ip_unused_example :
    Ends
      (λ a w'. HasNot "net-1" a (stored_nics w'.vms) × (w'.vms ≡ lab.vms))
      (λ e w'. w'.vms ≡ lab.vms)
      (allocate_ip allocating "net-1" lab)
allocate_ip_unused_example = allocate_ip_unused allocating "net-1" lab

create_vm_total_example :
    Ends
      (IsLargeEnough allocating lab.vms)
      (λ e w'. IsFromRivals allocating lab.vms w'.vms)
      (create_vm allocating (request_of []) lab)
create_vm_total_example = create_vm_total allocating (request_of []) lab

create_placed_doubled_example :
    Ends
      (λ vm w'. ⊥)
      (λ e w'. w'.vms ≡ lab.vms)
      (create_placed allocating (request_of (nic_request ∷ nic_request ∷ [])) "vm-2" "" [] lab)
create_placed_doubled_example =
    create_placed_doubled allocating (request_of (nic_request ∷ nic_request ∷ [])) "vm-2" "" []
      "net-1" lab (λ n. refl) refl refl (refl, (refl, tt)) (omega arith)

clone_total_example :
    Ends
      (IsCloneOf allocating lab.vms "vm-1" "copy" "")
      (λ e w'. IsFromRivals allocating lab.vms w'.vms)
      (clone allocating "vm-1" "copy" "" lab)
clone_total_example = clone_total allocating "vm-1" "copy" "" lab
