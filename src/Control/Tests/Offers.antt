-- ===== src/Control/Tests/Offers.antt =====
-- A flavor that CreateFlavor accepts and CreateVM does not.
use rymevisor.Common.{◌≡◌, refl, false, none, [], ◌∷◌, String}
use rymevisor.Common.Effect.{err}
use rymevisor.Common.Int.{pos}
use rymevisor.Control.{stopped, CreateFlavorRequest, CreateVmRequest}
use rymevisor.Control.Store.{World, memory_too_small}
use rymevisor.Control.Create.{create_vm}
use rymevisor.Control.Offers.{make_flavor, delete_flavor, fields}
use rymevisor.Control.Offered.{AllOffered, flavors-AllOffered}
use rymevisor.Control.Tests.{vm_with, world_of, working}

abbrev start : World
start = world_of (vm_with stopped none)

abbrev tiny : CreateFlavorRequest
tiny = record {
  name = "tiny";
  description = "";
  vcpus = pos 1;
  memory_mb = pos 128;
  disk_gb = pos 1;
}

abbrev tiny_vm : CreateVmRequest
tiny_vm = record {
  name = "db";
  node_id = "";
  flavor_id = "";
  flavor = "tiny";
  vcpus = pos 0;
  memory_mb = pos 0;
  cpu_model = "";
  machine_type = "";
  enable_secure_boot = false;
  enable_tpm = false;
  hugepages = false;
  cloud_init = "";
  keypair_id = "";
  keypair = "";
  disks = [];
  network_interfaces = [];
  tags = [];
  metadata = [];
  labels = [];
}

tiny_refused :
    (create_vm working tiny_vm (make_flavor working tiny start).1).0 ≡ err memory_too_small
unfolding create_vm make_flavor
tiny_refused = refl

two_fields : fields "ssh-rsa  AAAA" ≡ "ssh-rsa" ∷ "AAAA" ∷ []
unfolding fields
two_fields = refl

flavors-AllOffered_example :
    ((req : CreateFlavorRequest) → AllOffered (make_flavor working req start).1)
    × ((id : String) → AllOffered (delete_flavor working id start).1)
flavors-AllOffered_example = flavors-AllOffered working start (tt, tt)
