-- ===== src/Control/Copied.antt =====
-- What a clone has of its source, field by field.
use rymevisor.Common.{
  ℕ, ◌≡◌, ◌≢◌, refl, none, some, List, [], ◌∷◌, String, eq_iff, arith, sym, subst,
}
use rymevisor.Common.Effect.{pure}
use rymevisor.Common.Triple.{triple->>=, triple-given, Triple}
use rymevisor.Control.{creating, VirtualMachine, NetworkInterface, Disk}
use rymevisor.Control.Store.{Environment, new_id}
use rymevisor.Control.Clone.{clone_of, cloned_disk, clone_disks}
use rymevisor.Control.Steps.{Grown, new_id-Keeps}

-- A disk like the first, with a new id and without its image.
pub record IsDiskCopy (env : Environment) (old new : Disk) : Type 0 where
  pub fresh : (n : ℕ) × (new.id ≡ env.new_uuid n)
  pub no_image : new.image_id ≡ ""
  pub name : new.name ≡ old.name
  pub size : new.size_bytes ≡ old.size_bytes
  pub type : new.type ≡ old.type
  pub pool : new.storage_pool ≡ old.storage_pool
  pub boot : new.boot ≡ old.boot
  pub order : new.order ≡ old.order

-- One copy for each disk, in order.
abbrev pub AreCopies : Environment → List Disk → List Disk → Type 0
AreCopies env [] [] = Unit {0}
AreCopies env [] (c ∷ cs) = ⊥
AreCopies env (d ∷ ds) [] = ⊥
AreCopies env (d ∷ ds) (c ∷ cs) = IsDiskCopy env d c × AreCopies env ds cs

-- A VM that is being created, with the name asked for, on the node asked for or the source's, with
-- copies of the source's disks, and like the source but for its project, SSH key and interfaces.
pub record IsCopy (env : Environment) (source : VirtualMachine) (name node : String)
    (new : VirtualMachine) : Type 0 where
  pub being_created : new.status ≡ creating
  pub named : new.name ≡ name
  pub on_source_node : node ≡ "" → new.node_id ≡ source.node_id
  pub on_node : node ≢ "" → new.node_id ≡ some node
  pub no_project : new.project_id ≡ none
  pub no_ssh_key : new.ssh_key_id ≡ none
  pub disks : AreCopies env source.disks new.disks
  pub organization : new.organization_id ≡ source.organization_id
  pub vcpus : new.vcpus ≡ source.vcpus
  pub memory : new.memory_mb ≡ source.memory_mb
  pub cpu_model : new.cpu_model ≡ source.cpu_model
  pub machine_type : new.machine_type ≡ source.machine_type
  pub secure_boot : new.enable_secure_boot ≡ source.enable_secure_boot
  pub tpm : new.enable_tpm ≡ source.enable_tpm
  pub hugepages : new.hugepages ≡ source.hugepages
  pub cloud_init : new.cloud_init ≡ source.cloud_init
  pub tags : new.tags ≡ source.tags
  pub metadata : new.metadata ≡ source.metadata
  pub labels : new.labels ≡ source.labels

clone_of-IsCopy :
    (env : Environment) (source : VirtualMachine) (id name node : String) (ds : List Disk)
    (ns : List NetworkInterface)
    → AreCopies env source.disks ds
    → IsCopy env source name node (clone_of source id name node ds ns)
clone_of-IsCopy env source id name node ds ns copies = record {
  being_created = refl;
  named = refl;
  on_source_node = λ e. ground (arith, e, eq_iff node "");
  on_node = λ e. ground (arith, e, eq_iff node "");
  no_project = refl;
  no_ssh_key = refl;
  disks = copies;
  organization = refl;
  vcpus = refl;
  memory = refl;
  cpu_model = refl;
  machine_type = refl;
  secure_boot = refl;
  tpm = refl;
  hugepages = refl;
  cloud_init = refl;
  tags = refl;
  metadata = refl;
  labels = refl;
}

-- A VM that is made as a clone is made is a copy of its source.
pub made-IsCopy :
    (env : Environment) (source : VirtualMachine) (name node : String) (v : VirtualMachine)
    → AreCopies env source.disks v.disks
    → v ≡ clone_of source v.id name node v.disks v.network_interfaces
    → IsCopy env source name node v
made-IsCopy env source name node v copies e =
    subst (IsCopy env source name node) (sym e)
      (clone_of-IsCopy env source v.id name node v.disks v.network_interfaces copies)

module _ (env : Environment) (rows : List VirtualMachine) where
  new_id-fresh :
      Triple
        (Grown env rows)
        (new_id env)
        (λ id w. ((n : ℕ) × (id ≡ env.new_uuid n)) × Grown env rows w)
        (λ _. Grown env rows)
  new_id-fresh = record { run = λ w p. ((w.calls, refl), (new_id-Keeps env rows).run w p) }

  pub clone_disks-AreCopies :
      (ds : List Disk)
      → Triple
          (Grown env rows)
          (clone_disks env ds)
          (λ cs w. AreCopies env ds cs × Grown env rows w)
          (λ _. Grown env rows)
  unfolding clone_disks
  clone_disks-AreCopies [] = record { run = λ w p. (tt, p) }
  clone_disks-AreCopies (d ∷ ds) = triple->>= _ _ new_id-fresh (λ id. triple-given (λ fresh.
      triple->>= _ (λ rest. pure (cloned_disk d id ∷ rest)) (clone_disks-AreCopies ds)
        (λ rest. record { run = λ w p. ((copy d id fresh, p.0), p.1) })))
    where
      copy :
          (d : Disk) (id : String)
          → (n : ℕ) × (id ≡ env.new_uuid n)
          → IsDiskCopy env d (cloned_disk d id)
      copy d id fresh = record {
        fresh = fresh;
        no_image = refl;
        name = refl;
        size = refl;
        type = refl;
        pool = refl;
        boot = refl;
        order = refl;
      }
