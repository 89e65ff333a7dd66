-- ===== src/Control.antt =====
-- services/controlplane: the records of domain/vm.go, domain/node.go and domain/image_backup.go, as
-- far as the operations here read and write them. Times are left out: the database sets them.
pub mod Store
pub mod Lifecycle
pub mod Restore
pub mod Recovery
pub mod Nodes
pub mod Download
pub mod Offers
pub mod Addresses
pub mod Images
pub mod Disks
pub mod Unique
pub mod Create
pub mod Clone
pub mod StartConfig
mod Rows
mod Drained
pub mod Downloaded
mod Readied
mod Offered
mod ImageLaws
mod Names
mod Steps
mod Created
mod Copied
mod Cloned
mod Unused
mod Twins
mod Doubled
mod Assigned
mod Saved
mod Resolve
mod Power
mod Placement
mod Restored
mod Sent
mod Reconcile
mod Restart
mod Settled
mod Sizes
mod Sizing
mod Calls
mod Tests
use rymevisor.Common.{ℕ, List, String, Bool, Option}
use rymevisor.Common.Int.{ℤ}
use rymevisor.Net.{Text}

pub data VmStatus : Type 0 where
  creating running stopped paused rebooting shutting_down : VmStatus
  terminated error migrating snapshottting : VmStatus

pub record Disk : Type 0 where
  pub id : String
  pub name : String
  pub size_bytes : ℤ
  pub type : String
  pub storage_pool : String
  pub image_id : String
  pub boot : Bool
  pub order : ℤ

pub record NetworkInterface : Type 0 where
  pub id : String
  pub name : String
  pub network_id : String
  pub mac_address : String
  pub ipv4_addresses : List Text
  pub ipv6_addresses : List Text
  pub is_primary : Bool

-- A Go map from texts to texts.
abbrev pub Dictionary : Type 0
Dictionary = List (String × String)

pub record VirtualMachine : Type 0 where
  pub id : String
  pub name : String
  pub node_id : Option String
  pub organization_id : String
  pub project_id : Option String
  pub status : VmStatus
  pub vcpus : ℤ
  pub memory_mb : ℤ
  pub cpu_model : String
  pub machine_type : String
  pub enable_secure_boot : Bool
  pub enable_tpm : Bool
  pub hugepages : Bool
  pub cloud_init : String
  pub ssh_key_id : Option String
  pub tags : List String
  pub metadata : Dictionary
  pub labels : Dictionary
  pub disks : List Disk
  pub network_interfaces : List NetworkInterface

pub record UpdateVmRequest : Type 0 where
  pub name : String
  pub metadata : Option Dictionary
  pub labels : Option Dictionary
  pub tags : Option (List String)

pub record Snapshot : Type 0 where
  pub id : String
  pub vm_id : String
  pub name : String
  pub description : String
  pub status : String

pub data NodeStatus : Type 0 where
  online offline draining maintenance faulty : NodeStatus

pub record NodeResources : Type 0 where
  pub total_cpus : ℤ
  pub used_cpus : ℤ
  pub total_memory_mb : ℤ
  pub used_memory_mb : ℤ
  pub total_storage_bytes : ℤ
  pub used_storage_bytes : ℤ
  pub total_gpus : ℤ
  pub used_gpus : ℤ

-- The eight counts of a node stand in `resources`.
pub record Node : Type 0 where
  pub id : String
  pub name : String
  pub address : String
  pub port : ℤ
  pub status : NodeStatus
  pub resources : NodeResources
  pub labels : Dictionary
  pub metadata : Dictionary

pub record RegisterNodeRequest : Type 0 where
  pub name : String
  pub address : String
  pub port : ℤ
  pub resources : NodeResources
  pub labels : Dictionary

pub data ImageStatus : Type 0 where
  ready downloading processing image_error : ImageStatus

-- The type of an image is the text of an ImageType.
pub record Image : Type 0 where
  pub id : String
  pub name : String
  pub description : String
  pub os : String
  pub os_version : String
  pub architecture : String
  pub type : String
  pub size_bytes : ℤ
  pub status : ImageStatus
  pub checksum : String
  pub source_url : String
  pub tags : List String

pub record ImportImageRequest : Type 0 where
  pub url : String
  pub name : String
  pub os : String
  pub os_version : String
  pub architecture : String

pub data BackupStatus : Type 0 where
  backup_creating backup_running backup_completed backup_failed backup_deleted : BackupStatus

-- The type of a backup is the text of a BackupType.
pub record Backup : Type 0 where
  pub id : String
  pub name : String
  pub vm_id : String
  pub organization_id : String
  pub status : BackupStatus
  pub size_bytes : ℤ
  pub type : String
  pub storage_pool : String

pub record Flavor : Type 0 where
  pub id : String
  pub name : String
  pub description : String
  pub vcpus : ℤ
  pub memory_mb : ℤ
  pub disk_gb : ℤ

pub record CreateFlavorRequest : Type 0 where
  pub name : String
  pub description : String
  pub vcpus : ℤ
  pub memory_mb : ℤ
  pub disk_gb : ℤ

pub record Keypair : Type 0 where
  pub id : String
  pub name : String
  pub public_key : String
  pub fingerprint : String
  pub organization_id : String

pub record CreateKeypairRequest : Type 0 where
  pub name : String
  pub public_key : String
  pub organization_id : String

pub record CreateDiskRequest : Type 0 where
  pub name : String
  pub size_bytes : ℤ
  pub type : String
  pub storage_pool : String
  pub image_id : String
  pub image : String

pub record CreateNetworkInterfaceRequest : Type 0 where
  pub network_id : String
  pub is_primary : Bool

pub record CreateVmRequest : Type 0 where
  pub name : String
  pub node_id : String
  pub flavor_id : String
  pub flavor : String
  pub vcpus : ℤ
  pub memory_mb : ℤ
  pub cpu_model : String
  pub machine_type : String
  pub enable_secure_boot : Bool
  pub enable_tpm : Bool
  pub hugepages : Bool
  pub cloud_init : String
  pub keypair_id : String
  pub keypair : String
  pub disks : List CreateDiskRequest
  pub network_interfaces : List CreateNetworkInterfaceRequest
  pub tags : List String
  pub metadata : Dictionary
  pub labels : Dictionary
