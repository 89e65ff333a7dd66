-- ===== src/Agent.antt =====
-- services/nodeagent: the records of agent.go and qemu/manager.go, as far as JSON and the operations
-- here read and write them. Addresses, gateways and bridges are texts, other strings are strings.
pub mod Qmp
pub mod Host
pub mod Bridges
pub mod Qemu
pub mod Disks
pub mod CloudInit
pub mod Interfaces
pub mod Start
pub mod Service
mod Keeps
mod Replies
mod Stopped
mod Recovered
mod Gateways
mod Filled
mod Frames
mod Answered
mod Tests
use rymevisor.Common.{ℕ, List, String, Bool, Option}
use rymevisor.Common.Int.{ℤ}
use rymevisor.Net.{Text}

pub record NicConfig : Type 0 where
  pub network_id : String
  pub mac_address : String
  pub ip_address : Text
  pub gateway : Text
  pub bridge : Text
  pub name : String

pub record VmStartConfig : Type 0 where
  pub name : String
  pub vcpus : ℤ
  pub memory_mb : ℤ
  pub disk_path : String
  pub mac_address : String
  pub ssh_key : Text
  pub image_url : String
  pub image_id : String
  pub image_path : String
  pub size_bytes : ℤ
  pub machine_type : String
  pub network_interfaces : List NicConfig

-- The action is the text of the message.
pub record VmCommand : Type 0 where
  pub action : String
  pub vm_id : String
  pub config : Option VmStartConfig
  pub force : Bool

pub record VmCommandResult : Type 0 where
  pub vm_id : String
  pub action : String
  pub status : String
  pub failed : Bool

pub record VmInfo : Type 0 where
  pub id : String
  pub status : String
  pub cpus : ℤ
  pub memory : ℤ

pub record Heartbeat : Type 0 where
  pub node_id : String
  pub total_cpus : ℤ
  pub used_cpus : ℤ
  pub total_memory_mb : ℤ
  pub used_memory_mb : ℤ
  pub vms : List VmInfo

-- qemu.NIC
pub record Nic : Type 0 where
  pub bridge : Text
  pub mac_address : String

-- qemu.VMConfig
pub record VmConfig : Type 0 where
  pub id : String
  pub name : String
  pub vcpus : ℤ
  pub memory_mb : ℤ
  pub disk_path : String
  pub mac_address : String
  pub nics : List Nic
  pub cloud_init : String
  pub qmp_socket : String
  pub monitor_socket : String
  pub machine_type : String

-- The struct that vm.json is the JSON of: its members stand beside those of the configuration that it
-- embeds.
pub record VmFile : Type 0 where
  pub config : VmStartConfig
  pub disk_path : String
  pub mac : String
  pub iso_path : String

-- An entry of the base directory: what stands under its name. A file vm.json that does not parse
-- is `some none`.
pub record Entry : Type 0 where
  pub name : String
  pub is_dir : Bool
  pub pid_file : Option Text
  pub vm_json : Option (Option VmFile)
  pub root_disk : Bool
  pub authorized_keys : Option Text
