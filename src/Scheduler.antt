-- ===== src/Scheduler.antt =====
-- services/scheduler: the data of domain/scheduler.go and of the node registry.
pub mod Labels
pub mod Filter
pub mod Score
pub mod Repository
pub mod Service
pub mod Choice
pub mod Jobs
pub mod Paging
mod Tests
use rymevisor.Common.{List, String, Bool, Option}
use rymevisor.Common.Int.{ℤ}

-- A Go map from texts to texts; the first entry of a key counts.
abbrev pub Labels : Type 0
Labels = List (String × String)

pub record NodeInfo : Type 0 where
  pub id : String
  pub labels : Labels
  pub available_cpus : ℤ
  pub available_memory : ℤ
  pub available_gpus : ℤ
  pub running_vms : ℤ

pub record SchedulingConstraints : Type 0 where
  pub preferred_node : String
  pub required_labels : List String
  pub preferred_labels : List String
  pub avoid_labels : List String
  pub require_gpu : Bool
  pub availability_zone : String

pub record ScheduledJob : Type 0 where
  pub vm_id : String
  pub node_id : String
  pub priority : ℤ
  pub constraints : Option SchedulingConstraints
