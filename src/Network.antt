-- ===== src/Network.antt =====
-- services/network: the records of domain/network.go. An address or a block is a text as a list of
-- character codes, as in Net. Times are left out: the database sets them.
pub mod Tables
pub mod Service
mod Stuck
mod Tests
use rymevisor.Common.{Bool, List, Option, String}
use rymevisor.Common.Int.{ℤ}
use rymevisor.Net.{Text}

pub data NetworkType : Type 0 where
  private public : NetworkType

-- The subnets and the firewall rules are rows of their own tables.
pub record PrivateNetwork : Type 0 where
  pub id : String
  pub name : String
  pub organization_id : String
  pub vpc_id : Option String
  pub type : NetworkType
  pub cidr : Text
  pub ipv6_cidr : Option Text
  pub internet_gateway : Bool
  pub labels : List (String × String)

pub record Subnet : Type 0 where
  pub id : String
  pub name : String
  pub network_id : String
  pub cidr : Text
  pub ipv6_cidr : Option Text
  pub dhcp_enabled : Bool
  pub gateway_ip : Option Text

pub record FirewallRule : Type 0 where
  pub id : String
  pub name : String
  pub network_id : String
  pub priority : ℤ
  pub action : String
  pub direction : String
  pub source_cidrs : List Text
  pub destination_cidrs : List Text
  pub protocol : String
  pub port_min : Option ℤ
  pub port_max : Option ℤ
  pub enabled : Bool

pub record FloatingIp : Type 0 where
  pub id : String
  pub ip_address : Text
  pub network_id : Option String
  pub vm_id : Option String
  pub organization_id : String

pub record CreateNetworkRequest : Type 0 where
  pub name : String
  pub organization_id : String
  pub cidr : Text
  pub ipv6_cidr : Text
  pub internet_gateway : Bool

pub record CreateFirewallRuleRequest : Type 0 where
  pub network_id : String
  pub name : String
  pub priority : ℤ
  pub action : String
  pub direction : String
  pub source_cidrs : List Text
  pub destination_cidrs : List Text
  pub protocol : String
  pub port_min : Option ℤ
  pub port_max : Option ℤ
