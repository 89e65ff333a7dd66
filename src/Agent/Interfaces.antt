-- ===== src/Agent/Interfaces.antt =====
-- The network interfaces of a VM in StartVM of services/nodeagent/agent.go: what the command left
-- empty is filled, and each interface goes to QEMU and, with an address, to cloud-init.
use rymevisor.Common.{
  ℕ, ◌+◌, ◌-◌, ◌%◌, not, ◌&&◌, Option, none, some, List, [], ◌∷◌, if◌then◌else◌, String, str_eq,
}
use rymevisor.Common.Effect.{Result, ok, err, pure, fail, ignore, ◌>>=◌, ◌>>◌}
use rymevisor.Common.Numerals.{number}
use rymevisor.Net.{Text, v4, codes, parse_ip, parse_cidr, dotted_quad}
use rymevisor.Ipam.{bridge_for_network, u32}
use rymevisor.Control.Addresses.{mac_text}
use rymevisor.Agent.{NicConfig, Nic}
use rymevisor.Agent.Host.{Platform, AgentError, Act, bridge_for_network_failed}
use rymevisor.Agent.Bridges.{ensure_bridge}
use rymevisor.Net.Strings.{is_empty}
use rymevisor.Agent.CloudInit.{SeedInterface}
use Prim.Native.String.{◌++◌ as ◌<>◌}

abbrev pub seed_of : NicConfig → SeedInterface
seed_of n = record {
  name = codes n.name;
  mac_address = codes n.mac_address;
  addresses = n.ip_address ∷ [];
  gateway = n.gateway;
  nameservers = codes "8.8.8.8" ∷ codes "8.8.4.4" ∷ [];
}

-- The interfaces with an address.
unfoldable pub seeds_of : List NicConfig → List SeedInterface
seeds_of [] = []
seeds_of (n ∷ ns) =
    let rest = seeds_of ns in if is_empty n.ip_address then rest else seed_of n ∷ rest

abbrev pub nic_for_qemu : NicConfig → Nic
nic_for_qemu n = record { bridge = n.bridge; mac_address = n.mac_address }

abbrev pub first_mac : List NicConfig → String
first_mac [] = ""
first_mac (n ∷ ns) = n.mac_address

module _ (os : Platform) where
  unfoldable pub gateway_from_cidr : Text → Option Text
  gateway_from_cidr t = elim (parse_cidr os.canonical t) [
    | none ↦ elim (parse_ip os.canonical t) [
      | some (v4 a) ↦ some (dotted_quad (a - a % 256 + 1) [])
      | _ ↦ none
    ]
    | some (_, n) ↦ elim n.base [
      | none ↦ some (os.network6 t)
      | some network ↦ some (dotted_quad (u32 (network + 1)) [])
    ]
  ]

  abbrev gateway_or_empty : NicConfig → Text
  gateway_or_empty n =
      if is_empty n.gateway && not (is_empty n.ip_address)
      then (elim (gateway_from_cidr n.ip_address) [ none ↦ [] | some g ↦ g ])
      else n.gateway

  -- The members of interface i that the command left empty.
  unfoldable pub filled : String → ℕ → Text → NicConfig → NicConfig
  unfolding gateway_from_cidr
  filled vm i bridge n = record n {
    bridge = bridge;
    gateway = gateway_or_empty n;
    name = if str_eq n.name "" then "ens" <> number (3 + i) else n.name;
    mac_address =
        if str_eq n.mac_address ""
        then mac_text (os.sha256 (codes (vm <> "|nic-" <> number i)))
        else n.mac_address;
  }

  abbrev pub bridge_of : NicConfig → Result AgentError Text
  bridge_of n =
      if is_empty n.bridge
      then (elim (bridge_for_network (codes n.network_id)) [
        | ok b ↦ ok b
        | err e ↦ err bridge_for_network_failed
      ])
      else ok n.bridge

  -- The loop over the interfaces, which fills them in place.
  unfoldable pub fill_nics : String → ℕ → List NicConfig → Act os (List NicConfig)
  unfolding filled ensure_bridge
  fill_nics vm i [] = pure []
  fill_nics vm i (n ∷ ns) = elim (bridge_of n) [
    | err e ↦ fail e
    | ok b ↦ (do
      let new = filled vm i b n
      ignore (ensure_bridge os b new.gateway new.ip_address)
      rest ← fill_nics vm (i + 1) ns
      pure (new ∷ rest))
  ]
