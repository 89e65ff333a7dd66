-- ===== src/Agent/Filled.antt =====
-- The interfaces of a start command that the control plane made, as the agent takes them.
use rymevisor.Common.{
  ℕ, ◌+◌, ◌≡◌, refl, ap, subst, false, Option, none, some, List, [], ◌∷◌, All, String, arith,
}
use rymevisor.Common.Effect.{Result, ok, err, pure, ignore, ◌>>=◌}
use rymevisor.Common.Triple.{Ends, Triple, triple->>=, triple->>, triple-pure}
use rymevisor.Net.{Text, codes}
use rymevisor.Ipam.{IpamError, bridge_for_network}
use rymevisor.Control.{NetworkInterface, VirtualMachine, Keypair}
use rymevisor.Control.Store.{Environment}
use rymevisor.Control.StartConfig.{nic_config_of, nic_configs, config_with, start_config}
use rymevisor.Agent.{NicConfig, VmStartConfig}
use rymevisor.Agent.Host.{Platform, Host, AgentError}
use rymevisor.Agent.Bridges.{ensure_bridge}
use rymevisor.Net.Strings.{is_empty}
use rymevisor.Agent.Interfaces.{filled, bridge_of, fill_nics}

-- The bridge is that of the network.
abbrev pub IsBridged : NicConfig → Type 0
IsBridged n = bridge_for_network (codes n.network_id) ≡ ok n.bridge

module _ (env : Environment) (gateway6 : Text → Text) where
  nic_configs-IsBridged :
      (vm : String) (nics : List NetworkInterface) (ns : List NicConfig)
      → nic_configs env gateway6 vm nics ≡ some ns
      → All IsBridged ns
  unfolding nic_configs
  nic_configs-IsBridged vm [] [] e = tt
  nic_configs-IsBridged vm [] (n ∷ ns) e = absurd (ground (arith, e))
  nic_configs-IsBridged vm (nic ∷ nics) ns e =
      first (bridge_for_network (codes nic.network_id)) (nic_configs env gateway6 vm nics)
        (λ b found. found) (λ rest found. nic_configs-IsBridged vm nics rest found) e
    where
      first :
          (r : Result IpamError Text) (o : Option (List NicConfig))
          → ((b : Text) → r ≡ ok b → bridge_for_network (codes nic.network_id) ≡ ok b)
          → ((rest : List NicConfig) → o ≡ some rest → All IsBridged rest)
          → elim r [
            | err x ↦ none
            | ok b ↦ elim o [
              | none ↦ none
              | some rest ↦ some (nic_config_of env gateway6 vm b nic ∷ rest)
            ]
          ]
            ≡ some ns
          → All IsBridged ns
      first (err x) o here there h = absurd (ground (arith, h))
      first (ok b) none here there h = absurd (ground (arith, h))
      first (ok b) (some rest) here there h =
          subst (All IsBridged) (ap (λ o. elim o [ none ↦ [] | some l ↦ l ]) h)
            (here b refl, there rest refl)

bridge_given : (t b : Text) → bridge_for_network t ≡ ok b → is_empty b ≡ false
unfolding bridge_for_network
bridge_given [] b e = absurd (ground (arith, e))
bridge_given (c ∷ cs) b e = ground (arith, e)

-- The interfaces one by one: the bridge is that of the network, the network and the address stay.
abbrev pub Matches : List NicConfig → List NicConfig → Type 0
Matches [] [] = Unit {0}
Matches [] (m ∷ ms) = ⊥
Matches (n ∷ ns) [] = ⊥
Matches (n ∷ ns) (m ∷ ms) =
    (m.network_id ≡ n.network_id) × (m.ip_address ≡ n.ip_address) × IsBridged m × Matches ns ms

module _ (os : Platform) (vm : String) where
  abbrev Always : Host → Type 0
  Always h = Unit {0}

  abbrev Never : AgentError → Host → Type 0
  Never e h = ⊥

  bridge_of-given : (n : NicConfig) → IsBridged n → bridge_of os n ≡ ok n.bridge
  bridge_of-given n bridged = rw (bridge_given (codes n.network_id) n.bridge bridged) refl

  fill_nics-Matches :
      (i : ℕ) (ns : List NicConfig)
      → All IsBridged ns
      → Triple Always (fill_nics os vm i ns) (λ ms _. Matches ns ms) Never
  unfolding fill_nics
  fill_nics-Matches i [] all = triple-pure [] (λ _ _. tt)
  fill_nics-Matches i (n ∷ ns) all =
      rw (bridge_of-given n all.0, fill_nics)
        (triple->> (ignore (ensure_bridge os n.bridge new.gateway new.ip_address))
          (fill_nics os vm (i + 1) ns >>= λ rest. pure (new ∷ rest)) (record { run = λ h _. tt })
          (triple->>= (fill_nics os vm (i + 1) ns) (λ rest. pure (new ∷ rest))
            (fill_nics-Matches (i + 1) ns all.1)
            (λ rest. triple-pure (new ∷ rest) (λ h m. unfold filled in (refl, refl, all.0, m)))))
    where
      new : NicConfig
      new = filled os vm i n.bridge n

-- When the control plane makes a start command, the agent, whichever system calls fail, fills its
-- interfaces without an error: each keeps its network and its address, in the order of the command,
-- and is on the bridge of its network.
pub fill_nics-start_config :
    (env : Environment) (gateway6 : Text → Text) (vm : VirtualMachine) (key : Option Keypair)
    (cfg : VmStartConfig) (os : Platform) (h : Host)
    → start_config env gateway6 vm key ≡ some cfg
    → Ends
        (λ ms _. Matches cfg.network_interfaces ms)
        (λ _ _. ⊥)
        (fill_nics os vm.id 0 cfg.network_interfaces h)
unfolding start_config
fill_nics-start_config env gateway6 vm key cfg os h e =
    (fill_nics-Matches os vm.id 0 cfg.network_interfaces bridged).run h tt
  where
    configured :
        (o : Option (List NicConfig))
        → elim o [
          | none ↦ none
          | some [] ↦ none
          | some (n ∷ ns) ↦ some (config_with env gateway6 vm key (n ∷ ns))
        ]
          ≡ some cfg
        → ((ns : List NicConfig) → o ≡ some ns → All IsBridged ns)
        → All IsBridged cfg.network_interfaces
    configured none h all = absurd (ground (arith, h))
    configured (some []) h all = absurd (ground (arith, h))
    configured (some (n ∷ ns)) h all =
        subst (All IsBridged)
          (ap (λ o. elim o [ none ↦ [] | some c ↦ VmStartConfig.network_interfaces c ]) h)
          (all (n ∷ ns) refl)

    bridged : All IsBridged cfg.network_interfaces
    bridged =
        configured (nic_configs env gateway6 vm.id vm.network_interfaces) e
          (nic_configs-IsBridged env gateway6 vm.id vm.network_interfaces)
