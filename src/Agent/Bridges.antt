-- ===== src/Agent/Bridges.antt =====
-- EnsureBridge of services/nodeagent/qemu/manager.go: the programs that it runs, by what the earlier
-- ones answered.
use rymevisor.Common.{
  ℕ, ◌&&◌, ◌||◌, Bool, true, false, none, some, List, [], ◌∷◌, ◌++◌, ◌==◌, ltb, if◌then◌else◌, map,
  String, Option,
}
use rymevisor.Common.Effect.{pure, fail, ◌>>=◌, ◌>>◌}
use rymevisor.Net.{Text, codes, slash, parse_cidr, decimal}
use rymevisor.Agent.Host.{Platform, create_bridge, Act, run}

unfoldable pub starts_with : Text → Text → Bool
starts_with [] t = true
starts_with (c ∷ cs) [] = false
starts_with (c ∷ cs) (d ∷ t) = (c == d) && starts_with cs t

-- strings.Contains
unfoldable pub contains_text : Text → Text → Bool
unfolding starts_with
contains_text t [] = starts_with t []
contains_text t (c ∷ cs) = starts_with t (c ∷ cs) || contains_text t cs

-- The words of a command line that are fixed.
abbrev pub words : List String → List Text
words = map codes

-- The prefix of the address, or 24.
abbrev pub bridge_prefix_length : (Text → Option Text) → Text → ℕ
bridge_prefix_length canonical ip = elim (parse_cidr canonical ip) [
  | none ↦ 24
  | some (_, n) ↦ if ltb 0 n.ones then n.ones else 24
]

module _ (os : Platform) where
  -- The gateway address of a new bridge, and the rule for what leaves the block.
  unfoldable pub masquerade : Text → Text → Text → Act os (Unit {0})
  unfolding run
  masquerade bridge gateway ip = do
    let prefix = slash ∷ decimal (bridge_prefix_length os.canonical ip) []
    let source = gateway ++ prefix
    run os (words ("ip" ∷ "addr" ∷ "add" ∷ []) ++ source ∷ codes "dev" ∷ bridge ∷ [])
    run os (nat_rule "-C" source)
    checked ← run os (nat_rule "-C" (ip ++ prefix))
    (if checked.0 then pure tt else (do run os (nat_rule "-A" source); pure tt))
    run os (words ("sysctl" ∷ "-w" ∷ "net.ipv4.ip_forward=1" ∷ []))
    pure tt
    where
      nat_rule : String → Text → List Text
      nat_rule flag source =
          words ("iptables" ∷ "-t" ∷ "nat" ∷ flag ∷ "POSTROUTING" ∷ "-s" ∷ [])
          ++ source ∷ words ("-j" ∷ "MASQUERADE" ∷ [])

  -- A bridge that was just added.
  unfoldable pub bring_up : Text → Text → Text → Act os (Unit {0})
  unfolding run masquerade
  bring_up bridge gateway ip = do
    up ← run os (words ("ip" ∷ "link" ∷ "set" ∷ []) ++ bridge ∷ codes "up" ∷ [])
    (if up.0
        then (elim gateway [ [] ↦ pure tt | c ∷ cs ↦ masquerade bridge (c ∷ cs) ip ])
        else pure tt)

  abbrev tolerated : Text → Bool
  tolerated out =
      contains_text (codes "exists") out
      || (contains_text (codes "Operation not permitted") out
          || contains_text (codes "permission") out)

  unfoldable pub add_bridge : Text → Text → Text → Act os (Unit {0})
  unfolding run bring_up
  add_bridge bridge gateway ip = do
    added ← run os (words ("ip" ∷ "link" ∷ "add" ∷ []) ++ bridge ∷ words ("type" ∷ "bridge" ∷ []))
    (if added.0
        then bring_up bridge gateway ip
        else if tolerated added.1
        then pure tt
        else fail create_bridge)

  unfoldable pub ensure_bridge : Text → Text → Text → Act os (Unit {0})
  unfolding run add_bridge
  ensure_bridge bridge gateway ip = do
    shown ← run os (words ("ip" ∷ "link" ∷ "show" ∷ []) ++ bridge ∷ [])
    (if shown.0
        then (do run os (words ("ip" ∷ "link" ∷ "set" ∷ []) ++ bridge ∷ codes "up" ∷ []); pure tt)
        else add_bridge bridge gateway ip)
