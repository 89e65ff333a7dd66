-- ===== src/Control/Tests/Nodes.antt =====
-- A drained node and a second one.
use rymevisor.Common.{◌≡◌, refl, false, none, List, [], ◌∷◌, str_eq}
use rymevisor.Common.Table.{select, update}
use rymevisor.Control.{stopped, Node}
use rymevisor.Control.Store.{World, is_online, first_node}
use rymevisor.Control.Nodes.{drain, heartbeat}
use rymevisor.Control.Drained.{NodeRequest, beaten, nodes_served, drain_stays}
use rymevisor.Control.Tests.{vm_with, world_of, working, node}

abbrev second : Node
second = record node { id = "node-2"; name = "beta" }

abbrev pair : World
pair = record (world_of (vm_with stopped none)) { nodes = node ∷ second ∷ [] }

abbrev beats : List NodeRequest
beats = beaten "node-1" node.resources ∷ beaten "node-2" node.resources ∷ []

drain_stays_example : str_eq second.id "node-1" ≡ false
unfolding drain first_node select update heartbeat
drain_stays_example =
    drain_stays working "node-1" beats pair
      (first_node working is_online (nodes_served working beats (drain working "node-1" pair).1)).1
      second (λ k. refl) refl refl
