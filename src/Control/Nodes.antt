-- ===== src/Control/Nodes.antt =====
-- NodeServiceImpl of services/controlplane/service.go, over postgres/node_repository.go.
use rymevisor.Common.{Bool, true, false, Option, none, some, [], ◌∷◌, if◌then◌else◌, String, str_eq}
use rymevisor.Common.Effect.{pure, fail, gets, modify, fail_if, or_fail, attempt, ◌>>=◌, ◌>>◌}
use rymevisor.Common.Table.{update}
use rymevisor.Control.{
  online, draining, NodeStatus, Node, NodeResources, Dictionary, RegisterNodeRequest,
}
use rymevisor.Control.Store.{
  node_event, Environment, name_required, address_required, get_node, node_exists, create_node,
  node_not_found, update_node, node_key, Db, call, first_where, find_node, new_id, send,
}

abbrev pub node_named : String → Node → Bool
node_named name n = str_eq n.name name

abbrev pub registered_node : RegisterNodeRequest → String → Node
registered_node req id = record {
  id = id;
  name = req.name;
  address = req.address;
  port = req.port;
  status = online;
  resources = req.resources;
  labels = req.labels;
  metadata = [];
}

abbrev pub set_node_status : NodeStatus → Node → Node
set_node_status status n = record n { status = status }

abbrev pub set_resources : NodeResources → Node → Node
set_resources resources n = record n { resources = resources }

-- The columns that nodeRepo.Update writes.
abbrev pub set_labels : Dictionary → Dictionary → Node → Node
set_labels labels metadata n = record n { labels = labels; metadata = metadata }

abbrev pub is_none : {A : Type 0} → Option A → Bool
is_none o = elim o [ none ↦ true | some a ↦ false ]

module _ (env : Environment) where
  -- nodeRepo.GetByName and Create; the name is unique.
  unfoldable pub find_node_named : String → Db env (Option Node)
  find_node_named name = do call env get_node; gets (λ w. first_where (node_named name) w.nodes)

  unfoldable pub put_new_node : Node → Db env (Unit {0})
  put_new_node n = do
    call env create_node
    same ← gets (λ w. first_where (node_named n.name) w.nodes)
    (if is_none same then pure tt else fail create_node)
    modify (λ w. record w { nodes = n ∷ w.nodes })

  -- UpdateStatus, UpdateHeartbeat and Update
  unfoldable pub write_node : String → (Node → Node) → Db env (Unit {0})
  write_node id f = do
    call env update_node
    modify (λ w. record w { nodes = update node_key id f w.nodes })

  abbrev pub refuse_existing : Option (Option Node) → Db env (Unit {0})
  refuse_existing found = elim found [ some (some n) ↦ fail node_exists | _ ↦ pure tt ]

  -- Register
  unfoldable pub register : RegisterNodeRequest → Db env Node
  unfolding find_node_named put_new_node send
  register req = do
    fail_if (str_eq req.name "") name_required
    fail_if (str_eq req.address "") address_required
    existing ← attempt (find_node_named req.name)
    refuse_existing existing
    id ← new_id env
    put_new_node (registered_node req id)
    send env (node_event id "registered")
    pure (registered_node req id)

  unfoldable pub require_node : String → Db env Node
  unfolding find_node
  require_node id = do or_fail (← find_node env id) node_not_found

  -- UpdateNode
  unfoldable pub update_labels : String → Dictionary → Db env Node
  unfolding require_node write_node
  update_labels id labels = do
    n ← require_node id
    write_node n.id (set_labels labels n.metadata)
    pure (record n { labels = labels })

  -- Drain; the timeout is not read.
  unfoldable pub drain : String → Db env (Unit {0})
  unfolding require_node write_node
  drain id = do n ← require_node id; write_node id (set_node_status draining)

  -- Heartbeat
  unfoldable pub heartbeat : String → NodeResources → Db env (Unit {0})
  unfolding write_node
  heartbeat id resources = write_node id (set_resources resources)
