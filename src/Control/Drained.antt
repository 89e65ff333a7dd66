-- ===== src/Control/Drained.antt =====
-- What becomes of a drained node.
use rymevisor.Common.{
  ℕ, ◌≡◌, refl, Bool, true, false, if◌then◌else◌, Option, none, some, List, [], ◌∷◌, String, str_eq,
  arith, All, subst,
}
use rymevisor.Common.Effect.{ok, pure, fail_if}
use rymevisor.Common.Triple.{
  Ends-ignore, Triple, triple->>=, triple->>, triple-attempt, triple-weaken, triple-given,
  triple-fail_if,
}
use rymevisor.Common.Table.{update}
use rymevisor.Control.{draining, Node, NodeResources, Dictionary, RegisterNodeRequest}
use rymevisor.Control.Store.{
  node_event, World, Environment, Failure, name_required, address_required, Db, node_key, is_online,
  first_where, find_node, first_node, new_id, send,
}
use rymevisor.Control.Nodes.{
  registered_node, set_node_status, set_resources, set_labels, find_node_named, put_new_node,
  write_node, refuse_existing, register, require_node, update_labels, drain, heartbeat,
}

-- No row of the node is online.
abbrev pub IsOffline : String → List Node → Type 0
IsOffline id ns = All (λ n. str_eq (Node.id n) id ≡ true → is_online n ≡ false) ns

first_where-IsOffline :
    (id : String) (ns : List Node) (n : Node)
    → IsOffline id ns
    → first_where is_online ns ≡ some n
    → str_eq n.id id ≡ false
first_where-IsOffline id [] n off e = ground arith
first_where-IsOffline id (m ∷ ms) n off e =
    ground (arith, off.0, first_where-IsOffline id ms n off.1)

drained-IsOffline :
    (id : String) (ns : List Node) → IsOffline id (update node_key id (set_node_status draining) ns)
unfolding update
drained-IsOffline id [] = tt
drained-IsOffline id (n ∷ ns) = (λ same. ground (arith, same), drained-IsOffline id ns)

update-IsOffline :
    (id k : String) (f : Node → Node) (ns : List Node)
    → ((n : Node) → (f n).id ≡ n.id)
    → ((n : Node) → is_online n ≡ false → is_online (f n) ≡ false)
    → IsOffline id ns
    → IsOffline id (update node_key k f ns)
unfolding update
update-IsOffline id k f [] same stays off = tt
update-IsOffline id k f (n ∷ ns) same stays off =
    (row (str_eq n.id k), update-IsOffline id k f ns same stays off.1)
  where
    row :
        (c : Bool)
        → str_eq (Node.id (if c then f n else n)) id ≡ true
        → is_online (if c then f n else n) ≡ false
    row true h = stays n (off.0 (subst (λ i. str_eq i id ≡ true) (same n) h))
    row false h = off.0 h

-- A request to the service for nodes.
pub data NodeRequest : Type 0 where
  registered : RegisterNodeRequest → NodeRequest
  relabelled : String → Dictionary → NodeRequest
  drained : String → NodeRequest
  beaten : String → NodeResources → NodeRequest

-- The state after a request, whether it failed or not.
abbrev pub node_served : Environment → NodeRequest → World → World
node_served env (registered req) w = (register env req w).1
node_served env (relabelled id labels) w = (update_labels env id labels w).1
node_served env (drained id) w = (drain env id w).1
node_served env (beaten id resources) w = (heartbeat env id resources w).1

abbrev pub nodes_served : Environment → List NodeRequest → World → World
nodes_served env [] w = w
nodes_served env (r ∷ rs) w = nodes_served env rs (node_served env r w)

module _ (env : Environment) (id : String)
    (fresh : (k : ℕ) → str_eq (env.new_uuid k) id ≡ false) where
  abbrev Off : World → Type 0
  Off w = IsOffline id w.nodes

  abbrev StaysOff : {A : Type 0} → Db env A → Type 0
  StaysOff m = Triple Off m (λ _. Off) (λ _. Off)

  write_node-StaysOff :
      (k : String) (f : Node → Node)
      → ((n : Node) → (f n).id ≡ n.id)
      → ((n : Node) → is_online n ≡ false → is_online (f n) ≡ false)
      → StaysOff (write_node env k f)
  unfolding write_node
  write_node-StaysOff k f same stays = record {
    run = λ w p. ground (arith, p, update-IsOffline id k f w.nodes same stays p);
  }

  require_node-StaysOff : (k : String) → StaysOff (require_node env k)
  unfolding require_node find_node
  require_node-StaysOff k = record { run = λ w p. ground (arith, p) }

  find_node_named-StaysOff : (name : String) → StaysOff (find_node_named env name)
  unfolding find_node_named
  find_node_named-StaysOff name = record { run = λ w p. ground (arith, p) }

  refuse_existing-StaysOff : (found : Option (Option Node)) → StaysOff (refuse_existing env found)
  refuse_existing-StaysOff none = record { run = λ w p. p }
  refuse_existing-StaysOff (some none) = record { run = λ w p. p }
  refuse_existing-StaysOff (some (some n)) = record { run = λ w p. p }

  guard-StaysOff : (c : Bool) (e : Failure) → StaysOff (fail_if c e)
  guard-StaysOff c e = triple-weaken (triple-fail_if c e (λ w p. p)) (λ _ w p. p.1) (λ _ w p. p)

  new_id-StaysOff : Triple Off (new_id env) (λ i w. (str_eq i id ≡ false) × Off w) (λ _. Off)
  new_id-StaysOff = record { run = λ w p. (fresh w.calls, p) }

  put_new_node-StaysOff : (n : Node) → str_eq n.id id ≡ false → StaysOff (put_new_node env n)
  unfolding put_new_node
  put_new_node-StaysOff n other = record {
    run = λ w p.
        let inserted : IsOffline id (n ∷ w.nodes) = ((λ h. absurd (ground (arith, h, other))), p) in
        ground (arith, p, inserted);
  }

  send-StaysOff : (kind k : String) → StaysOff (send env (node_event k kind))
  unfolding send
  send-StaysOff kind k = record { run = λ w p. ground (arith, p) }

  register-StaysOff : (req : RegisterNodeRequest) → StaysOff (register env req)
  unfolding register
  register-StaysOff req = triple->> _ _ (guard-StaysOff (str_eq req.name "") name_required) (
      triple->> _ _ (guard-StaysOff (str_eq req.address "") address_required) (
        triple->>= _ _ (triple-attempt _ (find_node_named-StaysOff req.name)) (λ existing.
          triple->> _ _ (refuse_existing-StaysOff existing) (
            triple->>= _ _ new_id-StaysOff (λ i. triple-given (λ other.
              triple->> _ _ (put_new_node-StaysOff (registered_node req i) other) (
                triple->> _ (pure (registered_node req i)) (send-StaysOff "registered" i)
                  (record { run = λ w p. p }))))))))

  update_labels-StaysOff :
      (k : String) (labels : Dictionary) → StaysOff (update_labels env k labels)
  unfolding update_labels
  update_labels-StaysOff k labels = triple->>= _ _ (require_node-StaysOff k) (λ n.
      triple->> _ (pure (record n { labels = labels }))
        (write_node-StaysOff n.id (set_labels labels n.metadata) (λ m. refl) (λ m off. off))
        (record { run = λ w p. p }))

  drain-StaysOff : (k : String) → StaysOff (drain env k)
  unfolding drain
  drain-StaysOff k =
      triple->>= _ (λ n. write_node env k (set_node_status draining)) (require_node-StaysOff k)
        (λ n. write_node-StaysOff k (set_node_status draining) (λ m. refl) (λ m off. refl))

  heartbeat-StaysOff :
      (k : String) (resources : NodeResources) → StaysOff (heartbeat env k resources)
  unfolding heartbeat
  heartbeat-StaysOff k resources =
      write_node-StaysOff k (set_resources resources) (λ m. refl) (λ m off. off)

  nodes_served-Off : (rs : List NodeRequest) (w : World) → Off w → Off (nodes_served env rs w)
  nodes_served-Off [] w p = p
  nodes_served-Off (registered req ∷ rs) w p =
      nodes_served-Off rs _ (Ends-ignore Off _ ((register-StaysOff req).run w p))
  nodes_served-Off (relabelled k labels ∷ rs) w p =
      nodes_served-Off rs _ (Ends-ignore Off _ ((update_labels-StaysOff k labels).run w p))
  nodes_served-Off (drained k ∷ rs) w p =
      nodes_served-Off rs _ (Ends-ignore Off _ ((drain-StaysOff k).run w p))
  nodes_served-Off (beaten k resources ∷ rs) w p =
      nodes_served-Off rs _ (Ends-ignore Off _ ((heartbeat-StaysOff k resources).run w p))

-- A drain that succeeds leaves the node offline.
drain-IsOffline :
    (env : Environment) (id : String) (w : World)
    → (drain env id w).0 ≡ ok tt
    → IsOffline id (drain env id w).1.nodes
unfolding drain write_node require_node find_node
drain-IsOffline env id w e = ground (arith, e, drained-IsOffline id w.nodes)

-- After Drain has succeeded for a node, and after any sequence of registrations, label updates, drains
-- and heartbeats, whichever calls fail, the node that PowerOn's query for an online node answers is
-- another one, provided no new node gets the drained one's id.
pub drain_stays :
    (env : Environment) (id : String) (rs : List NodeRequest) (w w' : World) (n : Node)
    → ((k : ℕ) → str_eq (env.new_uuid k) id ≡ false)
    → (drain env id w).0 ≡ ok tt
    → first_node env is_online (nodes_served env rs (drain env id w).1) ≡ (ok (some n), w')
    → str_eq n.id id ≡ false
unfolding first_node
drain_stays env id rs w w' n fresh e found =
    first_where-IsOffline id (nodes_served env rs (drain env id w).1).nodes n
      (nodes_served-Off env id fresh rs (drain env id w).1 (drain-IsOffline env id w e))
      (answered (nodes_served env rs (drain env id w).1) found)
  where
    answered :
        (v : World)
        → first_node env is_online v ≡ (ok (some n), w')
        → first_where is_online v.nodes ≡ some n
    answered v f = ground (arith, f)
