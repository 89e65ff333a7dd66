-- ===== src/Scheduler/Filter.antt =====
-- filterNodes and nodeMatchesConstraints of services/scheduler/service.go: which nodes are
-- candidates.
use mathlib.Core.List.{Mem, mem-cons, mem-cons_self, mem-cons_of_mem, not-mem-nil}
use mathlib.Core.Logic.Or
use mathlib.Core.Bool.{false≢true}
use rymevisor.Common.{
  ◌≡◌, ◌≢◌, ◌↔◌, inl, inr, refl, sym, ◌∙◌, ap, ◌⊎◌, Bool, true, false, ◌&&◌, Option, none, some,
  List, [], ◌∷◌, arith, if◌then◌else◌, String, str_eq, eq_iff, All, Bool-cases,
}
use rymevisor.Common.Int.{pos, leb_ℤ, ◌≤ℤ◌}
use rymevisor.Scheduler.{NodeInfo, SchedulingConstraints}
use rymevisor.Scheduler.Labels.{
  HasLabel, required_ok, avoid_ok, required_ok-All, All-required_ok, avoid_ok-All, All-avoid_ok,
}

-- The lists that Go's `len(…) > 0` guards are empty or walked, which is the same.
unfoldable pub node_matches_constraints : NodeInfo → SchedulingConstraints → Bool
node_matches_constraints n c =
    if required_ok n.labels c.required_labels
    then (if avoid_ok n.labels c.avoid_labels
        then (if c.require_gpu && leb_ℤ n.available_gpus (pos 0) then false else true)
        else false)
    else false

unfoldable pub matching : SchedulingConstraints → List NodeInfo → List NodeInfo
matching c [] = []
matching c (n ∷ ns) = if node_matches_constraints n c then n ∷ matching c ns else matching c ns

-- The loop over the nodes for PreferredNode.
unfoldable pub preferred : String → List NodeInfo → List NodeInfo
preferred id [] = []
preferred id (n ∷ ns) = if str_eq n.id id then n ∷ [] else preferred id ns

unfoldable pub filter_nodes : List NodeInfo → Option SchedulingConstraints → List NodeInfo
unfolding matching preferred
filter_nodes nodes none = nodes
filter_nodes nodes (some c) =
    if str_eq c.preferred_node "" then matching c nodes else preferred c.preferred_node nodes

-- What the constraints ask of a node, in the order of the code.
pub record Satisfies (n : NodeInfo) (c : SchedulingConstraints) : Type 0 where
  pub required : All (HasLabel n.labels) c.required_labels
  pub avoided : All (λ l. ¬ HasLabel n.labels l) c.avoid_labels
  pub gpu : c.require_gpu ≡ true → pos 1 ≤ℤ n.available_gpus

pub node_matches-Satisfies :
    (n : NodeInfo) (c : SchedulingConstraints) → node_matches_constraints n c ≡ true → Satisfies n c
unfolding node_matches_constraints
node_matches-Satisfies n c h = record {
  required = required_ok-All n.labels c.required_labels (ground arith);
  avoided = avoid_ok-All n.labels c.avoid_labels (ground arith);
  gpu = λ g. ground arith;
}

pub Satisfies-node_matches :
    (n : NodeInfo) (c : SchedulingConstraints) → Satisfies n c → node_matches_constraints n c ≡ true
unfolding node_matches_constraints
Satisfies-node_matches n c s = ground (
  arith,
  All-required_ok n.labels c.required_labels s.required,
  All-avoid_ok n.labels c.avoid_labels s.avoided,
  s.gpu,
)

-- A node matches exactly when it has each required label, no avoided one, and a GPU if one is asked for.
pub node_matches_constraints_iff :
    (n : NodeInfo) (c : SchedulingConstraints)
    → (node_matches_constraints n c ≡ true) ↔ Satisfies n c
node_matches_constraints_iff n c = (node_matches-Satisfies n c, Satisfies-node_matches n c)

-- A proposition that holds of the head and of the rest holds at each member.
mem_cases :
    {P : Type 0} {n x : NodeInfo} {xs : List NodeInfo}
    → IsProp P
    → Mem n (x ∷ xs)
    → (n ≡ x → P)
    → (Mem n xs → P)
    → P
mem_cases prop m here there = Or.elim prop (mem-cons.0 m) here there

mem-matching_of :
    (c : SchedulingConstraints) (n : NodeInfo) (ns : List NodeInfo)
    → Mem n (matching c ns)
    → Mem n ns × (node_matches_constraints n c ≡ true)
unfolding matching
mem-matching_of c n [] m = absurd (not-mem-nil m)
mem-matching_of c n (x ∷ xs) m = elim (Bool-cases (node_matches_constraints x c)) [
  | inl e ↦
      mem_cases (hlevel) (rw e at m) (λ p. (rw p mem-cons_self, rw p e))
        (λ q. let r = mem-matching_of c n xs q in (mem-cons_of_mem x r.0, r.1))
  | inr e ↦ let r = mem-matching_of c n xs (rw e at m) in (mem-cons_of_mem x r.0, r.1)
]

of_mem-matching :
    (c : SchedulingConstraints) (n : NodeInfo) (ns : List NodeInfo)
    → Mem n ns
    → node_matches_constraints n c ≡ true
    → Mem n (matching c ns)
unfolding matching
of_mem-matching c n [] m ok = absurd (not-mem-nil m)
of_mem-matching c n (x ∷ xs) m ok = elim (Bool-cases (node_matches_constraints x c)) [
  | inl e ↦ rw e (
      mem_cases (hlevel) m (λ p. rw p mem-cons_self)
        (λ q. mem-cons_of_mem x (of_mem-matching c n xs q ok)))
  | inr e ↦ rw e (
      mem_cases (hlevel) m
        (λ p. absurd (false≢true (sym e ∙ ap (λ y. node_matches_constraints y c) (sym p) ∙ ok)))
        (λ q. of_mem-matching c n xs q ok))
]

-- With no preferred node, the candidates are the nodes that satisfy the constraints.
mem-filter_nodes :
    (nodes : List NodeInfo) (c : SchedulingConstraints) (n : NodeInfo)
    → c.preferred_node ≡ ""
    → Mem n (filter_nodes nodes (some c)) ↔ (Mem n nodes × Satisfies n c)
unfolding filter_nodes
mem-filter_nodes nodes c n e =
    let none_preferred : str_eq c.preferred_node "" ≡ true = (eq_iff _ _).1 e in
    rw none_preferred (
      λ m. let r = mem-matching_of c n nodes m in (r.0, node_matches-Satisfies n c r.1),
      λ r. of_mem-matching c n nodes r.0 (Satisfies-node_matches n c r.1),
    )

-- The first node of an id, if there is one.
preferred-cases :
    (id : String) (ns : List NodeInfo)
    → ((n : NodeInfo) × (preferred id ns ≡ n ∷ []) × Mem n ns × (n.id ≡ id))
      ⊎ ((preferred id ns ≡ []) × ((n : NodeInfo) → Mem n ns → n.id ≢ id))
unfolding preferred
preferred-cases id [] = inr (refl, λ n m. absurd (not-mem-nil m))
preferred-cases id (x ∷ xs) = elim (Bool-cases (str_eq x.id id)) [
  | inl e ↦ inl (x, rw e refl, mem-cons_self, (eq_iff _ _).0 e)
  | inr e ↦ elim (preferred-cases id xs) [
    | inl (n, p, m, q) ↦ inl (n, rw e p, mem-cons_of_mem x m, q)
    | inr (p, other) ↦ inr (
      rw e p,
      λ n m q.
          mem_cases (hlevel) m (λ s. false≢true (sym e ∙ (eq_iff _ _).1 (rw (← s) q)))
            (λ s. other n s q),
    )
  ]
]

-- With a preferred node, the only candidate is a node of that id, whatever else is asked; there
-- is none exactly when no node has the id.
filter_nodes_preferred :
    (nodes : List NodeInfo) (c : SchedulingConstraints)
    → c.preferred_node ≢ ""
    → ((n : NodeInfo) × (filter_nodes nodes (some c) ≡ n ∷ [])
        × Mem n nodes
        × (n.id ≡ c.preferred_node))
      ⊎ ((filter_nodes nodes (some c) ≡ [])
          × ((n : NodeInfo) → Mem n nodes → n.id ≢ c.preferred_node))
unfolding filter_nodes
filter_nodes_preferred nodes c h =
    let named : str_eq c.preferred_node "" ≡ false = ground (arith, eq_iff c.preferred_node "") in
    rw named (preferred-cases c.preferred_node nodes)

-- A candidate is one of the nodes.
pub mem-of_filter_nodes :
    (nodes : List NodeInfo) (c : Option SchedulingConstraints) (n : NodeInfo)
    → Mem n (filter_nodes nodes c)
    → Mem n nodes
unfolding filter_nodes
mem-of_filter_nodes nodes none n m = m
mem-of_filter_nodes nodes (some c) n m = elim (Bool-cases (str_eq c.preferred_node "")) [
  | inl e ↦ (mem-matching_of c n nodes (rw e at m)).0
  | inr e ↦ elim (preferred-cases c.preferred_node nodes) [
    | inl (x, p, here, _) ↦
        mem_cases (hlevel) (rw p at (rw e at m)) (λ q. rw q here) (λ q. absurd (not-mem-nil q))
    | inr (p, _) ↦ absurd (not-mem-nil (rw p at (rw e at m)))
  ]
]
