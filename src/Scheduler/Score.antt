-- ===== src/Scheduler/Score.antt =====
-- calculateScore and scoreNodes of services/scheduler/service.go. float64 is a parameter: its
-- conversion from integers, its arithmetic and its `>`.
use rymevisor.Common.{Bool, Option, none, some, List, [], ◌∷◌, if◌then◌else◌, String}
use rymevisor.Common.Int.{ℤ, pos, ◌-ℤ◌, ltb_ℤ, leb_ℤ}
use rymevisor.Scheduler.{Labels, NodeInfo, SchedulingConstraints}
use rymevisor.Scheduler.Labels.{has_label}

pub record Float64 : Type 1 where
  pub Carrier : Type 0
  pub of_int : ℤ → Carrier
  pub plus : Carrier → Carrier → Carrier
  pub times : Carrier → Carrier → Carrier
  pub over : Carrier → Carrier → Carrier
  pub above : Carrier → Carrier → Bool

module _ (float : Float64) where
  open float use {Carrier, of_int, plus, times, over, above}

  pub record ScoredNode : Type 0 where
    pub node : NodeInfo
    pub score : Carrier

  -- score += 25 for each preferred label that the node has.
  unfoldable pub preferred_score : Labels → List String → Carrier → Carrier
  preferred_score labels [] score = score
  preferred_score labels (label ∷ rest) score =
      preferred_score labels rest
        (if has_label labels label then plus score (of_int (pos 25)) else score)

  unfoldable pub calculate_score : NodeInfo → Option SchedulingConstraints → Carrier
  unfolding preferred_score
  calculate_score n constraints =
      let zero_score = of_int (pos 0) in
      let with_cpus =
        if ltb_ℤ (pos 0) n.available_cpus
        then plus zero_score (times (of_int n.available_cpus) (of_int (pos 10)))
        else zero_score in
      let with_memory =
        if ltb_ℤ (pos 0) n.available_memory
        then plus with_cpus (over (of_int n.available_memory) (of_int (pos 1048576)))
        else with_cpus in
      let with_vms =
        if leb_ℤ (pos 0) n.running_vms
        then plus with_memory (times (of_int (pos 100 -ℤ n.running_vms)) (of_int (pos 5)))
        else with_memory in
      let with_gpus =
        if ltb_ℤ (pos 0) n.available_gpus
        then plus with_vms (times (of_int n.available_gpus) (of_int (pos 50)))
        else with_vms in
      elim constraints [
        | none ↦ with_gpus
        | some c ↦ preferred_score n.labels c.preferred_labels with_gpus
      ]

  unfoldable pub score_nodes : List NodeInfo → Option SchedulingConstraints → List ScoredNode
  score_nodes [] constraints = []
  score_nodes (n ∷ ns) constraints =
      record { node = n; score = calculate_score n constraints } ∷ score_nodes ns constraints
