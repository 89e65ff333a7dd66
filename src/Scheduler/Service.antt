-- ===== src/Scheduler/Service.antt =====
-- Schedule, CancelSchedule and ListScheduledJobs of services/scheduler/service.go, and the paging of
-- services/scheduler/handler/handler.go.
use rymevisor.Common.{ℕ, Bool, ◌||◌, Option, none, some, List, [], ◌∷◌, if◌then◌else◌, String, ltb}
use rymevisor.Common.Effect.{Action, ok, err, pure, fail, modify, ◌>>=◌, ◌>>◌}
use rymevisor.Common.Int.{ℤ}
use rymevisor.Common.Table.{select}
use rymevisor.Scheduler.{NodeInfo, SchedulingConstraints, ScheduledJob}
use rymevisor.Scheduler.Filter.{filter_nodes}
use rymevisor.Scheduler.Score.{Float64, ScoredNode, score_nodes}
use rymevisor.Scheduler.Repository.{
  SchedulerError, already_scheduled, no_registry, nodes_failed, no_match, Jobs, vm_key, put_job,
  delete_job, Page, list_jobs,
}

-- What the node registry answers: no registry is set, the query fails, or the nodes.
pub data Registry : Type 0 where
  unset failing : Registry
  nodes_of : List NodeInfo → Registry

abbrev pub check_unscheduled : String → Action Jobs SchedulerError (Unit {0})
check_unscheduled vm jobs = elim (select vm_key vm jobs) [
  | none ↦ (ok tt, jobs)
  | some job ↦ (err (already_scheduled job.node_id), jobs)
]

abbrev pub get_available_nodes : Registry → Action Jobs SchedulerError (List NodeInfo)
get_available_nodes unset = fail no_registry
get_available_nodes failing = fail nodes_failed
get_available_nodes (nodes_of nodes) = pure nodes

-- sort.Slice of scored nodes, by a comparison that says which of two comes first.
abbrev pub Sort : Float64 → Type 0
Sort float =
    (ScoredNode float → ScoredNode float → Bool) → List (ScoredNode float) → List (ScoredNode float)

-- The comparison that Schedule sorts by.
abbrev pub is_higher : (float : Float64) → ScoredNode float → ScoredNode float → Bool
is_higher float a b = float.above a.score b.score

module _ (float : Float64) (sort : Sort float) where
  -- The first of the scored candidates, once sorted.
  abbrev pub best_of : List (ScoredNode float) → Action Jobs SchedulerError NodeInfo
  best_of [] = fail no_match
  best_of (best ∷ others) = pure best.node

  unfoldable pub schedule :
      Registry → String → Option SchedulingConstraints → ℤ → Action Jobs SchedulerError String
  schedule registry vm constraints priority = do
    check_unscheduled vm
    nodes ← get_available_nodes registry
    best ←
        best_of
          (sort (is_higher float) (score_nodes float (filter_nodes nodes constraints) constraints))
    modify (
        put_job (record {
          vm_id = vm;
          node_id = best.id;
          priority = priority;
          constraints = constraints;
        }))
    pure best.id

unfoldable pub cancel_schedule : String → Action Jobs SchedulerError (Unit {0})
unfolding delete_job
cancel_schedule vm = delete_job vm

-- The page and page size that the handler passes on.
abbrev pub page_from : ℕ → ℕ
page_from page = if ltb page 1 then 1 else page

abbrev pub per_page_from : ℕ → ℕ
per_page_from per_page = if ltb per_page 1 || ltb 100 per_page then 20 else per_page

unfoldable pub handle_list_jobs :
    (List ScheduledJob → List ScheduledJob) → String → ℕ → ℕ → Jobs → Page
unfolding list_jobs
handle_list_jobs order node_id page per_page jobs =
    list_jobs order node_id (page_from page) (per_page_from per_page) jobs
