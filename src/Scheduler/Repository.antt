-- ===== src/Scheduler/Repository.antt =====
-- services/scheduler/postgres/scheduler_repository.go: the scheduled jobs, in a map by VM id.
use rymevisor.Common.{
  ℕ, ◌+◌, ◌-◌, ◌*◌, ◌%◌, ◌^◌, Bool, ◌||◌, List, [], ◌∷◌, if◌then◌else◌, String, str_eq, leb, length,
  take, drop,
}
use rymevisor.Common.Effect.{Action, gets, modify, or_fail, ◌>>=◌, ◌>>◌}
use rymevisor.Common.Table.{select, delete}
use rymevisor.Scheduler.{ScheduledJob}

pub data SchedulerError : Type 0 where
  already_scheduled : String → SchedulerError
  no_registry nodes_failed no_match job_not_found : SchedulerError

-- The map from VM ids to jobs.
abbrev pub Jobs : Type 0
Jobs = List ScheduledJob

abbrev pub vm_key : ScheduledJob → String
vm_key job = job.vm_id

-- r.jobs[job.VMID] = job
unfoldable pub put_job : ScheduledJob → Jobs → Jobs
put_job job jobs = job ∷ delete vm_key job.vm_id jobs

unfoldable pub get_by_vm_id : String → Action Jobs SchedulerError ScheduledJob
get_by_vm_id vm = do or_fail (← gets (select vm_key vm)) job_not_found

unfoldable pub delete_job : String → Action Jobs SchedulerError (Unit {0})
delete_job vm = do or_fail (← gets (select vm_key vm)) job_not_found; modify (delete vm_key vm)

-- A page of jobs with the total, or a slice with a negative bound, which panics.
pub data Page : Type 0 where
  page_of : List ScheduledJob → ℕ → Page
  panicked : Page

abbrev on_node : String → ScheduledJob → Bool
on_node node_id job = str_eq node_id "" || str_eq job.node_id node_id

unfoldable pub filter_jobs : String → Jobs → List ScheduledJob
filter_jobs node_id [] = []
filter_jobs node_id (job ∷ jobs) =
    if on_node node_id job then job ∷ filter_jobs node_id jobs else filter_jobs node_id jobs

-- (page - 1) * perPage as an int: 64 bits, of which those from 2 ^ 63 on are negative.
abbrev pub start_of : ℕ → ℕ → ℕ
start_of page per_page = (page + (2 ^ 64 - 1)) * per_page % 2 ^ 64

-- The slicing of List, on the sorted jobs.
unfoldable pub paginate : List ScheduledJob → ℕ → ℕ → Page
paginate jobs page per_page =
    let start = start_of page per_page in
    let total = length jobs in
    if leb (2 ^ 63) start
    then panicked
    else if leb total start
    then page_of [] total
    else page_of (take per_page (drop start jobs)) total

-- `order` is sort.Slice by descending priority, on the jobs in the order of the map's iteration.
unfoldable pub list_jobs : (List ScheduledJob → List ScheduledJob) → String → ℕ → ℕ → Jobs → Page
list_jobs order node_id page per_page jobs =
    paginate (order (filter_jobs node_id jobs)) page per_page
