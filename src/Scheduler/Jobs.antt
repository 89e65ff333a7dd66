-- ===== src/Scheduler/Jobs.antt =====
-- The recorded jobs over schedule and cancel calls, and their listing in pages.
use rymevisor.Common.{
  ◌≡◌, ◌≢◌, ◌⊎◌, inl, inr, refl, ◌∙◌, Option, none, some, arith, if◌then◌else◌, String, str_eq,
  eq_iff, Option-cases,
}
use rymevisor.Common.Effect.{ok, err}
use rymevisor.Common.Int.{ℤ}
use rymevisor.Common.Table.{select, delete, select-delete_self, select-delete_ne}
use rymevisor.Scheduler.{SchedulingConstraints, ScheduledJob}
use rymevisor.Scheduler.Score.{Float64}
use rymevisor.Scheduler.Repository.{
  SchedulerError, already_scheduled, job_not_found, Jobs, vm_key, put_job,
}
use rymevisor.Scheduler.Service.{Registry, Sort, schedule, cancel_schedule}

-- The job of a VM after a write: the written one, or the one before.
pub select-put_job :
    (vm : String) (job : ScheduledJob) (jobs : Jobs)
    → select vm_key vm (put_job job jobs)
      ≡ (if str_eq job.vm_id vm then some job else select vm_key vm jobs)
unfolding put_job select
select-put_job vm job jobs =
    ground (arith, eq_iff job.vm_id vm, select-delete_ne vm_key vm job.vm_id jobs)

module _ (float : Float64) (sort : Sort float) (registry : Registry) (vm : String)
    (constraints : Option SchedulingConstraints) (priority : ℤ) (jobs : Jobs) where
  written : String → ScheduledJob
  written node = record {
    vm_id = vm;
    node_id = node;
    priority = priority;
    constraints = constraints;
  }

  schedule_ok :
      (node : String)
      → (schedule float sort registry vm constraints priority jobs).0 ≡ ok node
      → (schedule float sort registry vm constraints priority jobs).1 ≡ put_job (written node) jobs
  unfolding schedule written
  schedule_ok node h = ground arith

  schedule_err :
      (e : SchedulerError)
      → (schedule float sort registry vm constraints priority jobs).0 ≡ err e
      → (schedule float sort registry vm constraints priority jobs).1 ≡ jobs
  unfolding schedule
  schedule_err e h = ground arith

  schedule_again :
      (job : ScheduledJob)
      → select vm_key vm jobs ≡ some job
      → (schedule float sort registry vm constraints priority jobs).0
        ≡ err (already_scheduled job.node_id)
  unfolding schedule
  schedule_again job h = ground arith

  select-written :
      (other node : String)
      → select vm_key other (put_job (written node) jobs)
        ≡ (if str_eq vm other then some (written node) else select vm_key other jobs)
  unfolding written
  select-written other node = select-put_job other (written node) jobs

  -- A Schedule call that fails changes no job, and a VM that has a job keeps it: the call fails and
  -- names the job's node. A call that succeeds answers the node of the VM's job from then on, and
  -- changes no other VM's job.
  pub schedule_records :
      let (r, after) = schedule float sort registry vm constraints priority jobs in
      ((e : SchedulerError) → r ≡ err e → after ≡ jobs)
      × ((job : ScheduledJob)
          → select vm_key vm jobs ≡ some job
          → r ≡ err (already_scheduled job.node_id))
      × ((node : String)
          → r ≡ ok node
          → (job : ScheduledJob) × (select vm_key vm after ≡ some job)
            × (job.node_id ≡ node)
            × ((other : String)
                → other ≢ vm
                → select vm_key other after ≡ select vm_key other jobs))
  schedule_records = (
    schedule_err,
    schedule_again,
    λ node h. (
      written node,
      rw (schedule_ok node h) (select-written vm node ∙ ground (arith, eq_iff vm vm)),
      unfold written in refl,
      λ other ne.
          rw (schedule_ok node h) (select-written other node ∙ ground (arith, eq_iff vm other)),
    ),
  )

cancel_schedule-none :
    (vm : String) (jobs : Jobs)
    → select vm_key vm jobs ≡ none
    → cancel_schedule vm jobs ≡ (err job_not_found, jobs)
unfolding cancel_schedule
cancel_schedule-none vm jobs e = ground arith

cancel_schedule-some :
    (vm : String) (jobs : Jobs) (job : ScheduledJob)
    → select vm_key vm jobs ≡ some job
    → cancel_schedule vm jobs ≡ (ok tt, delete vm_key vm jobs)
unfolding cancel_schedule
cancel_schedule-some vm jobs job e = ground arith

-- CancelSchedule fails and changes nothing for a VM without a job; otherwise the VM has no job
-- afterwards, and other VMs keep theirs.
cancel_schedule_total :
    (vm : String) (jobs : Jobs)
    → let (r, after) = cancel_schedule vm jobs in
      ((select vm_key vm jobs ≡ none) × (r ≡ err job_not_found) × (after ≡ jobs))
      ⊎ ((r ≡ ok tt)
          × (select vm_key vm after ≡ none)
          × ((other : String) → other ≢ vm → select vm_key other after ≡ select vm_key other jobs))
cancel_schedule_total vm jobs = elim (Option-cases (select vm_key vm jobs)) [
  | inl e ↦ rw (cancel_schedule-none vm jobs e) (inl (e, refl, refl))
  | inr (job, e) ↦ rw (cancel_schedule-some vm jobs job e) (
      inr (
        refl,
        select-delete_self vm_key vm jobs,
        λ other ne. select-delete_ne vm_key other vm jobs ne,
      ))
]
