-- ===== src/Scheduler/Tests.antt =====
-- A run of the scheduler over whole numbers for float64, and its theorems at concrete inputs.
use mathlib.Core.List.{Perm}
use mathlib.Core.List.Perm
use rymevisor.Common.{
  ◌+◌, ◌-◌, ◌*◌, ◌/◌, ◌%◌, ◌^◌, ◌≤◌, ◌≡◌, ◌≢◌, ◌↔◌, inl, inr, refl, Bool, true, false, none, some,
  List, [], ◌∷◌, arith, if◌then◌else◌, String, All, Bool-cases,
}
use rymevisor.Common.Effect.{ok, err}
use rymevisor.Common.Int.{ℤ, pos, pos_part, ◌+ℤ◌, ◌*ℤ◌, ◌-ℤ◌, ltb_ℤ}
use rymevisor.Common.Table.{select}
use rymevisor.Scheduler.{NodeInfo, SchedulingConstraints, ScheduledJob}
use rymevisor.Scheduler.Labels.{has_label, split_label, lookup, required_ok, avoid_ok}
use rymevisor.Scheduler.Filter.{filter_nodes, node_matches_constraints}
use rymevisor.Scheduler.Score.{Float64, ScoredNode, calculate_score, score_nodes}
use rymevisor.Scheduler.Repository.{SchedulerError, already_scheduled, vm_key, put_job, panicked}
use rymevisor.Scheduler.Service.{nodes_of, schedule, handle_list_jobs}
use rymevisor.Scheduler.Choice.{job_of, IsSorted, IsStrictOrder, Sorts, IsBest, schedule-IsBest}
use rymevisor.Scheduler.Jobs.{schedule_records}
use rymevisor.Scheduler.Paging.{handle_list_jobs_panics}

abbrev whole : Float64
whole = record {
  Carrier = ℤ;
  of_int = λ z. z;
  plus = λ a b. a +ℤ b;
  times = λ a b. a *ℤ b;
  over = λ a b. pos (pos_part a / pos_part b);
  above = λ a b. ltb_ℤ b a;
}

abbrev Scored : Type 0
Scored = ScoredNode whole

module _ {A : Type 0} (less : A → A → Bool) where
  insert : A → List A → List A
  insert x [] = x ∷ []
  insert x (y ∷ ys) = if less x y then x ∷ y ∷ ys else y ∷ insert x ys

  insertion_sort : List A → List A
  unfolding insert
  insertion_sort [] = []
  insertion_sort (x ∷ xs) = insert x (insertion_sort xs)

  insert-perm : (x : A) (ys : List A) → Perm (insert x ys) (x ∷ ys)
  unfolding insert
  insert-perm x [] = Perm.refl _
  insert-perm x (y ∷ ys) = elim (Bool-cases (less x y)) [
    | inl e ↦ rw e (Perm.refl _)
    | inr e ↦ rw e (Perm.trans (Perm.cons y (insert-perm x ys)) (Perm.swap x y ys))
  ]

  insertion_sort-perm : (xs : List A) → Perm (insertion_sort xs) xs
  unfolding insertion_sort
  insertion_sort-perm [] = Perm.refl _
  insertion_sort-perm (x ∷ xs) =
      Perm.trans (insert-perm x (insertion_sort xs)) (Perm.cons x (insertion_sort-perm xs))

  -- Nothing in the list comes before the element.
  abbrev After : A → List A → Type 0
  After top = All (λ (y : A). less y top ≡ false)

  insert-After :
      (top x : A) (ys : List A) → less x top ≡ false → After top ys → After top (insert x ys)
  unfolding insert
  insert-After top x [] h u = (h, tt)
  insert-After top x (y ∷ ys) h u = ground (arith, insert-After top x ys h u.1)

  module _ (order : IsStrictOrder less) where
    After-mono : (x y : A) (zs : List A) → less y x ≡ false → After y zs → After x zs
    After-mono x y [] h u = tt
    After-mono x y (z ∷ zs) h u = (order.through z y x u.0 h, After-mono x y zs h u.1)

    insert-IsSorted : (x : A) (ys : List A) → IsSorted less ys → IsSorted less (insert x ys)
    unfolding insert
    insert-IsSorted x [] s = (tt, tt)
    insert-IsSorted x (y ∷ ys) s = elim (Bool-cases (less x y)) [
      | inl e ↦
          rw e (let later = order.asymmetric x y e in ((later, After-mono x y ys later s.0), s))
      | inr e ↦ rw e (insert-After y x ys e s.0, insert-IsSorted x ys s.1)
    ]

    insertion_sort-IsSorted : (xs : List A) → IsSorted less (insertion_sort xs)
    unfolding insertion_sort
    insertion_sort-IsSorted [] = tt
    insertion_sort-IsSorted (x ∷ xs) =
        insert-IsSorted x (insertion_sort xs) (insertion_sort-IsSorted xs)

abbrev sort_scored : (Scored → Scored → Bool) → List Scored → List Scored
sort_scored = insertion_sort

sort_scored-Sorts : Sorts sort_scored
sort_scored-Sorts = record {
  permutes = λ less xs. insertion_sort-perm less xs;
  ordered = λ less order xs. insertion_sort-IsSorted less order xs;
}

whole-IsStrictOrder : IsStrictOrder (Float64.above whole)
whole-IsStrictOrder = record {
  irreflexive = λ a. ground arith;
  asymmetric = λ a b e. ground arith;
  through = λ a b c e f. ground arith;
}

abbrev node_a : NodeInfo
node_a = record {
  id = "a";
  labels = ("zone", "eu") ∷ [];
  available_cpus = pos 8;
  available_memory = pos 2097152;
  available_gpus = pos 0;
  running_vms = pos 90;
}

abbrev node_b : NodeInfo
node_b = record {
  id = "b";
  labels = ("zone", "eu") ∷ ("ssd", "1") ∷ [];
  available_cpus = pos 4;
  available_memory = pos 1048576;
  available_gpus = pos 1;
  running_vms = pos 110;
}

abbrev cluster : List NodeInfo
cluster = node_a ∷ node_b ∷ []

abbrev wanted : SchedulingConstraints
wanted = record {
  preferred_node = "";
  required_labels = "zone=eu" ∷ "ssd" ∷ [];
  preferred_labels = "ssd=1" ∷ [];
  avoid_labels = "old" ∷ [];
  require_gpu = true;
  availability_zone = "";
}

filtered : filter_nodes cluster (some wanted) ≡ node_b ∷ []
unfolding filter_nodes node_matches_constraints required_ok avoid_ok has_label split_label lookup
filtered = refl

schedule_run : (schedule whole sort_scored (nodes_of cluster) "vm" none (pos 1) []).0 ≡ ok "a"
unfolding schedule filter_nodes score_nodes calculate_score insertion_sort insert ◌+ℤ◌ ◌*ℤ◌ ◌-ℤ◌
    select
schedule_run = refl

schedule-IsBest_example :
    (best : NodeInfo) × IsBest whole cluster (some wanted) best
    × (schedule whole sort_scored (nodes_of cluster) "vm" (some wanted) (pos 1) []
        ≡ (ok best.id, put_job (job_of "vm" best.id (some wanted) (pos 1)) []))
unfolding select
schedule-IsBest_example =
    schedule-IsBest whole sort_scored sort_scored-Sorts whole-IsStrictOrder cluster (some wanted)
      "vm" (pos 1) [] refl (λ e. cc filtered)

abbrev job_a : ScheduledJob
job_a = job_of "vm" "a" none (pos 1)

schedule_records_example :
    let (r, after) = schedule whole sort_scored (nodes_of cluster) "vm" none (pos 1) (job_a ∷ []) in
    ((e : SchedulerError) → r ≡ err e → after ≡ job_a ∷ [])
    × ((job : ScheduledJob)
        → select vm_key "vm" (job_a ∷ []) ≡ some job
        → r ≡ err (already_scheduled job.node_id))
    × ((node : String)
        → r ≡ ok node
        → (job : ScheduledJob) × (select vm_key "vm" after ≡ some job)
          × (job.node_id ≡ node)
          × ((other : String)
              → other ≢ "vm"
              → select vm_key other after ≡ select vm_key other (job_a ∷ [])))
schedule_records_example =
    schedule_records whole sort_scored (nodes_of cluster) "vm" none (pos 1) (job_a ∷ [])

-- Page 2 ^ 59 + 1 of 20 jobs starts at 20 * 2 ^ 59, which is negative in 64 bits.
handle_list_jobs_panics_example :
    (handle_list_jobs (λ jobs. jobs) "" (2 ^ 59 + 1) 300 [] ≡ panicked)
    ↔ (2 ^ 63 ≤ (2 ^ 59 + 1 - 1) * 20 % 2 ^ 64)
handle_list_jobs_panics_example =
    handle_list_jobs_panics (λ jobs. jobs) "" (2 ^ 59 + 1) 300 20 [] (inr (inr (omega arith), refl))
