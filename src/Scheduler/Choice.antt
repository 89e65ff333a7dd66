-- ===== src/Scheduler/Choice.antt =====
-- What Schedule chooses and records.
use mathlib.Core.List.{
  Mem, mem-cons, mem-cons_self, mem-map_of_mem, exists_of_mem-map, not-mem-nil, Perm,
}
use mathlib.Core.List.Perm
use mathlib.Core.Logic.{∥∥₁_elim}
use mathlib.Core.Logic.Or
use rymevisor.Common.{
  ◌≡◌, ◌≢◌, refl, sym, ap, Bool, true, false, Option, none, List, [], ◌∷◌, subst, arith, String,
  All, map,
}
use rymevisor.Common.Effect.{ok}
use rymevisor.Common.Int.{ℤ}
use rymevisor.Common.Table.{select}
use rymevisor.Scheduler.{NodeInfo, SchedulingConstraints, ScheduledJob}
use rymevisor.Scheduler.Filter.{filter_nodes}
use rymevisor.Scheduler.Score.{Float64, ScoredNode, calculate_score, score_nodes}
use rymevisor.Scheduler.Repository.{Jobs, vm_key, put_job}
use rymevisor.Scheduler.Service.{Sort, is_higher, nodes_of, schedule}

-- What a schedule call leaves alone, and the job that it adds.
abbrev pub job_of : String → String → Option SchedulingConstraints → ℤ → ScheduledJob
job_of vm node constraints priority = record {
  vm_id = vm;
  node_id = node;
  priority = priority;
  constraints = constraints;
}

-- What sort.Slice asks of a comparison: an order where elements may be equal.
pub record IsStrictOrder {A : Type 0} (less : A → A → Bool) : Type 0 where
  pub irreflexive : (a : A) → less a a ≡ false
  pub asymmetric : (a b : A) → less a b ≡ true → less b a ≡ false
  pub through : (a b c : A) → less a b ≡ false → less b c ≡ false → less a c ≡ false

-- No element comes before an earlier one.
abbrev pub IsSorted : {A : Type 0} → (A → A → Bool) → List A → Type 0
IsSorted less [] = Unit
IsSorted {A} less (x ∷ xs) = All (λ (y : A). less y x ≡ false) xs × IsSorted less xs

-- What sort.Slice documents: it permutes, and sorts by any such comparison.
pub record Sorts {float : Float64} (sort : Sort float) : Type 0 where
  pub permutes :
      (less : ScoredNode float → ScoredNode float → Bool) (xs : List (ScoredNode float))
      → Perm (sort less xs) xs
  pub ordered :
      (less : ScoredNode float → ScoredNode float → Bool)
      → IsStrictOrder less
      → (xs : List (ScoredNode float)) → IsSorted less (sort less xs)

-- The comparison of scores orders the scored nodes.
is_higher-IsStrictOrder :
    (float : Float64) → IsStrictOrder float.above → IsStrictOrder (is_higher float)
is_higher-IsStrictOrder float order = record {
  irreflexive = λ a. order.irreflexive a.score;
  asymmetric = λ a b. order.asymmetric a.score b.score;
  through = λ a b c. order.through a.score b.score c.score;
}

-- `best` is a candidate, and no candidate scores above it.
pub record IsBest (float : Float64) (nodes : List NodeInfo)
    (constraints : Option SchedulingConstraints) (best : NodeInfo) : Type 0 where
  pub candidate : Mem best (filter_nodes nodes constraints)
  pub highest :
      (n : NodeInfo)
      → Mem n (filter_nodes nodes constraints)
      → float.above (calculate_score float n constraints) (calculate_score float best constraints)
        ≡ false

module _ (float : Float64) where
  abbrev scored : Option SchedulingConstraints → NodeInfo → ScoredNode float
  scored c n = record { node = n; score = calculate_score float n c }

  score_nodes-map :
      (c : Option SchedulingConstraints) (ns : List NodeInfo)
      → score_nodes float ns c ≡ map (scored c) ns
  unfolding score_nodes
  score_nodes-map c [] = refl
  score_nodes-map c (n ∷ ns) =
      ap (λ (r : List (ScoredNode float)). scored c n ∷ r) (score_nodes-map c ns)

  All-mem :
      (x : ScoredNode float) (xs : List (ScoredNode float)) (y : ScoredNode float)
      → All (λ (z : ScoredNode float). float.above z.score x.score ≡ false) xs
      → Mem y xs
      → float.above y.score x.score ≡ false
  All-mem x [] y h m = absurd (not-mem-nil m)
  All-mem x (z ∷ zs) y h m =
      Or.elim (hlevel) (mem-cons.0 m) (λ e. rw e h.0) (λ r. All-mem x zs y h.1 r)

module _ (float : Float64) (sort : Sort float) (sorts : Sorts sort)
    (order : IsStrictOrder float.above) (nodes : List NodeInfo)
    (constraints : Option SchedulingConstraints) where
  abbrev ranking : List (ScoredNode float)
  ranking = sort (is_higher float) (score_nodes float (filter_nodes nodes constraints) constraints)

  mem-ranking :
      (n : NodeInfo)
      → Mem n (filter_nodes nodes constraints)
      → Mem (scored float constraints n) ranking
  mem-ranking n m = (Perm.mem_iff (sorts.permutes _ _)).1 (
      rw (score_nodes-map float constraints (filter_nodes nodes constraints))
        (mem-map_of_mem (scored float constraints) m))

  of_mem-ranking :
      (x : ScoredNode float) (P : Type 0)
      → IsProp P
      → Mem x ranking
      → ((n : NodeInfo)
          → Mem n (filter_nodes nodes constraints)
          → scored float constraints n ≡ x
          → P)
      → P
  of_mem-ranking x P prop m k =
      ∥∥₁_elim
        (exists_of_mem-map (
          rw (score_nodes-map float constraints (filter_nodes nodes constraints)) at
            ((Perm.mem_iff (sorts.permutes _ _)).0 m)))
        prop (λ (n, here, e). k n here e)

  -- The head of the ranking is a best candidate.
  head-IsBest :
      (x : ScoredNode float) (rest : List (ScoredNode float))
      → ranking ≡ x ∷ rest
      → IsBest float nodes constraints x.node
  head-IsBest x rest e = record {
    candidate = of_mem-ranking x _ (hlevel) top (λ n here p.
        subst (λ (y : ScoredNode float). Mem y.node (filter_nodes nodes constraints)) p here);
    highest = λ n m. of_mem-ranking x _ (hlevel) top (λ b here p.
        rw (sym (ap (λ (y : ScoredNode float). y.node) p)) (
          subst (λ (s : float.Carrier). float.above (calculate_score float n constraints) s ≡ false)
            (sym (ap (λ (y : ScoredNode float). y.score) p)) (below n m)));
  }
    where
      top : Mem x ranking
      top = rw e mem-cons_self

      sorted_rest : IsSorted (is_higher float) (x ∷ rest)
      sorted_rest = subst (IsSorted (is_higher float)) e (
          sorts.ordered (is_higher float) (is_higher-IsStrictOrder float order)
            (score_nodes float (filter_nodes nodes constraints) constraints))

      below :
          (n : NodeInfo)
          → Mem n (filter_nodes nodes constraints)
          → float.above (calculate_score float n constraints) x.score ≡ false
      below n m =
          Or.elim (hlevel) (mem-cons.0 (rw e at (mem-ranking n m)))
            (λ q. rw (sym q) (order.irreflexive _))
            (λ q. All-mem float x rest (scored float constraints n) (sorted_rest.0) q)

  module _ (vm : String) (priority : ℤ) (jobs : Jobs) where
    -- With a sort.Slice that permutes a list and sorts it by any strict order, and scores that `>`
    -- orders strictly (none is NaN): for a VM without a job and constraints with a candidate, Schedule
    -- answers the id of a candidate that no candidate outscores, and records it as the VM's job.
    pub schedule-IsBest :
        select vm_key vm jobs ≡ none
        → filter_nodes nodes constraints ≢ []
        → (best : NodeInfo) × IsBest float nodes constraints best
          × (schedule float sort (nodes_of nodes) vm constraints priority jobs
              ≡ (ok best.id, put_job (job_of vm best.id constraints priority) jobs))
    unfolding schedule
    schedule-IsBest new some_left = go ranking refl
      where
        go :
            (r : List (ScoredNode float))
            → ranking ≡ r
            → (best : NodeInfo) × IsBest float nodes constraints best
              × (schedule float sort (nodes_of nodes) vm constraints priority jobs
                  ≡ (ok best.id, put_job (job_of vm best.id constraints priority) jobs))
        go [] e = absurd (some_left (empty (filter_nodes nodes constraints) refl))
          where
            empty : (c : List NodeInfo) → filter_nodes nodes constraints ≡ c → c ≡ []
            empty [] p = refl
            empty (n ∷ ns) p = absurd (not-mem-nil (rw e at (mem-ranking n (rw p mem-cons_self))))
        go (x ∷ rest) e = (x.node, head-IsBest x rest e, ground (arith, e))
