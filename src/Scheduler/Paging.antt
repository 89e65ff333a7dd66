-- ===== src/Scheduler/Paging.antt =====
-- The pages of ListScheduledJobs.
use rymevisor.Common.{
  ℕ, zero, suc, ◌+◌, ◌-◌, ◌*◌, ◌%◌, ◌^◌, ◌≤◌, ◌<◌, ◌≡◌, ◌↔◌, ◌⊎◌, inl, inr, refl, ◌∙◌, ap, List, [],
  ◌∷◌, ◌++◌, arith, String, length, take, drop,
}
use native.Mathlib.Nat.{zero-add, suc-add}
use rymevisor.Scheduler.{ScheduledJob}
use rymevisor.Scheduler.Repository.{Jobs, Page, page_of, panicked, start_of, paginate}
use rymevisor.Scheduler.Service.{page_from, per_page_from, handle_list_jobs}

module _ {A : Type 0} where
  drop_all : (n : ℕ) (xs : List A) → length xs ≤ n → drop n xs ≡ []
  drop_all zero [] h = refl
  drop_all zero (x ∷ xs) h = absurd (omega arith)
  drop_all (suc n) [] h = refl
  drop_all (suc n) (x ∷ xs) h = drop_all n xs (omega arith)

  take-nil : (n : ℕ) → ◌≡◌ {A = List A} (take n []) []
  take-nil zero = refl
  take-nil (suc n) = refl

  take-append-drop : (a b : ℕ) (xs : List A) → take a xs ++ take b (drop a xs) ≡ take (a + b) xs
  take-append-drop zero b xs = ground (arith, zero-add b)
  take-append-drop (suc a) b [] = rw (take-nil b) (rw (take-nil (suc a + b)))
  take-append-drop (suc a) b (x ∷ xs) =
      rw suc-add (ap (λ (r : List A). x ∷ r) (take-append-drop a b xs))

start_of-eq :
    (page per_page : ℕ) → 1 ≤ page → start_of page per_page ≡ (page - 1) * per_page % 2 ^ 64
start_of-eq zero per_page h = absurd (omega arith)
start_of-eq (suc k) per_page h =
    let shift : suc k + 18446744073709551615 ≡ k + 18446744073709551616 = omega arith in
    let back : suc k - 1 ≡ k = omega arith in rw (shift, back) (omega arith)

abbrev pub items : Page → List ScheduledJob
items (page_of jobs total) = jobs
items panicked = []

module _ (jobs : List ScheduledJob) (per_page : ℕ) where
  -- A page whose start fits an int is the slice that its number says.
  pub paginate_slice :
      (page : ℕ)
      → 1 ≤ page
      → (page - 1) * per_page < 2 ^ 63
      → paginate jobs page per_page
        ≡ page_of (take per_page (drop ((page - 1) * per_page) jobs)) (length jobs)
  unfolding paginate
  paginate_slice page h fits =
      let start : start_of page per_page ≡ (page - 1) * per_page =
        start_of-eq page per_page h ∙ omega (arith, fits) in
      rw start (ground (arith, past))
    where
      past :
          length jobs ≤ (page - 1) * per_page
          → take per_page (drop ((page - 1) * per_page) jobs) ≡ []
      past end = rw (drop_all ((page - 1) * per_page) jobs end) (take-nil per_page)

  -- The items of the pages 1 to m, one after the other.
  pub pages : ℕ → List ScheduledJob
  pages zero = []
  pages (suc m) = pages m ++ items (paginate jobs (suc m) per_page)

  -- The pages 1 to m hold the first m * perPage jobs, each once and in order.
  pages_lem : (m : ℕ) → m * per_page < 2 ^ 63 → pages m ≡ take (m * per_page) jobs
  unfolding pages
  pages_lem zero h = let none_yet : 0 * per_page ≡ 0 = omega arith in rw none_yet
  pages_lem (suc m) h =
      let back : suc m - 1 ≡ m = omega arith in
      let next : suc m * per_page ≡ m * per_page + per_page = omega arith in
      rw
        (
          pages_lem m (omega (arith, h)),
          paginate_slice (suc m) (omega arith) (rw back (omega (arith, h))),
        )
        (rw (back, next) (take-append-drop (m * per_page) per_page jobs))

-- The size of a page: the one asked for where it is from 1 to 100, and else 20.
abbrev pub IsPageSize : ℕ → ℕ → Type 0
IsPageSize asked size =
    ((1 ≤ asked) × (asked ≤ 100) × (size ≡ asked)) ⊎ (((asked ≡ 0) ⊎ (100 < asked)) × (size ≡ 20))

per_page_from-IsPageSize : (asked size : ℕ) → IsPageSize asked size → per_page_from asked ≡ size
per_page_from-IsPageSize asked size (inl (low, high, same)) = ground (arith, low, high, same)
per_page_from-IsPageSize asked size (inr (inl off, same)) = ground (arith, off, same)
per_page_from-IsPageSize asked size (inr (inr off, same)) = ground (arith, off, same)

-- Where a page has the size asked for, from 1 to 100, or else 20, the listing panics exactly for the
-- pages whose start, (page - 1) * size in 64 bits, is a negative int; page 0 starts as page 1 does.
pub handle_list_jobs_panics :
    (order : List ScheduledJob → List ScheduledJob) (node_id : String) (page per_page size : ℕ)
    (jobs : Jobs)
    → IsPageSize per_page size
    → (handle_list_jobs order node_id page per_page jobs ≡ panicked)
      ↔ (2 ^ 63 ≤ (page - 1) * size % 2 ^ 64)
unfolding handle_list_jobs paginate
handle_list_jobs_panics order node_id zero per_page size jobs sized =
    let none_yet : (zero - 1) * size % 2 ^ 64 ≡ 0 = omega arith in
    rw (none_yet, start_of-eq 1 (per_page_from per_page) (omega arith))
      (λ e. ground arith, λ e. absurd (omega (arith, e)))
handle_list_jobs_panics order node_id (suc page) per_page size jobs sized =
    let same : page_from (suc page) ≡ suc page = ground arith in
    rw
      (
        same,
        per_page_from-IsPageSize per_page size sized,
        start_of-eq (suc page) size (omega arith),
      )
      (λ e. ground arith, λ e. ground arith)
