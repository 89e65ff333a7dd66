-- ===== src/Ipam/Scan.antt =====
-- The candidate loop finds the first free address, or there is none.
use rymevisor.Common.{
  ℕ, zero, suc, ◌+◌, ◌≤◌, ◌<◌, ◌≡◌, true, false, none, some, List, arith, contains,
}
use rymevisor.Net.{IpNet, contains_v4}
use rymevisor.Ipam.{scan, u32}

module _ (n : IpNet) (used : List ℕ) where
  abbrev pub IsFree : ℕ → Type 0
  IsFree a = (contains used a ≡ false) × (contains_v4 n a ≡ true)

  module _ (broadcast : ℕ) (small : broadcast < 4294967296) where
    -- What the loop returns is free and lies between its start and the broadcast address.
    pub scan-some :
        (fuel c a : ℕ)
        → scan n used broadcast fuel c ≡ some a
        → (c ≤ a) × (a < broadcast) × IsFree a
    unfolding scan
    scan-some zero c a e = ground arith
    scan-some (suc fuel) c a e = ground (arith, scan-some fuel (u32 (c + 1)) a)

    -- No candidate that it passed over is free.
    pub scan-some_first :
        (fuel c a j : ℕ) → scan n used broadcast fuel c ≡ some a → c ≤ j → j < a → ¬ IsFree j
    unfolding scan
    scan-some_first zero c a j e low high free = ground arith
    scan-some_first (suc fuel) c a j e low high free =
        ground (arith, scan-some_first fuel (u32 (c + 1)) a j)

    -- With enough fuel it finds nothing only where nothing is free.
    pub scan-none :
        (fuel c j : ℕ)
        → broadcast ≤ c + fuel
        → scan n used broadcast fuel c ≡ none
        → c ≤ j
        → j < broadcast
        → ¬ IsFree j
    unfolding scan
    scan-none zero c j enough e low high free = absurd (omega arith)
    scan-none (suc fuel) c j enough e low high free = ground (arith, scan-none fuel (u32 (c + 1)) j)
