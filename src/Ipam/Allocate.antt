-- ===== src/Ipam/Allocate.antt =====
-- What NextAvailableIP hands out.
use rymevisor.Common.{
  ℕ, ◌+◌, ◌-◌, ◌^◌, ◌≤◌, ◌<◌, ◌≡◌, ◌↔◌, refl, true, false, ◌⊎◌, Option, none, some, List, [], ◌∷◌,
  arith, contains, Bool-cases, Option-cases, inl, inr,
}
use rymevisor.Common.Bits.{pow_pos}
use rymevisor.Net.{Text, Address, IpNet, slash, parse_cidr, decimal, dotted_quad}
use rymevisor.Ipam.{exhausted, u32, used_set, scan, broadcast_of, allocation_of, next_available_ip}
use rymevisor.Ipam.Scan.{IsFree, scan-some, scan-some_first, scan-none}
use rymevisor.Ipam.Block.{IsBlock, parse_cidr-IsBlock, broadcast-IsBlock, contains_v4-IsBlock}

-- The addresses of a block but the network's, the gateway's and the broadcast address.
abbrev pub IsHost : IpNet → ℕ → ℕ → Type 0
IsHost n network a = (network + 2 ≤ a) × (a + 1 < network + 2 ^ (32 - n.ones))

module _ (canonical : Text → Option Text) where
  -- What the candidate loop reserves besides the used addresses.
  abbrev pub reserved : IpNet → ℕ → List Text → List ℕ
  reserved n network us =
      network ∷ u32 (network + 1) ∷ broadcast_of network n.ones ∷ used_set canonical us

  abbrev pub chosen : IpNet → ℕ → List Text → Option ℕ
  chosen n network us =
      let broadcast = broadcast_of network n.ones in
      scan n (reserved n network us) broadcast (broadcast - u32 (network + 2)) (u32 (network + 2))

  module _ (n : IpNet) (network : ℕ) (us : List Text) (based : n.base ≡ some network)
      (b : IsBlock n network) where
    -- In a block, free for the loop means an unused host address.
    IsFree-iff :
        (a : ℕ)
        → IsFree n (reserved n network us) a
          ↔ (IsHost n network a × (contains (used_set canonical us) a ≡ false))
    IsFree-iff a = (
      λ f. ground (
        arith,
        (contains_v4-IsBlock a based b).0,
        broadcast-IsBlock b,
        pow_pos (32 - n.ones),
        b.fits,
      ),
      λ f. ground (
        arith,
        (contains_v4-IsBlock a based b).1,
        broadcast-IsBlock b,
        pow_pos (32 - n.ones),
        b.fits,
      ),
    )

    last-lt : broadcast_of network n.ones < 4294967296
    last-lt = omega (arith, broadcast-IsBlock b, b.fits, pow_pos (32 - n.ones))

    start-le : (j : ℕ) → IsHost n network j → u32 (network + 2) ≤ j
    start-le j h = omega (arith, b.fits)

    pub chosen-IsHost :
        (a : ℕ)
        → chosen n network us ≡ some a
        → IsHost n network a × (contains (used_set canonical us) a ≡ false)
    chosen-IsHost a e = (IsFree-iff a).0 (scan-some n _ _ last-lt _ _ a e).2

    pub chosen_first :
        (a j : ℕ)
        → chosen n network us ≡ some a
        → IsHost n network j
        → j < a
        → contains (used_set canonical us) j ≡ true
    chosen_first a j e host lt = elim (Bool-cases (contains (used_set canonical us) j)) [
      | inl used ↦ used
      | inr unused ↦ absurd (
          scan-some_first n _ _ last-lt _ _ a j e (start-le j host) lt
            ((IsFree-iff j).1 (host, unused)))
    ]

    pub chosen-none :
        (j : ℕ)
        → chosen n network us ≡ none
        → IsHost n network j
        → contains (used_set canonical us) j ≡ true
    chosen-none j e host = elim (Bool-cases (contains (used_set canonical us) j)) [
      | inl used ↦ used
      | inr unused ↦ absurd (
          scan-none n _ _ last-lt _ _ j enough e (start-le j host) below
            ((IsFree-iff j).1 (host, unused)))
    ]
      where
        enough :
            broadcast_of network n.ones
            ≤ u32 (network + 2) + (broadcast_of network n.ones - u32 (network + 2))
        enough = omega arith

        below : j < broadcast_of network n.ones
        below = omega (arith, broadcast-IsBlock b, host)

-- `a` is the first host address of the block that `used` does not list.
pub record IsFirstUnused (n : IpNet) (network : ℕ) (used : List ℕ) (a : ℕ) : Type 0 where
  pub host : IsHost n network a
  pub unused : contains used a ≡ false
  pub first : (j : ℕ) → IsHost n network j → j < a → contains used j ≡ true

module _ (canonical : Text → Option Text) (cidr : Text) (us : List Text) (x : Address) (n : IpNet)
    (network : ℕ) (parsed : parse_cidr canonical cidr ≡ some (x, n))
    (based : n.base ≡ some network) where
  block : IsBlock n network
  block = parse_cidr-IsBlock canonical cidr x n network parsed based

  pub allocation_lem :
      next_available_ip canonical cidr us
      ≡ allocation_of n (u32 (network + 1)) (chosen canonical n network us)
  unfolding next_available_ip
  allocation_lem = rw (parsed, next_available_ip) (ground arith)

  -- For a text that parses as an IPv4 block, NextAvailableIP succeeds with the first unused host
  -- address, written with the prefix length of the block, and the address after the network's as
  -- the gateway; or it reports exhaustion, and every host address of the block is used.
  pub next_available_ip_total :
      let r = next_available_ip canonical cidr us in
      ((a : ℕ) × IsFirstUnused n network (used_set canonical us) a
        × (r.allocated ≡ dotted_quad a (slash ∷ decimal n.ones []))
        × (r.gateway ≡ dotted_quad (network + 1) [])
        × (r.error ≡ none))
      ⊎ ((r.error ≡ some exhausted)
          × ((j : ℕ) → IsHost n network j → contains (used_set canonical us) j ≡ true))
  next_available_ip_total = elim (Option-cases (chosen canonical n network us)) [
    | inl e ↦
        rw (allocation_lem, e)
          (inr (refl, λ j h. chosen-none canonical n network us based block j e h))
    | inr (a, e) ↦
        let good = chosen-IsHost canonical n network us based block a e in
        let near : u32 (network + 1) ≡ network + 1 = omega (arith, good.0, block.fits) in
        rw (allocation_lem, e, near)
          (inl (
            a,
            record {
              host = good.0;
              unused = good.1;
              first = λ j h lt. chosen_first canonical n network us based block a j e h lt;
            },
            refl,
            refl,
            refl,
          ))
  ]
