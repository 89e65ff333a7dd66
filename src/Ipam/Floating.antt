-- ===== src/Ipam/Floating.antt =====
-- FindAvailableIP of services/network/postgres/floating_ip_repository.go. The rows of its query are
-- an argument. It repeats the search of NextAvailableIP over a set that it fills in its own way.
use rymevisor.Common.{
  ℕ, ◌+◌, ◌-◌, ◌^◌, ◌≤◌, ◌<◌, ◌≡◌, refl, sym, ◌∙◌, ap, Bool, false, ◌||◌, ◌⊎◌, Option, none, some,
  List, [], ◌∷◌, arith, leb, ◌==◌, if◌then◌else◌, Option-cases, inl, inr,
}
use rymevisor.Net.{
  Text, Address, v4, v6, IpNet, slash, cut, parse_ip, parse_cidr, dotted_quad, show_ip,
}
use rymevisor.Net.RoundTrip.{parse_ip-dotted_quad, parse_cidr-dotted_quad}
use rymevisor.Ipam.Reuse.{bare_ip-parsed}
use rymevisor.Ipam.{
  u32, to_v4, used_text, used_set, scan, broadcast_of, exhausted, next_available_ip, bare_ip,
}
use rymevisor.Ipam.Block.{IsBlock, parse_cidr-IsBlock, broadcast-IsBlock, parse_cidr-lt}
use rymevisor.Ipam.Allocate.{IsHost, allocation_lem, chosen, chosen-IsHost}

pub data FloatingError : Type 0 where
  bad_cidr not_ipv4 prefix_too_small none_left : FloatingError

pub data Found : Type 0 where
  found : Text → Found
  failed : FloatingError → Found

abbrev pub found_of : Option ℕ → Found
found_of none = failed none_left
found_of (some a) = found (dotted_quad a [])

module _ (canonical : Text → Option Text) where
  abbrev has_slash : Text → Bool
  has_slash [] = false
  has_slash (c ∷ cs) = (c == slash) || has_slash cs

  abbrev row_text : Text → Text
  row_text row =
      if has_slash row
      then elim (parse_cidr canonical row) [ none ↦ row | some (a, _) ↦ show_ip a ]
      else row

  -- The address that a row adds to usedSet.
  unfoldable pub row_address : Text → Option ℕ
  row_address row = elim (parse_ip canonical (row_text row)) [
    | some a ↦ to_v4 (some a)
    | none ↦ elim (parse_cidr canonical row) [ none ↦ none | some (a, _) ↦ to_v4 (some a) ]
  ]

  unfoldable pub rows_set : List Text → List ℕ
  unfolding row_address
  rows_set [] = []
  rows_set (row ∷ rows) =
      let rest = rows_set rows in elim (row_address row) [ none ↦ rest | some a ↦ a ∷ rest ]

  -- `broadcast - network` is a uint32 difference.
  unfoldable pub find_in_block : IpNet → ℕ → List Text → Found
  unfolding rows_set
  find_in_block n network rows =
      let broadcast = broadcast_of network n.ones in
      let used = network ∷ u32 (network + 1) ∷ broadcast ∷ rows_set rows in
      let start = u32 (network + 2) in
      if leb (u32 (broadcast + 4294967296 - network)) 2
      then failed prefix_too_small
      else found_of (scan n used broadcast (broadcast - start) start)

  unfoldable pub find_available_ip : Text → List Text → Found
  unfolding find_in_block
  find_available_ip cidr rows = elim (parse_cidr canonical cidr) [
    | none ↦ failed bad_cidr
    | some (_, n) ↦ elim n.base [
      | none ↦ failed not_ipv4
      | some network ↦ find_in_block n network rows
    ]
  ]

  has_slash-cut : (s : Text) → has_slash s ≡ false → cut s ≡ none
  unfolding cut
  has_slash-cut [] h = refl
  has_slash-cut (c ∷ cs) h = ground (arith, has_slash-cut cs)

  has_slash-parse_cidr : (s : Text) → has_slash s ≡ false → parse_cidr canonical s ≡ none
  unfolding parse_cidr
  has_slash-parse_cidr s h = ground (arith, has_slash-cut s)

  -- An IPv4 address in front of a slash reads back from its own text.
  shown_address :
      (row : Text) (a : Address) (n : IpNet)
      → parse_cidr canonical row ≡ some (a, n)
      → parse_ip canonical (show_ip a) ≡ none
      → to_v4 (some a) ≡ none
  unfolding show_ip
  shown_address row (v4 a) n e bad =
      ground (arith, parse_ip-dotted_quad canonical a (parse_cidr-lt canonical row a n e))
  shown_address row (v6 t) n e bad = refl

  -- The two ways to read a row agree.
  row_address-eq :
      (row : Text) → row_address row ≡ to_v4 (parse_ip canonical (used_text canonical row))
  unfolding row_address
  row_address-eq row = elim (Option-cases (parse_cidr canonical row)) [
    | inl bare ↦ ground arith
    | inr ((a, n), e) ↦ ground (arith, has_slash-parse_cidr row, shown_address row a n e)
  ]

  pub rows_set-eq-used_set : (rows : List Text) → rows_set rows ≡ used_set canonical rows
  unfolding rows_set used_set
  rows_set-eq-used_set [] = refl
  rows_set-eq-used_set (row ∷ rows) = ground (arith, row_address-eq row, rows_set-eq-used_set rows)

module _ (canonical : Text → Option Text) (cidr : Text) (rows : List Text) (x : Address) (n : IpNet)
    (network : ℕ) (parsed : parse_cidr canonical cidr ≡ some (x, n))
    (based : n.base ≡ some network) where
  block : IsBlock n network
  block = parse_cidr-IsBlock canonical cidr x n network parsed based

  find_in_block_lem : find_available_ip canonical cidr rows ≡ find_in_block canonical n network rows
  unfolding find_available_ip
  find_in_block_lem = ground arith

  -- A block of fewer than four addresses is refused: it has no host address.
  find_available_ip_small :
      2 ^ (32 - n.ones) < 4
      → (find_available_ip canonical cidr rows ≡ failed prefix_too_small)
        × ((j : ℕ) → ¬ IsHost n network j)
  unfolding find_in_block
  find_available_ip_small small = (
    find_in_block_lem ∙ ground (arith, broadcast-IsBlock block, block.fits),
    λ j h. omega (arith, h, small),
  )

  find_in_block_large :
      4 ≤ 2 ^ (32 - n.ones)
      → find_available_ip canonical cidr rows ≡ found_of (chosen canonical n network rows)
  unfolding find_in_block
  find_in_block_large large =
      find_in_block_lem
      ∙ rw (rows_set-eq-used_set canonical rows)
          (ground (arith, broadcast-IsBlock block, block.fits))

  -- In a block of four addresses or more, FindAvailableIP finds the address that NextAvailableIP
  -- allocates, as BareIP shows it, and finds none where NextAvailableIP reports exhaustion.
  pub find_available_ip-eq-next :
      4 ≤ 2 ^ (32 - n.ones)
      → let r = next_available_ip canonical cidr rows in
        ((r.error ≡ none)
          × (find_available_ip canonical cidr rows ≡ found (bare_ip canonical r.allocated)))
        ⊎ ((r.error ≡ some exhausted) × (find_available_ip canonical cidr rows ≡ failed none_left))
  find_available_ip-eq-next large = elim (Option-cases (chosen canonical n network rows)) [
    | inl e ↦ inr (
      rw (allocation_lem canonical cidr rows x n network parsed based, e) refl,
      find_in_block_large large ∙ rw e,
    )
    | inr (a, e) ↦
        let host = (chosen-IsHost canonical n network rows based block a e).0 in
        let low : a < 2 ^ 32 = omega (arith, host, block.fits) in
        let back = parse_cidr-dotted_quad canonical a n.ones low block.ones_le in
        inl (
          rw (allocation_lem canonical cidr rows x n network parsed based, e) refl,
          find_in_block_large large
              ∙ rw (allocation_lem canonical cidr rows x n network parsed based, e)
                  (ap found (sym (bare_ip-parsed canonical _ _ _ back ∙ unfold show_ip in refl))),
        )
  ]
