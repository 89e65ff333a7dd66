-- ===== src/Ipam/Reuse.antt =====
-- Allocated texts read back: by the other helpers of the file, and by a later allocation.
use rymevisor.Common.{
  ℕ, ◌+◌, ◌^◌, ◌≤◌, ◌<◌, ◌≡◌, sym, ◌∙◌, false, Option, none, some, List, [], ◌∷◌, arith, contains,
  inl, inr,
}
use rymevisor.Common.Effect.{ok}
use rymevisor.Net.{Text, Address, IpNet, slash, parse_cidr, decimal, dotted_quad, show_ip}
use rymevisor.Net.RoundTrip.{parse_ip-dotted_quad, parse_cidr-dotted_quad}
use rymevisor.Ipam.{u32, used_set, next_available_ip, gateway_ip, bare_ip, cidr_prefix}
use rymevisor.Ipam.Block.{IsBlock, parse_cidr-IsBlock}
use rymevisor.Ipam.Allocate.{IsHost, next_available_ip_total}

-- A used text of the form "%s/%d" puts its address into the set.
pub used_set-dotted_quad :
    (canonical : Text → Option Text) (a k : ℕ) (us : List Text)
    → a < 2 ^ 32
    → k ≤ 32
    → used_set canonical (dotted_quad a (slash ∷ decimal k []) ∷ us) ≡ a ∷ used_set canonical us
unfolding used_set show_ip
used_set-dotted_quad canonical a k us h low =
    ground (arith, parse_cidr-dotted_quad canonical a k h low, parse_ip-dotted_quad canonical a h)

module _ (canonical : Text → Option Text) (cidr : Text) (x : Address) (n : IpNet)
    (parsed : parse_cidr canonical cidr ≡ some (x, n)) where
  pub bare_ip-parsed : bare_ip canonical cidr ≡ show_ip x
  unfolding bare_ip
  bare_ip-parsed = ground arith

  cidr_prefix-parsed : cidr_prefix canonical cidr ≡ n.ones
  unfolding cidr_prefix
  cidr_prefix-parsed = ground arith

  gateway_ip-parsed :
      (network : ℕ)
      → n.base ≡ some network
      → gateway_ip canonical cidr ≡ ok (dotted_quad (u32 (network + 1)) [])
  unfolding gateway_ip
  gateway_ip-parsed network e = ground arith

module _ (canonical : Text → Option Text) (cidr : Text) (us : List Text) (x : Address) (n : IpNet)
    (network : ℕ) (parsed : parse_cidr canonical cidr ≡ some (x, n))
    (based : n.base ≡ some network) where
  block : IsBlock n network
  block = parse_cidr-IsBlock canonical cidr x n network parsed based

  host-lt : (a : ℕ) → IsHost n network a → a < 2 ^ 32
  host-lt a h = omega (arith, block.fits, h)

  -- When NextAvailableIP succeeds, BareIP of its answer is an address of the block, CIDRPrefix of
  -- its answer is that of the block, and GatewayIP of the block is its gateway.
  pub next_available_ip_helpers :
      let r = next_available_ip canonical cidr us in
      r.error ≡ none
      → (a : ℕ) × IsHost n network a
        × (bare_ip canonical r.allocated ≡ dotted_quad a [])
        × (cidr_prefix canonical r.allocated ≡ cidr_prefix canonical cidr)
        × (gateway_ip canonical cidr ≡ ok r.gateway)
  unfolding show_ip
  next_available_ip_helpers e =
      elim (next_available_ip_total canonical cidr us x n network parsed based) [
        | inl (a, first, text, gate, fine) ↦
            let back =
              parse_cidr-dotted_quad canonical a n.ones (host-lt a first.host) block.ones_le in
            let near : u32 (network + 1) ≡ network + 1 = omega (arith, first.host, block.fits) in
            (
              a,
              first.host,
              rw text (bare_ip-parsed canonical _ _ _ back),
              rw text (
                  cidr_prefix-parsed canonical _ _ _ back
                  ∙ sym (cidr_prefix-parsed canonical cidr x n parsed)),
              gateway_ip-parsed canonical cidr x n parsed network based ∙ rw (near, gate),
            )
        | inr (full, _) ↦ absurd (ground arith)
      ]

  -- When NextAvailableIP succeeds, and succeeds again with its answer among the used addresses, the
  -- second address comes after the first.
  next_available_ip_twice :
      let r = next_available_ip canonical cidr us in
      let r' = next_available_ip canonical cidr (r.allocated ∷ us) in
      r.error ≡ none
      → r'.error ≡ none
      → (a a' : ℕ) × (r.allocated ≡ dotted_quad a (slash ∷ decimal n.ones []))
        × (r'.allocated ≡ dotted_quad a' (slash ∷ decimal n.ones []))
        × (a < a')
        × IsHost n network a'
  next_available_ip_twice e e' =
      elim (next_available_ip_total canonical cidr us x n network parsed based) [
        | inr (full, _) ↦ absurd (ground arith)
        | inl (a, first, text, _, _) ↦
            elim (next_available_ip_total canonical cidr
              ((next_available_ip canonical cidr us).allocated ∷ us) x n network parsed based) [
                | inr (full, _) ↦ absurd (ground arith)
                | inl (a', first', text', _, _) ↦
                    let added : used_set canonical
                          ((next_available_ip canonical cidr us).allocated ∷ us)
                        ≡ a ∷ used_set canonical us =
                      rw text (
                        used_set-dotted_quad canonical a n.ones us (host-lt a first.host)
                          block.ones_le) in
                    let fresh : contains (a ∷ used_set canonical us) a' ≡ false =
                      rw added at first'.unused in
                    (
                      a,
                      a',
                      text,
                      text',
                      ground (arith, fresh, first.first a' first'.host),
                      first'.host,
                    )
              ]
      ]
