-- ===== src/Ipam/Tests.antt =====
-- Runs of the address allocator, and its theorems at these inputs.
use rymevisor.Common.{
  ℕ, ◌+◌, ◌≡◌, ◌↔◌, refl, ap, true, Option, none, some, List, [], ◌∷◌, ◌⊎◌, arith, contains, take,
  length, ◌++◌, ◌≤◌,
}
use rymevisor.Common.Effect.{ok}
use rymevisor.Net.{
  Text, codes, v4, IpNet, slash, parse_cidr, decimal, dotted_quad, show_ip, contains_v4,
}
use rymevisor.Ipam.{
  Allocation, exhausted, used_set, next_available_ip, gateway_ip, bare_ip, cidr_prefix,
  bridge_for_network,
}
use rymevisor.Ipam.Allocate.{IsHost, IsFirstUnused, next_available_ip_total}
use rymevisor.Ipam.Reuse.{next_available_ip_helpers}
use rymevisor.Ipam.Bridge.{undashed, Dashless, bridge_for_network_shared}
use rymevisor.Ipam.Floating.{find_available_ip, found, failed, none_left, find_available_ip-eq-next}

-- No text reads as an IPv6 address.
abbrev no_v6 : Text → Option Text
no_v6 t = none

abbrev cidr : Text
cidr = codes "10.0.0.8/29"

abbrev tiny : Text
tiny = codes "10.0.0.8/31"

abbrev taken : List Text
taken = codes "10.0.0.10/29" ∷ codes "10.0.0.11" ∷ codes "x" ∷ []

-- 10.0.0.8
abbrev net_base : ℕ
net_base = 167772168

abbrev block : IpNet
block = record { base = some net_base; ones = 29 }

cidr_parses : parse_cidr no_v6 cidr ≡ some (v4 net_base, block)
unfolding parse_cidr
cidr_parses = refl

allocates :
    next_available_ip no_v6 cidr taken
    ≡ record { allocated = codes "10.0.0.12/29"; gateway = codes "10.0.0.9"; error = none }
unfolding next_available_ip parse_cidr dotted_quad decimal show_ip contains_v4
allocates = refl

next_available_ip_total_example :
    let r = next_available_ip no_v6 cidr taken in
    ((a : ℕ) × IsFirstUnused block net_base (used_set no_v6 taken) a
      × (r.allocated ≡ dotted_quad a (slash ∷ decimal 29 []))
      × (r.gateway ≡ dotted_quad (net_base + 1) [])
      × (r.error ≡ none))
    ⊎ ((r.error ≡ some exhausted)
        × ((j : ℕ) → IsHost block net_base j → contains (used_set no_v6 taken) j ≡ true))
next_available_ip_total_example =
    next_available_ip_total no_v6 cidr taken (v4 net_base) block net_base cidr_parses refl

next_available_ip_helpers_example :
    let r = next_available_ip no_v6 cidr taken in
    (a : ℕ) × IsHost block net_base a
    × (bare_ip no_v6 r.allocated ≡ dotted_quad a [])
    × (cidr_prefix no_v6 r.allocated ≡ cidr_prefix no_v6 cidr)
    × (gateway_ip no_v6 cidr ≡ ok r.gateway)
next_available_ip_helpers_example =
    next_available_ip_helpers no_v6 cidr taken (v4 net_base) block net_base cidr_parses refl
      (ap (λ (r : Allocation). r.error) allocates)

allocates_next :
    (next_available_ip no_v6 cidr ((next_available_ip no_v6 cidr taken).allocated ∷ taken)).error
    ≡ none
unfolding next_available_ip parse_cidr dotted_quad decimal show_ip contains_v4
allocates_next = refl

find_available_ip-eq-next_example :
    let r = next_available_ip no_v6 cidr taken in
    ((r.error ≡ none) × (find_available_ip no_v6 cidr taken ≡ found (bare_ip no_v6 r.allocated)))
    ⊎ ((r.error ≡ some exhausted) × (find_available_ip no_v6 cidr taken ≡ failed none_left))
find_available_ip-eq-next_example =
    find_available_ip-eq-next no_v6 cidr taken (v4 net_base) block net_base cidr_parses refl
      (omega arith)

tiny_parses : parse_cidr no_v6 tiny ≡ some (v4 net_base, record { base = some net_base; ones = 31 })
unfolding parse_cidr
tiny_parses = refl

-- Two ids that differ, from their ninth character on.
abbrev one_id : Text
one_id = codes "3f2a-91c7-aaaa"

abbrev other_id : Text
other_id = codes "3f2a91c7-bbbb"

bridge_for_network_shared_example :
    ((bridge_for_network one_id ≡ bridge_for_network other_id)
      ↔ (take 8 (undashed one_id) ≡ take 8 (undashed other_id)))
    × (bridge_for_network one_id ≡ ok (codes "br-" ++ take 8 (undashed one_id)))
    × Dashless (take 8 (undashed one_id))
    × (length (codes "br-" ++ take 8 (undashed one_id)) ≤ 11)
bridge_for_network_shared_example = bridge_for_network_shared one_id other_id (λ e. cc) (λ e. cc)
