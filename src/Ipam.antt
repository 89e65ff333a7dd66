-- ===== src/Ipam.antt =====
-- internal/ipam/ipam.go. A returned error is a constructor of `IpamError`.
pub mod Scan
pub mod Block
pub mod Allocate
pub mod Reuse
pub mod Bridge
pub mod Floating
mod Tests
use rymevisor.Common.{
  ℕ, zero, suc, ◌+◌, ◌-◌, ◌%◌, ◌^◌, Bool, true, false, Option, none, some, List, [], ◌∷◌, ltb, leb,
  ◌==◌, if◌then◌else◌, contains, length, take,
}
use rymevisor.Common.Effect.{Result, ok, err}
use rymevisor.Net.{
  Text, Address, v4, v6, IpNet, slash, codes, parse_ip, parse_cidr, contains_v4, decimal,
  dotted_quad, show_ip,
}
use Prim.Native.Nat.{bit_or}

pub data IpamError : Type 0 where
  invalid_cidr only_ipv4 exhausted network_id_required : IpamError

-- uint32
abbrev pub u32 : ℕ → ℕ
u32 n = n % 4294967296

-- ^mask of a uint32
abbrev pub complement : ℕ → ℕ
complement m = 4294967295 - m

-- binary.BigEndian.Uint32 of the mask with `ones` leading ones.
abbrev pub mask_of : ℕ → ℕ
mask_of ones = 4294967296 - 2 ^ (32 - ones)

-- (IP).To4
abbrev pub to_v4 : Option Address → Option ℕ
to_v4 (some (v4 a)) = some a
to_v4 _ = none

module _ (canonical : Text → Option Text) where
  -- The text of a used address: of a CIDR, its address.
  abbrev pub used_text : Text → Text
  used_text u = elim (parse_cidr canonical u) [ none ↦ u | some (a, n) ↦ show_ip a ]

  -- The loop that fills `usedSet`.
  unfoldable pub used_set : List Text → List ℕ
  used_set [] = []
  used_set (u ∷ us) =
      let rest = used_set us in
      elim (to_v4 (parse_ip canonical (used_text u))) [ none ↦ rest | some a ↦ a ∷ rest ]

-- `for candidate := …; candidate < broadcast; candidate++`: the first candidate that is unused and
-- inside the block. Fuel for each value up to the broadcast address is enough.
unfoldable pub scan : IpNet → List ℕ → ℕ → ℕ → ℕ → Option ℕ
scan n used broadcast zero candidate = none
scan n used broadcast (suc fuel) candidate =
    let rest = scan n used broadcast fuel (u32 (candidate + 1)) in
    if ltb candidate broadcast
    then (if contains used candidate
        then rest
        else if contains_v4 n candidate
        then some candidate
        else rest)
    else none

-- What NextAvailableIP returns: the allocated CIDR, the gateway, and the error.
pub record Allocation : Type 0 where
  pub allocated : Text
  pub gateway : Text
  pub error : Option IpamError

abbrev pub broadcast_of : ℕ → ℕ → ℕ
broadcast_of network ones = bit_or network (complement (mask_of ones))

-- The results of NextAvailableIP once the loop has ended.
abbrev pub allocation_of : IpNet → ℕ → Option ℕ → Allocation
allocation_of n gateway none = record {
  allocated = [];
  gateway = dotted_quad gateway [];
  error = some exhausted;
}
allocation_of n gateway (some a) = record {
  allocated = dotted_quad a (slash ∷ decimal n.ones []);
  gateway = dotted_quad gateway [];
  error = none;
}

module _ (canonical : Text → Option Text) where
  -- The part of NextAvailableIP after the block has been parsed.
  unfoldable pub next_in_block : IpNet → ℕ → List Text → Allocation
  unfolding scan used_set
  next_in_block n network used_ips =
      let broadcast = broadcast_of network n.ones in
      let gateway = u32 (network + 1) in
      let used = network ∷ gateway ∷ broadcast ∷ used_set canonical used_ips in
      let start = u32 (network + 2) in
      allocation_of n gateway (scan n used broadcast (broadcast - start) start)

  unfoldable pub next_available_ip : Text → List Text → Allocation
  unfolding next_in_block
  next_available_ip cidr used_ips = elim (parse_cidr canonical cidr) [
    | none ↦ record { allocated = []; gateway = []; error = some invalid_cidr }
    | some (_, n) ↦ elim n.base [
      | none ↦ record { allocated = []; gateway = []; error = some only_ipv4 }
      | some network ↦ next_in_block n network used_ips
    ]
  ]

  unfoldable pub gateway_ip : Text → Result IpamError Text
  gateway_ip cidr = elim (parse_cidr canonical cidr) [
    | none ↦ err invalid_cidr
    | some (_, n) ↦ elim n.base [
      | none ↦ err only_ipv4
      | some network ↦ ok (dotted_quad (u32 (network + 1)) [])
    ]
  ]

  unfoldable pub bare_ip : Text → Text
  bare_ip cidr_or_ip = elim (parse_cidr canonical cidr_or_ip) [
    | some (a, _) ↦ show_ip a
    | none ↦ elim (parse_ip canonical cidr_or_ip) [ some a ↦ show_ip a | none ↦ cidr_or_ip ]
  ]

  unfoldable pub cidr_prefix : Text → ℕ
  cidr_prefix cidr = elim (parse_cidr canonical cidr) [ none ↦ 24 | some (_, n) ↦ n.ones ]

-- strings.ReplaceAll(networkID, "-", "")
unfoldable pub drop_dashes : Text → Text
drop_dashes [] = []
drop_dashes (c ∷ rest) = let kept = drop_dashes rest in if c == b'-' then kept else c ∷ kept

abbrev pub bridge_prefix : Text → Text
bridge_prefix t = b'b' ∷ b'r' ∷ b'-' ∷ t

unfoldable pub bridge_for_network : Text → Result IpamError Text
unfolding drop_dashes
bridge_for_network [] = err network_id_required
bridge_for_network (c ∷ cs) =
    let cleaned = drop_dashes (c ∷ cs) in
    if ltb (length cleaned) 8
    then ok (bridge_prefix cleaned)
    else ok (bridge_prefix (take 8 cleaned))
