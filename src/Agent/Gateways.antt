-- ===== src/Agent/Gateways.antt =====
-- The gateway that the control plane sends for an address, and the one that the agent would choose.
use rymevisor.Common.{
  ℕ, ◌+◌, ◌-◌, ◌%◌, ◌<◌, ◌≡◌, ◌≢◌, inl, inr, none, some, [], ◌∷◌, Option-cases, arith,
}
use rymevisor.Net.{
  Text, Address, v4, v6, IpNet, slash, parse_ip, parse_cidr, decimal, dotted_quad, show_ip, mask_to,
}
use rymevisor.Common.Bits.{pow_pos}
use rymevisor.Net.RoundTrip.{parse_cidr-dotted_quad}
use rymevisor.Ipam.{u32}
use rymevisor.Ipam.Block.{parse_cidr-IsBlock, parse_ip-lt}
use rymevisor.Control.StartConfig.{
  increment, number_of, bytes_of, with_prefix, parse_block, gateway_from_ip,
}
use rymevisor.Agent.Host.{Platform}
use rymevisor.Agent.Interfaces.{gateway_from_cidr}

with_prefix-decimal :
    (n : ℕ) (rest : Text) → with_prefix (decimal n rest) ≡ decimal n (with_prefix rest)
unfolding with_prefix decimal
with_prefix-decimal n rest = ground arith

with_prefix-dotted_quad :
    (a : ℕ) → with_prefix (dotted_quad a []) ≡ dotted_quad a (slash ∷ decimal 24 [])
unfolding with_prefix dotted_quad
with_prefix-dotted_quad a = simp with_prefix-decimal

-- The carry over the bytes adds one to a 32-bit address.
increment_wraps : (a : ℕ) → a < 4294967296 → number_of (increment (bytes_of a)) ≡ u32 (a + 1)
unfolding number_of increment
increment_wraps a h = ground arith

module _ (os : Platform) (gateway6 : Text → Text) (t : Text) where
  agree_in_block :
      (x : Address) (n : IpNet) (network : ℕ)
      → parse_cidr os.canonical t ≡ some (x, n)
      → n.base ≡ some network
      → gateway_from_ip os.canonical gateway6 t ≡ gateway_from_cidr os t
  unfolding gateway_from_ip parse_block gateway_from_cidr
  agree_in_block x n network block base =
      let b = parse_cidr-IsBlock os.canonical t x n network block base in
      let lt : network < 4294967296 = omega (arith, b.fits, pow_pos (32 - n.ones)) in
      ground (arith, increment_wraps network lt)

  agree_alone :
      (a : ℕ)
      → parse_cidr os.canonical t ≡ none
      → parse_ip os.canonical t ≡ some (v4 a)
      → gateway_from_ip os.canonical gateway6 t ≡ gateway_from_cidr os t
  unfolding gateway_from_ip parse_block gateway_from_cidr show_ip
  agree_alone a block alone =
      let lt = parse_ip-lt os.canonical t a alone in
      let written = parse_cidr-dotted_quad os.canonical a 24 (omega (arith, lt)) (omega arith) in
      let base : mask_to 24 a < 4294967296 = omega (arith, lt) in
      let same : u32 (mask_to 24 a + 1) ≡ a - a % 256 + 1 = omega (arith, lt) in
      ground (arith, with_prefix-dotted_quad a, written, increment_wraps (mask_to 24 a) base, same)

-- For a text that is an IPv4 address, alone or with a prefix length, or neither address nor block,
-- the control plane's gateway is the one that the agent would choose.
pub gateway_from_ip-eq-gateway_from_cidr :
    (os : Platform) (gateway6 : Text → Text) (t : Text)
    → ((x : Address) (n : IpNet) → parse_cidr os.canonical t ≡ some (x, n) → n.base ≢ none)
    → ((u : Text) → parse_ip os.canonical t ≢ some (v6 u))
    → gateway_from_ip os.canonical gateway6 t ≡ gateway_from_cidr os t
gateway_from_ip-eq-gateway_from_cidr os gateway6 t block4 alone4 =
    elim (Option-cases (parse_cidr os.canonical t)) [
      | inr ((x, n), block) ↦ elim (Option-cases n.base) [
        | inl missing ↦ absurd (block4 x n block missing)
        | inr (network, base) ↦ agree_in_block os gateway6 t x n network block base
      ]
      | inl block ↦ elim (Option-cases (parse_ip os.canonical t)) [
        | inl bad ↦
            unfold gateway_from_ip parse_block gateway_from_cidr in ground (arith, block, bad)
        | inr (v4 a, alone) ↦ agree_alone os gateway6 t a block alone
        | inr (v6 u, alone) ↦ absurd (alone4 u alone)
      ]
    ]
