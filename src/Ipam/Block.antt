-- ===== src/Ipam/Block.antt =====
-- The block that ParseCIDR returns: an aligned range of 2 ^ (32 - ones) addresses below 2 ^ 32, and
-- the broadcast address, which is its last.
use rymevisor.Common.{
  ℕ, zero, suc, ◌+◌, ◌-◌, ◌*◌, ◌/◌, ◌^◌, ◌≤◌, ◌<◌, ◌≡◌, ◌↔◌, refl, sym, ◌∙◌, ap, true, Option, some,
  [], ◌∷◌, arith, leb, ◌==◌, ==_iff, Bool-cases, Option-cases, inl, inr, if◌then◌else◌,
}
use native.Mathlib.Nat.{
  pow-suc, add-zero, add-suc, mul-div_left, div-mul-le_self, lt-div-mul-add, div-eq_of_lt-le,
}
use rymevisor.Common.Bits.{bit_or_ones, pow_pos}
use rymevisor.Net.{
  Text, Address, v4, v6, IpNet, scan_v4, parse_ip, cut, scan_decimal, mask_to, in_block, parse_cidr,
  contains_v4,
}
use rymevisor.Ipam.{broadcast_of}

pow-add : (k n : ℕ) → 2 ^ k * 2 ^ n ≡ 2 ^ (k + n)
pow-add k zero = omega (arith, ap (λ (e : ℕ). 2 ^ e) (add-zero k))
pow-add k (suc n) =
    let next : 2 ^ (k + suc n) ≡ 2 ^ (k + n) * 2 = rw (add-suc, pow-suc) refl in
    rw pow-suc (omega (arith, next, pow-add k n))

-- A block of 2 ^ (32 - n) addresses, 2 ^ n times, is all of them.
blocks_fill : (n : ℕ) → n ≤ 32 → 2 ^ (32 - n) * 2 ^ n ≡ 4294967296
blocks_fill n h =
    let whole : 32 - n + n ≡ 32 = omega arith in pow-add (32 - n) n ∙ ap (λ (e : ℕ). 2 ^ e) whole

-- The bound on the number that the first octets make.
abbrev room : ℕ → ℕ
room pos = if pos == 0 then 1 else if pos == 1 then 256 else if pos == 2 then 65536 else 16777216

pub scan_v4-lt :
    (s : Text) (val len pos acc a : ℕ)
    → pos ≤ 3
    → val < 256
    → acc < room pos
    → scan_v4 s val len pos acc ≡ some a
    → a < 4294967296
unfolding scan_v4
scan_v4-lt [] val len pos acc a p v b e = ground arith
scan_v4-lt (c ∷ rest) val len pos acc a p v b e = ground (
  arith,
  scan_v4-lt rest (val * 10 + (c - 48)) (len + 1) pos acc a,
  scan_v4-lt rest 0 0 (pos + 1) (acc * 256 + val) a,
)

pub parse_ip-lt :
    (canonical : Text → Option Text) (s : Text) (a : ℕ)
    → parse_ip canonical s ≡ some (v4 a)
    → a < 4294967296
unfolding parse_ip
parse_ip-lt canonical s a e = ground (arith, scan_v4-lt s 0 0 0 0 a)

pub record IsBlock (n : IpNet) (network : ℕ) : Type 0 where
  pub index : ℕ
  pub ones_le : n.ones ≤ 32
  pub aligned : network ≡ index * 2 ^ (32 - n.ones)
  pub fits : network + 2 ^ (32 - n.ones) ≤ 4294967296

-- Every address below 2 ^ 32 lies in a whole block.
index-fits :
    (a size blocks : ℕ)
    → 0 < size
    → size * blocks ≡ 4294967296
    → a < 4294967296
    → a / size * size + size ≤ 4294967296
index-fits a size blocks h e lt = grind arith

mask_to-IsBlock :
    (a n : ℕ)
    → n ≤ 32
    → a < 4294967296
    → IsBlock (record { base = some (mask_to n a); ones = n }) (mask_to n a)
mask_to-IsBlock a n h lt = record {
  index = a / 2 ^ (32 - n);
  ones_le = h;
  aligned = refl;
  fits = index-fits a (2 ^ (32 - n)) (2 ^ n) (pow_pos (32 - n)) (blocks_fill n h) lt;
}

in_range_iff :
    (a q size : ℕ)
    → 0 < size
    → (a / size ≡ q * size / size) ↔ ((q * size ≤ a) × (a < q * size + size))
in_range_iff a q size h =
    let exact : q * size / size ≡ q = mul-div_left q h in
    (
      λ e. omega (
        arith,
        div-mul-le_self a size,
        lt-div-mul-add {a = a} h,
        ap (λ (t : ℕ). t * size) (e ∙ exact),
      ),
      λ r. div-eq_of_lt-le size r.0 (omega (arith, r.1)) ∙ sym exact,
    )

in_block-IsBlock :
    (y : Address) (m : ℕ) (x : Address) (n : IpNet) (network : ℕ)
    → ((a : ℕ) → y ≡ v4 a → a < 4294967296)
    → in_block y m ≡ some (x, n)
    → n.base ≡ some network
    → IsBlock n network
in_block-IsBlock (v4 a) m x n network lt e b = elim (Bool-cases (leb m 32)) [
  | inl fits ↦
      let same : n ≡ record { base = some (mask_to m a); ones = m } = ground arith in
      let base : network ≡ mask_to m a = ground arith in
      rw (same, base) (mask_to-IsBlock a m (ground arith) (lt a refl))
  | inr wide ↦ absurd (ground arith)
]
in_block-IsBlock (v6 t) m x n network lt e b = absurd (ground arith)

pub parse_cidr-IsBlock :
    (canonical : Text → Option Text) (s : Text) (x : Address) (n : IpNet) (network : ℕ)
    → parse_cidr canonical s ≡ some (x, n)
    → n.base ≡ some network
    → IsBlock n network
unfolding parse_cidr
parse_cidr-IsBlock canonical s x n network e b = elim (Option-cases (cut s)) [
  | inl whole ↦ absurd (ground arith)
  | inr ((addr, mask), split) ↦ elim (Option-cases (parse_ip canonical addr)) [
    | inl bad ↦ absurd (ground arith)
    | inr (y, good) ↦ elim (Option-cases (scan_decimal mask 0 0)) [
      | inl bad ↦ absurd (ground arith)
      | inr (m, read) ↦
          in_block-IsBlock y m x n network (λ a p. parse_ip-lt canonical addr a (good ∙ ap some p))
            (ground arith) b
    ]
  ]
]

-- An address in front of a prefix length is one, too.
pub parse_cidr-lt :
    (canonical : Text → Option Text) (s : Text) (a : ℕ) (n : IpNet)
    → parse_cidr canonical s ≡ some (v4 a, n)
    → a < 4294967296
unfolding parse_cidr
parse_cidr-lt canonical s a n e = elim (Option-cases (cut s)) [
  | inl whole ↦ absurd (ground arith)
  | inr ((addr, mask), split) ↦ elim (Option-cases (parse_ip canonical addr)) [
    | inl bad ↦ absurd (ground arith)
    | inr (v6 t, good) ↦ absurd (ground arith)
    | inr (v4 b, good) ↦
        let same : b ≡ a = ground arith in
        parse_ip-lt canonical addr a (good ∙ ap (λ (c : ℕ). some (v4 c)) same)
  ]
]

-- In a block, `network | ^mask` is the last address.
pub broadcast-IsBlock :
    {n : IpNet} {network : ℕ}
    → IsBlock n network
    → broadcast_of network n.ones ≡ network + (2 ^ (32 - n.ones) - 1)
broadcast-IsBlock {n} {network} b =
    let host : 4294967295 - (4294967296 - 2 ^ (32 - n.ones)) ≡ 2 ^ (32 - n.ones) - 1 =
      omega (arith, pow_pos (32 - n.ones)) in
    rw (host, b.aligned) (bit_or_ones (32 - n.ones) b.index)

-- Contains tests that an address lies between the first and the last.
pub contains_v4-IsBlock :
    {n : IpNet} {network : ℕ} (a : ℕ)
    → n.base ≡ some network
    → IsBlock n network
    → (contains_v4 n a ≡ true) ↔ ((network ≤ a) × (a < network + 2 ^ (32 - n.ones)))
unfolding contains_v4
contains_v4-IsBlock {n} {network} a e b =
    rw (e, b.aligned)
      (
        λ t. (in_range_iff a b.index _ (pow_pos (32 - n.ones))).0 ((==_iff _ _).0 t),
        λ r. (==_iff _ _).1 ((in_range_iff a b.index _ (pow_pos (32 - n.ones))).1 r),
      )
