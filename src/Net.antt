-- ===== src/Net.antt =====
-- What the program uses of Go's package net: the texts of IPv4 addresses and CIDR blocks.
-- A text is its list of bytes, and an IPv4 address the number that its four bytes make.
-- `canonical` stands for the IPv6 reader: the canonical text of an IPv6 address, if it is one
-- (IPv4-mapped IPv6 texts are left out).
pub mod RoundTrip
pub mod Strings
pub mod Texts
use rymevisor.Common.{
  ℕ, zero, suc, ◌+◌, ◌-◌, ◌*◌, ◌/◌, ◌%◌, ◌^◌, Bool, true, false, ◌&&◌, Option, none, some, List, [],
  ◌∷◌, ◌++◌, ltb, leb, ◌==◌, if◌then◌else◌,
}
use Prim.Native.Char.{code}
use Prim.Native.String.{String}

abbrev pub Text : Type 0
Text = List ℕ

abbrev pub codes : String → Text
codes String.[] = []
codes (String.◌∷◌ c s) = code c ∷ codes s

-- Equality of texts
unfoldable pub text_eq : Text → Text → Bool
text_eq [] [] = true
text_eq [] (d ∷ t) = false
text_eq (c ∷ s) [] = false
text_eq (c ∷ s) (d ∷ t) = (c == d) && text_eq s t

pub data Address : Type 0 where
  v4 : ℕ → Address
  v6 : Text → Address

-- net.IPNet: the network address as To4 gives it, and the number of ones in the mask.
pub record IpNet : Type 0 where
  pub base : Option ℕ
  pub ones : ℕ

abbrev pub dot : ℕ
dot = b'.'

abbrev pub slash : ℕ
slash = b'/'

abbrev pub is_digit : ℕ → Bool
is_digit c = leb b'0' c && leb c b'9'

-- netip.parseIPv4Fields: the value and the length of the octet being read, the octets read, and
-- the number that they make.
unfoldable pub scan_v4 : Text → ℕ → ℕ → ℕ → ℕ → Option ℕ
scan_v4 [] val len pos acc =
    if len == 0 then none else if pos == 3 then some (acc * 256 + val) else none
scan_v4 (c ∷ rest) val len pos acc =
    let next = scan_v4 rest (val * 10 + (c - b'0')) (len + 1) pos acc in
    let closed = scan_v4 rest 0 0 (pos + 1) (acc * 256 + val) in
    if is_digit c
    then (if len == 1 && val == 0
        then none
        else if ltb 255 (val * 10 + (c - b'0'))
        then none
        else next)
    else if c == dot
    then (if len == 0 then none else if pos == 3 then none else closed)
    else none

pub data Notation : Type 0 where
  dotted colons neither : Notation

-- netip.ParseAddr looks for the first of `.`, `:` and `%`.
unfoldable pub notation : Text → Notation
notation [] = neither
notation (c ∷ rest) =
    if c == dot
    then dotted
    else if c == b':'
    then colons
    else if c == b'%'
    then neither
    else notation rest

-- net.ParseIP
unfoldable pub parse_ip : (Text → Option Text) → Text → Option Address
unfolding notation scan_v4
parse_ip canonical s = elim (notation s) [
  | dotted ↦ elim (scan_v4 s 0 0 0 0) [ none ↦ none | some a ↦ some (v4 a) ]
  | colons ↦ elim (canonical s) [ none ↦ none | some t ↦ some (v6 t) ]
  | neither ↦ none
]

-- strings.Cut at a slash.
unfoldable pub cut : Text → Option (Text × Text)
cut [] = none
cut (c ∷ rest) =
    if c == slash
    then some ([], rest)
    else elim (cut rest) [ none ↦ none | some (a, b) ↦ some (c ∷ a, b) ]

-- A decimal number that takes the whole text, one digit at least.
unfoldable pub scan_decimal : Text → ℕ → ℕ → Option ℕ
scan_decimal [] val len = if len == 0 then none else some val
scan_decimal (c ∷ rest) val len =
    let next = scan_decimal rest (val * 10 + (c - b'0')) (len + 1) in
    if is_digit c then next else none

-- The network address: the host bits are cleared.
abbrev pub mask_to : ℕ → ℕ → ℕ
mask_to ones a = a / 2 ^ (32 - ones) * 2 ^ (32 - ones)

abbrev pub in_block : Address → ℕ → Option (Address × IpNet)
in_block (v4 a) n =
    if leb n 32 then some (v4 a, record { base = some (mask_to n a); ones = n }) else none
in_block (v6 t) n = if leb n 128 then some (v6 t, record { base = none; ones = n }) else none

-- net.ParseCIDR
unfoldable pub parse_cidr : (Text → Option Text) → Text → Option (Address × IpNet)
unfolding parse_ip cut scan_decimal
parse_cidr canonical s = elim (cut s) [
  | none ↦ none
  | some (addr, mask) ↦ elim (parse_ip canonical addr) [
    | none ↦ none
    | some a ↦ elim (scan_decimal mask 0 0) [ none ↦ none | some n ↦ in_block a n ]
  ]
]

-- (IPNet).Contains of an IPv4 address: the bits under the mask agree.
unfoldable pub contains_v4 : IpNet → ℕ → Bool
contains_v4 n a = elim n.base [
  | none ↦ false
  | some b ↦ a / 2 ^ (32 - n.ones) == b / 2 ^ (32 - n.ones)
]

-- A number below 1000 in decimal, in front of a text.
unfoldable pub decimal : ℕ → Text → Text
decimal n rest =
    if ltb n 10
    then (b'0' + n) ∷ rest
    else if ltb n 100
    then (b'0' + n / 10) ∷ (b'0' + n % 10) ∷ rest
    else (b'0' + n / 100) ∷ (b'0' + n / 10 % 10) ∷ (b'0' + n % 10) ∷ rest

-- (IP).String of an IPv4 address, in front of a text.
unfoldable pub dotted_quad : ℕ → Text → Text
unfolding decimal
dotted_quad a rest =
    decimal (a / 16777216 % 256) (
      dot
      ∷ decimal (a / 65536 % 256) (dot ∷ decimal (a / 256 % 256) (dot ∷ decimal (a % 256) rest)))

-- (IP).String
unfoldable pub show_ip : Address → Text
unfolding dotted_quad
show_ip (v4 a) = dotted_quad a []
show_ip (v6 t) = t
