-- ===== src/Net/RoundTrip.antt =====
-- Reading back what `String` of an IPv4 address and the "%s/%d" of a CIDR write.
use rymevisor.Common.{
  ℕ, ◌+◌, ◌*◌, ◌/◌, ◌%◌, ◌^◌, ◌-◌, ◌≤◌, ◌<◌, ◌≡◌, refl, ◌∙◌, ap, ◌⊎◌, ltb, if◌then◌else◌, Option,
  some, [], ◌∷◌, arith,
}
use rymevisor.Net.{
  Text, v4, dot, slash, scan_v4, notation, dotted, parse_ip, cut, scan_decimal, mask_to, parse_cidr,
  decimal, dotted_quad,
}

-- One more digit of an octet that stays below 256 and does not begin with a zero.
scan_digit :
    (d val len pos acc : ℕ) (rest : Text)
    → d < 10
    → val * 10 + d < 256
    → (len ≡ 0) ⊎ (0 < val)
    → scan_v4 ((48 + d) ∷ rest) val len pos acc ≡ scan_v4 rest (val * 10 + d) (len + 1) pos acc
unfolding scan_v4
scan_digit d val len pos acc rest small fits ok_zero =
    let back : 48 + d - 48 ≡ d = omega arith in rw back (ground arith)

abbrev decimal_length : ℕ → ℕ
decimal_length n = if ltb n 10 then 1 else if ltb n 100 then 2 else 3

scan_octet :
    (n : ℕ) (rest : Text) (pos acc : ℕ)
    → n < 256
    → scan_v4 (decimal n rest) 0 0 pos acc ≡ scan_v4 rest n (decimal_length n) pos acc
unfolding decimal
scan_octet n rest pos acc h = ground (
  arith,
  scan_digit n 0 0 pos acc rest,
  scan_digit (n / 10) 0 0 pos acc ((48 + n % 10) ∷ rest),
  scan_digit (n % 10) (n / 10) 1 pos acc rest,
  scan_digit (n / 100) 0 0 pos acc ((48 + n / 10 % 10) ∷ (48 + n % 10) ∷ rest),
  scan_digit (n / 10 % 10) (n / 100) 1 pos acc ((48 + n % 10) ∷ rest),
  scan_digit (n % 10) (n / 100 * 10 + n / 10 % 10) 2 pos acc rest,
)

scan_closed_octet :
    (n pos acc : ℕ) (rest : Text)
    → n < 256
    → pos < 3
    → scan_v4 (decimal n (dot ∷ rest)) 0 0 pos acc ≡ scan_v4 rest 0 0 (pos + 1) (acc * 256 + n)
scan_closed_octet n pos acc rest h p =
    scan_octet n (dot ∷ rest) pos acc h ∙ unfold scan_v4 in ground arith

scan_last_octet : (n acc : ℕ) → n < 256 → scan_v4 (decimal n []) 0 0 3 acc ≡ some (acc * 256 + n)
scan_last_octet n acc h = scan_octet n [] 3 acc h ∙ unfold scan_v4 in ground arith

-- The dotted quad of an address scans as that address.
scan-dotted_quad : (a : ℕ) → a < 2 ^ 32 → scan_v4 (dotted_quad a []) 0 0 0 0 ≡ some a
unfolding dotted_quad
scan-dotted_quad a h =
    rw
      (
        scan_closed_octet (a / 16777216 % 256) 0 0 _ (omega arith) (omega arith),
        scan_closed_octet (a / 65536 % 256) 1 _ _ (omega arith) (omega arith),
        scan_closed_octet (a / 256 % 256) 2 _ _ (omega arith) (omega arith),
        scan_last_octet (a % 256) _ (omega arith),
      )
      (ap some (omega arith))

notation-decimal : (n : ℕ) (rest : Text) → n < 256 → notation (decimal n (dot ∷ rest)) ≡ dotted
unfolding notation decimal
notation-decimal n rest h = ground arith

notation-dotted_quad : (a : ℕ) → notation (dotted_quad a []) ≡ dotted
unfolding dotted_quad
notation-dotted_quad a = notation-decimal (a / 16777216 % 256) _ (omega arith)

-- ParseIP reads back what String writes.
pub parse_ip-dotted_quad :
    (canonical : Text → Option Text) (a : ℕ)
    → a < 2 ^ 32
    → parse_ip canonical (dotted_quad a []) ≡ some (v4 a)
unfolding parse_ip
parse_ip-dotted_quad canonical a h =
    rw (notation-dotted_quad a, parse_ip) (rw (scan-dotted_quad a h, parse_ip))

cut-decimal :
    (n : ℕ) (rest : Text) {x y : Text}
    → n < 256
    → cut rest ≡ some (x, y)
    → cut (decimal n rest) ≡ some (decimal n x, y)
unfolding cut decimal
cut-decimal n rest h e = ground arith

cut-slash : (rest : Text) → cut (slash ∷ rest) ≡ some ([], rest)
unfolding cut
cut-slash rest = refl

cut-dotted_quad :
    (a : ℕ) (rest : Text) → cut (dotted_quad a (slash ∷ rest)) ≡ some (dotted_quad a [], rest)
unfolding dotted_quad
cut-dotted_quad a rest = cut_octet (a / 16777216) _ (
    cut_octet (a / 65536) _
      (cut_octet (a / 256) _ (cut-decimal (a % 256) (slash ∷ rest) (omega arith) (cut-slash rest))))
  where
    cut_octet :
        (n : ℕ) (r : Text) {x y : Text}
        → cut r ≡ some (x, y)
        → cut (decimal (n % 256) (dot ∷ r)) ≡ some (decimal (n % 256) (dot ∷ x), y)
    cut_octet n r e = cut-decimal (n % 256) (dot ∷ r) (omega arith) (unfold cut in ground arith)

scan_decimal-decimal : (n : ℕ) → n < 1000 → scan_decimal (decimal n []) 0 0 ≡ some n
unfolding scan_decimal decimal
scan_decimal-decimal n h = ground arith

-- ParseCIDR reads back an address and a prefix length written as "%s/%d".
pub parse_cidr-dotted_quad :
    (canonical : Text → Option Text) (a n : ℕ)
    → a < 2 ^ 32
    → n ≤ 32
    → parse_cidr canonical (dotted_quad a (slash ∷ decimal n []))
      ≡ some (v4 a, record { base = some (mask_to n a); ones = n })
unfolding parse_cidr
parse_cidr-dotted_quad canonical a n h k = ground (
  arith,
  cut-dotted_quad a (decimal n []),
  parse_ip-dotted_quad canonical a h,
  scan_decimal-decimal n,
)
