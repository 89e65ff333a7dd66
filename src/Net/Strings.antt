-- ===== src/Net/Strings.antt =====
-- strings.TrimSpace and strconv.Atoi of texts.
use rymevisor.Common.{
  ℕ, zero, suc, ◌||◌, ◌&&◌, Bool, true, false, Option, none, some, List, [], ◌∷◌, ◌==◌, ltb, leb,
  if◌then◌else◌,
}
use rymevisor.Common.Int.{ℤ, pos, negsuc}
use rymevisor.Net.{Text, scan_decimal}

abbrev pub is_empty : {A : Type 0} → List A → Bool
is_empty xs = elim xs [ [] ↦ true | _ ↦ false ]

-- unicode.IsSpace, of ASCII
abbrev pub is_space : ℕ → Bool
is_space c = (c == 32) || (leb 9 c && leb c 13)

unfoldable trim_left : Text → Text
trim_left [] = []
trim_left (c ∷ cs) = let rest = trim_left cs in if is_space c then rest else c ∷ cs

unfoldable trim_right : Text → Text
trim_right [] = []
trim_right (c ∷ cs) = elim (trim_right cs) [
  | [] ↦ if is_space c then [] else c ∷ []
  | d ∷ ds ↦ c ∷ d ∷ ds
]

-- strings.TrimSpace
unfoldable pub trim_space : Text → Text
unfolding trim_left trim_right
trim_space t = trim_right (trim_left t)

-- A magnitude with its sign, if it is an int64.
abbrev signed : Bool → Option ℕ → Option ℤ
signed negative none = none
signed false (some n) = if ltb n 9223372036854775808 then some (pos n) else none
signed true (some zero) = some (pos 0)
signed true (some (suc n)) = if ltb n 9223372036854775808 then some (negsuc n) else none

-- strconv.Atoi
unfoldable pub atoi : Text → Option ℤ
unfolding scan_decimal
atoi [] = none
atoi (c ∷ cs) =
    if c == b'-'
    then signed true (scan_decimal cs 0 0)
    else if c == b'+'
    then signed false (scan_decimal cs 0 0)
    else signed false (scan_decimal (c ∷ cs) 0 0)
