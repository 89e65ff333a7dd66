-- ===== src/Common/Numerals.antt =====
-- Sprintf's `%d` and `%02x` of natural numbers.
use Prim.Native.Nat.{ℕ, zero, suc, ◌/◌, ◌%◌, ◌+◌}
use Prim.Native.String.{String, ◌++◌, char_at}
use rymevisor.Common.Tests.{ltb, if◌then◌else◌}

abbrev digit : ℕ → String
digit n = String.◌∷◌ (char_at "0123456789abcdef" n) String.[]

-- One step for each digit; a number has at most as many digits as its value plus one.
unfoldable number_within : ℕ → ℕ → String
number_within zero n = ""
number_within (suc fuel) n =
    let rest = number_within fuel (n / 10) in if ltb n 10 then digit n else rest ++ digit (n % 10)

unfoldable pub number : ℕ → String
unfolding number_within
number n = number_within (n + 1) n

unfoldable pub hex_byte : ℕ → String
hex_byte n = digit (n / 16 % 16) ++ digit (n % 16)
