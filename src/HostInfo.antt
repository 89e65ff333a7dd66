-- ===== src/HostInfo.antt =====
-- internal/hostinfo/hostinfo.go: what the files of /proc say of a machine. A file is its bytes, space
-- is ASCII's, and sums of an int64 wrap. Floating-point shares are left out.
mod Agree
pub mod Devices
mod Tests
use rymevisor.Common.{
  ℕ, zero, suc, ◌+◌, ◌-◌, ◌*◌, ◌/◌, ◌%◌, ◌^◌, Bool, true, false, not, ◌&&◌, ◌||◌, Option, none,
  some, List, [], ◌∷◌, ◌++◌, ◌==◌, if◌then◌else◌, String, leb, ltb, length,
}
use rymevisor.Common.Int.{ℤ, pos, negsuc, ◌+ℤ◌, ◌-ℤ◌, ltb_ℤ}
use rymevisor.Storage.{wrap_int64}
use rymevisor.Net.{Text, codes, text_eq, is_digit}
use rymevisor.Agent.Bridges.{contains_text, starts_with}
use rymevisor.Agent.CloudInit.{split_lines}
use rymevisor.Net.Strings.{trim_space, is_empty, is_space}

-- The words of a line: the word being read, and those after it.
abbrev push : Text → List Text → List Text
push word rest = if is_empty word then rest else word ∷ rest

unfoldable words_from : Text → Text × List Text
words_from [] = ([], [])
words_from (c ∷ cs) =
    let (word, rest) = words_from cs in
    if is_space c then ([], push word rest) else (c ∷ word, rest)

-- strings.Fields
unfoldable pub fields : Text → List Text
unfolding words_from
fields t = let (word, rest) = words_from t in push word rest

-- A magnitude with its sign, or the nearest int64.
abbrev clamped : Bool → Option ℕ → ℤ
clamped negative none = pos 0
clamped false (some n) = if ltb n 9223372036854775808 then pos n else pos 9223372036854775807
clamped true (some zero) = pos 0
clamped true (some (suc n)) =
    if ltb n 9223372036854775808 then negsuc n else negsuc 9223372036854775807

-- The digits of a text, up to the first that takes the value past a uint64.
unfoldable magnitude : Text → ℕ → ℕ → Option ℕ
magnitude [] val len = if len == 0 then none else some val
magnitude (c ∷ rest) val len =
    let now = val * 10 + (c - b'0') in
    let next = magnitude rest now (len + 1) in
    if is_digit c then (if leb (2 ^ 64) now then some now else next) else none

-- strconv.ParseInt, whose error is dropped.
unfoldable pub parse_int : Text → ℤ
unfolding magnitude
parse_int [] = pos 0
parse_int (c ∷ cs) =
    if c == b'-'
    then clamped true (magnitude cs 0 0)
    else if c == b'+'
    then clamped false (magnitude cs 0 0)
    else clamped false (magnitude (c ∷ cs) 0 0)

-- The sum of two int64s.
abbrev pub add64 : ℤ → ℤ → ℤ
add64 a b = wrap_int64 (a +ℤ b)

-- a / n of an int64, which rounds to zero.
unfoldable pub divided : ℤ → ℕ → ℤ
divided (pos a) n = pos (a / n)
divided (negsuc a) n = elim ((a + 1) / n) [ zero ↦ pos 0 | suc q ↦ negsuc q ]

-- ReadCPUCores
unfoldable count_cores : List Text → ℕ
count_cores [] = 0
count_cores (l ∷ ls) =
    let rest = count_cores ls in if starts_with (codes "processor") l then rest + 1 else rest

unfoldable pub read_cpu_cores : Text → ℕ
unfolding count_cores
read_cpu_cores file = count_cores (split_lines file)

-- The loop over the values of the line "cpu", from index i on: the idle time and the sum.
unfoldable cpu_times : ℕ → List Text → ℤ × ℤ → ℤ × ℤ
unfolding parse_int
cpu_times i [] (idle, total) = (idle, total)
cpu_times i (f ∷ fs) (idle, total) =
    cpu_times (i + 1) fs (if i == 3 then parse_int f else idle, add64 total (parse_int f))

unfoldable cpu_line : List Text → List Text
unfolding fields
cpu_line [] = []
cpu_line (l ∷ ls) =
    let rest = cpu_line ls in if starts_with (codes "cpu ") l then fields l else rest

-- ReadCPUStat
unfoldable pub read_cpu_stat : Text → ℤ × ℤ
unfolding cpu_line cpu_times
read_cpu_stat file = elim (cpu_line (split_lines file)) [
  | [] ↦ (pos 0, pos 0)
  | w ∷ ws ↦ if ltb (length ws) 4 then (pos 0, pos 0) else cpu_times 0 ws (pos 0, pos 0)
]

-- A line "label value …": its label and its value.
unfoldable pub labelled : Text → Option (Text × ℤ)
unfolding fields parse_int
labelled l = elim (fields l) [ label ∷ value ∷ _ ↦ some (label, parse_int value) | _ ↦ none ]

-- The values that ReadMemory keeps, each by its last line.
pub record Memory : Type 0 where
  pub total : ℤ
  pub available : ℤ

unfoldable pub keep_memory : Option (Text × ℤ) → Memory → Memory
unfolding text_eq
keep_memory none m = m
keep_memory (some (label, v)) m =
    if text_eq label (codes "MemTotal:")
    then record m { total = v }
    else if text_eq label (codes "MemAvailable:")
    then record m { available = v }
    else m

unfoldable pub scan_memory : List Text → Memory → Memory
unfolding labelled keep_memory
scan_memory [] m = m
scan_memory (l ∷ ls) m = scan_memory ls (keep_memory (labelled l) m)

-- ReadMemory: the total and the used size in MB.
unfoldable pub read_memory : Text → ℤ × ℤ
unfolding scan_memory divided
read_memory file =
    let m = scan_memory (split_lines file) (record { total = pos 0; available = pos 0 }) in
    (divided m.total 1024, divided (wrap_int64 (m.total -ℤ m.available)) 1024)

-- The values that ReadMemoryInfo keeps.
pub record MemoryLines : Type 0 where
  pub total : ℤ
  pub free : ℤ
  pub available : ℤ
  pub buffers : ℤ
  pub cached : ℤ
  pub swap_total : ℤ
  pub swap_free : ℤ

unfoldable pub keep_line : Option (Text × ℤ) → MemoryLines → MemoryLines
unfolding text_eq
keep_line none m = m
keep_line (some (label, v)) m =
    if text_eq label (codes "MemTotal:")
    then record m { total = v }
    else if text_eq label (codes "MemFree:")
    then record m { free = v }
    else if text_eq label (codes "MemAvailable:")
    then record m { available = v }
    else if text_eq label (codes "Buffers:")
    then record m { buffers = v }
    else if text_eq label (codes "Cached:")
    then record m { cached = v }
    else if text_eq label (codes "SwapTotal:")
    then record m { swap_total = v }
    else if text_eq label (codes "SwapFree:")
    then record m { swap_free = v }
    else m

unfoldable pub scan_lines : List Text → MemoryLines → MemoryLines
unfolding labelled keep_line
scan_lines [] m = m
scan_lines (l ∷ ls) m = scan_lines ls (keep_line (labelled l) m)

abbrev pub no_lines : MemoryLines
no_lines = record {
  total = pos 0;
  free = pos 0;
  available = pos 0;
  buffers = pos 0;
  cached = pos 0;
  swap_total = pos 0;
  swap_free = pos 0;
}

pub record MemoryInfo : Type 0 where
  pub total_mb : ℤ
  pub used_mb : ℤ
  pub free_mb : ℤ
  pub available_mb : ℤ
  pub swap_total_mb : ℤ
  pub swap_used_mb : ℤ

abbrev used_of : MemoryLines → ℤ
used_of m =
    let used = wrap_int64 (wrap_int64 (wrap_int64 (m.total -ℤ m.free) -ℤ m.buffers) -ℤ m.cached) in
    if ltb_ℤ used (pos 0) then wrap_int64 (m.total -ℤ m.available) else used

unfoldable pub read_memory_info : Text → MemoryInfo
unfolding scan_lines divided
read_memory_info file =
    let m = scan_lines (split_lines file) no_lines in
    record {
      total_mb = divided m.total 1024;
      used_mb = divided (used_of m) 1024;
      free_mb = divided m.free 1024;
      available_mb = divided m.available 1024;
      swap_total_mb = divided m.swap_total 1024;
      swap_used_mb = divided (wrap_int64 (m.swap_total -ℤ m.swap_free)) 1024;
    }
