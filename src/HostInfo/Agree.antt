-- ===== src/HostInfo/Agree.antt =====
-- The two readings of /proc/meminfo.
use rymevisor.Common.{◌≡◌, refl, Option, none, some, List, [], ◌∷◌, arith}
use rymevisor.Common.Int.{ℤ, pos, ◌-ℤ◌}
use rymevisor.Storage.{wrap_int64}
use rymevisor.Net.{Text, codes, text_eq}
use rymevisor.Net.Texts.{text_eq_other}
use rymevisor.Agent.CloudInit.{split_lines}
use rymevisor.HostInfo.{
  divided, labelled, Memory, keep_memory, scan_memory, read_memory, MemoryLines, keep_line,
  scan_lines, no_lines, MemoryInfo, read_memory_info,
}

-- The same total and the same available size.
abbrev Same : Memory → MemoryLines → Type 0
Same m n = (m.total ≡ n.total) × (m.available ≡ n.available)

keep-Same :
    (o : Option (Text × ℤ)) (m : Memory) (n : MemoryLines)
    → Same m n
    → Same (keep_memory o m) (keep_line o n)
unfolding keep_memory keep_line
keep-Same none m n s = s
keep-Same (some (label, v)) m n s = ground (
  arith,
  s,
  text_eq_other label (codes "MemFree:") (codes "MemAvailable:") (unfold text_eq in refl),
)

scan-Same :
    (ls : List Text) (m : Memory) (n : MemoryLines)
    → Same m n
    → Same (scan_memory ls m) (scan_lines ls n)
unfolding scan_memory scan_lines
scan-Same [] m n s = s
scan-Same (l ∷ ls) m n s =
    scan-Same ls (keep_memory (labelled l) m) (keep_line (labelled l) n)
      (keep-Same (labelled l) m n s)

-- Of any file, ReadMemory and ReadMemoryInfo answer the same total; and the used size that ReadMemory
-- answers is the total less the available size that ReadMemoryInfo reads, rounded to MB.
pub read_memory-eq-read_memory_info :
    (file : Text)
    → ((read_memory file).0 ≡ MemoryInfo.total_mb (read_memory_info file))
      × ((read_memory file).1
          ≡ divided
              (wrap_int64 (
                MemoryLines.total (scan_lines (split_lines file) no_lines)
                -ℤ MemoryLines.available (scan_lines (split_lines file) no_lines)))
              1024)
unfolding read_memory read_memory_info
read_memory-eq-read_memory_info file =
    let s =
      scan-Same (split_lines file) (record { total = pos 0; available = pos 0 }) no_lines
        (refl, refl) in
    (rw s.0 refl, rw (s.0, s.1) refl)
