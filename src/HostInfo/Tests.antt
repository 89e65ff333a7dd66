-- ===== src/HostInfo/Tests.antt =====
-- Two small files.
use rymevisor.Common.{◌≡◌, refl, ◌∷◌}
use rymevisor.Common.Int.{pos, ◌-ℤ◌}
use rymevisor.Storage.{wrap_int64}
use rymevisor.Net.{codes}
use rymevisor.Agent.CloudInit.{split_lines}
use rymevisor.HostInfo.{
  divided, read_memory, MemoryLines, scan_lines, no_lines, MemoryInfo, read_memory_info,
  read_cpu_stat, parse_int,
}
use rymevisor.HostInfo.Devices.{read_load_procs}
use rymevisor.HostInfo.Agree.{read_memory-eq-read_memory_info}

meminfo_read :
    read_memory (codes "MemTotal:  8192 kB\nMemFree: 10 kB\nMemAvailable: 2048 kB\n")
    ≡ (pos 8, pos 6)
unfolding read_memory split_lines ◌-ℤ◌
meminfo_read = refl

procs_read : read_load_procs (codes "0.1 0.2 0.3 2/341 99\n") ≡ (pos 2, pos 341)
unfolding read_load_procs
procs_read = refl

stat_read : read_cpu_stat (codes "cpu  10 0 5 80 5\ncpu0 1 1 1 1\n") ≡ (pos 80, pos 100)
unfolding read_cpu_stat split_lines rymevisor.Agent.Bridges.starts_with rymevisor.Common.Int.◌+ℤ◌
stat_read = refl

-- A value out of range is found before what follows its digits.
out_of_range :
    (parse_int (codes "99999999999999999999x") ≡ pos 9223372036854775807)
    × (parse_int (codes "9999999999999999999x") ≡ pos 0)
unfolding parse_int
out_of_range = (refl, refl)

read_memory-eq-read_memory_info_example :
    ((read_memory (codes "MemTotal: 8192 kB\n")).0
      ≡ MemoryInfo.total_mb (read_memory_info (codes "MemTotal: 8192 kB\n")))
    × ((read_memory (codes "MemTotal: 8192 kB\n")).1
        ≡ divided
            (wrap_int64 (
              MemoryLines.total (scan_lines (split_lines (codes "MemTotal: 8192 kB\n")) no_lines)
              -ℤ MemoryLines.available
                  (scan_lines (split_lines (codes "MemTotal: 8192 kB\n")) no_lines)))
            1024)
read_memory-eq-read_memory_info_example =
    read_memory-eq-read_memory_info (codes "MemTotal: 8192 kB\n")
