-- ===== src/HostInfo/Devices.antt =====
-- The disks, the network interfaces and the processes in internal/hostinfo/hostinfo.go.
use rymevisor.Common.{
  ℕ, zero, suc, Bool, not, ◌&&◌, ◌||◌, Option, none, some, List, [], ◌∷◌, ◌==◌, if◌then◌else◌, ltb,
  length,
}
use rymevisor.Common.Int.{ℤ, pos, ◌*ℤ◌}
use rymevisor.Storage.{wrap_int64}
use rymevisor.Net.{Text, codes, text_eq, cut}
use rymevisor.Agent.Bridges.{starts_with}
use rymevisor.Agent.CloudInit.{split_lines}
use rymevisor.Net.Strings.{trim_space}
use rymevisor.HostInfo.{fields, parse_int, add64}

abbrev pub at : ℕ → List Text → Text
at i [] = []
at zero (f ∷ fs) = f
at (suc i) (f ∷ fs) = at i fs

pub record DiskIoInfo : Type 0 where
  pub read_bytes : ℤ
  pub write_bytes : ℤ
  pub read_iops : ℤ
  pub write_iops : ℤ

-- The devices that are counted.
unfoldable pub is_disk : Text → Bool
unfolding starts_with
is_disk dev =
    not (starts_with (codes "loop") dev || starts_with (codes "ram") dev)
    && (starts_with (codes "sd") dev
        || (starts_with (codes "vd") dev
            || (starts_with (codes "nvme") dev || starts_with (codes "mmc") dev)))

abbrev sectors : Text → ℤ
sectors t = wrap_int64 (parse_int t *ℤ pos 512)

unfoldable pub add_device : List Text → DiskIoInfo → DiskIoInfo
unfolding is_disk parse_int
add_device fs out =
    if ltb (length fs) 14
    then out
    else if is_disk (at 2 fs)
    then record {
      read_bytes = add64 out.read_bytes (sectors (at 5 fs));
      write_bytes = add64 out.write_bytes (sectors (at 9 fs));
      read_iops = add64 out.read_iops (parse_int (at 3 fs));
      write_iops = add64 out.write_iops (parse_int (at 7 fs));
    }
    else out

unfoldable pub scan_devices : List Text → DiskIoInfo → DiskIoInfo
unfolding add_device fields
scan_devices [] out = out
scan_devices (l ∷ ls) out = scan_devices ls (add_device (fields l) out)

unfoldable pub read_disk_stats : Text → DiskIoInfo
unfolding scan_devices
read_disk_stats file =
    scan_devices (split_lines file)
      (record { read_bytes = pos 0; write_bytes = pos 0; read_iops = pos 0; write_iops = pos 0 })

-- The two numbers of "running/total", when there is one slash.
unfoldable pub read_load_procs : Text → ℤ × ℤ
unfolding fields cut parse_int
read_load_procs file =
    if ltb (length (fields file)) 4 then (pos 0, pos 0) else (elim (cut (at 3 (fields file))) [
      | none ↦ (pos 0, pos 0)
      | some (running, total) ↦ elim (cut total) [
        | none ↦ (parse_int running, parse_int total)
        | some _ ↦ (pos 0, pos 0)
      ]
    ])

pub record NetInterface : Type 0 where
  pub name : Text
  pub rx_bytes : ℤ
  pub tx_bytes : ℤ
  pub rx_packets : ℤ
  pub tx_packets : ℤ
  pub rx_errors : ℤ
  pub tx_errors : ℤ

-- strings.SplitN at the first colon
unfoldable pub cut_colon : Text → Option (Text × Text)
cut_colon [] = none
cut_colon (c ∷ cs) =
    if c == b':'
    then some ([], cs)
    else elim (cut_colon cs) [ none ↦ none | some (a, b) ↦ some (c ∷ a, b) ]

abbrev interface_of : Text → List Text → NetInterface
interface_of name fs = record {
  name = name;
  rx_bytes = parse_int (at 0 fs);
  tx_bytes = parse_int (at 8 fs);
  rx_packets = parse_int (at 1 fs);
  tx_packets = parse_int (at 9 fs);
  rx_errors = parse_int (at 2 fs);
  tx_errors = parse_int (at 10 fs);
}

unfoldable pub read_interface : Text → Option NetInterface
unfolding cut_colon fields parse_int trim_space text_eq
read_interface line = elim (cut_colon (trim_space line)) [
  | none ↦ none
  | some (name, rest) ↦
      if text_eq (trim_space name) (codes "lo") || ltb (length (fields (trim_space rest))) 16
      then none
      else some (interface_of (trim_space name) (fields (trim_space rest)))
]

unfoldable pub read_interfaces : List Text → List NetInterface
unfolding read_interface
read_interfaces [] = []
read_interfaces (l ∷ ls) = elim (read_interface l) [
  | none ↦ read_interfaces ls
  | some i ↦ i ∷ read_interfaces ls
]

unfoldable pub read_network : Text → List NetInterface
unfolding read_interfaces
read_network file = read_interfaces (split_lines file)

pub record NetworkTotals : Type 0 where
  pub rx_bytes : ℤ
  pub tx_bytes : ℤ
  pub rx_packets : ℤ
  pub tx_packets : ℤ

unfoldable pub add_interfaces : List NetInterface → NetworkTotals → NetworkTotals
add_interfaces [] t = t
add_interfaces (i ∷ is) t = add_interfaces is (record {
  rx_bytes = add64 t.rx_bytes i.rx_bytes;
  tx_bytes = add64 t.tx_bytes i.tx_bytes;
  rx_packets = add64 t.rx_packets i.rx_packets;
  tx_packets = add64 t.tx_packets i.tx_packets;
})

unfoldable pub read_network_totals : Text → NetworkTotals
unfolding read_network add_interfaces
read_network_totals file =
    add_interfaces (read_network file)
      (record { rx_bytes = pos 0; tx_bytes = pos 0; rx_packets = pos 0; tx_packets = pos 0 })
