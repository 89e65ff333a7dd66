-- ===== src/Agent/Qemu.antt =====
-- The QEMU processes of services/nodeagent/qemu/manager.go: their status, their start, their end and
-- their reboot.
use rymevisor.Common.{
  ℕ, zero, suc, ◌+◌, Bool, Option, none, some, List, [], ◌∷◌, ◌++◌, if◌then◌else◌, String, str_eq,
}
use rymevisor.Common.Effect.{
  pure, fail, fail_if, gets, modify, or_fail, ignore, attempt, ◌>>=◌, ◌>>◌,
}
use rymevisor.Common.Int.{ℤ, pos, negsuc}
use rymevisor.Common.Numerals.{number}
use rymevisor.Net.{Text, codes}
use rymevisor.Net.Strings.{is_empty, trim_space, atoi}
use rymevisor.Agent.{Nic, VmConfig}
use rymevisor.Agent.Host.{
  Platform, quit, system_powerdown, system_reset, query_status, Act, create_vm_dir, no_nics,
  create_log, start_qemu, wait_for_qmp_socket, read_pid_file, parse_pid, no_process, kill_failed,
  exit_timeout, force_reboot, os_call, make_dir, ask, advance, read_pid, is_gone, is_alive,
  write_entry, send_qmp,
}
use rymevisor.Agent.Bridges.{words, ensure_bridge}
use Prim.Native.String.{◌++◌ as ◌<>◌}

abbrev pub show_int : ℤ → String
show_int (pos n) = number n
show_int (negsuc n) = "-" <> number (suc n)

-- The network arguments of the interfaces from number i on.
unfoldable pub net_args : ℕ → List Nic → List Text
net_args i [] = []
net_args i (n ∷ ns) =
    codes "-netdev"
    ∷ (codes ("bridge,id=net" <> number i <> ",br=") ++ n.bridge)
    ∷ codes "-device"
    ∷ codes ("virtio-net-pci,netdev=net" <> number i <> ",mac=" <> n.mac_address)
    ∷ net_args (i + 1) ns

abbrev pub machine_of : VmConfig → String
machine_of cfg = elim (codes cfg.machine_type) [ [] ↦ "q35" | _ ↦ cfg.machine_type ]

abbrev pub cloud_init_args : VmConfig → List Text
cloud_init_args cfg = elim (codes cfg.cloud_init) [
  | [] ↦ []
  | _ ↦ words ("-drive" ∷ ("file=" <> cfg.cloud_init <> ",format=raw,if=virtio") ∷ [])
]

-- The arguments of qemu-system-x86_64.
unfoldable pub qemu_args : Bool → String → VmConfig → List Text
unfolding net_args
qemu_args has_kvm pid_path cfg =
    words ("-name" ∷ cfg.name ∷ "-smp" ∷ show_int cfg.vcpus ∷ "-m" ∷ show_int cfg.memory_mb ∷ [])
    ++ words ("-drive" ∷ ("file=" <> cfg.disk_path <> ",format=qcow2,cache=none") ∷ [])
    ++ net_args 0 cfg.nics
    ++ words ("-qmp" ∷ ("unix:" <> cfg.qmp_socket <> ",server,nowait") ∷ [])
    ++ words ("-monitor" ∷ ("unix:" <> cfg.monitor_socket <> ",server,nowait") ∷ [])
    ++ words (
        if has_kvm
        then "-enable-kvm" ∷ "-machine" ∷ (machine_of cfg <> ",accel=kvm") ∷ []
        else "-machine" ∷ (machine_of cfg <> ",accel=tcg") ∷ [])
    ++ words ("-display" ∷ "none" ∷ "-daemonize" ∷ [])
    ++ cloud_init_args cfg
    ++ words ("-pidfile" ∷ pid_path ∷ [])

abbrev pub path_in : String → String → String → String
path_in base vm file = base <> "/" <> vm <> "/" <> file

-- The names of a list but for one.
unfoldable pub without : String → List String → List String
without t [] = []
without t (u ∷ us) = let rest = without t us in if str_eq t u then rest else u ∷ rest

module _ (os : Platform) where
  unfoldable pub ensure_bridges : List Nic → Act os (Unit {0})
  unfolding ensure_bridge
  ensure_bridges [] = pure tt
  ensure_bridges (n ∷ ns) = do ignore (ensure_bridge os n.bridge [] []); ensure_bridges ns

  abbrev pub note_launch : String → VmConfig → Act os (Unit {0})
  note_launch base cfg = modify (λ h. record h {
    launched = cfg ∷ h.launched;
    ran =
        (codes "qemu-system-x86_64" ∷ qemu_args os.has_kvm (path_in base cfg.id "qemu.pid") cfg)
        ∷ h.ran;
  })

  -- What QEMU makes of its start.
  unfoldable pub settle : VmConfig → Option (ℤ × Text) → Act os (Unit {0})
  unfolding without
  settle cfg none = pure tt
  settle cfg (some (p, text)) = do
    modify (λ h. record h { processes = p ∷ h.processes; unlinked = without cfg.id h.unlinked })
    write_entry os cfg.id (λ e. record e { pid_file = some text })

  -- cmd.Start: once it succeeds, QEMU is on its own.
  unfoldable pub spawn : String → VmConfig → Act os (Unit {0})
  unfolding os_call settle
  spawn base cfg = do
    answer ← gets (λ h. os.spawns h.calls)
    os_call os start_qemu
    note_launch base cfg
    settle cfg answer

  -- waitForSocket, with as many dials as the clock allows
  unfoldable pub wait_for_socket : ℕ → Act os (Unit {0})
  unfolding advance
  wait_for_socket zero = fail wait_for_qmp_socket
  wait_for_socket (suc n) = do
    connected ← ask os os.connects
    (if connected then pure tt else wait_for_socket n)

  unfoldable pub manager_start_vm : String → VmConfig → Act os (Unit {0})
  unfolding os_call make_dir ensure_bridges spawn wait_for_socket
  manager_start_vm base cfg = do
    make_dir os create_vm_dir cfg.id
    fail_if (is_empty cfg.nics) no_nics
    ensure_bridges cfg.nics
    os_call os create_log
    os_call os create_log
    spawn base cfg
    tries ← gets (λ h. os.polls h.calls)
    wait_for_socket tries

  -- GetVMStatus, when the process is there
  unfoldable pub query_vm : String → Act os String
  unfolding send_qmp
  query_vm vm = do
    answer ← attempt (send_qmp os vm query_status)
    pure (elim answer [
      | none ↦ "running"
      | some raw ↦ elim (os.status_field raw) [ none ↦ "running" | some status ↦ status ]
    ])

  -- GetVMStatus, with the content of the pid file
  unfoldable pub status_of_pid : String → Option Text → Act os String
  unfolding is_gone query_vm
  status_of_pid vm none = pure "stopped"
  status_of_pid vm (some text) = do
    pid ← or_fail (atoi (trim_space text)) parse_pid
    gone ← is_gone os pid
    (if gone then pure "stopped" else query_vm vm)

  unfoldable pub manager_vm_status : String → Act os String
  unfolding read_pid status_of_pid
  manager_vm_status vm = read_pid os vm >>= status_of_pid vm

  -- proc.Signal(SIGKILL): the signal is sent, and the process ends later.
  unfoldable pub kill : ℤ → Act os (Unit {0})
  unfolding os_call is_alive
  kill pid = do
    os_call os kill_failed
    there ← gets (λ h. is_alive pid h.processes)
    (if there then modify (λ h. record h { killed = pid ∷ h.killed }) else fail no_process)

  unfoldable pub kill_process : String → Act os (Unit {0})
  unfolding read_pid kill
  kill_process vm = do
    found ← read_pid os vm
    text ← or_fail found read_pid_file
    pid ← or_fail (atoi (trim_space text)) parse_pid
    kill pid

  -- os.Remove(pidPath), whose error is dropped
  unfoldable pub remove_pid : String → Act os (Unit {0})
  unfolding os_call
  remove_pid vm =
      ignore (do os_call os read_pid_file; write_entry os vm (λ e. record e { pid_file = none }))

  -- waitForProcessExit, with as many looks as the clock allows
  unfoldable pub wait_for_exit : String → ℕ → Act os (Unit {0})
  unfolding read_pid is_gone remove_pid
  wait_for_exit vm zero = fail exit_timeout
  wait_for_exit vm (suc n) = do
    found ← attempt (read_pid os vm)
    (elim found [
      | none ↦ pure tt
      | some none ↦ pure tt
      | some (some text) ↦ elim (atoi (trim_space text)) [
        | none ↦ pure tt
        | some pid ↦ (do
          gone ← is_gone os pid
          (if gone then remove_pid vm else wait_for_exit vm n))
      ]
    ])

  abbrev wait_exit_within : String → Act os (Unit {0})
  unfolding wait_for_exit
  wait_exit_within vm = do looks ← gets (λ h. os.polls h.calls); wait_for_exit vm looks

  unfoldable pub manager_stop_vm : String → Bool → Act os (Unit {0})
  unfolding send_qmp kill_process wait_for_exit
  manager_stop_vm vm force = do
    answer ← attempt (send_qmp os vm (if force then quit else system_powerdown))
    (elim answer [ none ↦ kill_process vm | some _ ↦ wait_exit_within vm ])

  unfoldable pub manager_reboot_vm : String → Bool → Act os (Unit {0})
  unfolding send_qmp kill_process wait_for_exit
  manager_reboot_vm vm force =
      if force
      then (do
        answer ← attempt (send_qmp os vm quit)
        (elim answer [
          | none ↦ kill_process vm
          | some _ ↦ (do wait_exit_within vm; fail force_reboot)
        ]))
      else (do send_qmp os vm system_reset; pure tt)
