-- ===== src/Agent/Host.antt =====
-- The machine that the agent runs on, and the calls of the operating system that the agent makes.
-- A call has a number; the platform says which calls fail, which processes have ended by then, how
-- programs answer, and how long the clock lets a loop run. The files under a VM's directory are
-- written by the agent alone, but for the pid file: QEMU writes it at its start and may remove it on
-- its way out, before its process has ended.
use rymevisor.Common.{
  ℕ, ◌+◌, Bool, true, false, not, ◌||◌, ◌&&◌, Option, none, some, List, [], ◌∷◌, if◌then◌else◌,
  String, ◌==◌, ◌++◌, str_eq,
}
use rymevisor.Common.Effect.{Action, ok, err, gets, modify, ◌>>◌}
use rymevisor.Common.Int.{ℤ, pos, negsuc}
use rymevisor.Common.Table.{select, update}
use rymevisor.Net.{Text}
use rymevisor.Agent.{VmCommandResult, VmConfig, Heartbeat, Entry}
use rymevisor.Agent.Qmp.{Dialogue, QmpFailure, read_response, qmp_error, converse}

pub data QmpCommand : Type 0 where
  quit system_powerdown system_reset query_status : QmpCommand
  blockdev_add : String → String → QmpCommand
  device_add : String → String → String → QmpCommand
  device_del : String → QmpCommand
  blockdev_del : String → QmpCommand

pub record Host : Type 0 where
  pub entries : List Entry
  pub processes : List ℤ
  pub unlinked : List String
  pub killed : List ℤ
  pub ran : List (List Text)
  pub sent : List (String × QmpCommand)
  pub launched : List VmConfig
  pub seeds : List (Text × (Text × Text))
  pub events : List VmCommandResult
  pub heartbeats : List Heartbeat
  pub acked : List Bool
  pub calls : ℕ

-- `spawns` is what QEMU does once it is started: it stays as a process and writes its pid file, or
-- it ends. `status_field` is the member "status" of a JSON text that decodes.
pub record Platform : Type 0 where
  pub fails : ℕ → Bool
  pub exits : ℕ → List ℤ
  pub unlinks : ℕ → List String
  pub dialogue : ℕ → Dialogue
  pub spawns : ℕ → Option (ℤ × Text)
  pub connects : ℕ → Bool
  pub polls : ℕ → ℕ
  pub runs : ℕ → Bool × Text
  pub has_kvm : Bool
  pub has_base : Bool
  pub total_cpus : ℕ → Option ℤ
  pub used_cpus : ℕ → Option ℤ
  pub memory : ℕ → Option (ℤ × ℤ)
  pub has_file : String → Bool
  pub status_field : Option String → Option String
  pub canonical : Text → Option Text
  pub network6 : Text → Text
  pub sha256 : Text → List ℕ
  pub image_format : String → Option String
  pub is_img : String → Bool

pub data AgentError : Type 0 where
  config_required create_vm_dir no_nics create_log start_qemu wait_for_qmp_socket : AgentError
  read_pid_file parse_pid no_process kill_failed exit_timeout force_reboot : AgentError
  bridge_for_network_failed no_addresses write_seed genisoimage_failed create_bridge : AgentError
  qemu_img_failed persist_failed load_failed read_base_dir cannot_reboot_stopped : AgentError
  unknown_action no_interfaces collect_heartbeat_failed publish_failed : AgentError
  qmp_failed : QmpFailure → AgentError

abbrev pub entry_key : Entry → String
entry_key e = e.name

unfoldable pub int_eq : ℤ → ℤ → Bool
int_eq (pos m) (pos n) = m == n
int_eq (negsuc m) (negsuc n) = m == n
int_eq (pos m) (negsuc n) = false
int_eq (negsuc m) (pos n) = false

unfoldable pub is_alive : ℤ → List ℤ → Bool
unfolding int_eq
is_alive p [] = false
is_alive p (q ∷ qs) = int_eq p q || is_alive p qs

-- The processes that are left when those of a list have ended.
unfoldable pub left_of : List ℤ → List ℤ → List ℤ
unfolding is_alive
left_of ended [] = []
left_of ended (p ∷ ps) = let rest = left_of ended ps in if is_alive p ended then rest else p ∷ rest

unfoldable pub has_text : String → List String → Bool
has_text t [] = false
has_text t (u ∷ us) = str_eq t u || has_text t us

-- Whether a dialogue that failed came as far as to send its command.
abbrev was_sent : QmpFailure → Bool
was_sent e = elim e [ read_response ↦ true | qmp_error _ ↦ true | _ ↦ false ]

module _ (os : Platform) where
  abbrev pub Act : Type 0 → Type 0
  Act A = Action Host AgentError A

  -- What has happened by the next call.
  unfoldable pub advance : Host → Host
  unfolding left_of
  advance h = record h {
    processes = left_of (os.exits h.calls) h.processes;
    unlinked = os.unlinks h.calls ++ h.unlinked;
    calls = h.calls + 1;
  }

  -- A call with the error that its caller returns.
  unfoldable pub os_call : AgentError → Act (Unit {0})
  unfolding advance
  os_call e h = (if os.fails h.calls then err e else ok tt, advance h)

  -- A call that answers by the platform's choice at its number.
  abbrev pub ask : {A : Type 0} → (ℕ → A) → Act A
  ask f h = (ok (f h.calls), advance h)

  abbrev pub blank_entry : String → Entry
  blank_entry vm = record {
    name = vm;
    is_dir = true;
    pid_file = none;
    vm_json = none;
    root_disk = false;
    authorized_keys = none;
  }

  abbrev pub make_entry : AgentError → String → Act (Unit {0})
  make_entry e vm h = elim (select entry_key vm h.entries) [
    | none ↦ (ok tt, record h { entries = blank_entry vm ∷ h.entries })
    | some entry ↦ (if entry.is_dir then ok tt else err e, h)
  ]

  -- os.MkdirAll of a VM's directory
  unfoldable pub make_dir : AgentError → String → Act (Unit {0})
  unfolding os_call
  make_dir e vm = do os_call e; make_entry e vm

  -- The pid file of a VM, if it is there.
  unfoldable pub read_pid : String → Act (Option Text)
  unfolding os_call has_text
  read_pid vm = do
    os_call read_pid_file
    gets (λ h.
        if has_text vm h.unlinked
        then none
        else elim (select entry_key vm h.entries) [ none ↦ none | some e ↦ e.pid_file ])

  -- os.Stat of /proc/<pid>: whether it reports that the process is not there.
  unfoldable pub is_gone : ℤ → Act Bool
  unfolding advance
  is_gone p h =
      (ok (not (os.fails h.calls) && not (is_alive p (Host.processes (advance h)))), advance h)

  abbrev pub write_entry : String → (Entry → Entry) → Act (Unit {0})
  write_entry vm f = modify (λ h. record h { entries = update entry_key vm f h.entries })

  -- sendQMPCommandWithReturn; the command is sent when the dialogue comes that far.
  unfoldable pub send_qmp : String → QmpCommand → Act (Option String)
  unfolding advance converse
  send_qmp vm cmd h =
      let d = os.dialogue h.calls in
      let h' = record (advance h) { sent = (vm, cmd) ∷ h.sent } in
      elim (converse d) [
        | ok r ↦ (ok r, h')
        | err e ↦ (err (qmp_failed e), if was_sent e then h' else advance h)
      ]

  -- exec.Command(…).CombinedOutput()
  unfoldable pub run : List Text → Act (Bool × Text)
  unfolding advance
  run words h = (ok (os.runs h.calls), record (advance h) { ran = words ∷ h.ran })
