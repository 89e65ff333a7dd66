-- ===== src/Agent/Recovered.antt =====
-- What the recovery finds of a VM: the file vm.json, and whether a stop has removed it.
use rymevisor.Common.{
  ℕ, ◌≡◌, ◌⊎◌, inl, inr, refl, sym, subst, ◌∙◌, Bool-cases, Bool, true, false, none, some, String,
  eq_iff, arith,
}
use rymevisor.Common.Effect.{ok, ◌>>◌}
use rymevisor.Common.Int.{ℤ}
use rymevisor.Common.Table.{select, update, select-update_self}
use rymevisor.Net.{Text}
use rymevisor.Net.Strings.{trim_space, atoi}
use rymevisor.Agent.{VmStartConfig, VmFile, Entry}
use rymevisor.Agent.Stopped.Process.{
  pid_file_of, IsDead, IsUnlinked, has_text-append, is_alive-left_of,
}
use rymevisor.Agent.Host.{Platform, Host, entry_key, has_text, advance, os_call, read_pid, is_gone}
use rymevisor.Agent.Qemu.{status_of_pid, manager_vm_status}
use rymevisor.Agent.Start.{persisted, decoded, loaded, persist_vm_config, load_vm_config, start_vm}
use rymevisor.Agent.Service.{stop_vm, recover_vm}

-- The members that the JSON hides are put back from the outer ones.
loaded-persisted :
    (cfg : VmStartConfig) (disk mac iso : String)
    → loaded (decoded (persisted cfg disk mac iso))
      ≡ record cfg { disk_path = disk; mac_address = mac }
loaded-persisted cfg disk mac iso = ground (arith, eq_iff disk "", eq_iff mac "")

module _ (os : Platform) (never : (n : ℕ) → os.fails n ≡ false) (vm : String) where
  load_vm_config-found :
      (h : Host) (e : Entry) (file : VmFile)
      → select entry_key vm h.entries ≡ some e
      → e.vm_json ≡ some (some file)
      → load_vm_config os vm h ≡ (ok (loaded (decoded file)), advance os h)
  unfolding load_vm_config os_call advance
  load_vm_config-found h e file there saved = ground (arith, never h.calls, there, saved)

  save : VmFile → Entry → Entry
  save file e = record e { vm_json = some (some file) }

  persist_vm_config-saves :
      (h : Host) (cfg : VmStartConfig) (disk mac iso : String)
      → persist_vm_config os vm cfg disk mac iso h ≡ (
        ok tt,
        record (advance os h) {
          entries = update entry_key vm (save (persisted cfg disk mac iso)) h.entries;
        },
      )
  unfolding persist_vm_config os_call advance save
  persist_vm_config-saves h cfg disk mac iso = ground (arith, never h.calls)

  persist-load :
      (h : Host) (e : Entry) (cfg : VmStartConfig) (disk mac iso : String)
      → select entry_key vm h.entries ≡ some e
      → ((do persist_vm_config os vm cfg disk mac iso; load_vm_config os vm) h).0
        ≡ ok (record cfg { disk_path = disk; mac_address = mac })
  persist-load h e cfg disk mac iso there =
      let file = persisted cfg disk mac iso in
      let h' : Host = record (advance os h) {
        entries = update entry_key vm (save file) h.entries;
      } in
      let kept : select entry_key vm h'.entries ≡ some (save file e) =
        select-update_self entry_key (save file) (λ r. unfold save in refl) vm h.entries e there in
      let found = load_vm_config-found h' (save file e) file kept (unfold save in refl) in
      ground (
        arith,
        persist_vm_config-saves h cfg disk mac iso,
        found,
        loaded-persisted cfg disk mac iso,
      )

-- Where no call of the operating system fails, a recovery loads the configuration that a start has
-- persisted for a VM with a directory: the outer disk and MAC address of the file take the place of the
-- configuration's own, which its JSON hides.
pub load_vm_config-persist_vm_config :
    (os : Platform) (vm : String) (h : Host) (e : Entry) (cfg : VmStartConfig)
    (disk mac iso : String)
    → ((n : ℕ) → os.fails n ≡ false)
    → select entry_key vm h.entries ≡ some e
    → ((do persist_vm_config os vm cfg disk mac iso; load_vm_config os vm) h).0
      ≡ ok (record cfg { disk_path = disk; mac_address = mac })
load_vm_config-persist_vm_config os vm h e cfg disk mac iso never there =
    persist-load os never vm h e cfg disk mac iso there

-- The pid file is missing, removed, or names a process that has ended.
abbrev pub IsCrashed : String → Host → Type 0
IsCrashed vm h =
    (pid_file_of vm h ≡ none)
    ⊎ (IsUnlinked vm h
        ⊎ ((text : Text) × (p : ℤ) × (pid_file_of vm h ≡ some text)
            × (atoi (trim_space text) ≡ some p)
            × IsDead p h))

-- The same entries, with the VM still crashed.
abbrev pub IsStill : String → Host → Host → Type 0
IsStill vm h after = (after.entries ≡ h.entries) × IsCrashed vm after

module _ (os : Platform) (never : (n : ℕ) → os.fails n ≡ false) (vm : String) where
  advance-IsCrashed : (h : Host) → IsCrashed vm h → IsCrashed vm (advance os h)
  unfolding advance
  advance-IsCrashed h (inl none_there) = inl none_there
  advance-IsCrashed h (inr (inl gone)) =
      inr (inl (has_text-append vm (os.unlinks h.calls) h.unlinked gone))
  advance-IsCrashed h (inr (inr (text, p, there, reads, dead))) =
      inr (inr (text, p, there, reads, is_alive-left_of p (os.exits h.calls) h.processes dead))

  advance-IsStill : (h : Host) → IsCrashed vm h → IsStill vm h (advance os h)
  unfolding advance
  advance-IsStill h crashed = (refl, advance-IsCrashed h crashed)

  -- A crashed VM is stopped.
  abbrev Stays : Host → Type 0
  Stays h =
      (after : Host) × (manager_vm_status os vm h ≡ (ok "stopped", after)) × IsStill vm h after

  status_unread :
      (h : Host)
      → read_pid os vm h ≡ (ok none, advance os h)
      → manager_vm_status os vm h ≡ (ok "stopped", advance os h)
  unfolding manager_vm_status status_of_pid
  status_unread h e = ground (arith, e)

  read_pid_absent :
      (h : Host) → pid_file_of vm h ≡ none → read_pid os vm h ≡ (ok none, advance os h)
  unfolding read_pid os_call advance
  read_pid_absent h absent = ground (arith, never h.calls, absent)

  read_pid_unlinked :
      (h : Host)
      → has_text vm (Host.unlinked (advance os h)) ≡ true
      → read_pid os vm h ≡ (ok none, advance os h)
  unfolding read_pid os_call advance
  read_pid_unlinked h gone = ground (arith, never h.calls, gone)

  read_pid_there :
      (h : Host) (text : Text)
      → has_text vm (Host.unlinked (advance os h)) ≡ false
      → pid_file_of vm h ≡ some text
      → read_pid os vm h ≡ (ok (some text), advance os h)
  unfolding read_pid os_call advance
  read_pid_there h text linked there = ground (arith, never h.calls, linked, there)

  status_stale :
      (h : Host) (text : Text) (p : ℤ)
      → read_pid os vm h ≡ (ok (some text), advance os h)
      → atoi (trim_space text) ≡ some p
      → IsDead p (advance os (advance os h))
      → manager_vm_status os vm h ≡ (ok "stopped", advance os (advance os h))
  unfolding manager_vm_status status_of_pid is_gone
  status_stale h text p read reads dead =
      ground (arith, read, reads, dead, never (Host.calls (advance os h)))

  status-Stays : (h : Host) → IsCrashed vm h → Stays h
  status-Stays h (inl absent) =
      (advance os h, status_unread h (read_pid_absent h absent), advance-IsStill h (inl absent))
  status-Stays h (inr (inl gone)) = (
    advance os h,
    status_unread h (
        read_pid_unlinked h
          (unfold advance in (has_text-append vm (os.unlinks h.calls) h.unlinked gone))),
    advance-IsStill h (inr (inl gone)),
  )
  status-Stays h (inr (inr (text, p, there, reads, dead))) =
      elim (Bool-cases (has_text vm (Host.unlinked (advance os h)))) [
        | inl gone ↦ (advance os h, status_unread h (read_pid_unlinked h gone), once)
        | inr linked ↦ (
          advance os (advance os h),
          status_stale h text p (read_pid_there h text linked there) reads (
              unfold advance in
              (is_alive-left_of p _ _ (is_alive-left_of p (os.exits h.calls) h.processes dead))),
          (unfold advance in refl, advance-IsCrashed (advance os h) once.1),
        )
      ]
    where
      once : IsStill vm h (advance os h)
      once = advance-IsStill h (inr (inr (text, p, there, reads, dead)))

  stop_vm_crashed :
      (force : Bool) (h after : Host)
      → manager_vm_status os vm h ≡ (ok "stopped", after)
      → stop_vm os vm force h ≡ (ok tt, after)
  unfolding stop_vm
  stop_vm_crashed force h after status = ground (arith, status)

  recover_vm_starts :
      (base images : String) (h after : Host) (e : Entry) (file : VmFile)
      → manager_vm_status os vm h ≡ (ok "stopped", after)
      → select entry_key vm after.entries ≡ some e
      → e.vm_json ≡ some (some file)
      → recover_vm os base images vm h
        ≡ (ok tt, (start_vm os base images vm (some (loaded (decoded file))) (advance os after)).1)
  unfolding recover_vm
  recover_vm_starts base images h after e file status there saved =
      ground (arith, status, load_vm_config-found os never vm after e file there saved)

-- Where no call of the operating system fails, and a VM has a file vm.json that decodes while its pid
-- file is missing, removed by QEMU, or names a process that has ended: StopVM succeeds and changes no
-- entry, so that vm.json stays, and a recovery after it calls StartVM with the saved configuration, on
-- the same entries.
pub stop_vm_restarts :
    (os : Platform) (base images vm : String) (h : Host) (e : Entry) (file : VmFile) (force : Bool)
    → ((n : ℕ) → os.fails n ≡ false)
    → IsCrashed vm h
    → select entry_key vm h.entries ≡ some e
    → e.vm_json ≡ some (some file)
    → (stopped : Host) × (stop_vm os vm force h ≡ (ok tt, stopped))
      × (stopped.entries ≡ h.entries)
      × ((found : Host) × (found.entries ≡ h.entries)
          × (recover_vm os base images vm stopped
              ≡ (ok tt, (start_vm os base images vm (some (loaded (decoded file))) found).1)))
stop_vm_restarts os base images vm h e file force never crashed there saved =
    let (stopped, status, (same, still)) = status-Stays os never vm h crashed in
    let (again, status', (same', still')) = status-Stays os never vm stopped still in
    let kept : again.entries ≡ h.entries = same' ∙ same in
    (
      stopped,
      stop_vm_crashed os never vm force h stopped status,
      same,
      (
        advance os again,
        unfold advance in kept,
        recover_vm_starts os never vm base images stopped again e file status'
            (subst (λ es. select entry_key vm es ≡ some e) (sym kept) there) saved,
      ),
    )
