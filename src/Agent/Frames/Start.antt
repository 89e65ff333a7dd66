-- ===== src/Agent/Frames/Start.antt =====
-- The handling of a command acknowledges and publishes nothing by itself.
use rymevisor.Common.{ℕ, ◌+◌, Bool, Option, none, some, List, [], ◌∷◌, String}
use rymevisor.Common.Effect.{ok, err, Result, pure, fail, ignore, ◌>>=◌, ◌>>◌}
use rymevisor.Common.Int.{ℤ}
use rymevisor.Net.{Text}
use rymevisor.Agent.{NicConfig, VmStartConfig, VmCommand, VmCommandResult}
use rymevisor.Agent.Host.{Platform, AgentError, Act}
use rymevisor.Agent.Bridges.{ensure_bridge}
use rymevisor.Agent.Disks.{
  qemu_img, create_qcow2, create_with_backing, create_disk_from_image, create_disk, attach_disk,
  detach_disk,
}
use rymevisor.Agent.CloudInit.{note_seed, generate_iso}
use rymevisor.Agent.Interfaces.{filled, bridge_of, fill_nics}
use rymevisor.Agent.Start.{
  disk_missing, make_root_disk, root_disk_for, ssh_key_for, persist_vm_config, launch, start_with,
  start_vm,
}
use rymevisor.Agent.Service.{remove_vm_json, stop_vm, reboot_vm, create_for, attach_for, dispatch}
use rymevisor.Agent.Frames.{IsSilent, silent}
use rymevisor.Agent.Frames.Qemu.{
  ensure_bridge-IsSilent, manager_vm_status-IsSilent, manager_stop_vm-IsSilent,
  manager_reboot_vm-IsSilent, manager_start_vm-IsSilent,
}

module _ (os : Platform) (acks : List Bool) (es : List VmCommandResult) where
  abbrev Silent : {A : Type 0} → Act os A → Type 0
  Silent = IsSilent os acks es

  qemu_img-IsSilent : (args : List String) → Silent (qemu_img os args)
  unfolding qemu_img
  qemu_img-IsSilent args = search silent

  create_qcow2-IsSilent : (path : String) (size : ℤ) → Silent (create_qcow2 os path size)
  unfolding create_qcow2
  create_qcow2-IsSilent path size = search qemu_img-IsSilent

  create_with_backing-IsSilent :
      (path backing : String) (size : ℤ) → Silent (create_with_backing os path backing size)
  unfolding create_with_backing rymevisor.Agent.Disks.resize_qcow2
  create_with_backing-IsSilent path backing size = search (silent, qemu_img-IsSilent) depth 8

  create_disk_from_image-IsSilent :
      (base vm name : String) (size : ℤ) (image : String)
      → Silent (create_disk_from_image os base vm name size image)
  unfolding create_disk_from_image
  create_disk_from_image-IsSilent base vm name size image =
      search (silent, create_with_backing-IsSilent, create_qcow2-IsSilent) depth 8

  create_disk-IsSilent :
      (base vm name : String) (size : ℤ) → Silent (create_disk os base vm name size)
  unfolding create_disk
  create_disk-IsSilent base vm name size = create_disk_from_image-IsSilent base vm name size ""

  attach_disk-IsSilent : (vm path : String) (slot : ℕ) → Silent (attach_disk os vm path slot)
  unfolding attach_disk
  attach_disk-IsSilent vm path slot = search silent depth 8

  detach_disk-IsSilent : (vm device : String) → Silent (detach_disk os vm device)
  unfolding detach_disk
  detach_disk-IsSilent vm device = search silent depth 8

  note_seed-IsSilent : (meta user network : Text) → Silent (note_seed os meta user network)
  note_seed-IsSilent meta user network = record { run = λ h k. k }

  generate_iso-IsSilent :
      (dir : String) (meta user network : Text) → Silent (generate_iso os dir meta user network)
  unfolding generate_iso
  generate_iso-IsSilent dir meta user network = search (silent, note_seed-IsSilent) depth 12

  fill_nics-IsSilent : (vm : String) (i : ℕ) (ns : List NicConfig) → Silent (fill_nics os vm i ns)
  unfolding fill_nics
  fill_nics-IsSilent vm i [] = search silent
  fill_nics-IsSilent vm i (n ∷ ns) = after (bridge_of os n) (fill_nics-IsSilent vm (i + 1) ns)
    where
      after :
          (r : Result AgentError Text)
          → Silent (fill_nics os vm (i + 1) ns)
          → Silent (elim r [
            | err e ↦ fail e
            | ok b ↦ (do
              let new = filled os vm i b n
              ignore (ensure_bridge os b new.gateway new.ip_address)
              rest ← fill_nics os vm (i + 1) ns
              pure (new ∷ rest))
          ])
      after (err e) rest = search silent
      after (ok b) rest = search (silent, ensure_bridge-IsSilent) depth 8

  disk_missing-IsSilent : (vm : String) → Silent (disk_missing os vm)
  unfolding disk_missing
  disk_missing-IsSilent vm = record { run = λ h k. unfold rymevisor.Agent.Host.advance in k }

  ssh_key_for-IsSilent : (vm : String) (cfg : VmStartConfig) → Silent (ssh_key_for os vm cfg)
  unfolding ssh_key_for
  ssh_key_for-IsSilent vm cfg = search silent depth 8

  persist_vm_config-IsSilent :
      (vm : String) (cfg : VmStartConfig) (disk mac iso : String)
      → Silent (persist_vm_config os vm cfg disk mac iso)
  unfolding persist_vm_config
  persist_vm_config-IsSilent vm cfg disk mac iso = search silent

  remove_vm_json-IsSilent : (vm : String) → Silent (remove_vm_json os vm)
  unfolding remove_vm_json
  remove_vm_json-IsSilent vm = search silent

  stop_vm-IsSilent : (vm : String) (force : Bool) → Silent (stop_vm os vm force)
  unfolding stop_vm
  stop_vm-IsSilent vm force =
      search (silent, manager_vm_status-IsSilent, manager_stop_vm-IsSilent, remove_vm_json-IsSilent)
        depth 8

  reboot_vm-IsSilent : (vm : String) (force : Bool) → Silent (reboot_vm os vm force)
  unfolding reboot_vm
  reboot_vm-IsSilent vm force =
      search (silent, manager_vm_status-IsSilent, manager_reboot_vm-IsSilent) depth 8

  module _ (base images : String) where
    make_root_disk-IsSilent :
        (vm : String) (cfg : VmStartConfig) → Silent (make_root_disk os base images vm cfg)
    unfolding make_root_disk
    make_root_disk-IsSilent vm cfg =
        search (silent, create_disk-IsSilent, create_disk_from_image-IsSilent) depth 8

    root_disk_for-IsSilent :
        (vm : String) (cfg : VmStartConfig) → Silent (root_disk_for os base images vm cfg)
    unfolding root_disk_for
    root_disk_for-IsSilent vm cfg =
        search (silent, disk_missing-IsSilent, make_root_disk-IsSilent) depth 8

    launch-IsSilent :
        (vm : String) (cfg : VmStartConfig) (disk : String) (key : Text) (ns : List NicConfig)
        → Silent (launch os base images vm cfg disk key ns)
    unfolding launch
    launch-IsSilent vm cfg disk key ns =
        search
          (silent, generate_iso-IsSilent, manager_start_vm-IsSilent, persist_vm_config-IsSilent)
          depth 10

    start_with-IsSilent :
        (vm : String) (cfg : VmStartConfig) → Silent (start_with os base images vm cfg)
    unfolding start_with
    start_with-IsSilent vm cfg =
        search
          (
            silent, root_disk_for-IsSilent, ssh_key_for-IsSilent, fill_nics-IsSilent,
            launch-IsSilent,
          )
          depth 12

    start_vm-IsSilent :
        (vm : String) (cfg : Option VmStartConfig) → Silent (start_vm os base images vm cfg)
    unfolding start_vm
    start_vm-IsSilent vm cfg = search (silent, start_with-IsSilent)

    create_for-IsSilent :
        (vm : String) (cfg : Option VmStartConfig) → Silent (create_for os base images vm cfg)
    unfolding create_for
    create_for-IsSilent vm none = search silent
    create_for-IsSilent vm (some cfg) = search (silent, create_disk-IsSilent)

    attach_for-IsSilent :
        (vm : String) (cfg : Option VmStartConfig) → Silent (attach_for os base images vm cfg)
    unfolding attach_for
    attach_for-IsSilent vm none = search silent
    attach_for-IsSilent vm (some cfg) = attach_disk-IsSilent vm cfg.disk_path 1

    pub dispatch-IsSilent : (cmd : VmCommand) → Silent (dispatch os base images cmd)
    unfolding dispatch
    dispatch-IsSilent cmd =
        search
          (
            silent, start_vm-IsSilent, stop_vm-IsSilent, reboot_vm-IsSilent, create_for-IsSilent,
            attach_for-IsSilent, detach_disk-IsSilent,
          )
          depth 10
