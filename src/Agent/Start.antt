-- ===== src/Agent/Start.antt =====
-- StartVM of services/nodeagent/agent.go, with the file vm.json that it leaves for a recovery.
use rymevisor.Common.{
  Bool, true, not, ◌&&◌, Option, none, some, List, [], ◌==◌, if◌then◌else◌, map, String, str_eq,
}
use rymevisor.Common.Effect.{ok, pure, fail_if, gets, or_fail, ignore, attempt, ◌>>=◌, ◌>>◌}
use rymevisor.Common.Int.{ℤ, pos, negsuc}
use rymevisor.Common.Table.{select}
use rymevisor.Net.{Text, codes}
use rymevisor.Agent.{NicConfig, VmStartConfig, VmFile, VmConfig}
use rymevisor.Agent.Host.{
  Platform, Act, create_vm_dir, no_addresses, config_required, persist_failed, load_failed,
  no_interfaces, entry_key, advance, os_call, make_dir, write_entry,
}
use rymevisor.Net.Strings.{trim_space, is_empty}
use rymevisor.Agent.Qemu.{path_in, manager_start_vm}
use rymevisor.Agent.Disks.{create_disk, create_disk_from_image}
use rymevisor.Agent.CloudInit.{
  generate_meta_data, generate_network_config, generate_user_data, generate_iso,
}
use Prim.Native.String.{◌++◌ as ◌<>◌}
use rymevisor.Agent.Interfaces.{seeds_of, nic_for_qemu, first_mac, fill_nics}

-- The struct that persistVMConfig encodes.
abbrev pub persisted : VmStartConfig → String → String → String → VmFile
persisted cfg disk_path mac iso = record {
  config = cfg;
  disk_path = disk_path;
  mac = mac;
  iso_path = iso;
}

-- What encoding/json decodes of the JSON of such a struct: the members disk_path and mac_address of the
-- configuration are hidden by the outer ones of the same name, and stay empty.
abbrev pub decoded : VmFile → VmFile
decoded file = record file { config = record file.config { disk_path = ""; mac_address = "" } }

abbrev with_disk : String → VmStartConfig → VmStartConfig
with_disk disk cfg = if str_eq disk "" then cfg else record cfg { disk_path = disk }

abbrev with_mac : String → VmStartConfig → VmStartConfig
with_mac mac cfg = if str_eq mac "" then cfg else record cfg { mac_address = mac }

-- The configuration that loadVMConfig makes of the decoded struct.
abbrev pub loaded : VmFile → VmStartConfig
loaded wrapper = with_mac wrapper.mac (with_disk wrapper.disk_path wrapper.config)

abbrev pub root_size : VmStartConfig → ℤ
root_size cfg = elim cfg.size_bytes [
  | pos n ↦ if n == 0 then pos 21474836480 else pos n
  | negsuc n ↦ negsuc n
]

module _ (os : Platform) where
  -- os.Stat of the root disk: whether it reports that there is none.
  unfoldable pub disk_missing : String → Act os Bool
  unfolding advance
  disk_missing vm h = (
    ok (
        not (os.fails h.calls)
        && elim (select entry_key vm h.entries) [ none ↦ true | some e ↦ not e.root_disk ]),
    advance os h,
  )

  unfoldable pub ssh_key_for : String → VmStartConfig → Act os Text
  unfolding os_call trim_space
  ssh_key_for vm cfg =
      if is_empty cfg.ssh_key
      then (do
        found ← attempt (do
          os_call os load_failed
          gets (λ h. elim (select entry_key vm h.entries) [
            | none ↦ none
            | some e ↦ e.authorized_keys
          ]))
        pure (elim found [ some (some text) ↦ trim_space text | _ ↦ [] ]))
      else pure cfg.ssh_key

  -- persistVMConfig
  unfoldable pub persist_vm_config :
      String → VmStartConfig → String → String → String → Act os (Unit {0})
  unfolding os_call
  persist_vm_config vm cfg disk mac iso = do
    os_call os persist_failed
    write_entry os vm (λ e. record e { vm_json = some (some (persisted cfg disk mac iso)) })

  unfoldable pub load_vm_config : String → Act os VmStartConfig
  unfolding os_call
  load_vm_config vm = do
    os_call os load_failed
    found ← gets (λ h. elim (select entry_key vm h.entries) [ none ↦ none | some e ↦ e.vm_json ])
    file ← or_fail found load_failed
    wrapper ← or_fail file load_failed
    pure (loaded (decoded wrapper))

  module _ (base images : String) where
    abbrev cached : String → String → String
    cached id extension = images <> "/" <> id <> extension

    unfoldable pub image_for : VmStartConfig → String
    image_for cfg =
        if not (str_eq cfg.image_path "")
        then cfg.image_path
        else if str_eq cfg.image_id ""
        then ""
        else if os.has_file (cached cfg.image_id ".qcow2")
        then cached cfg.image_id ".qcow2"
        else if os.has_file (cached cfg.image_id ".raw")
        then cached cfg.image_id ".raw"
        else ""

    unfoldable pub make_root_disk : String → VmStartConfig → Act os String
    unfolding create_disk create_disk_from_image image_for
    make_root_disk vm cfg = do
      let image = image_for cfg
      path ←
          (if str_eq image ""
            then create_disk os base vm "root" (root_size cfg)
            else create_disk_from_image os base vm "root" (root_size cfg) image)
      write_entry os vm (λ e. record e { root_disk = true })
      pure path

    unfoldable pub root_disk_for : String → VmStartConfig → Act os String
    unfolding disk_missing make_root_disk
    root_disk_for vm cfg =
        if str_eq cfg.disk_path ""
        then (do
          missing ← disk_missing vm
          (if missing then make_root_disk vm cfg else pure (path_in base vm "root.qcow2")))
        else pure cfg.disk_path

    unfoldable pub config_for : String → VmStartConfig → String → String → List NicConfig → VmConfig
    config_for vm cfg disk iso nics = record {
      id = vm;
      name = cfg.name;
      vcpus = cfg.vcpus;
      memory_mb = cfg.memory_mb;
      disk_path = disk;
      mac_address = first_mac nics;
      nics = map nic_for_qemu nics;
      cloud_init = iso;
      qmp_socket = path_in base vm "qmp.sock";
      monitor_socket = path_in base vm "monitor.sock";
      machine_type = cfg.machine_type;
    }

    -- The part of StartVM after the interfaces are filled.
    unfoldable pub launch :
        String → VmStartConfig → String → Text → List NicConfig → Act os (Unit {0})
    unfolding seeds_of generate_iso config_for manager_start_vm persist_vm_config
    launch vm cfg disk key nics = do
      fail_if (is_empty (seeds_of nics)) no_addresses
      iso ←
          generate_iso os (path_in base vm "cloud-init") (generate_meta_data (codes cfg.name))
            (generate_user_data (codes cfg.name) key (codes "ubuntu") [])
            (generate_network_config (seeds_of nics))
      manager_start_vm os base (config_for vm cfg disk iso nics)
      ignore (
          persist_vm_config vm (record cfg { network_interfaces = nics }) disk (first_mac nics) iso)

    unfoldable pub start_with : String → VmStartConfig → Act os (Unit {0})
    unfolding make_dir root_disk_for ssh_key_for fill_nics launch
    start_with vm cfg = do
      make_dir os create_vm_dir vm
      disk ← root_disk_for vm cfg
      key ← ssh_key_for vm cfg
      fail_if (is_empty cfg.network_interfaces) no_interfaces
      nics ← fill_nics os vm 0 cfg.network_interfaces
      launch vm cfg disk key nics

    unfoldable pub start_vm : String → Option VmStartConfig → Act os (Unit {0})
    unfolding start_with
    start_vm vm config = or_fail config config_required >>= start_with vm
