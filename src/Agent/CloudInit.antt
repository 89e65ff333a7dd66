-- ===== src/Agent/CloudInit.antt =====
-- services/nodeagent/cloudinit/cloudinit.go: the files of the cloud-init seed, as bytes, and its
-- image. Letters are ASCII.
use rymevisor.Common.{ℕ, ◌+◌, not, ◌&&◌, List, [], ◌∷◌, ◌++◌, ◌==◌, leb, if◌then◌else◌, map, String}
use rymevisor.Common.Effect.{pure, fail_if, modify, ◌>>=◌, ◌>>◌}
use rymevisor.Net.{Text, codes}
use rymevisor.Agent.Host.{
  Platform, Act, create_vm_dir, write_seed, genisoimage_failed, os_call, run,
}
use rymevisor.Agent.Bridges.{words}
use rymevisor.Net.Strings.{trim_space, is_empty}
use Prim.Native.String.{◌++◌ as ◌<>◌}

-- cloudinit.NetworkInterface
pub record SeedInterface : Type 0 where
  pub name : Text
  pub mac_address : Text
  pub addresses : List Text
  pub gateway : Text
  pub nameservers : List Text

abbrev pub newline : ℕ
newline = 10

-- The lines of a file, each with its line feed.
unfoldable pub lines : List Text → Text
lines [] = []
lines (l ∷ ls) = l ++ newline ∷ lines ls

abbrev pub line : String → Text → Text
line prefix value = codes prefix ++ value

-- strings.ToLower
unfoldable pub to_lower : Text → Text
to_lower [] = []
to_lower (c ∷ cs) = (if leb b'A' c && leb c b'Z' then c + 32 else c) ∷ to_lower cs

-- strings.Split at line feeds
unfoldable pub split_lines : Text → List Text
split_lines [] = [] ∷ []
split_lines (c ∷ cs) = elim (split_lines cs) [
  | [] ↦ []
  | l ∷ ls ↦ if c == newline then [] ∷ l ∷ ls else (c ∷ l) ∷ ls
]

abbrev pub if_given : Text → List Text → List Text
if_given t ls = if is_empty t then [] else ls

unfoldable pub generate_meta_data : Text → Text
unfolding lines
generate_meta_data hostname =
    lines (line "instance-id: " hostname ∷ line "local-hostname: " hostname ∷ [])

-- The lines of one interface.
unfoldable pub interface_lines : SeedInterface → List Text
unfolding to_lower
interface_lines i =
    (codes "  " ++ (if is_empty i.name then codes "ens3" else i.name) ++ codes ":")
      ∷ if_given i.mac_address (
          codes "    match:"
          ∷ (line "      macaddress: \"" (to_lower i.mac_address) ++ codes "\"")
          ∷ [])
    ++ codes "    dhcp4: false"
      ∷ (if is_empty i.addresses
          then []
          else codes "    addresses:" ∷ map (line "      - ") i.addresses)
    ++ if_given i.gateway (line "    gateway4: " i.gateway ∷ [])
    ++ (if is_empty i.nameservers
        then []
        else codes "    nameservers:"
          ∷ codes "      addresses:"
          ∷ map (line "        - ") i.nameservers)

unfoldable pub all_interface_lines : List SeedInterface → List Text
unfolding interface_lines
all_interface_lines [] = []
all_interface_lines (i ∷ is) = interface_lines i ++ all_interface_lines is

unfoldable pub generate_network_config : List SeedInterface → Text
unfolding lines all_interface_lines
generate_network_config is =
    lines (codes "version: 2" ∷ codes "ethernets:" ∷ all_interface_lines is)

-- The keys, one to a line, that are not blank.
unfoldable pub key_lines : List Text → List Text
unfolding trim_space
key_lines [] = []
key_lines (k ∷ ks) =
    let rest = key_lines ks in
    if is_empty (trim_space k) then rest else line "      - " (trim_space k) ∷ rest

unfoldable pub generate_user_data : Text → Text → Text → Text → Text
unfolding lines split_lines key_lines
generate_user_data hostname ssh_key user password = lines (
    codes "#cloud-config" ∷ if_given hostname (line "hostname: " hostname ∷ [])
    ++ codes "users:"
      ∷ line "  - name: " (if is_empty user then codes "ubuntu" else user)
      ∷ codes "    sudo: ['ALL=(ALL) NOPASSWD:ALL']"
      ∷ codes "    shell: /bin/bash"
      ∷ codes "    lock_passwd: false"
      ∷ if_given ssh_key (codes "    ssh_authorized_keys:" ∷ key_lines (split_lines ssh_key))
    ++ if_given password (line "    passwd: " password ∷ [])
    ++ words (
        "packages:" ∷ "  - qemu-guest-agent" ∷ "runcmd:" ∷ "  - systemctl enable qemu-guest-agent"
        ∷ "  - systemctl start qemu-guest-agent" ∷ "package_update: true" ∷ "package_upgrade: true"
        ∷ []))

module _ (os : Platform) where
  abbrev pub note_seed : Text → Text → Text → Act os (Unit {0})
  note_seed meta user network = modify (λ h. record h { seeds = (meta, (user, network)) ∷ h.seeds })

  -- The three files are written, and genisoimage makes the image.
  unfoldable pub generate_iso : String → Text → Text → Text → Act os String
  unfolding os_call run
  generate_iso dir meta user network = do
    os_call os create_vm_dir
    os_call os write_seed
    os_call os write_seed
    os_call os write_seed
    note_seed meta user network
    answer ← run os (
        words (
          "genisoimage"
          ∷ "-output"
          ∷ (dir <> "/cidata.iso")
          ∷ "-volid"
          ∷ "cidata"
          ∷ "-v"
          ∷ "-J"
          ∷ "-joliet-long"
          ∷ "meta-data"
          ∷ "user-data"
          ∷ "network-config"
          ∷ []))
    fail_if (not answer.0) genisoimage_failed
    pure (dir <> "/cidata.iso")
