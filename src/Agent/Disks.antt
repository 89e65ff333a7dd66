-- ===== src/Agent/Disks.antt =====
-- The disks of a VM: internal/qcow2/qcow2.go, which runs qemu-img, and CreateDisk, CreateDiskFromImage,
-- AttachDisk and DetachDisk of services/nodeagent/qemu/manager.go.
use rymevisor.Common.{
  ℕ, ◌+◌, ◌%◌, ◌/◌, Bool, not, ◌&&◌, Option, none, some, List, [], ◌∷◌, ◌==◌, if◌then◌else◌, String,
  str_eq,
}
use rymevisor.Common.Effect.{pure, fail_if, ignore, ◌>>=◌, ◌>>◌}
use rymevisor.Common.Int.{ℤ, pos, negsuc, ltb_ℤ}
use rymevisor.Common.Numerals.{number}
use rymevisor.Agent.Host.{
  Platform, blockdev_add, device_add, device_del, blockdev_del, Act, create_vm_dir, qemu_img_failed,
  make_dir, run, send_qmp,
}
use rymevisor.Agent.Bridges.{words}
use rymevisor.Agent.Qemu.{path_in}
use Prim.Native.String.{◌++◌ as ◌<>◌}

unfoldable pub format_size : ℤ → String
format_size (negsuc n) = "1G"
format_size (pos n) =
    if n == 0
    then "1G"
    else if n % 1073741824 == 0
    then number (n / 1073741824) <> "G"
    else number n

-- filepath.Ext(path) == ".img" is the platform's, with the format that Stat reads: `none` when
-- qemu-img info fails.
abbrev pub backing_format : Option String → Bool → String
backing_format found is_img = elim found [
  | some f ↦ if str_eq f "" then (if is_img then "raw" else "qcow2") else f
  | none ↦ if is_img then "raw" else "qcow2"
]

module _ (os : Platform) where
  -- A run of qemu-img, whose failure is returned.
  unfoldable pub qemu_img : List String → Act os (Unit {0})
  unfolding run
  qemu_img args = do
    answer ← run os (words ("qemu-img" ∷ args))
    fail_if (not answer.0) qemu_img_failed

  unfoldable pub create_qcow2 : String → ℤ → Act os (Unit {0})
  unfolding qemu_img format_size
  create_qcow2 path size = qemu_img ("create" ∷ "-f" ∷ "qcow2" ∷ path ∷ format_size size ∷ [])

  unfoldable pub resize_qcow2 : String → ℤ → Act os (Unit {0})
  unfolding qemu_img format_size
  resize_qcow2 path size = qemu_img ("resize" ∷ path ∷ format_size size ∷ [])

  unfoldable pub create_with_backing : String → String → ℤ → Act os (Unit {0})
  unfolding qemu_img resize_qcow2 run
  create_with_backing path backing size = do
    run os (words ("qemu-img" ∷ "info" ∷ "--output=json" ∷ backing ∷ []))
    let format = backing_format (os.image_format backing) (os.is_img backing)
    qemu_img ("create" ∷ "-f" ∷ "qcow2" ∷ "-b" ∷ backing ∷ "-F" ∷ format ∷ path ∷ [])
    (if ltb_ℤ (pos 0) size then ignore (resize_qcow2 path size) else pure tt)

  -- SnapshotCreate, SnapshotDelete and SnapshotApply, by their flag
  unfoldable pub snapshot_qcow2 : String → String → String → Act os (Unit {0})
  unfolding qemu_img
  snapshot_qcow2 flag path snap = qemu_img ("snapshot" ∷ flag ∷ snap ∷ path ∷ [])

  unfoldable pub convert_qcow2 : String → String → String → String → Act os (Unit {0})
  unfolding qemu_img
  convert_qcow2 src dst src_format dst_format =
      qemu_img ("convert" ∷ "-f" ∷ src_format ∷ "-O" ∷ dst_format ∷ src ∷ dst ∷ [])

  unfoldable pub clone_qcow2 : String → String → Act os (Unit {0})
  unfolding create_with_backing
  clone_qcow2 src dst = create_with_backing dst src (pos 0)

  unfoldable pub create_disk_from_image : String → String → String → ℤ → String → Act os String
  unfolding make_dir create_qcow2 create_with_backing
  create_disk_from_image base vm name size image = do
    make_dir os create_vm_dir vm
    let path = path_in base vm (name <> ".qcow2")
    (if not (str_eq image "") && os.has_file image
        then create_with_backing path image size
        else create_qcow2 path size)
    pure path

  unfoldable pub create_disk : String → String → String → ℤ → Act os String
  unfolding create_disk_from_image
  create_disk base vm name size = create_disk_from_image base vm name size ""

  unfoldable pub attach_disk : String → String → ℕ → Act os (Unit {0})
  unfolding send_qmp
  attach_disk vm path slot = do
    send_qmp os vm (blockdev_add ("drive" <> number slot) path)
    send_qmp os vm (
        device_add ("virtio-blk-pci" <> number slot) ("drive" <> number slot)
          ("pci." <> number (slot + 1)))
    pure tt

  unfoldable pub detach_disk : String → String → Act os (Unit {0})
  unfolding send_qmp
  detach_disk vm device = do
    send_qmp os vm (device_del device)
    ignore (send_qmp os vm (blockdev_del device))
    pure tt
