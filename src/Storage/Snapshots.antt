-- ===== src/Storage/Snapshots.antt =====
-- The snapshots of volumes, of services/storage/service.go.
use rymevisor.Common.{String, str_eq}
use rymevisor.Common.Effect.{ok, err, pure, fail_if, or_fail, ◌>>=◌, ◌>>◌}
use rymevisor.Common.Int.{pos}
use rymevisor.Storage.{
  Volume, VolumeSnapshot, snapshot_disk, drop_disk_snapshot, apply_disk_snapshot, Host,
  name_required, volume_id_required, no_volume, no_volume_snapshot, nil_pointer, Storage, find_pool,
  find_volume, find_volume_snapshot, insert_volume_snapshot, finish_volume_snapshot,
  remove_volume_snapshot, disk_call, disk_path,
}
use rymevisor.Storage.Volumes.{take_id}

abbrev pub new_volume_snapshot : String → String → String → VolumeSnapshot
new_volume_snapshot id volume_id name = record {
  id = id;
  volume_id = volume_id;
  name = name;
  size_bytes = pos 0;
  status = "creating";
}

module _ (host : Host) where
  -- A disk step that, when it fails, takes the snapshot's row back.
  abbrev pub or_remove_snapshot : Storage host (Unit {0}) → String → Storage host (Unit {0})
  or_remove_snapshot step id w =
      let (r, after) = step w in
      elim r [
        | ok done ↦ (ok done, after)
        | err e ↦ (err e, (remove_volume_snapshot host id after).1)
      ]

  unfoldable pub create_volume_snapshot : String → String → Storage host VolumeSnapshot
  create_volume_snapshot volume_id name = do
    fail_if (str_eq volume_id "") volume_id_required
    fail_if (str_eq name "") name_required
    volume ← or_fail (← find_volume host volume_id) no_volume
    found ← find_pool host volume.pool_id
    id ← take_id host
    let snap = new_volume_snapshot id volume_id name
    insert_volume_snapshot host snap
    pool ← or_fail found nil_pointer
    or_remove_snapshot (disk_call host (snapshot_disk (disk_path host pool volume) name)) id
    finish_volume_snapshot host (record snap { status = "ready" })
    pure (record snap { status = "ready" })

  unfoldable pub delete_volume_snapshot : String → Storage host (Unit {0})
  delete_volume_snapshot id = do
    snap ← or_fail (← find_volume_snapshot host id) no_volume_snapshot
    volume ← or_fail (← find_volume host snap.volume_id) nil_pointer
    pool ← or_fail (← find_pool host volume.pool_id) nil_pointer
    disk_call host (drop_disk_snapshot (disk_path host pool volume) snap.name)
    remove_volume_snapshot host id

  unfoldable pub restore_volume_snapshot : String → Storage host Volume
  restore_volume_snapshot id = do
    snap ← or_fail (← find_volume_snapshot host id) no_volume_snapshot
    volume ← or_fail (← find_volume host snap.volume_id) nil_pointer
    pool ← or_fail (← find_pool host volume.pool_id) nil_pointer
    disk_call host (apply_disk_snapshot (disk_path host pool volume) snap.name)
    pure volume
