-- ===== src/Storage/Volumes.antt =====
-- The operations of services/storage/service.go. A nil pool, where the source reads a field of it, is
-- the error nil_pointer.
use rymevisor.Common.{
  Bool, true, false, not, ◌&&◌, Option, none, some, List, [], if◌then◌else◌, String, str_eq,
}
use rymevisor.Common.Effect.{ok, err, pure, fail_if, or_fail, ignore, attempt, ◌>>=◌, ◌>>◌}
use rymevisor.Common.Int.{ℤ, pos, ◌+ℤ◌, ◌-ℤ◌, ltb_ℤ, leb_ℤ}
use rymevisor.Storage.{
  VolumeStatus, available, in_use, creating, StoragePool, Volume, CreatePoolRequest,
  CreateVolumeRequest, make_directory, remove_file, create_disk, resize_disk, clone_disk, Host,
  name_required, path_required, pool_id_required, size_not_positive, no_pool, no_volume, no_space,
  volume_in_use, nil_pointer, wrap_int64, Storage, find_pool, find_volume, insert_pool, write_pool,
  insert_volume, write_volume, remove_volume, disk_call, disk_path,
}

abbrev pub is_in_use : VolumeStatus → Bool
is_in_use s = elim s [ in_use ↦ true | _ ↦ false ]

-- The capacity check of CreateVolume; a pool of 0 total bytes has no limit.
abbrev pub over_capacity : StoragePool → ℤ → Bool
over_capacity p size =
    ltb_ℤ p.total_bytes (wrap_int64 (p.used_bytes +ℤ size)) && ltb_ℤ (pos 0) p.total_bytes

-- The used bytes of a pool after a volume of the first size gets the second.
abbrev pub resized_use : StoragePool → ℤ → ℤ → ℤ
resized_use p old_size new_size =
    if ltb_ℤ old_size new_size
    then wrap_int64 (p.used_bytes +ℤ wrap_int64 (new_size -ℤ old_size))
    else (let less = wrap_int64 (p.used_bytes -ℤ wrap_int64 (old_size -ℤ new_size)) in
        if ltb_ℤ less (pos 0) then pos 0 else less)

abbrev pub new_volume : String → String → String → ℤ → Bool → List (String × String) → Volume
new_volume id name pool_id size_bytes encrypted labels = record {
  id = id;
  name = name;
  pool_id = pool_id;
  size_bytes = size_bytes;
  used_bytes = pos 0;
  status = creating;
  encrypted = encrypted;
  labels = labels;
}

abbrev pub used_more : StoragePool → ℤ → StoragePool
used_more p size = record p { used_bytes = wrap_int64 (p.used_bytes +ℤ size) }

module _ (host : Host) where
  abbrev pub take_id : Storage host String
  take_id w = (ok (host.fresh_id w.calls), w)

  abbrev pub pool_from : CreatePoolRequest → String → StoragePool
  pool_from req id = record {
    id = id;
    name = req.name;
    driver = if str_eq req.driver "" then "qcow2" else req.driver;
    path = req.path;
    total_bytes = pos 0;
    used_bytes = pos 0;
    encrypted = req.encrypted;
    config = req.config;
  }

  unfoldable pub create_pool : CreatePoolRequest → Storage host StoragePool
  create_pool req = do
    fail_if (str_eq req.name "") name_required
    fail_if (str_eq req.path "") path_required
    disk_call host (make_directory req.path)
    id ← take_id
    insert_pool host (pool_from req id)
    pure (pool_from req id)

  -- A disk step that, when it fails, takes the volume's row back.
  abbrev pub or_remove : Storage host (Unit {0}) → String → Storage host (Unit {0})
  or_remove step id w =
      let (r, after) = step w in
      elim r [ ok done ↦ (ok done, after) | err e ↦ (err e, (remove_volume host id after).1) ]

  -- The common end of CreateVolume and CloneVolume: the disk, the status, the used bytes.
  unfoldable pub finish_volume :
      StoragePool → Volume → Storage host (Unit {0}) → Storage host Volume
  finish_volume pool volume step = do
    or_remove step volume.id
    write_volume host (record volume { status = available })
    ignore (write_pool host (used_more pool volume.size_bytes))
    pure (record volume { status = available })

  unfoldable pub create_volume : CreateVolumeRequest → Storage host Volume
  unfolding finish_volume
  create_volume req = do
    fail_if (str_eq req.name "") name_required
    fail_if (str_eq req.pool_id "") pool_id_required
    fail_if (leb_ℤ req.size_bytes (pos 0)) size_not_positive
    pool ← or_fail (← find_pool host req.pool_id) no_pool
    fail_if (over_capacity pool req.size_bytes) no_space
    id ← take_id
    let volume = new_volume id req.name req.pool_id req.size_bytes req.encrypted req.labels
    insert_volume host volume
    finish_volume pool volume
        (disk_call host (create_disk (disk_path host pool volume) req.size_bytes))

  -- The removal of a volume's disk file, when its pool is found.
  abbrev pub remove_disk : Volume → Option (Option StoragePool) → Storage host (Unit {0})
  remove_disk volume (some (some pool)) =
      ignore (disk_call host (remove_file (disk_path host pool volume)))
  remove_disk volume (some none) = pure tt
  remove_disk volume none = pure tt

  unfoldable pub delete_volume : String → Bool → Storage host (Unit {0})
  delete_volume id force = do
    volume ← or_fail (← find_volume host id) no_volume
    fail_if (not force && is_in_use volume.status) volume_in_use
    pool ← attempt (find_pool host volume.pool_id)
    remove_disk volume pool
    remove_volume host id

  unfoldable pub resize_volume : String → ℤ → Storage host Volume
  resize_volume id size = do
    fail_if (leb_ℤ size (pos 0)) size_not_positive
    volume ← or_fail (← find_volume host id) no_volume
    pool ← or_fail (← find_pool host volume.pool_id) nil_pointer
    disk_call host (resize_disk (disk_path host pool volume) size)
    ignore (write_pool host (record pool { used_bytes = resized_use pool volume.size_bytes size }))
    write_volume host (record volume { size_bytes = size })
    pure (record volume { size_bytes = size })

  unfoldable pub clone_volume : String → String → Storage host Volume
  unfolding finish_volume
  clone_volume id name = do
    fail_if (str_eq name "") name_required
    source ← or_fail (← find_volume host id) no_volume
    found ← find_pool host source.pool_id
    fresh ← take_id
    let volume = new_volume fresh name source.pool_id source.size_bytes source.encrypted []
    insert_volume host volume
    pool ← or_fail found nil_pointer
    finish_volume pool volume
        (disk_call host (clone_disk (disk_path host pool source) (disk_path host pool volume)))
