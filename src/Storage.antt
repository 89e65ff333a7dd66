-- ===== src/Storage.antt =====
-- services/storage: the records of domain/storage.go and the tables of postgres, whose calls may
-- fail one by one, like those of qemu-img on a volume's disk file. Times are left out.
pub mod Volumes
pub mod Snapshots
mod Accounting
mod Tests
use rymevisor.Common.{
  ℕ, suc, ◌+◌, ◌-◌, ◌%◌, ◌^◌, Bool, true, false, Option, List, [], ◌∷◌, if◌then◌else◌, ltb, String,
}
use rymevisor.Common.Effect.{Action, Result, ok, err, gets, modify, ◌>>=◌, ◌>>◌}
use rymevisor.Common.Int.{ℤ, pos, negsuc, ◌+ℤ◌, ◌-ℤ◌}
use rymevisor.Common.Table.{select, update, delete}

pub data VolumeStatus : Type 0 where
  available in_use creating deleting broken : VolumeStatus

-- The driver is the text of a StorageDriver.
pub record StoragePool : Type 0 where
  pub id : String
  pub name : String
  pub driver : String
  pub path : String
  pub total_bytes : ℤ
  pub used_bytes : ℤ
  pub encrypted : Bool
  pub config : List (String × String)

pub record Volume : Type 0 where
  pub id : String
  pub name : String
  pub pool_id : String
  pub size_bytes : ℤ
  pub used_bytes : ℤ
  pub status : VolumeStatus
  pub encrypted : Bool
  pub labels : List (String × String)

pub record VolumeSnapshot : Type 0 where
  pub id : String
  pub volume_id : String
  pub name : String
  pub size_bytes : ℤ
  pub status : String

pub record CreatePoolRequest : Type 0 where
  pub name : String
  pub driver : String
  pub path : String
  pub encrypted : Bool
  pub config : List (String × String)

pub record CreateVolumeRequest : Type 0 where
  pub name : String
  pub pool_id : String
  pub size_bytes : ℤ
  pub encrypted : Bool
  pub labels : List (String × String)

-- What was done to the directories and disk files, by their paths.
pub data DiskStep : Type 0 where
  make_directory remove_file : String → DiskStep
  create_disk resize_disk : String → ℤ → DiskStep
  clone_disk : String → String → DiskStep
  snapshot_disk drop_disk_snapshot apply_disk_snapshot : String → String → DiskStep

pub record StorageWorld : Type 0 where
  pub pools : List StoragePool
  pub volumes : List Volume
  pub volume_snapshots : List VolumeSnapshot
  pub disk_steps : List DiskStep
  pub calls : ℕ

-- Which calls fail, the ids of uuid.New, and the path of a disk file: filepath.Join of a directory
-- and the id with ".qcow2".
pub record Host : Type 0 where
  pub refuses : ℕ → Bool
  pub fresh_id : ℕ → String
  pub join : String → String → String

pub data StorageError : Type 0 where
  name_required path_required pool_id_required volume_id_required size_not_positive : StorageError
  no_pool no_volume no_volume_snapshot no_space volume_in_use nil_pointer call_failed : StorageError

-- A sum or a difference as an int64.
abbrev pub wrap_int64 : ℤ → ℤ
wrap_int64 (pos n) = let m = n % 2 ^ 64 in if ltb m (2 ^ 63) then pos m else negsuc (2 ^ 64 - 1 - m)
wrap_int64 (negsuc n) =
    let m = n % 2 ^ 64 in if ltb m (2 ^ 63) then negsuc m else pos (2 ^ 64 - 1 - m)

abbrev pub pool_key : StoragePool → String
pool_key p = p.id

abbrev pub volume_key : Volume → String
volume_key v = v.id

abbrev pub volume_snapshot_key : VolumeSnapshot → String
volume_snapshot_key s = s.id

module _ (host : Host) where
  abbrev pub Storage : Type 0 → Type 0
  Storage A = Action StorageWorld StorageError A

  abbrev pub attempt_call : Storage (Unit {0})
  attempt_call w =
      (if host.refuses w.calls then err call_failed else ok tt, record w { calls = w.calls + 1 })

  abbrev pub find_pool : String → Storage (Option StoragePool)
  find_pool id = do attempt_call; gets (λ w. select pool_key id w.pools)

  abbrev pub find_volume : String → Storage (Option Volume)
  find_volume id = do attempt_call; gets (λ w. select volume_key id w.volumes)

  abbrev pub find_volume_snapshot : String → Storage (Option VolumeSnapshot)
  find_volume_snapshot id = do
    attempt_call
    gets (λ w. select volume_snapshot_key id w.volume_snapshots)

  abbrev pub insert_pool : StoragePool → Storage (Unit {0})
  insert_pool p = do attempt_call; modify (λ w. record w { pools = p ∷ w.pools })

  -- All columns are written.
  abbrev pub write_pool : StoragePool → Storage (Unit {0})
  write_pool p = do
    attempt_call
    modify (λ w. record w { pools = update pool_key p.id (λ old. p) w.pools })

  abbrev pub insert_volume : Volume → Storage (Unit {0})
  insert_volume v = do attempt_call; modify (λ w. record w { volumes = v ∷ w.volumes })

  -- All columns but the pool are written.
  abbrev pub write_volume : Volume → Storage (Unit {0})
  write_volume v = do
    attempt_call
    modify (λ w. record w {
      volumes =
          update volume_key v.id (λ old. record v { id = old.id; pool_id = old.pool_id }) w.volumes;
    })

  abbrev pub remove_volume : String → Storage (Unit {0})
  remove_volume id = do
    attempt_call
    modify (λ w. record w { volumes = delete volume_key id w.volumes })

  abbrev pub insert_volume_snapshot : VolumeSnapshot → Storage (Unit {0})
  insert_volume_snapshot s = do
    attempt_call
    modify (λ w. record w { volume_snapshots = s ∷ w.volume_snapshots })

  abbrev pub finish_volume_snapshot : VolumeSnapshot → Storage (Unit {0})
  finish_volume_snapshot s = do
    attempt_call
    modify (λ w. record w {
      volume_snapshots =
          update volume_snapshot_key s.id
            (λ old. record s { id = old.id; volume_id = old.volume_id }) w.volume_snapshots;
    })

  abbrev pub remove_volume_snapshot : String → Storage (Unit {0})
  remove_volume_snapshot id = do
    attempt_call
    modify (λ w. record w { volume_snapshots = delete volume_snapshot_key id w.volume_snapshots })

  -- A call of qemu-img or of the file system.
  abbrev pub disk_call : DiskStep → Storage (Unit {0})
  disk_call step = do attempt_call; modify (λ w. record w { disk_steps = step ∷ w.disk_steps })

  abbrev pub disk_path : StoragePool → Volume → String
  disk_path p v = host.join p.path v.id
