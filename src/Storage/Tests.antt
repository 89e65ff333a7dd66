-- ===== src/Storage/Tests.antt =====
-- Runs of the volume operations on one pool.
use rymevisor.Common.{◌⊎◌, ◌≡◌, refl, ◌-◌, ◌^◌}
use rymevisor.Common.Triple.{Ends}
use rymevisor.Common.Table.{select, update}
use rymevisor.Storage.{pool_key}
use rymevisor.Storage.Volumes.{over_capacity, create_volume, delete_volume, finish_volume}
use rymevisor.Storage.Accounting.{
  counted, delete_volume_pools, create_volume_refuses, create_volume_counts,
}
use rymevisor.Common.{true, arith, false, some, [], ◌∷◌}
use rymevisor.Common.Int.{ℤ, pos, ◌+ℤ◌}
use rymevisor.Storage.{available, StoragePool, Volume, CreateVolumeRequest, StorageWorld, Host}

abbrev small_pool : StoragePool
small_pool = record {
  id = "pool-1";
  name = "fast";
  driver = "qcow2";
  path = "/var/pool";
  total_bytes = pos 1000;
  used_bytes = pos 900;
  encrypted = false;
  config = [];
}

abbrev one_volume : Volume
one_volume = record {
  id = "vol-1";
  name = "root";
  pool_id = "pool-1";
  size_bytes = pos 900;
  used_bytes = pos 0;
  status = available;
  encrypted = false;
  labels = [];
}

abbrev one_pool : StorageWorld
one_pool = record {
  pools = small_pool ∷ [];
  volumes = one_volume ∷ [];
  volume_snapshots = [];
  disk_steps = [];
  calls = 0;
}

abbrev healthy : Host
healthy = record { refuses = λ n. false; fresh_id = λ n. "vol-2"; join = λ a b. b }

abbrev request_of : ℤ → CreateVolumeRequest
request_of size = record {
  name = "data";
  pool_id = "pool-1";
  size_bytes = size;
  encrypted = false;
  labels = [];
}

-- A volume that fits is created, and its bytes are counted.
create_volume_fits :
    select pool_key "pool-1" (create_volume healthy (request_of (pos 100)) one_pool).1.pools
    ≡ some (record small_pool { used_bytes = pos 1000 })
unfolding create_volume finish_volume select update ◌+ℤ◌
create_volume_fits = refl

-- A size near 2 ^ 63 makes the sum of the check negative, and the volume is created.
create_volume_overflows : over_capacity small_pool (pos (2 ^ 63 - 1)) ≡ false
unfolding ◌+ℤ◌
create_volume_overflows = refl

delete_volume_pools_example :
    (delete_volume healthy "vol-1" false one_pool).1.pools ≡ one_pool.pools
delete_volume_pools_example = delete_volume_pools healthy "vol-1" false one_pool

create_volume_refuses_example :
    Ends
      (λ volume after. ⊥)
      (λ e after.
        (after.volumes ≡ one_pool.volumes)
        × (after.pools ≡ one_pool.pools)
        × (after.disk_steps ≡ one_pool.disk_steps))
      (create_volume healthy (request_of (pos 101)) one_pool)
unfolding select ◌+ℤ◌
create_volume_refuses_example =
    create_volume_refuses healthy (request_of (pos 101)) one_pool small_pool 900 1000 101 refl refl
      refl refl (omega arith) (omega arith) (omega arith)

create_volume_counts_example :
    Ends
      (λ volume after.
        (over_capacity small_pool (pos 100) ≡ false)
        × (volume.status ≡ available)
        × (volume.size_bytes ≡ pos 100)
        × (((healthy.refuses (after.calls - 1) ≡ false)
              × (select pool_key "pool-1" after.pools ≡ some (counted small_pool (pos 100))))
            ⊎ ((healthy.refuses (after.calls - 1) ≡ true) × (after.pools ≡ one_pool.pools))))
      (λ e after. after.pools ≡ one_pool.pools)
      (create_volume healthy (request_of (pos 100)) one_pool)
unfolding select
create_volume_counts_example =
    create_volume_counts healthy (request_of (pos 100)) one_pool small_pool refl
