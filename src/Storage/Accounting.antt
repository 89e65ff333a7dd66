-- ===== src/Storage/Accounting.antt =====
-- The used bytes of a pool over the operations on its volumes.
use rymevisor.Common.{◌≡◌, arith, ◌<◌, ◌+◌, ◌-◌, ◌^◌}
use rymevisor.Common.Triple.{Ends}
use rymevisor.Common.Table.{select, update, key-select}
use rymevisor.Storage.{pool_key, available}
use rymevisor.Storage.Volumes.{
  over_capacity, resized_use, create_volume, delete_volume, finish_volume,
}
use rymevisor.Common.{ℕ, Bool, true, false, some, String, List, [], ◌∷◌, ◌⊎◌, eq_iff}
use rymevisor.Common.Int.{ℤ, pos, ◌+ℤ◌, ◌-ℤ◌}
use rymevisor.Storage.{StoragePool, CreateVolumeRequest, StorageWorld, Host, wrap_int64}

-- DeleteVolume, whichever calls fail, writes no pool: the bytes of a deleted volume stay counted as
-- used.
pub delete_volume_pools :
    (host : Host) (id : String) (force : Bool) (w : StorageWorld)
    → (delete_volume host id force w).1.pools ≡ w.pools
unfolding delete_volume
delete_volume_pools host id force w = ground arith

-- The capacity check refuses a size that does not fit, where an int64 holds the sum.
over_capacity_full :
    (pool : StoragePool) (used total size : ℕ)
    → pool.used_bytes ≡ pos used
    → pool.total_bytes ≡ pos total
    → 0 < total
    → total < used + size
    → used + size < 2 ^ 63
    → over_capacity pool (pos size) ≡ true
unfolding ◌+ℤ◌
over_capacity_full pool used total size is limit some_limit full fits =
    ground (arith, is, limit, some_limit, full, fits)

-- Where a pool with a limit has fewer bytes left than the size asked for, and an int64 holds the sum of
-- the used bytes and the size, CreateVolume fails, whichever calls fail, and changes no volume, pool or
-- disk.
pub create_volume_refuses :
    (host : Host) (req : CreateVolumeRequest) (w : StorageWorld) (pool : StoragePool)
    (used total size : ℕ)
    → select pool_key req.pool_id w.pools ≡ some pool
    → pool.used_bytes ≡ pos used
    → pool.total_bytes ≡ pos total
    → req.size_bytes ≡ pos size
    → 0 < total
    → total < used + size
    → used + size < 2 ^ 63
    → Ends
        (λ volume after. ⊥)
        (λ e after.
          (after.volumes ≡ w.volumes) × (after.pools ≡ w.pools) × (after.disk_steps ≡ w.disk_steps))
        (create_volume host req w)
unfolding create_volume
create_volume_refuses host req w pool used total size found is limit asked some_limit full fits =
    let over : over_capacity pool req.size_bytes ≡ true =
      rw asked (over_capacity_full pool used total size is limit some_limit full fits) in
    ground (arith, found, over)

wrap_small : (n : ℕ) → n < 2 ^ 63 → wrap_int64 (pos n) ≡ pos n
wrap_small n h = ground (arith, h)

-- With used bytes, sizes and their sums that an int64 holds, ResizeVolume counts the used bytes less
-- the old size, plus the new one, or 0 where that is negative.
resized_use_lem :
    (pool : StoragePool) (used old_size new_size : ℕ)
    → pool.used_bytes ≡ pos used
    → used + new_size < 2 ^ 63
    → old_size < 2 ^ 63
    → resized_use pool (pos old_size) (pos new_size) ≡ pos (used + new_size - old_size)
unfolding ◌+ℤ◌ ◌-ℤ◌
resized_use_lem pool used old_size new_size is fits old_fits = ground (arith, is, fits, old_fits)

-- A written row is the one that its id selects.
select-write :
    (k : String) (new old : StoragePool) (rows : List StoragePool)
    → new.id ≡ k
    → select pool_key k rows ≡ some old
    → select pool_key k (update pool_key k (λ r. new) rows) ≡ some new
unfolding select update
select-write k new old [] is h = ground arith
select-write k new old (r ∷ rows) is h =
    ground (arith, is, h, eq_iff r.id k, eq_iff new.id k, select-write k new old rows is)

-- The pool with the size added to its used bytes, as an int64.
abbrev pub counted : StoragePool → ℤ → StoragePool
counted pool size = record pool { used_bytes = wrap_int64 (pool.used_bytes +ℤ size) }

-- Where the pool exists, a CreateVolume that fails, whichever calls fail, writes no pool. One that
-- succeeds passed the capacity check, answers an available volume of the size asked for, and the pool
-- has the size added to its used bytes as an int64, unless the last call, its write, failed: then the
-- pools are as before.
pub create_volume_counts :
    (host : Host) (req : CreateVolumeRequest) (w : StorageWorld) (pool : StoragePool)
    → select pool_key req.pool_id w.pools ≡ some pool
    → Ends
        (λ volume after.
          (over_capacity pool req.size_bytes ≡ false)
          × (volume.status ≡ available)
          × (volume.size_bytes ≡ req.size_bytes)
          × (((host.refuses (after.calls - 1) ≡ false)
                × (select pool_key req.pool_id after.pools ≡ some (counted pool req.size_bytes)))
              ⊎ ((host.refuses (after.calls - 1) ≡ true) × (after.pools ≡ w.pools))))
        (λ e after. after.pools ≡ w.pools)
        (create_volume host req w)
unfolding create_volume finish_volume
create_volume_counts host req w pool found =
    let is = key-select pool_key req.pool_id w.pools pool found in
    ground (
      arith,
      found,
      is,
      select-write req.pool_id (counted pool req.size_bytes) pool w.pools is found,
    )
