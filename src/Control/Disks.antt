-- ===== src/Control/Disks.antt =====
-- The disks of a new VM, and the images that they name: the middle part of CreateVM.
use rymevisor.Common.{
  ℕ, ◌+◌, Bool, true, false, not, ◌&&◌, ◌==◌, Option, none, some, List, [], ◌∷◌, if◌then◌else◌,
  String, str_eq,
}
use rymevisor.Common.Effect.{pure, fail, attempt, ◌>>=◌}
use rymevisor.Common.Int.{ℤ, pos, ltb_ℤ}
use rymevisor.Common.Numerals.{number}
use rymevisor.Catalog.{resolve_image_alias}
use rymevisor.Control.{Disk, Image, CreateDiskRequest}
use rymevisor.Control.Store.{
  Environment, image_not_found, image_not_cached, unknown_image, Db, new_id,
}
use rymevisor.Control.Images.{
  or_text, find_image, find_image_named, resolve_and_ensure_image, pull_official_image,
}
use Prim.Native.String.{◌++◌ as ◌<>◌}

-- 20 GiB
abbrev pub default_size : ℤ
default_size = pos 21474836480

abbrev pub is_zero : ℤ → Bool
is_zero n = elim n [ pos k ↦ k == 0 | _ ↦ false ]

abbrev pub or_size : ℤ → ℤ → ℤ
or_size given default = if is_zero given then default else given

module _ (env : Environment) where
  -- The image of a disk that names one, when the puller could not resolve it.
  unfoldable pub pull_alias : String → Db env String
  pull_alias name = elim (resolve_image_alias name) [
    | none ↦ fail image_not_found
    | some oi ↦ do
      pulled ← attempt (pull_official_image env oi.os oi.os_version oi.architecture)
      elim pulled [ none ↦ fail image_not_found | some i ↦ pure i.id ]
  ]

  -- With the puller: its image, or the one that the alias pulls.
  unfoldable pub image_pulled : CreateDiskRequest → Option Image → Db env (String × ℤ)
  unfolding pull_alias
  image_pulled d (some i) = pure (
    i.id,
    if is_zero d.size_bytes && ltb_ℤ (pos 0) i.size_bytes then i.size_bytes else d.size_bytes,
  )
  image_pulled d none = do id ← pull_alias d.image; pure (id, d.size_bytes)

  -- Without it: the image that is stored.
  unfoldable pub image_stored : CreateDiskRequest → Option (Option Image) → Db env (String × ℤ)
  image_stored d (some (some i)) = pure (i.id, d.size_bytes)
  image_stored d _ = elim (resolve_image_alias d.image) [
    | some oi ↦ fail image_not_cached
    | none ↦ fail unknown_image
  ]

  unfoldable pub named_image : CreateDiskRequest → Db env (String × ℤ)
  unfolding image_pulled image_stored
  named_image d =
      if env.has_puller
      then (do found ← attempt (resolve_and_ensure_image env d.image); image_pulled d found)
      else (do found ← attempt (find_image_named env d.image); image_stored d found)

  abbrev pub known_or_fail : String → Option (Option Image) → Db env String
  known_or_fail id found = elim found [ some (some i) ↦ pure id | _ ↦ fail image_not_found ]

  unfoldable pub known_image : String → Db env String
  known_image id =
      if env.has_puller
      then (do i ← resolve_and_ensure_image env id; pure i.id)
      else (do found ← attempt (find_image env id); known_or_fail id found)

  -- The image and the size of a disk.
  unfoldable pub disk_image : CreateDiskRequest → Db env (String × ℤ)
  unfolding named_image known_image
  disk_image d =
      if not (str_eq d.image_id "")
      then (do id ← known_image d.image_id; pure (id, d.size_bytes))
      else if not (str_eq d.image "")
      then named_image d
      else pure ("", d.size_bytes)

  abbrev pub disk_of : ℕ → CreateDiskRequest → String → String → ℤ → Disk
  disk_of i d id image size = record {
    id = id;
    name = or_text d.name (if i == 0 then "root" else "disk-" <> number i);
    size_bytes = or_size size default_size;
    type = or_text d.type "qcow2";
    storage_pool = or_text d.storage_pool "default";
    image_id = image;
    boot = i == 0;
    order = pos i;
  }

  unfoldable pub make_disks : ℕ → List CreateDiskRequest → Db env (List Disk)
  unfolding disk_image number
  make_disks i [] = pure []
  make_disks i (d ∷ ds) = do
    found ← disk_image d
    id ← new_id env
    rest ← make_disks (i + 1) ds
    pure (disk_of i d id found.0 found.1 ∷ rest)

  -- The disks of a request: a root disk when it names none.
  unfoldable pub request_disks : List CreateDiskRequest → Db env (List Disk)
  unfolding make_disks
  request_disks [] = do
    id ← new_id env
    pure (
        record {
          id = id;
          name = "root";
          size_bytes = default_size;
          type = "qcow2";
          storage_pool = "default";
          image_id = "";
          boot = true;
          order = pos 0;
        }
        ∷ [])
  request_disks (d ∷ ds) = make_disks 0 (d ∷ ds)
