-- ===== src/Control/Steps.antt =====
-- The steps of CreateVM before the row is stored write no VM, whichever calls fail.
use rymevisor.Common.{ℕ, ◌+◌, not, Option, none, some, List, [], ◌∷◌, String, str_eq, arith}
use rymevisor.Common.Effect.{pure, fail}
use rymevisor.Common.Triple.{triple->>=, triple-if, triple-attempt}
use rymevisor.Catalog.{OfficialImage, resolve_image_alias}
use rymevisor.Control.{VirtualMachine, Image, CreateVmRequest, CreateDiskRequest}
use rymevisor.Control.Store.{World, Environment, Db, new_id, image_not_found}
use rymevisor.Control.ImageLaws.{ImageLaws, Preserves, find_image-Preserves}
use rymevisor.Control.Resolve.{
  find_image_named-Preserves, resolve_and_ensure_image-Preserves, pull_official_image-Preserves,
}
use rymevisor.Control.Disks.{
  pull_alias, named_image, image_pulled, image_stored, known_or_fail, known_image, disk_image,
  make_disks, request_disks, disk_of,
}
use rymevisor.Control.Create.{sized_by_flavor, resolve_keypair}
use rymevisor.Control.Saved.{IsFromRivals}

module _ (env : Environment) (rows : List VirtualMachine) where
  abbrev pub Grown : World → Type 0
  Grown w = IsFromRivals env rows w.vms

  abbrev pub Keeps : {A : Type 0} → Db env A → Type 0
  Keeps m = Preserves Grown env m

  Grown-laws : ImageLaws Grown (λ name. Grown)
  Grown-laws = record {
    after_call = λ w n p. p;
    after_start = λ w started p. p;
    after_status = λ w id status p. p;
    fresh = λ w name p e. p;
    fresh_call = λ w name n p. p;
    weaker = λ w name p. p;
    after_insert = λ w i p. p;
  }

  pub new_id-Keeps : Keeps (new_id env)
  new_id-Keeps = record { run = λ w p. p }

  pull_found-Keeps :
      (found : Option OfficialImage) (next : OfficialImage → Db env String)
      → ((oi : OfficialImage) → Keeps (next oi))
      → Keeps {A = String} (elim found [ none ↦ fail image_not_found | some oi ↦ next oi ])
  pull_found-Keeps none next kept = record { run = λ w p. p }
  pull_found-Keeps (some oi) next kept = kept oi

  pull_alias-Keeps : (name : String) → Keeps (pull_alias env name)
  unfolding pull_alias
  pull_alias-Keeps name = pull_found-Keeps (resolve_image_alias name) _ (λ oi.
      triple->>= _ _
        (triple-attempt _
          (pull_official_image-Preserves env Grown-laws oi.os oi.os_version oi.architecture))
        pulled_id)
    where
      pulled_id :
          (found : Option Image)
          → Keeps {A = String} (elim found [ none ↦ fail image_not_found | some i ↦ pure i.id ])
      pulled_id none = record { run = λ w p. p }
      pulled_id (some i) = record { run = λ w p. p }

  image_pulled-Keeps :
      (d : CreateDiskRequest) (found : Option Image) → Keeps (image_pulled env d found)
  unfolding image_pulled
  image_pulled-Keeps d (some i) = record { run = λ w p. p }
  image_pulled-Keeps d none =
      triple->>= _ (λ id. pure (id, d.size_bytes)) (pull_alias-Keeps d.image)
        (λ id. record { run = λ w p. p })

  image_stored-Keeps :
      (d : CreateDiskRequest) (found : Option (Option Image)) → Keeps (image_stored env d found)
  unfolding image_stored
  image_stored-Keeps d none = record { run = λ w p. ground (arith, p) }
  image_stored-Keeps d (some none) = record { run = λ w p. ground (arith, p) }
  image_stored-Keeps d (some (some i)) = record { run = λ w p. p }

  named_image-Keeps : (d : CreateDiskRequest) → Keeps (named_image env d)
  unfolding named_image
  named_image-Keeps d =
      triple-if env.has_puller _ _
        (λ h.
          triple->>= _ _
            (triple-attempt _ (resolve_and_ensure_image-Preserves env Grown-laws d.image))
            (image_pulled-Keeps d))
        (λ h.
          triple->>= _ _ (triple-attempt _ (find_image_named-Preserves env Grown-laws d.image))
            (image_stored-Keeps d))

  known_or_fail-Keeps :
      (id : String) (found : Option (Option Image)) → Keeps (known_or_fail env id found)
  known_or_fail-Keeps id none = record { run = λ w p. p }
  known_or_fail-Keeps id (some none) = record { run = λ w p. p }
  known_or_fail-Keeps id (some (some i)) = record { run = λ w p. p }

  known_image-Keeps : (id : String) → Keeps (known_image env id)
  unfolding known_image
  known_image-Keeps id =
      triple-if env.has_puller _ _
        (λ h.
          triple->>= _ (λ i. pure (Image.id i))
            (resolve_and_ensure_image-Preserves env Grown-laws id) (λ i. record { run = λ w p. p }))
        (λ h.
          triple->>= _ _ (triple-attempt _ (find_image-Preserves env Grown-laws id))
            (known_or_fail-Keeps id))

  disk_image-Keeps : (d : CreateDiskRequest) → Keeps (disk_image env d)
  unfolding disk_image
  disk_image-Keeps d =
      triple-if (not (str_eq d.image_id "")) _ _
        (λ h.
          triple->>= _ (λ id. pure (id, d.size_bytes)) (known_image-Keeps d.image_id)
            (λ id. record { run = λ w p. p }))
        (λ h.
          triple-if (not (str_eq d.image "")) (named_image env d) (pure ("", d.size_bytes))
            (λ n. named_image-Keeps d) (λ n. record { run = λ w p. p }))

  make_disks-Keeps : (i : ℕ) (ds : List CreateDiskRequest) → Keeps (make_disks env i ds)
  unfolding make_disks
  make_disks-Keeps i [] = record { run = λ w p. p }
  make_disks-Keeps i (d ∷ ds) = triple->>= _ _ (disk_image-Keeps d) (λ found.
      triple->>= _ _ new_id-Keeps (λ id.
        triple->>= _ (λ rest. pure (disk_of env i d id found.0 found.1 ∷ rest))
          (make_disks-Keeps (i + 1) ds) (λ rest. record { run = λ w p. p })))

  pub request_disks-Keeps : (ds : List CreateDiskRequest) → Keeps (request_disks env ds)
  unfolding request_disks
  request_disks-Keeps [] = record { run = λ w p. p }
  request_disks-Keeps (d ∷ ds) = make_disks-Keeps 0 (d ∷ ds)

  pub sized_by_flavor-Keeps : (req : CreateVmRequest) → Keeps (sized_by_flavor env req)
  unfolding sized_by_flavor
  sized_by_flavor-Keeps req = record { run = λ w p. ground (arith, p) }

  pub resolve_keypair-Keeps : (req : CreateVmRequest) → Keeps (resolve_keypair env req)
  unfolding resolve_keypair
  resolve_keypair-Keeps req = record { run = λ w p. ground (arith, p) }
