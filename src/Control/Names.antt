-- ===== src/Control/Names.antt =====
-- The names of the images, whichever calls fail.
use rymevisor.Common.{◌≡◌, false, none, List, [], ◌∷◌, String, str_eq, arith, All}
use rymevisor.Common.Triple.{Ends-ignore}
use rymevisor.Common.Table.{update}
use rymevisor.Control.{Image, ImageStatus, ImportImageRequest}
use rymevisor.Control.Store.{World, Environment, image_key, first_where}
use rymevisor.Control.Images.{
  set_image_status, pull_official_image, import_from_url, resolve_and_ensure_image,
}
use rymevisor.Control.ImageLaws.{ImageLaws}
use rymevisor.Control.Resolve.{
  resolve_and_ensure_image-Preserves, pull_official_image-Preserves, import_from_url-Preserves,
}

-- No image of some has this name.
abbrev pub IsFresh : String → List Image → Type 0
IsFresh name is = All (λ i. str_eq i.name name ≡ false) is

-- No two images have the same name.
abbrev pub NamesDiffer : List Image → Type 0
NamesDiffer [] = Unit
NamesDiffer (i ∷ is) = IsFresh i.name is × NamesDiffer is

first_where-IsFresh :
    (name : String) (is : List Image)
    → first_where (λ i. str_eq i.name name) is ≡ none
    → IsFresh name is
first_where-IsFresh name [] e = tt
first_where-IsFresh name (i ∷ is) e = ground (arith, first_where-IsFresh name is)

module _ (id : String) (status : ImageStatus) where
  update-IsFresh :
      (name : String) (is : List Image)
      → IsFresh name is
      → IsFresh name (update image_key id (set_image_status status) is)
  unfolding update
  update-IsFresh name [] fresh = tt
  update-IsFresh name (i ∷ is) fresh = ground (arith, fresh, update-IsFresh name is fresh.1)

  update-NamesDiffer :
      (is : List Image)
      → NamesDiffer is
      → NamesDiffer (update image_key id (set_image_status status) is)
  unfolding update
  update-NamesDiffer [] differ = tt
  update-NamesDiffer (i ∷ is) differ =
      ground (arith, update-IsFresh i.name is differ.0, update-NamesDiffer is differ.1)

abbrev Named : World → Type 0
Named w = NamesDiffer w.images

abbrev Fresh : String → World → Type 0
Fresh name w = IsFresh name w.images × Named w

Named-laws : ImageLaws Named Fresh
Named-laws = record {
  after_call = λ w n p. p;
  after_start = λ w started p. p;
  after_status = λ w id status p. update-NamesDiffer id status w.images p;
  fresh = λ w name p e. (first_where-IsFresh name w.images e, p);
  fresh_call = λ w name n f. f;
  weaker = λ w name f. f.1;
  after_insert = λ w i f. f;
}

module _ (env : Environment) where
  -- When no two images have the same name, none have after an image reference is resolved, an official
  -- image is pulled or an image is imported, whichever calls fail.
  pub images-NamesDiffer :
      (w : World)
      → NamesDiffer w.images
      → ((ref : String) → NamesDiffer (resolve_and_ensure_image env ref w).1.images)
        × ((os version arch : String)
            → NamesDiffer (pull_official_image env os version arch w).1.images)
        × ((req : ImportImageRequest) → NamesDiffer (import_from_url env req w).1.images)
  images-NamesDiffer w differ = (
    λ ref.
        Ends-ignore Named _ ((resolve_and_ensure_image-Preserves env Named-laws ref).run w differ),
    λ os version arch.
        Ends-ignore Named _
          ((pull_official_image-Preserves env Named-laws os version arch).run w differ),
    λ req. Ends-ignore Named _ ((import_from_url-Preserves env Named-laws req).run w differ),
  )
