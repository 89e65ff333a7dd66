-- ===== src/Control/ImageLaws.antt =====
-- What the operations on images keep: a condition that holds after each call that they make.
use rymevisor.Common.{
  ℕ, ◌+◌, ◌≡◌, sym, subst, refl, Option, none, some, List, ◌∷◌, String, str_eq, arith,
}
use rymevisor.Common.Triple.{Triple, triple->>=, triple->>, triple-ignore, triple-pure}
use rymevisor.Common.Table.{update}
use rymevisor.Catalog.{OfficialImage}
use rymevisor.Control.{Image, ImageStatus, ImportImageRequest, downloading}
use rymevisor.Control.Store.{World, Environment, image_key, Db, first_where}
use rymevisor.Control.Images.{
  set_image_status, find_image, find_image_named, put_new_image, put_image_status, start_download,
  download_again, refresh, insert_download, pulled, pull_from_official, import_found, official_row,
  imported_row,
}

-- A condition on the state, and one that holds when an image's name is not found, which single calls
-- keep.
pub record ImageLaws (P : World → Type 0) (F : String → World → Type 0) : Type 0 where
  pub after_call : (w : World) (n : ℕ) → P w → P (record w { calls = n })
  pub after_start :
      (w : World) (started : List (String × String)) → P w → P (record w { downloads = started })
  pub after_status :
      (w : World) (id : String) (status : ImageStatus)
      → P w
      → P (record w { images = update image_key id (set_image_status status) w.images })
  pub fresh :
      (w : World) (name : String)
      → P w
      → first_where (λ i. str_eq (Image.name i) name) w.images ≡ none
      → F name w
  pub fresh_call : (w : World) (name : String) (n : ℕ) → F name w → F name (record w { calls = n })
  pub weaker : (w : World) (name : String) → F name w → P w
  pub after_insert : (w : World) (i : Image) → F i.name w → P (record w { images = i ∷ w.images })

-- An operation after which a condition holds if it did, however it ends.
abbrev pub Preserves : (P : World → Type 0) (env : Environment) → {A : Type 0} → Db env A → Type 0
Preserves P env m = Triple P m (λ _. P) (λ _. P)

module _ (env : Environment) {P : World → Type 0} {F : String → World → Type 0}
    (laws : ImageLaws P F) where
  pub find_image-Preserves : (id : String) → Preserves P env (find_image env id)
  unfolding find_image
  find_image-Preserves id = record {
    run = λ w p. ground (arith, laws.after_call w (w.calls + 1) p);
  }

  put_image_status-Preserves :
      (id : String) (status : ImageStatus) → Preserves P env (put_image_status env id status)
  unfolding put_image_status
  put_image_status-Preserves id status = record {
    run = λ w p. ground (
      arith,
      laws.after_call w (w.calls + 1) p,
      laws.after_status (record w { calls = w.calls + 1 }) id status
          (laws.after_call w (w.calls + 1) p),
    );
  }

  start_download-Preserves : (i : Image) (url : String) → Preserves P env (start_download env i url)
  unfolding start_download
  start_download-Preserves i url = record { run = λ w p. laws.after_start w _ p }

  -- A name that is not found is fresh.
  pub find_image_named-triple :
      (name : String)
      → Triple P
          (find_image_named env name)
          (λ found w. elim found [ none ↦ F name w | some i ↦ P w ])
          (λ _. P)
  unfolding find_image_named
  find_image_named-triple name = record {
    run = λ w p. ground (
      arith,
      laws.after_call w (w.calls + 1) p,
      laws.fresh (record w { calls = w.calls + 1 }) name (laws.after_call w (w.calls + 1) p),
    );
  }

  pub download_again-Preserves :
      (i : Image) (url : String) → Preserves P env (download_again env i url)
  unfolding download_again
  download_again-Preserves i url =
      triple->> _ _ (triple-ignore _ (put_image_status-Preserves i.id downloading))
        (triple->> _ _ (start_download-Preserves i url) (triple-pure i (λ s p. p)))

  pub refresh-Preserves : (i : Image) (url : String) → Preserves P env (refresh env i url)
  unfolding refresh
  refresh-Preserves i url = record {
    run = λ w p. ground (arith, p, (download_again-Preserves i url).run w p);
  }

  -- A new row with a fresh name.
  insert_download-Preserves :
      (name : String) (row : String → Image) (url : String)
      → ((id : String) → (row id).name ≡ name)
      → Triple (F name) (insert_download env row url) (λ _. P) (λ _. P)
  unfolding insert_download put_new_image start_download
  insert_download-Preserves name row url named = record {
    run = λ w p.
        let w₁ = record w { calls = w.calls + 1 } in
        let w₂ = record w { calls = w.calls + 1 + 1 } in
        let i = row (env.new_uuid w.calls) in
        let q =
          laws.fresh_call w₁ name (w.calls + 1 + 1) (laws.fresh_call w name (w.calls + 1) p) in
        let kept =
          laws.after_insert w₂ i (subst (λ n. F n w₂) (sym (named (env.new_uuid w.calls))) q) in
        ground (
          arith,
          laws.weaker w₂ name q,
          laws.after_start (record w₂ { images = i ∷ w.images }) ((i.id, url) ∷ w.downloads) kept,
        );
  }

  pulled-Preserves :
      (oi : OfficialImage) (found : Option Image)
      → Triple
          (λ w. elim found [ none ↦ F oi.name w | some i ↦ P w ])
          (pulled env oi found)
          (λ _. P)
          (λ _. P)
  unfolding pulled
  pulled-Preserves oi none =
      insert_download-Preserves oi.name (λ id. official_row id oi) oi.url (λ id. refl)
  pulled-Preserves oi (some i) = refresh-Preserves i oi.url

  pub pull_from_official-Preserves :
      (oi : OfficialImage) → Preserves P env (pull_from_official env oi)
  unfolding pull_from_official
  pull_from_official-Preserves oi =
      triple->>= _ (λ found. pulled env oi found) (find_image_named-triple oi.name)
        (pulled-Preserves oi)

  pub import_found-Preserves :
      (req : ImportImageRequest) (found : Option Image)
      → Triple
          (λ w. elim found [ none ↦ F req.name w | some i ↦ P w ])
          (import_found env req found)
          (λ _. P)
          (λ _. P)
  unfolding import_found
  import_found-Preserves req none =
      insert_download-Preserves req.name (λ id. imported_row id req) req.url (λ id. refl)
  import_found-Preserves req (some i) = record { run = λ w p. p }
