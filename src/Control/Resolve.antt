-- ===== src/Control/Resolve.antt =====
-- Resolving, pulling and importing images keep what their calls keep.
use rymevisor.Common.{◌+◌, Bool, not, Option, none, some, String, str_eq, arith}
use rymevisor.Common.Effect.{attempt, fail, fail_if, ◌>>=◌, ◌>>◌}
use rymevisor.Common.Triple.{triple->>=, triple->>, triple-attempt, triple-fail_if, triple-weaken}
use rymevisor.Catalog.{OfficialImage, find, resolve_image_alias}
use rymevisor.Control.{Image, ImportImageRequest}
use rymevisor.Control.Store.{
  World, Environment, Failure, Db, puller_not_configured, url_required, name_required,
  image_not_found,
}
use rymevisor.Control.Images.{
  find_image_named, refresh, pull_from_official, pull_official_image, import_from_url,
  restart_failed, resolve_official, resolve_name, resolve_found, resolve_and_ensure_image,
}
use rymevisor.Control.ImageLaws.{
  ImageLaws, Preserves, find_image-Preserves, find_image_named-triple, refresh-Preserves,
  download_again-Preserves, pull_from_official-Preserves, import_found-Preserves,
}

module _ (env : Environment) {P : World → Type 0} {F : String → World → Type 0}
    (laws : ImageLaws P F) where
  restart_failed-Preserves : (i : Image) → Preserves P env (restart_failed env i)
  unfolding restart_failed
  restart_failed-Preserves i = record {
    run = λ w p. ground (arith, p, (download_again-Preserves env laws i i.source_url).run w p);
  }

  -- A look whose result is not used to insert.
  pub find_image_named-Preserves : (name : String) → Preserves P env (find_image_named env name)
  unfolding find_image_named
  find_image_named-Preserves name = record {
    run = λ w p. ground (arith, laws.after_call w (w.calls + 1) p);
  }

  official_found-Preserves :
      (oi : OfficialImage) (found : Option (Option Image))
      → Preserves P env
          (elim found [ some (some i) ↦ refresh env i oi.url | _ ↦ pull_from_official env oi ])
  official_found-Preserves oi none = pull_from_official-Preserves env laws oi
  official_found-Preserves oi (some none) = pull_from_official-Preserves env laws oi
  official_found-Preserves oi (some (some i)) = refresh-Preserves env laws i oi.url

  resolve_official-Preserves : (oi : OfficialImage) → Preserves P env (resolve_official env oi)
  unfolding resolve_official
  resolve_official-Preserves oi =
      triple->>= _ _ (triple-attempt _ (find_image_named-Preserves oi.name))
        (official_found-Preserves oi)

  alias_found-Preserves :
      (found : Option OfficialImage) (e : Failure) (next : OfficialImage → Db env Image)
      → ((oi : OfficialImage) → Preserves P env (next oi))
      → Preserves P env {A = Image} (elim found [ none ↦ fail e | some oi ↦ next oi ])
  alias_found-Preserves none e next kept = record { run = λ w p. p }
  alias_found-Preserves (some oi) e next kept = kept oi

  resolve_name-Preserves :
      (ref : String) (found : Option (Option Image)) → Preserves P env (resolve_name env ref found)
  unfolding resolve_name
  resolve_name-Preserves ref (some (some i)) = record { run = λ w p. p }
  resolve_name-Preserves ref (some none) =
      alias_found-Preserves (resolve_image_alias ref) _ _ resolve_official-Preserves
  resolve_name-Preserves ref none =
      alias_found-Preserves (resolve_image_alias ref) _ _ resolve_official-Preserves

  look_by_name-Preserves :
      (ref : String)
      → Preserves P env (attempt (find_image_named env ref) >>= λ found. resolve_name env ref found)
  look_by_name-Preserves ref =
      triple->>= _ _ (triple-attempt _ (find_image_named-Preserves ref))
        (resolve_name-Preserves ref)

  resolve_found-Preserves :
      (ref : String) (found : Option (Option Image)) → Preserves P env (resolve_found env ref found)
  unfolding resolve_found
  resolve_found-Preserves ref (some (some i)) = restart_failed-Preserves i
  resolve_found-Preserves ref (some none) = look_by_name-Preserves ref
  resolve_found-Preserves ref none = look_by_name-Preserves ref

  guard-Preserves :
      (c : Bool) (e : Failure) {A : Type 0} (m : Db env A)
      → Preserves P env m
      → Preserves P env (fail_if c e >> m)
  guard-Preserves c e m kept =
      triple->> _ _ (triple-weaken (triple-fail_if c e (λ w p. p)) (λ _ w p. p.1) (λ _ w p. p)) kept

  pub resolve_and_ensure_image-Preserves :
      (ref : String) → Preserves P env (resolve_and_ensure_image env ref)
  unfolding resolve_and_ensure_image
  resolve_and_ensure_image-Preserves ref = guard-Preserves (str_eq ref "") image_not_found _ (
      triple->>= _ _ (triple-attempt _ (find_image-Preserves env laws ref))
        (resolve_found-Preserves ref))

  pub pull_official_image-Preserves :
      (os version arch : String) → Preserves P env (pull_official_image env os version arch)
  unfolding pull_official_image
  pull_official_image-Preserves os version arch =
      guard-Preserves (not env.has_puller) puller_not_configured _
        (alias_found-Preserves (find os version arch) _ _ (pull_from_official-Preserves env laws))

  pub import_from_url-Preserves :
      (req : ImportImageRequest) → Preserves P env (import_from_url env req)
  unfolding import_from_url
  import_from_url-Preserves req = guard-Preserves (not env.has_puller) puller_not_configured _ (
      guard-Preserves (str_eq req.url "") url_required _ (
        guard-Preserves (str_eq req.name "") name_required _ (
          triple->>= _ _ (find_image_named-triple env laws req.name)
            (import_found-Preserves env laws req))))
