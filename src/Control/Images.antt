-- ===== src/Control/Images.antt =====
-- services/controlplane/image_puller.go: how an image reference becomes a row of the image table.
-- A started download is recorded with its image and its address; the download itself runs apart.
use rymevisor.Common.{
  Bool, true, false, not, ◌&&◌, Option, none, some, List, [], ◌∷◌, if◌then◌else◌, String, str_eq,
  take,
}
use rymevisor.Common.Effect.{pure, fail, gets, modify, fail_if, ignore, attempt, ◌>>=◌, ◌>>◌}
use rymevisor.Common.Int.{pos}
use rymevisor.Common.Table.{select, update}
use rymevisor.Catalog.{OfficialImage, find, resolve_image_alias}
use rymevisor.Control.{
  ImageStatus, ready, downloading, processing, image_error, Image, ImportImageRequest,
}
use rymevisor.Control.Store.{
  Environment, get_image, update_image, image_exists, create_image, url_required, name_required,
  image_not_found, unknown_image, puller_not_configured, image_key, Db, call, first_where, new_id,
}
use Prim.Native.String.{◌++◌}

abbrev pub is_ready : ImageStatus → Bool
is_ready s = elim s [ ready ↦ true | _ ↦ false ]

abbrev pub is_image_error : ImageStatus → Bool
is_image_error s = elim s [ image_error ↦ true | _ ↦ false ]

-- Downloading or processing
abbrev pub is_unfinished : ImageStatus → Bool
is_unfinished s = elim s [ downloading ↦ true | processing ↦ true | _ ↦ false ]

abbrev pub set_image_status : ImageStatus → Image → Image
set_image_status status i = record i { status = status }

abbrev pub official_row : String → OfficialImage → Image
official_row id oi = record {
  id = id;
  name = oi.name;
  description = oi.description;
  os = oi.os;
  os_version = oi.os_version;
  architecture = oi.architecture;
  type = "os";
  size_bytes = oi.size_bytes;
  status = downloading;
  checksum = "";
  source_url = oi.url;
  tags = "official" ∷ "auto-pulled" ∷ [];
}

abbrev pub or_text : String → String → String
or_text given default = if str_eq given "" then default else given

abbrev pub imported_row : String → ImportImageRequest → Image
imported_row id req = record {
  id = id;
  name = req.name;
  description = "Imported from " ++ req.url;
  os = or_text req.os "linux";
  os_version = req.os_version;
  architecture = or_text req.architecture "amd64";
  type = "os";
  size_bytes = pos 0;
  status = downloading;
  checksum = "";
  source_url = req.url;
  tags = "imported" ∷ [];
}

-- The downloads of the unfinished images that have an address, in front of others.
unfoldable pub resumed : List Image → List (String × String) → List (String × String)
resumed [] started = started
resumed (i ∷ is) started = resumed is (
    if is_unfinished i.status && not (str_eq i.source_url "")
    then (i.id, i.source_url) ∷ started
    else started)

module _ (env : Environment) where
  -- imageRepo.GetByID, GetByName, Create and UpdateStatus with neither size nor checksum
  unfoldable pub find_image : String → Db env (Option Image)
  find_image id = do call env get_image; gets (λ w. select image_key id w.images)

  unfoldable pub find_image_named : String → Db env (Option Image)
  find_image_named name = do
    call env get_image
    gets (λ w. first_where (λ i. str_eq i.name name) w.images)

  unfoldable pub put_new_image : Image → Db env (Unit {0})
  put_new_image i = do call env create_image; modify (λ w. record w { images = i ∷ w.images })

  unfoldable pub put_image_status : String → ImageStatus → Db env (Unit {0})
  put_image_status id status = do
    call env update_image
    modify (λ w. record w { images = update image_key id (set_image_status status) w.images })

  -- `go p.download(…)`
  unfoldable pub start_download : Image → String → Db env (Unit {0})
  start_download i url = modify (λ w. record w { downloads = (i.id, url) ∷ w.downloads })

  unfoldable pub download_again : Image → String → Db env Image
  unfolding put_image_status start_download
  download_again i url = do ignore (put_image_status i.id downloading); start_download i url; pure i

  -- A row of an official image: downloaded again unless it is ready and its file is there, or it is
  -- unfinished.
  unfoldable pub refresh : Image → String → Db env Image
  unfolding download_again
  refresh i url =
      if is_ready i.status && env.has_file i.id
      then pure i
      else if is_unfinished i.status
      then pure i
      else download_again i url

  unfoldable pub insert_download : (String → Image) → String → Db env Image
  unfolding put_new_image start_download
  insert_download row url = do
    id ← new_id env
    put_new_image (row id)
    start_download (row id) url
    pure (row id)

  unfoldable pub pulled : OfficialImage → Option Image → Db env Image
  unfolding refresh insert_download
  pulled oi none = insert_download (λ id. official_row id oi) oi.url
  pulled oi (some i) = refresh i oi.url

  -- PullFromOfficial
  unfoldable pub pull_from_official : OfficialImage → Db env Image
  unfolding find_image_named pulled
  pull_from_official oi = do found ← find_image_named oi.name; pulled oi found

  -- PullOfficialImage, of the service and of the puller
  unfoldable pub pull_official_image : String → String → String → Db env Image
  unfolding find pull_from_official
  pull_official_image os version arch = do
    fail_if (not env.has_puller) puller_not_configured
    elim (find os version arch) [ none ↦ fail image_not_found | some oi ↦ pull_from_official oi ]

  unfoldable pub import_found : ImportImageRequest → Option Image → Db env Image
  unfolding insert_download
  import_found req none = insert_download (λ id. imported_row id req) req.url
  import_found req (some i) = fail image_exists

  -- ImportFromURL
  unfoldable pub import_from_url : ImportImageRequest → Db env Image
  unfolding find_image_named import_found
  import_from_url req = do
    fail_if (not env.has_puller) puller_not_configured
    fail_if (str_eq req.url "") url_required
    fail_if (str_eq req.name "") name_required
    found ← find_image_named req.name
    import_found req found

  -- An image found by its id: started again when it failed and has an address.
  unfoldable pub restart_failed : Image → Db env Image
  unfolding download_again
  restart_failed i =
      if is_image_error i.status && not (str_eq i.source_url "")
      then download_again i i.source_url
      else pure i

  unfoldable pub resolve_official : OfficialImage → Db env Image
  unfolding find_image_named refresh pull_from_official
  resolve_official oi = do
    found ← attempt (find_image_named oi.name)
    elim found [ some (some i) ↦ refresh i oi.url | _ ↦ pull_from_official oi ]

  unfoldable pub resolve_name : String → Option (Option Image) → Db env Image
  unfolding resolve_image_alias resolve_official
  resolve_name ref (some (some i)) = pure i
  resolve_name ref _ = elim (resolve_image_alias ref) [
    | none ↦ fail unknown_image
    | some oi ↦ resolve_official oi
  ]

  unfoldable pub resolve_found : String → Option (Option Image) → Db env Image
  unfolding restart_failed find_image_named resolve_name
  resolve_found ref (some (some i)) = restart_failed i
  resolve_found ref _ = do named ← attempt (find_image_named ref); resolve_name ref named

  -- ResolveAndEnsureImage
  unfoldable pub resolve_and_ensure_image : String → Db env Image
  unfolding find_image resolve_found
  resolve_and_ensure_image ref = do
    fail_if (str_eq ref "") image_not_found
    found ← attempt (find_image ref)
    resolve_found ref found

  -- ResumeDownloads, over the first page of the images
  unfoldable pub resume_downloads : Db env (Unit {0})
  unfolding resumed
  resume_downloads = ignore (do
    call env get_image
    modify (λ w. record w { downloads = resumed (take 20 w.images) w.downloads }))
