-- ===== src/Control/Downloaded.antt =====
-- When an image becomes ready.
use rymevisor.Common.{
  ℕ, ◌+◌, ◌≡◌, refl, Bool, true, false, not, ◌&&◌, if◌then◌else◌, Option, none, some, List, [], ◌∷◌,
  String, str_eq, arith, All,
}
use rymevisor.Common.Effect.{pure}
use rymevisor.Common.Triple.{Ends-ignore, Triple, triple->>, triple-ignore, triple-if, triple-pure}
use rymevisor.Common.Table.{update}
use rymevisor.Control.{downloading, processing, image_error, ImageStatus, Image}
use rymevisor.Control.Store.{World, Environment, Db, image_key}
use rymevisor.Control.Images.{is_ready, set_image_status, put_image_status}
use rymevisor.Control.Download.{
  Transfer, is_qcow2, is_accepted, resumed_at, mark_image, store_file, receive, download, keep,
  or_nat, or_string, complete,
}

abbrev pub arrives : Option ℕ → Bool
arrives none = false
arrives (some n) = true

abbrev pub is_stored : Transfer → Bool
is_stored t = if is_qcow2 t then t.renames else t.converts

-- Whether a transfer ends with the image's file in its place.
abbrev pub completes : Transfer → Bool
completes t =
    (not t.in_progress && t.makes_directory && t.makes_request && is_accepted t)
    && (t.opens_file && (arrives t.received && is_stored t))

false_right : (b : Bool) {c : Bool} → b ≡ true → (b && c) ≡ false → c ≡ false
false_right b on off = ground (arith, on, off)

-- No row of the image is ready.
abbrev pub IsUnready : String → List Image → Type 0
IsUnready id is = All (λ i. str_eq (Image.id i) id ≡ true → is_ready i.status ≡ false) is

update-IsUnready :
    (id : String) (status : ImageStatus) (is : List Image)
    → is_ready status ≡ false
    → IsUnready id is
    → IsUnready id (update image_key id (set_image_status status) is)
unfolding update
update-IsUnready id status [] un off = tt
update-IsUnready id status (i ∷ is) un off =
    (row (str_eq i.id id), update-IsUnready id status is un off.1)
  where
    row :
        (c : Bool)
        → str_eq (Image.id (if c then set_image_status status i else i)) id ≡ true
        → is_ready (Image.status (if c then set_image_status status i else i)) ≡ false
    row true h = un
    row false h = off.0 h

module _ (env : Environment) (id : String) where
  abbrev Unready : World → Type 0
  Unready w = IsUnready id w.images

  abbrev StaysUnready : {A : Type 0} → Db env A → Type 0
  StaysUnready m = Triple Unready m (λ _. Unready) (λ _. Unready)

  mark_image-StaysUnready :
      (status : ImageStatus) → is_ready status ≡ false → StaysUnready (mark_image env id status)
  unfolding put_image_status
  mark_image-StaysUnready status un = triple-ignore (put_image_status env id status) put
    where
      put : StaysUnready (put_image_status env id status)
      put = record { run = λ w p. ground (arith, p, update-IsUnready id status w.images un p) }

  mark_error-StaysUnready : StaysUnready (mark_image env id image_error)
  mark_error-StaysUnready = mark_image-StaysUnready image_error refl

  store_file-StaysUnready :
      (t : Transfer) (n : ℕ) → is_stored t ≡ false → StaysUnready (store_file env t id n)
  unfolding store_file
  store_file-StaysUnready t n off =
      triple-if (is_qcow2 t)
        (if t.renames then complete env id n t.checksum else mark_image env id image_error)
        (if t.converts
          then complete env id (or_nat t.converted_size n)
              (or_string t.converted_checksum t.checksum)
          else mark_image env id image_error)
        (λ q.
          triple-if t.renames (complete env id n t.checksum) (mark_image env id image_error)
            (λ r. absurd (ground (arith, q, r, off))) (λ _. mark_error-StaysUnready))
        (λ q.
          triple-if t.converts
            (complete env id (or_nat t.converted_size n)
              (or_string t.converted_checksum t.checksum))
            (mark_image env id image_error) (λ r. absurd (ground (arith, q, r, off)))
            (λ _. mark_error-StaysUnready))

  keep-StaysUnready :
      (t : Transfer) (r : Option ℕ)
      → (arrives r && is_stored t) ≡ false
      → StaysUnready (keep env t id r)
  unfolding keep
  keep-StaysUnready t none off = mark_image-StaysUnready downloading refl
  keep-StaysUnready t (some n) off = store_file-StaysUnready t (resumed_at t + n) off

  receive-StaysUnready :
      (t : Transfer)
      → (t.opens_file && (arrives t.received && is_stored t)) ≡ false
      → StaysUnready (receive env t id)
  unfolding receive
  receive-StaysUnready t off =
      triple->> (mark_image env id processing)
        (if t.opens_file then keep env t id t.received else mark_image env id image_error)
        (mark_image-StaysUnready processing refl)
        (triple-if t.opens_file (keep env t id t.received) (mark_image env id image_error)
          (λ o. keep-StaysUnready t t.received (false_right t.opens_file o off))
          (λ _. mark_error-StaysUnready))

  download-StaysUnready : (t : Transfer) → completes t ≡ false → StaysUnready (download env t id)
  unfolding download
  download-StaysUnready t off =
      triple-if t.in_progress (pure tt)
        (if t.makes_directory && t.makes_request && is_accepted t
          then receive env t id
          else mark_image env id image_error)
        (λ b. triple-pure tt (λ _ p. p))
        (λ b.
          triple-if (t.makes_directory && t.makes_request && is_accepted t) (receive env t id)
            (mark_image env id image_error)
            (λ g. receive-StaysUnready t (
              false_right
                (not t.in_progress && t.makes_directory && t.makes_request && is_accepted t)
                (ground (arith, b, g)) off))
            (λ _. mark_error-StaysUnready))

-- A transfer that does not end with the image's file in its place leaves every row of an image
-- that has no ready row unready, whichever calls to the database fail.
pub download-IsUnready :
    (env : Environment) (t : Transfer) (id : String) (w : World)
    → completes t ≡ false
    → IsUnready id w.images
    → IsUnready id (World.images (download env t id w).1)
download-IsUnready env t id w off un =
    Ends-ignore (λ w. IsUnready id (World.images w)) (download env t id w)
      ((download-StaysUnready env id t off).run w un)
