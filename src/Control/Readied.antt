-- ===== src/Control/Readied.antt =====
-- What a transfer that ends well does to the image's rows.
use rymevisor.Common.{
  ℕ, ◌+◌, ◌≡◌, refl, Bool, true, false, not, ◌&&◌, if◌then◌else◌, Option, none, some, List, [], ◌∷◌,
  String, str_eq, arith, All,
}
use rymevisor.Common.Effect.{Result, ok, err, pure, ignore, attempt, ◌>>=◌}
use rymevisor.Common.Int.{pos}
use rymevisor.Common.Triple.{
  Ends, Ends-ignore, Triple, triple->>=, triple->>, triple-ignore, triple-attempt, triple-if,
  triple-pure,
}
use rymevisor.Common.Table.{update}
use rymevisor.Control.{ready, processing, image_error, ImageStatus, Image}
use rymevisor.Control.Store.{World, Environment, Failure, Db, image_key}
use rymevisor.Control.Images.{is_ready, find_image, put_image_status}
use rymevisor.Control.Download.{
  Transfer, is_qcow2, is_accepted, resumed_at, set_ready, set_image, write_image, rewrite,
  mark_image, keep, or_nat, or_string, complete, store_file, receive, download,
}
use rymevisor.Control.Downloaded.{arrives, is_stored, completes}

both_right : (b : Bool) {c : Bool} → (b && c) ≡ true → c ≡ true
both_right b on = ground (arith, on)

-- Every row of the image is ready.
abbrev pub IsReadied : String → List Image → Type 0
IsReadied id is = All (λ i. str_eq (Image.id i) id ≡ true → is_ready i.status ≡ true) is

update-IsReadied :
    (id : String) (f : Image → Image) (is : List Image)
    → ((i : Image) → is_ready (Image.status (f i)) ≡ true)
    → IsReadied id (update image_key id f is)
unfolding update
update-IsReadied id f [] on = tt
update-IsReadied id f (i ∷ is) on = (row (str_eq i.id id) refl, update-IsReadied id f is on)
  where
    row :
        (c : Bool)
        → str_eq i.id id ≡ c
        → str_eq (Image.id (if c then f i else i)) id ≡ true
        → is_ready (Image.status (if c then f i else i)) ≡ true
    row true e h = on i
    row false e h = absurd (ground (arith, e, h))

module _ (env : Environment) (id : String) (never : (n : ℕ) → env.fails n ≡ false) where
  abbrev Readied : World → Type 0
  Readied w = IsReadied id w.images

  abbrev Readies : {A : Type 0} → (World → Type 0) → Db env A → Type 0
  Readies P m = Triple P m (λ _. Readied) (λ _. Readied)

  write_image-Readies :
      (P : World → Type 0) (f : Image → Image)
      → ((i : Image) → is_ready (Image.status (f i)) ≡ true)
      → Readies P (write_image env id f)
  unfolding write_image
  write_image-Readies P f on = record {
    run = λ w p. ground (arith, never w.calls, update-IsReadied id f w.images on);
  }

  find_image-Readies : Readies Readied (find_image env id)
  unfolding find_image
  find_image-Readies = record { run = λ w p. ground (arith, never w.calls, p) }

  rewrite-Readies :
      (size : ℕ) (checksum : String) (found : Option (Option Image))
      → Readies Readied (rewrite env id size checksum found)
  unfolding rewrite
  rewrite-Readies size checksum none = triple-pure tt (λ _ p. p)
  rewrite-Readies size checksum (some none) = triple-pure tt (λ _ p. p)
  rewrite-Readies size checksum (some (some i)) =
      triple-ignore
        (write_image env id
          (set_image (record i { size_bytes = pos size; checksum = checksum; status = ready })))
        (write_image-Readies Readied
          (set_image (record i { size_bytes = pos size; checksum = checksum; status = ready }))
          (λ _. refl))

  complete-Readies :
      (P : World → Type 0) (size : ℕ) (checksum : String)
      → Readies P (complete env id size checksum)
  unfolding complete
  complete-Readies P size checksum =
      triple->> (ignore (write_image env id (set_ready size checksum)))
        (attempt (find_image env id) >>= rewrite env id size checksum)
        (triple-ignore (write_image env id (set_ready size checksum))
          (write_image-Readies P (set_ready size checksum) (λ _. refl)))
        (triple->>= (attempt (find_image env id)) (rewrite env id size checksum)
          (triple-attempt (find_image env id) find_image-Readies) (rewrite-Readies size checksum))

  store_file-Readies :
      (P : World → Type 0) (t : Transfer) (n : ℕ)
      → is_stored t ≡ true
      → Readies P (store_file env t id n)
  unfolding store_file
  store_file-Readies P t n on =
      triple-if (is_qcow2 t)
        (if t.renames then complete env id n t.checksum else mark_image env id image_error)
        (if t.converts
          then complete env id (or_nat t.converted_size n)
              (or_string t.converted_checksum t.checksum)
          else mark_image env id image_error)
        (λ q.
          triple-if t.renames (complete env id n t.checksum) (mark_image env id image_error)
            (λ _. complete-Readies P n t.checksum) (λ r. absurd (ground (arith, q, r, on))))
        (λ q.
          triple-if t.converts
            (complete env id (or_nat t.converted_size n)
              (or_string t.converted_checksum t.checksum))
            (mark_image env id image_error)
            (λ _.
              complete-Readies P (or_nat t.converted_size n)
                (or_string t.converted_checksum t.checksum))
            (λ r. absurd (ground (arith, q, r, on))))

  keep-Readies :
      (P : World → Type 0) (t : Transfer) (r : Option ℕ)
      → (arrives r && is_stored t) ≡ true
      → Readies P (keep env t id r)
  unfolding keep
  keep-Readies P t none on = absurd (ground (arith, on))
  keep-Readies P t (some n) on = store_file-Readies P t (resumed_at t + n) on

  abbrev Anything : World → Type 0
  Anything w = Unit {0}

  Ends-Anything :
      {A : Type 0} (o : Result Failure A × World) → Ends (λ _. Anything) (λ _. Anything) o
  Ends-Anything (ok a, w) = tt
  Ends-Anything (err e, w) = tt

  mark_image-Any :
      (status : ImageStatus)
      → Triple Anything (mark_image env id status) (λ _. Anything) (λ _. Readied)
  unfolding put_image_status
  mark_image-Any status =
      triple-ignore (put_image_status env id status)
        (record { run = λ w p. Ends-Anything (put_image_status env id status w) })

  receive-Readies :
      (t : Transfer)
      → (t.opens_file && (arrives t.received && is_stored t)) ≡ true
      → Readies Anything (receive env t id)
  unfolding receive
  receive-Readies t on =
      triple->> (mark_image env id processing)
        (if t.opens_file then keep env t id t.received else mark_image env id image_error)
        (mark_image-Any processing)
        (triple-if t.opens_file (keep env t id t.received) (mark_image env id image_error)
          (λ o. keep-Readies Anything t t.received (both_right t.opens_file on))
          (λ o. absurd (ground (arith, o, on))))

  download-Readies : (t : Transfer) → completes t ≡ true → Readies Anything (download env t id)
  unfolding download
  download-Readies t on =
      triple-if t.in_progress (pure tt)
        (if t.makes_directory && t.makes_request && is_accepted t
          then receive env t id
          else mark_image env id image_error)
        (λ b. absurd (ground (arith, b, on)))
        (λ b.
          triple-if (t.makes_directory && t.makes_request && is_accepted t) (receive env t id)
            (mark_image env id image_error)
            (λ g. receive-Readies t (
              both_right
                (not t.in_progress && t.makes_directory && t.makes_request && is_accepted t) on))
            (λ g. absurd (ground (arith, b, g, on))))

-- When no call to the database fails, a transfer that ends with the image's file in its place
-- leaves every row of the image ready.
pub download-IsReadied :
    (env : Environment) (t : Transfer) (id : String) (w : World)
    → ((n : ℕ) → env.fails n ≡ false)
    → completes t ≡ true
    → IsReadied id (World.images (download env t id w).1)
download-IsReadied env t id w never on =
    Ends-ignore (λ s. IsReadied id (World.images s)) (download env t id w)
      ((download-Readies env id never t on).run w tt)
