-- ===== src/Control/Download.antt =====
-- The download of an image in services/controlplane/image_puller.go. What the network, the disk and
-- qemu-img answer is one record, made before the download starts.
use rymevisor.Common.{
  ℕ, ◌+◌, Bool, false, ◌&&◌, ◌||◌, ◌==◌, ltb, Option, none, some, List, ◌∷◌, if◌then◌else◌, String,
  str_eq,
}
use rymevisor.Common.Effect.{pure, modify, ignore, attempt, ◌>>=◌, ◌>>◌}
use rymevisor.Common.Int.{pos}
use rymevisor.Common.Table.{update}
use rymevisor.Control.{ready, downloading, processing, image_error, ImageStatus, Image}
use rymevisor.Control.Store.{Environment, update_image, image_key, Db, call}
use rymevisor.Control.Images.{find_image, put_image_status}

pub record Transfer : Type 0 where
  pub in_progress : Bool
  pub makes_directory : Bool
  pub partial : ℕ
  pub makes_request : Bool
  pub response : Option ℕ
  pub opens_file : Bool
  pub received : Option ℕ
  pub checksum : String
  pub magic : Option (List ℕ)
  pub named_qcow2 : Bool
  pub converts : Bool
  pub converted_size : Option ℕ
  pub converted_checksum : Option String
  pub renames : Bool

-- detectImageFormat, of the first four bytes when they can be read, and the guess from the name.
abbrev pub is_qcow2 : Transfer → Bool
is_qcow2 t = elim t.magic [
  | none ↦ t.named_qcow2
  | some bytes ↦ elim bytes [
    | a ∷ b ∷ c ∷ d ∷ _ ↦ (a == b'Q') && (b == b'F') && (c == b'I') && (d == 251)
    | _ ↦ false
  ]
]

abbrev pub is_accepted : Transfer → Bool
is_accepted t = elim t.response [ none ↦ false | some code ↦ (code == 200) || (code == 206) ]

-- The bytes that are kept of an earlier attempt: none when the server starts from the beginning.
abbrev pub resumed_at : Transfer → ℕ
resumed_at t = elim t.response [
  | none ↦ t.partial
  | some code ↦ if ltb 0 t.partial && (code == 200) then 0 else t.partial
]

abbrev pub or_nat : Option ℕ → ℕ → ℕ
or_nat none n = n
or_nat (some m) n = m

abbrev pub or_string : Option String → String → String
or_string none s = s
or_string (some t) s = t

-- The columns that UpdateStatus writes with a size and a checksum.
abbrev pub set_ready : ℕ → String → Image → Image
set_ready size checksum i = record i {
  status = ready;
  size_bytes = if size == 0 then i.size_bytes else pos size;
  checksum = if str_eq checksum "" then i.checksum else checksum;
}

-- The columns that Update writes after the last status.
abbrev pub set_image : Image → Image → Image
set_image new i = record new { id = i.id }

module _ (env : Environment) where
  unfoldable pub write_image : String → (Image → Image) → Db env (Unit {0})
  write_image id f = do
    call env update_image
    modify (λ w. record w { images = update image_key id f w.images })

  abbrev pub mark_image : String → ImageStatus → Db env (Unit {0})
  mark_image id status = ignore (put_image_status env id status)

  unfoldable pub rewrite : String → ℕ → String → Option (Option Image) → Db env (Unit {0})
  unfolding write_image
  rewrite id size checksum (some (some i)) = ignore (
      write_image id
        (set_image (record i { size_bytes = pos size; checksum = checksum; status = ready })))
  rewrite id size checksum _ = pure tt

  unfoldable pub complete : String → ℕ → String → Db env (Unit {0})
  unfolding write_image find_image rewrite
  complete id size checksum = do
    ignore (write_image id (set_ready size checksum))
    found ← attempt (find_image env id)
    rewrite id size checksum found

  -- The part after the bytes have arrived.
  unfoldable pub store_file : Transfer → String → ℕ → Db env (Unit {0})
  unfolding complete put_image_status
  store_file t id total =
      if is_qcow2 t
      then (if t.renames then complete id total t.checksum else mark_image id image_error)
      else if t.converts
      then complete id (or_nat t.converted_size total) (or_string t.converted_checksum t.checksum)
      else mark_image id image_error

  -- What follows the copy of the bytes: a copy that fails leaves the partial file.
  unfoldable pub keep : Transfer → String → Option ℕ → Db env (Unit {0})
  unfolding store_file put_image_status
  keep t id none = mark_image id downloading
  keep t id (some n) = store_file t id (resumed_at t + n)

  unfoldable pub receive : Transfer → String → Db env (Unit {0})
  unfolding keep put_image_status
  receive t id = do
    mark_image id processing
    (if t.opens_file then keep t id t.received else mark_image id image_error)

  -- download
  unfoldable pub download : Transfer → String → Db env (Unit {0})
  unfolding receive put_image_status
  download t id =
      if t.in_progress
      then pure tt
      else if t.makes_directory && t.makes_request && is_accepted t
      then receive t id
      else mark_image id image_error
