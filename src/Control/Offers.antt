-- ===== src/Control/Offers.antt =====
-- The flavors, keypairs, backups and images of services/controlplane/service.go, over their
-- repositories. Names of flavors are unique, and names of keypairs in an organization.
use rymevisor.Common.{
  ℕ, take, Bool, true, not, ◌&&◌, ◌||◌, Option, none, some, List, [], ◌∷◌, if◌then◌else◌, String,
  str_eq,
}
use rymevisor.Common.Effect.{pure, fail, gets, modify, fail_if, or_fail, attempt, ◌>>=◌, ◌>>◌}
use rymevisor.Common.Numerals.{hex_byte}
use rymevisor.Net.{Text}
use rymevisor.Catalog.{is_space, push_char}
use rymevisor.Common.Int.{pos, ltb_ℤ}
use rymevisor.Common.Table.{select, delete}
use rymevisor.Control.{
  downloading, backup_creating, Image, Backup, Flavor, Keypair, CreateFlavorRequest,
  CreateKeypairRequest,
}
use rymevisor.Control.Store.{
  Environment, Failure, name_required, get_flavor, flavor_not_found, flavors_not_configured,
  disk_too_small, flavor_exists, create_flavor, delete_flavor_row, vcpus_too_small,
  memory_too_small, keypairs_not_configured, key_required, key_invalid, keypair_exists,
  create_keypair, keypair_not_found, delete_keypair_row, get_keypair, vm_id_required, create_backup,
  delete_backup_row, get_backup, backup_not_found, vm_not_found, get_vm, os_required,
  architecture_required, delete_image_row, image_not_found, flavor_key, backup_key, image_key, Db,
  call, first_where, find_vm, new_id,
}
use rymevisor.Control.Addresses.{nil_organization}
use rymevisor.Control.Images.{find_image, put_new_image}
use rymevisor.Control.Nodes.{is_none}
use Prim.Native.String.{◌++◌}
use text.Mathlib.Text.{find?}

abbrev pub keypair_key : Keypair → String
keypair_key k = k.id

abbrev pub flavor_named : String → Flavor → Bool
flavor_named name f = str_eq f.name name

-- An empty organization stands for all of them.
abbrev pub keypair_named : String → String → Keypair → Bool
keypair_named name organization k =
    str_eq k.name name && (str_eq organization "" || str_eq k.organization_id organization)

abbrev pub flavor_of : CreateFlavorRequest → String → Flavor
flavor_of req id = record {
  id = id;
  name = req.name;
  description = req.description;
  vcpus = req.vcpus;
  memory_mb = req.memory_mb;
  disk_gb = req.disk_gb;
}

abbrev pub keypair_organization : String → String
keypair_organization given =
    if str_eq given "" || str_eq given "default" then nil_organization else given

-- strings.Fields: the words between spaces; a space in front starts a new one.
unfoldable pub fields : String → List String
fields String.[] = []
fields (String.◌∷◌ c s) =
    let rest = fields s in
    let alone = starts_word s in
    if is_space c then rest else if alone then String.◌∷◌ c "" ∷ rest else push_char c rest
  where
    starts_word : String → Bool
    starts_word String.[] = true
    starts_word (String.◌∷◌ d t) = is_space d

-- The lower-case digits of the first eight bytes of a hash.
abbrev short_hash : List ℕ → String
short_hash [] = ""
short_hash (b ∷ bs) = hex_byte b ++ short_hash bs

module _ (env : Environment) where
  -- flavorRepo.GetByName, Create and Delete
  unfoldable pub find_flavor_named : String → Db env (Option Flavor)
  find_flavor_named name = do
    call env get_flavor
    gets (λ w. first_where (flavor_named name) w.flavors)

  unfoldable pub put_new_flavor : Flavor → Db env (Unit {0})
  put_new_flavor f = do
    call env create_flavor
    same ← gets (λ w. first_where (flavor_named f.name) w.flavors)
    fail_if (not (is_none same)) create_flavor
    modify (λ w. record w { flavors = f ∷ w.flavors })

  abbrev pub refuse_found : {A : Type 0} → Failure → Option (Option A) → Db env (Unit {0})
  refuse_found e found = elim found [ some (some a) ↦ fail e | _ ↦ pure tt ]

  unfoldable pub make_flavor : CreateFlavorRequest → Db env Flavor
  unfolding find_flavor_named put_new_flavor
  make_flavor req = do
    fail_if (not env.has_flavors) flavors_not_configured
    fail_if (str_eq req.name "") name_required
    fail_if (ltb_ℤ req.vcpus (pos 1)) vcpus_too_small
    fail_if (ltb_ℤ req.memory_mb (pos 128)) memory_too_small
    fail_if (ltb_ℤ req.disk_gb (pos 1)) disk_too_small
    existing ← attempt (find_flavor_named req.name)
    refuse_found flavor_exists existing
    id ← new_id env
    put_new_flavor (flavor_of req id)
    pure (flavor_of req id)

  unfoldable pub delete_flavor : String → Db env (Unit {0})
  unfolding select delete
  delete_flavor id = do
    fail_if (not env.has_flavors) flavors_not_configured
    call env get_flavor
    f ← or_fail (← gets (λ w. select flavor_key id w.flavors)) flavor_not_found
    call env delete_flavor_row
    modify (λ w. record w { flavors = delete flavor_key id w.flavors })

  -- keypairRepo.GetByName, Create and Delete
  unfoldable pub find_keypair_named : String → String → Db env (Option Keypair)
  find_keypair_named name organization = do
    call env get_keypair
    gets (λ w. first_where (keypair_named name organization) w.keypairs)

  unfoldable pub put_new_keypair : Keypair → Db env (Unit {0})
  put_new_keypair k = do
    call env create_keypair
    same ← gets (λ w. first_where (keypair_named k.name k.organization_id) w.keypairs)
    fail_if (not (is_none same)) create_keypair
    modify (λ w. record w { keypairs = k ∷ w.keypairs })

  -- fingerprintPublicKey; `standard` and `raw` are the two decodings of package base64.
  unfoldable pub fingerprint_public_key :
      (String → Option Text) → (String → Option Text) → String → String
  unfolding fields
  fingerprint_public_key standard raw key = elim (fields key) [
    | algorithm ∷ body ∷ _ ↦ elim (standard body) [
      | some bytes ↦ short_hash (take 8 (env.sha256 bytes))
      | none ↦ elim (raw body) [ some bytes ↦ short_hash (take 8 (env.sha256 bytes)) | none ↦ "" ]
    ]
    | _ ↦ ""
  ]

  abbrev pub keypair_of : CreateKeypairRequest → String → String → Keypair
  keypair_of req id fingerprint = record {
    id = id;
    name = req.name;
    public_key = req.public_key;
    fingerprint = fingerprint;
    organization_id = keypair_organization req.organization_id;
  }

  unfoldable pub make_keypair :
      (String → Option Text) → (String → Option Text) → CreateKeypairRequest → Db env Keypair
  unfolding find_keypair_named put_new_keypair fingerprint_public_key
  make_keypair standard raw req = do
    fail_if (not env.has_keypairs) keypairs_not_configured
    fail_if (str_eq req.name "") name_required
    fail_if (str_eq req.public_key "") key_required
    fail_if (is_none (find? req.public_key "ssh-")) key_invalid
    existing ← attempt (find_keypair_named req.name (keypair_organization req.organization_id))
    refuse_found keypair_exists existing
    id ← new_id env
    let row = keypair_of req id (fingerprint_public_key standard raw req.public_key)
    put_new_keypair row
    pure row

  unfoldable pub delete_keypair : String → Db env (Unit {0})
  unfolding select delete
  delete_keypair id = do
    fail_if (not env.has_keypairs) keypairs_not_configured
    call env get_keypair
    k ← or_fail (← gets (λ w. select keypair_key id w.keypairs)) keypair_not_found
    call env delete_keypair_row
    modify (λ w. record w { keypairs = delete keypair_key id w.keypairs })

  -- CreateBackup and DeleteBackup
  unfoldable pub make_backup : Backup → Db env Backup
  make_backup b = do
    fail_if (str_eq b.vm_id "") vm_id_required
    fail_if (str_eq b.name "") name_required
    vm ← or_fail (← find_vm env get_vm b.vm_id) vm_not_found
    id ← new_id env
    let row = record b { id = id; organization_id = vm.organization_id; status = backup_creating }
    call env create_backup
    modify (λ w. record w { backups = row ∷ w.backups })
    pure row

  unfoldable pub delete_backup : String → Db env (Unit {0})
  unfolding select delete
  delete_backup id = do
    call env get_backup
    b ← or_fail (← gets (λ w. select backup_key id w.backups)) backup_not_found
    call env delete_backup_row
    modify (λ w. record w { backups = delete backup_key id w.backups })

  -- CreateImage and DeleteImage
  unfoldable pub make_image : Image → Db env Image
  unfolding put_new_image
  make_image i = do
    fail_if (str_eq i.name "") name_required
    fail_if (str_eq i.os "") os_required
    fail_if (str_eq i.architecture "") architecture_required
    id ← new_id env
    let row = record i { id = id; status = downloading }
    put_new_image env row
    pure row

  unfoldable pub delete_image : String → Db env (Unit {0})
  unfolding find_image delete
  delete_image id = do
    i ← or_fail (← find_image env id) image_not_found
    call env delete_image_row
    modify (λ w. record w { images = delete image_key id w.images })
