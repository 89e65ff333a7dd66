-- ===== src/Control/Offered.antt =====
-- The flavors and the keypairs keep their unique names and their bounds, whichever calls fail.
use rymevisor.Common.{
  ◌≡◌, Bool, false, not, Option, none, some, List, [], ◌∷◌, String, str_eq, arith, All,
}
use rymevisor.Common.Effect.{pure, fail_if, ◌>>◌}
use rymevisor.Common.Triple.{
  Ends-ignore, Triple, triple->>=, triple->>, triple-attempt, triple-given, triple-fail_if,
}
use rymevisor.Common.Int.{pos, ltb_ℤ}
use rymevisor.Common.Table.{delete}
use rymevisor.Control.{Flavor, CreateFlavorRequest}
use rymevisor.Control.Store.{
  World, Environment, Failure, Db, first_where, new_id, flavor_key, name_required,
  flavors_not_configured, vcpus_too_small, memory_too_small, disk_too_small, flavor_exists,
}
use rymevisor.Control.Offers.{
  flavor_named, flavor_of, find_flavor_named, put_new_flavor, refuse_found, make_flavor,
  delete_flavor,
}

-- No two flavors have the same name.
abbrev pub FlavorsDiffer : List Flavor → Type 0
FlavorsDiffer [] = Unit
FlavorsDiffer (f ∷ fs) = All (λ g. flavor_named f.name g ≡ false) fs × FlavorsDiffer fs

-- The least sizes of a flavor.
abbrev pub IsOffered : Flavor → Type 0
IsOffered f =
    (ltb_ℤ f.vcpus (pos 1) ≡ false)
    × (ltb_ℤ f.memory_mb (pos 128) ≡ false)
    × (ltb_ℤ f.disk_gb (pos 1) ≡ false)

first_where-All :
    (name : String) (fs : List Flavor)
    → first_where (flavor_named name) fs ≡ none
    → All (λ g. flavor_named name g ≡ false) fs
first_where-All name [] e = tt
first_where-All name (f ∷ fs) e = ground (arith, first_where-All name fs)

module _ (P : Flavor → Type 0) where
  All-delete : (id : String) (fs : List Flavor) → All P fs → All P (delete flavor_key id fs)
  unfolding delete
  All-delete id [] p = tt
  All-delete id (f ∷ fs) p = ground (arith, p.0, All-delete id fs p.1)

FlavorsDiffer-delete :
    (id : String) (fs : List Flavor) → FlavorsDiffer fs → FlavorsDiffer (delete flavor_key id fs)
unfolding delete
FlavorsDiffer-delete id [] p = tt
FlavorsDiffer-delete id (f ∷ fs) p = ground (
  arith,
  All-delete (λ g. flavor_named f.name g ≡ false) id fs p.0,
  FlavorsDiffer-delete id fs p.1,
)

-- The flavors of a state are as CreateFlavor offers them.
abbrev pub AllOffered : World → Type 0
AllOffered w = FlavorsDiffer w.flavors × All IsOffered w.flavors

module _ (env : Environment) where
  abbrev Offers : {A : Type 0} → Db env A → Type 0
  Offers m = Triple AllOffered m (λ _. AllOffered) (λ _. AllOffered)

  put_new_flavor-Offers : (f : Flavor) → IsOffered f → Offers (put_new_flavor env f)
  unfolding put_new_flavor
  put_new_flavor-Offers f large = record {
    run = λ w p. ground (arith, p, large, first_where-All f.name w.flavors);
  }

  find_flavor_named-Offers : (name : String) → Offers (find_flavor_named env name)
  unfolding find_flavor_named
  find_flavor_named-Offers name = record { run = λ w p. ground (arith, p) }

  refuse_found-Offers :
      (e : Failure) (found : Option (Option Flavor)) → Offers (refuse_found env e found)
  refuse_found-Offers e none = record { run = λ w p. p }
  refuse_found-Offers e (some none) = record { run = λ w p. p }
  refuse_found-Offers e (some (some f)) = record { run = λ w p. p }

  guarded-Offers :
      {A : Type 0} (c : Bool) (e : Failure) (m : Db env A)
      → (c ≡ false → Offers m)
      → Offers (fail_if c e >> m)
  guarded-Offers c e m next = triple->> _ _ (triple-fail_if c e (λ w p. p)) (triple-given next)

  new_id-Offers : Offers (new_id env)
  new_id-Offers = record { run = λ w p. p }

  make_flavor-Offers : (req : CreateFlavorRequest) → Offers (make_flavor env req)
  unfolding make_flavor
  make_flavor-Offers req = guarded-Offers (not env.has_flavors) flavors_not_configured _ (λ _.
      guarded-Offers (str_eq req.name "") name_required _ (λ _.
        guarded-Offers (ltb_ℤ req.vcpus (pos 1)) vcpus_too_small _ (λ cpus.
          guarded-Offers (ltb_ℤ req.memory_mb (pos 128)) memory_too_small _ (λ memory.
            guarded-Offers (ltb_ℤ req.disk_gb (pos 1)) disk_too_small _ (λ disk.
              triple->>= _ _ (triple-attempt _ (find_flavor_named-Offers req.name)) (λ existing.
                triple->> _ _ (refuse_found-Offers flavor_exists existing) (
                  triple->>= _ _ new_id-Offers (λ id.
                    triple->> _ (pure (flavor_of req id))
                      (put_new_flavor-Offers (flavor_of req id) (cpus, memory, disk))
                      (record { run = λ w p. p })))))))))

  delete_flavor-Offers : (id : String) → Offers (delete_flavor env id)
  unfolding delete_flavor
  delete_flavor-Offers id = guarded-Offers (not env.has_flavors) flavors_not_configured _ (λ _.
      record {
        run = λ w p. ground (
          arith,
          p,
          FlavorsDiffer-delete id w.flavors p.0,
          All-delete IsOffered id w.flavors p.1,
        );
      })

-- When no two flavors have the same name, and each has one vCPU, 128 MB of memory and 1 GB of disk at
-- least, this holds after CreateFlavor and after DeleteFlavor, whichever calls fail.
pub flavors-AllOffered :
    (env : Environment) (w : World)
    → AllOffered w
    → ((req : CreateFlavorRequest) → AllOffered (make_flavor env req w).1)
      × ((id : String) → AllOffered (delete_flavor env id w).1)
flavors-AllOffered env w p = (
  λ req. Ends-ignore AllOffered _ ((make_flavor-Offers env req).run w p),
  λ id. Ends-ignore AllOffered _ ((delete_flavor-Offers env id).run w p),
)
