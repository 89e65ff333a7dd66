-- ===== src/Catalog/Answers.antt =====
-- What Find and ResolveImageAlias answer.
use rymevisor.Common.{
  ◌≡◌, ◌⊎◌, inl, inr, refl, Bool, true, ◌&&◌, Option, none, some, List, [], ◌∷◌, String, str_eq,
  arith, eq_iff, All, Option-cases, Bool-cases,
}
use rymevisor.Catalog.{
  OfficialImage, official_images, lookup, to_lower, trim_space, first_image, or_else, by_name,
  by_alias, by_system, combined, asked_arch, find_normal, find, resolve_image_alias, aliases,
}

-- Every image of the catalog is found by its system, version and architecture, and its name resolves
-- to it.
official_images_found :
    All
      (λ i.
        (find i.os i.os_version i.architecture ≡ some i) × (resolve_image_alias i.name ≡ some i))
      official_images
unfolding find resolve_image_alias
official_images_found = (
  (refl, refl),
  (
    (refl, refl),
    ((refl, refl), ((refl, refl), ((refl, refl), ((refl, refl), ((refl, refl), tt))))),
  ),
)

first_image-passes :
    (p : OfficialImage → Bool) (is : List OfficialImage) (i : OfficialImage)
    → first_image p is ≡ some i
    → p i ≡ true
unfolding first_image
first_image-passes p [] i e = ground arith
first_image-passes p (x ∷ xs) i e = ground (arith, first_image-passes p xs i)

-- What an image has to do with a request for a system, a version and an architecture.
pub record IsAnswer (os version arch : String) (i : OfficialImage) : Type 0 where
  pub answers :
      (i.name ≡ combined os version arch)
      ⊎ ((i.architecture ≡ arch)
          × (((version ≡ "") × (lookup os aliases ≡ some i.name))
              ⊎ ((i.os ≡ os) × ((version ≡ "") ⊎ (i.os_version ≡ version)))))

by_alias-IsAnswer :
    (os version arch : String) (i : OfficialImage)
    → by_alias os version arch ≡ some i
    → IsAnswer os version arch i
by_alias-IsAnswer os version arch i e = elim (Option-cases (lookup os aliases)) [
  | inl l ↦ absurd (ground (arith, l, e))
  | inr (alias, l) ↦ elim (Bool-cases (str_eq version "")) [
    | inr v ↦ absurd (ground (arith, l, v, e))
    | inl v ↦ record { answers = named alias l v (ground (arith, l, v, e)) }
  ]
]
  where
    named :
        (alias : String)
        → lookup os aliases ≡ some alias
        → str_eq version "" ≡ true
        → first_image (λ i. str_eq i.name alias && str_eq i.architecture arch) official_images
          ≡ some i
        → (i.name ≡ combined os version arch)
          ⊎ ((i.architecture ≡ arch)
              × (((version ≡ "") × (lookup os aliases ≡ some i.name))
                  ⊎ ((i.os ≡ os) × ((version ≡ "") ⊎ (i.os_version ≡ version)))))
    named alias l v f = ground (
      arith,
      l,
      first_image-passes _ official_images i f,
      eq_iff i.name alias,
      eq_iff i.architecture arch,
      eq_iff version "",
    )

by_system-IsAnswer :
    (os version arch : String) (i : OfficialImage)
    → by_system os version arch ≡ some i
    → IsAnswer os version arch i
by_system-IsAnswer os version arch i e = record {
  answers = ground (
    arith,
    first_image-passes _ official_images i e,
    eq_iff i.os os,
    eq_iff i.architecture arch,
    eq_iff version "",
    eq_iff i.os_version version,
  );
}

by_name-IsAnswer :
    (os version arch : String) (i : OfficialImage)
    → by_name (combined os version arch) ≡ some i
    → IsAnswer os version arch i
by_name-IsAnswer os version arch i e = record {
  answers =
      inl ((eq_iff i.name (combined os version arch)).0 (first_image-passes _ official_images i e));
}

or_else-cases :
    (a b : Option OfficialImage) (i : OfficialImage)
    → or_else a b ≡ some i
    → (a ≡ some i) ⊎ (b ≡ some i)
or_else-cases (some x) b i e = inl e
or_else-cases none b i e = inr e

find_normal-IsAnswer :
    (os version arch : String) (i : OfficialImage)
    → find_normal os version arch ≡ some i
    → IsAnswer os version arch i
unfolding find_normal
find_normal-IsAnswer os version arch i e = elim (or_else-cases _ _ i e) [
  | inl a ↦ by_alias-IsAnswer os version arch i a
  | inr rest ↦ elim (or_else-cases _ _ i rest) [
    | inl n ↦ by_name-IsAnswer os version arch i n
    | inr s ↦ by_system-IsAnswer os version arch i s
  ]
]

-- When Find succeeds, its answer is named by the request, or it has the architecture asked for
-- (amd64 when none is) and it is the one that the system's alias names, for a request without a
-- version, or one of the system and the version asked for, if any.
pub find-IsAnswer :
    (os version arch : String) (i : OfficialImage)
    → find os version arch ≡ some i
    → IsAnswer (to_lower (trim_space os)) (trim_space version) (asked_arch arch) i
unfolding find
find-IsAnswer os version arch i e = find_normal-IsAnswer _ _ _ i e
