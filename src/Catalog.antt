-- ===== src/Catalog.antt =====
-- services/controlplane/catalog: the official images, and how a request names one. Case and space
-- are those of ASCII.
mod Answers
mod Tests
use rymevisor.Common.{
  ℕ, ◌-◌, Bool, true, false, ◌&&◌, ◌||◌, Option, none, some, List, [], ◌∷◌, ltb, leb, ◌==◌, length,
  if◌then◌else◌, String, str_eq, not,
}
use rymevisor.Common.Int.{ℤ, pos}
use Prim.Native.Char.{Char, code}
use Prim.Native.String as Str
use Prim.Native.String.{◌++◌ as ◌<>◌}

pub record OfficialImage : Type 0 where
  pub name : String
  pub os : String
  pub os_version : String
  pub architecture : String
  pub url : String
  pub checksum : String
  pub size_bytes : ℤ
  pub description : String

abbrev pub official_images : List OfficialImage
official_images =
    record {
      name = "ubuntu-24.04";
      os = "ubuntu";
      os_version = "24.04";
      architecture = "amd64";
      url = "https://cloud-images.ubuntu.com/noble/current/noble-server-cloudimg-amd64.img";
      checksum = "";
      size_bytes = pos 0;
      description = "Ubuntu 24.04 LTS (Noble) cloud image - amd64";
    }
    ∷ record {
      name = "ubuntu-22.04";
      os = "ubuntu";
      os_version = "22.04";
      architecture = "amd64";
      url = "https://cloud-images.ubuntu.com/jammy/current/jammy-server-cloudimg-amd64.img";
      checksum = "";
      size_bytes = pos 0;
      description = "Ubuntu 22.04 LTS (Jammy) cloud image - amd64";
    }
    ∷ record {
      name = "ubuntu-20.04";
      os = "ubuntu";
      os_version = "20.04";
      architecture = "amd64";
      url = "https://cloud-images.ubuntu.com/focal/current/focal-server-cloudimg-amd64.img";
      checksum = "";
      size_bytes = pos 0;
      description = "Ubuntu 20.04 LTS (Focal) cloud image - amd64";
    }
    ∷ record {
      name = "ubuntu-24.04-arm64";
      os = "ubuntu";
      os_version = "24.04";
      architecture = "arm64";
      url = "https://cloud-images.ubuntu.com/noble/current/noble-server-cloudimg-arm64.img";
      checksum = "";
      size_bytes = pos 0;
      description = "Ubuntu 24.04 LTS (Noble) cloud image - arm64";
    }
    ∷ record {
      name = "debian-12";
      os = "debian";
      os_version = "12";
      architecture = "amd64";
      url = "https://cloud.debian.org/images/cloud/bookworm/latest/debian-12-generic-amd64.qcow2";
      checksum = "";
      size_bytes = pos 0;
      description = "Debian 12 (Bookworm) generic cloud image - amd64";
    }
    ∷ record {
      name = "debian-11";
      os = "debian";
      os_version = "11";
      architecture = "amd64";
      url = "https://cloud.debian.org/images/cloud/bullseye/latest/debian-11-generic-amd64.qcow2";
      checksum = "";
      size_bytes = pos 0;
      description = "Debian 11 (Bullseye) generic cloud image - amd64";
    }
    ∷ record {
      name = "debian-12-arm64";
      os = "debian";
      os_version = "12";
      architecture = "arm64";
      url = "https://cloud.debian.org/images/cloud/bookworm/latest/debian-12-generic-arm64.qcow2";
      checksum = "";
      size_bytes = pos 0;
      description = "Debian 12 (Bookworm) generic cloud image - arm64";
    }
    ∷ []

abbrev pub aliases : List (String × String)
aliases =
    ("ubuntu", "ubuntu-22.04")
    ∷ ("ubuntu-lts", "ubuntu-22.04")
    ∷ ("ubuntu-latest", "ubuntu-24.04")
    ∷ ("debian", "debian-12")
    ∷ ("debian-latest", "debian-12")
    ∷ []

unfoldable pub lookup : String → List (String × String) → Option String
lookup k [] = none
lookup k ((a, n) ∷ rest) = if str_eq a k then some n else lookup k rest

abbrev lower_char : Char → Char
lower_char c =
    if leb b'A' (code c) && leb (code c) b'Z'
    then Str.char_at "abcdefghijklmnopqrstuvwxyz" (code c - b'A')
    else c

-- strings.ToLower
unfoldable pub to_lower : String → String
to_lower String.[] = ""
to_lower (String.◌∷◌ c s) = String.◌∷◌ (lower_char c) (to_lower s)

abbrev pub is_space : Char → Bool
is_space c = (code c == 32) || leb 9 (code c) && leb (code c) 13

unfoldable trim_start : String → String
trim_start String.[] = ""
trim_start (String.◌∷◌ c s) = let t = trim_start s in if is_space c then t else String.◌∷◌ c s

unfoldable trim_end : String → String
trim_end String.[] = ""
trim_end (String.◌∷◌ c s) =
    let t = trim_end s in if is_space c && str_eq t "" then "" else String.◌∷◌ c t

-- strings.TrimSpace
unfoldable pub trim_space : String → String
unfolding trim_start trim_end
trim_space s = trim_end (trim_start s)

-- A character in front of the first part.
abbrev pub push_char : Char → List String → List String
push_char c [] = String.◌∷◌ c "" ∷ []
push_char c (p ∷ ps) = String.◌∷◌ c p ∷ ps

-- strings.Split at a dash
unfoldable pub split_dash : String → List String
split_dash String.[] = "" ∷ []
split_dash (String.◌∷◌ c s) =
    let parts = split_dash s in if code c == b'-' then "" ∷ parts else push_char c parts

-- The first of some images that passes a test.
unfoldable pub first_image : (OfficialImage → Bool) → List OfficialImage → Option OfficialImage
first_image p [] = none
first_image p (i ∷ is) = if p i then some i else first_image p is

abbrev pub or_else : Option OfficialImage → Option OfficialImage → Option OfficialImage
or_else (some i) next = some i
or_else none next = next

abbrev pub by_name : String → Option OfficialImage
by_name name = first_image (λ i. str_eq i.name name) official_images

abbrev pub by_alias : String → String → String → Option OfficialImage
by_alias os version arch = elim (lookup os aliases) [
  | none ↦ none
  | some alias ↦
      if str_eq version ""
      then first_image (λ i. str_eq i.name alias && str_eq i.architecture arch) official_images
      else none
]

abbrev pub by_system : String → String → String → Option OfficialImage
by_system os version arch =
    first_image
      (λ i.
        (str_eq i.os os && str_eq i.architecture arch)
        && (str_eq version "" || str_eq i.os_version version))
      official_images

-- The name that a system, a version and an architecture make.
abbrev pub combined : String → String → String → String
combined os version arch =
    if str_eq version ""
    then os
    else if str_eq arch "amd64"
    then os <> "-" <> version
    else os <> "-" <> version <> "-" <> arch

abbrev pub asked_arch : String → String
asked_arch arch = let a = to_lower (trim_space arch) in if str_eq a "" then "amd64" else a

unfoldable pub find_normal : String → String → String → Option OfficialImage
unfolding lookup first_image
find_normal os version arch =
    or_else (by_alias os version arch)
      (or_else (by_name (combined os version arch)) (by_system os version arch))

-- Find
unfoldable pub find : String → String → String → Option OfficialImage
unfolding to_lower trim_space find_normal
find os version arch = find_normal (to_lower (trim_space os)) (trim_space version) (asked_arch arch)

-- What ResolveImageAlias asks Find for the parts between dashes.
unfoldable pub find_parts : List String → Option OfficialImage
unfolding find
find_parts [] = none
find_parts (os ∷ []) = find os "" "amd64"
find_parts (os ∷ part ∷ []) =
    if str_eq part "amd64" || str_eq part "arm64" then find os "" part else find os part "amd64"
find_parts (os ∷ version ∷ arch ∷ rest) = find os version arch

abbrev pub alias_target : String → Option OfficialImage
alias_target image = elim (lookup image aliases) [ none ↦ none | some alias ↦ by_name alias ]

-- ResolveImageAlias
unfoldable pub resolve_image_alias : String → Option OfficialImage
unfolding to_lower trim_space split_dash lookup first_image find_parts
resolve_image_alias given =
    let image = to_lower (trim_space given) in
    if str_eq image ""
    then none
    else or_else (by_name image) (or_else (alias_target image) (find_parts (split_dash image)))
