-- ===== src/Catalog/Tests.antt =====
-- Requests for official images.
use rymevisor.Common.{◌≡◌, refl, some, ◌∷◌, []}
use rymevisor.Common.Int.{pos}
use rymevisor.Catalog.{OfficialImage, find, split_dash, to_lower, trim_space, asked_arch}
use rymevisor.Catalog.Answers.{IsAnswer, find-IsAnswer}

split : split_dash "debian-12-arm64" ≡ "debian" ∷ "12" ∷ "arm64" ∷ []
unfolding split_dash
split = refl

trimmed : to_lower (trim_space " Ubuntu ") ≡ "ubuntu"
unfolding to_lower trim_space
trimmed = refl

-- A name that has its architecture left out is answered whatever architecture is asked for.
other_architecture : find "ubuntu-24.04" "" "arm64" ≡ find "ubuntu" "24.04" "amd64"
unfolding find
other_architecture = refl

abbrev ubuntu_arm : OfficialImage
ubuntu_arm = record {
  name = "ubuntu-24.04-arm64";
  os = "ubuntu";
  os_version = "24.04";
  architecture = "arm64";
  url = "https://cloud-images.ubuntu.com/noble/current/noble-server-cloudimg-arm64.img";
  checksum = "";
  size_bytes = pos 0;
  description = "Ubuntu 24.04 LTS (Noble) cloud image - arm64";
}

found_arm : find "Ubuntu" "" "ARM64 " ≡ some ubuntu_arm
unfolding find
found_arm = refl

find-IsAnswer_example :
    IsAnswer (to_lower (trim_space "Ubuntu")) (trim_space "") (asked_arch "ARM64 ") ubuntu_arm
find-IsAnswer_example = find-IsAnswer "Ubuntu" "" "ARM64 " ubuntu_arm found_arm
