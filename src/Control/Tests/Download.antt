-- ===== src/Control/Tests/Download.antt =====
-- Transfers of one image.
use rymevisor.Common.{
  ◌≡◌, refl, Bool, true, false, ◌==◌, Option, none, some, [], ◌∷◌, String, ◌+◌, ltb, str_eq,
}
use rymevisor.Common.Int.{pos}
use rymevisor.Control.{stopped, downloading, ready, Image}
use rymevisor.Control.Store.{World}
use rymevisor.Control.Download.{Transfer, download}
use rymevisor.Control.Downloaded.{IsUnready, download-IsUnready}
use rymevisor.Control.Readied.{IsReadied, download-IsReadied}
use rymevisor.Control.Tests.{vm_with, world_of, working, failing_at}

abbrev image : Image
image = record {
  id = "image-1";
  name = "debian";
  description = "";
  os = "debian";
  os_version = "12";
  architecture = "x86_64";
  type = "qcow2";
  size_bytes = pos 0;
  status = downloading;
  checksum = "";
  source_url = "https://images/a.img";
  tags = [];
}

abbrev pulled : World
pulled = record (world_of (vm_with stopped none)) { images = image ∷ [] }

-- The server starts again from the beginning, and sends a QCOW2 file.
abbrev whole : Transfer
whole = record {
  in_progress = false;
  makes_directory = true;
  partial = 10;
  makes_request = true;
  response = some 200;
  opens_file = true;
  received = some 64;
  checksum = "ab";
  magic = some (81 ∷ 70 ∷ 73 ∷ 251 ∷ []);
  named_qcow2 = false;
  converts = false;
  converted_size = none;
  converted_checksum = none;
  renames = true;
}

abbrev cut : Transfer
cut = record whole { received = none }

whole_stored :
    World.images (download working whole "image-1" pulled).1
    ≡ record image { status = ready; size_bytes = pos 64; checksum = "ab" } ∷ []
unfolding download rymevisor.Common.Table.select rymevisor.Common.Table.update
whole_stored = refl

download-IsUnready_example :
    IsUnready "image-1" (World.images (download (failing_at 1) cut "image-1" pulled).1)
download-IsUnready_example =
    download-IsUnready (failing_at 1) cut "image-1" pulled refl ((λ _. refl), tt)

download-IsReadied_example :
    IsReadied "image-1" (World.images (download working whole "image-1" pulled).1)
download-IsReadied_example = download-IsReadied working whole "image-1" pulled (λ _. refl) refl
