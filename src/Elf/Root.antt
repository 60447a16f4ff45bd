-- ===== src/Elf/Root.antt =====
-- `fileInRoot` of oci/tools/elfneeds/main.go. The image is what stands at each path below its root;
-- the real path of a file is its path in the image, since `filepath.Join(root, p)` only puts the
-- root in front of it.
pub mod Lookup
use distroless.Prelude.{ℕ, zero, suc, Bool, Option, none, some, List, if◌then◌else◌}
use distroless.Strings.{Bytes}
use distroless.Elf.Path.{is_abs, clean, join_path, dir}

-- what `Lstat` finds; a link's target is none where it cannot be read
pub data Node : Type 0 where
  absent directory regular : Node
  symlink : Option Bytes → Node

abbrev pub Image : Type 0
Image = Bytes → Node

abbrev pub max_links : ℕ
max_links = 40

-- where a link at `p` leads
unfoldable pub link_target : Bytes → Bytes → Bytes
link_target p target = if is_abs target then clean target else join_path (dir p) target

-- the path of a regular file
unfoldable pub follow : Image → ℕ → Bytes → Option Bytes
follow image zero p = none
follow image (suc rounds) p = elim (image p) [
  | absent ↦ none
  | directory ↦ none
  | regular ↦ some p
  | symlink none ↦ none
  | symlink (some target) ↦ follow image rounds (link_target p target)
]

unfoldable pub file_in_root : Image → Bytes → Option Bytes
file_in_root image path = follow image max_links (clean path)
