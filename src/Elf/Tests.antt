-- ===== src/Elf/Tests.antt =====
-- An image with one program, a library behind a link, and runs of the theorems on them.
use mathlib.Core.List.{Memᴰ}
use distroless.Prelude.{
  ℕ, all, any, ◌&&◌, true, none, some, List, [], ◌∷◌, ◌++◌, ◌≡◌, ◌<◌, refl, if◌then◌else◌, ok,
}
use distroless.Strings.{Bytes, codes, str_eq}
use distroless.Elf.Path.{is_abs, clean, dir}
use distroless.Elf.Path
use distroless.Elf.Root
use distroless.Elf.Needs
use distroless.Elf.Path.Inside.{IsInside}
use distroless.Elf.Root.{Node, absent, regular, symlink, Image, link_target, file_in_root}
use distroless.Elf.Root.Lookup.{Links, file_in_root_iff}
use distroless.Elf.Needs.{
  ElfFile, interpreter, run_path, Content, unreadable, elf, ImageRoot, needs_of, default_dirs,
}
use distroless.Elf.Needs.Resolved.{InterpFound, Found, needs_of-Found}
use distroless.Elf.Check.{Allow, Unresolved, report_of}
use distroless.Elf.Check.Verdict.{excused, uses, report_of-passes}

abbrev link : Bytes
link = codes "/lib/l.so"

abbrev real : Bytes
real = codes "/usr/l.so.1"

abbrev program : Bytes
program = codes "/bin/p"

abbrev image : Image
image p =
    if str_eq p link
    then symlink (some (codes "../usr/./l.so.1"))
    else if str_eq p real
    then regular
    else absent

links_found : file_in_root image (codes "/lib//l.so") ≡ some real
unfolding file_in_root Root.follow link_target is_abs str_eq clean Path.render
    distroless.Strings.Split.join Path.backwards Path.keep_segments distroless.Strings.Split.split
    Path.add_segment Path.join_path dir Path.dir_of distroless.Strings.cut_last Path.go_up
links_found = refl

rooted : is_abs (codes "/lib//l.so") ≡ true
unfolding is_abs
rooted = refl

located_example :
    (n : ℕ) × (n < 40)
    × Links image n (clean (codes "/lib//l.so")) real
    × (image real ≡ regular)
    × IsInside real
located_example = (file_in_root_iff image (codes "/lib//l.so") real rooted).0 links_found

abbrev program_file : ElfFile
program_file = record {
  progs = record { is_interp = true; content = some (real ++ 0 ∷ []) } ∷ [];
  needed = some (codes "l.so" ∷ []);
  runpath = codes "/opt:$ORIGIN/../lib" ∷ [];
  rpath = [];
  machine = 62;
}

abbrev library_file : ElfFile
library_file = record { progs = []; needed = some []; runpath = []; rpath = []; machine = 62 }

abbrev contents : Bytes → Content
contents p =
    if str_eq p program
    then elf program_file
    else if str_eq p real
    then elf library_file
    else unreadable

abbrev root : ImageRoot
root = record { node = image; content = contents; read_file = λ p. none; glob = λ p. [] }

program_needs : needs_of root program [] ≡ ok []
unfolding needs_of Needs.needs_in Needs.elf_needs Needs.missing_interp interpreter Needs.interp_text
    Needs.trim_zeros file_in_root Root.follow link_target is_abs str_eq clean Path.render
    distroless.Strings.Split.join Path.backwards Path.keep_segments distroless.Strings.Split.split
    Path.add_segment Path.join_path dir Path.dir_of distroless.Strings.cut_last Path.go_up
    Needs.entry_dirs Needs.loadable Needs.machine_in Needs.replace_from Needs.resolves
    Needs.run_dirs run_path Needs.unresolved_of distroless.Strings.cut_prefix
    distroless.Strings.has_prefix
program_needs = refl

needs_example :
    InterpFound root (interpreter program_file.progs)
    × ((s : Bytes)
        → Memᴰ s (codes "l.so" ∷ [])
        → Found root (run_path program_file (dir program) ++ []) 62 s)
unfolding str_eq
needs_example =
    (needs_of-Found root program [] program_file (codes "l.so" ∷ []) refl refl).0 program_needs

abbrev old_program : List Allow
old_program = record { glob = program; reason = codes "old" } ∷ []

abbrev failures : List Unresolved
failures = record { file = program; missing = codes "l.so" ∷ [] } ∷ []

report_example : (report_of str_eq (λ b. b) old_program failures).passes ≡ (
    all (excused str_eq old_program) failures
    && all (λ (a : Allow). any (uses str_eq old_program a.glob) failures) old_program)
report_example = report_of-passes str_eq old_program (λ b. b) failures
