-- ===== src/Elf/Needs.antt =====
-- What an ELF needs and where it is looked for, in oci/tools/elfneeds/main.go: `interpreter`,
-- `runpath`, `ldSoConfDirs`, `machineOf`, `resolves` and `needsOf`. What debug/elf reads of a file,
-- what a configuration file holds and what `filepath.Glob` matches are fields of the root.
pub mod Resolved
use distroless.Prelude.{
  ℕ, zero, suc, ◌-◌, Bool, true, false, ◌||◌, ◌&&◌, not, Option, none, some, List, [], ◌∷◌, ◌++◌,
  if◌then◌else◌, ◌==◌, length, sort_slice, Result, ok, err, map,
}
use distroless.Strings.{Bytes, codes, str_eq, cut_prefix, has_prefix}
use distroless.Strings.Split.{split}
use distroless.Strings.Space.{trim_space}
use distroless.Strings.Order.{text_lt}
use distroless.Elf.Path.{clean, join_path, dir}
use distroless.Elf.Root.{Image, file_in_root}

-- a program header: whether it is PT_INTERP, and its bytes, none where they cannot be read
pub record Prog : Type 0 where
  pub is_interp : Bool
  pub content : Option Bytes

-- `needed` is none where the dynamic section cannot be read; the run paths are empty there
pub record ElfFile : Type 0 where
  pub progs : List Prog
  pub needed : Option (List Bytes)
  pub runpath : List Bytes
  pub rpath : List Bytes
  pub machine : ℕ

-- what opening and reading a file as an ELF gives
pub data Content : Type 0 where
  unreadable not_elf bad_elf : Content
  elf : ElfFile → Content

pub record ImageRoot : Type 0 where
  pub node : Image
  pub content : Bytes → Content
  pub read_file : Bytes → Option Bytes
  pub glob : Bytes → List Bytes

pub data NeedsError : Type 0 where
  open_failed parse_failed needed_failed : NeedsError

-- `strings.TrimRight(s, "\x00")`
unfoldable pub trim_zeros : Bytes → Bytes
trim_zeros [] = []
trim_zeros (c ∷ s) = elim (trim_zeros s) [ [] ↦ if c == 0 then [] else c ∷ [] | x ∷ r ↦ c ∷ x ∷ r ]

unfoldable pub interp_text : Option Bytes → Bytes
interp_text none = []
interp_text (some b) = trim_zeros b

unfoldable pub interpreter : List Prog → Bytes
interpreter [] = []
interpreter (p ∷ progs) =
    let rest = interpreter progs in if p.is_interp then interp_text p.content else rest

-- `strings.ReplaceAll` of a text that is not empty; `skip` bytes belong to the last match
unfoldable pub replace_from : Bytes → Bytes → ℕ → Bytes → Bytes
replace_from old new skip [] = []
replace_from old new (suc skip) (c ∷ s) = replace_from old new skip s
replace_from old new zero (c ∷ s) =
    let matched = new ++ replace_from old new (length old - 1) s in
    let other = c ∷ replace_from old new zero s in if has_prefix (c ∷ s) old then matched else other

abbrev pub expand_origin : Bytes → Bytes → Bytes
expand_origin origin dir_text =
    replace_from (codes "$ORIGIN") origin zero
      (replace_from (codes "${ORIGIN}") origin zero dir_text)

unfoldable pub run_dirs : Bytes → List Bytes → List Bytes
run_dirs origin [] = []
run_dirs origin (d ∷ ds) =
    let rest = run_dirs origin ds in
    if str_eq d [] then rest else clean (expand_origin origin d) ∷ rest

unfoldable pub entry_dirs : Bytes → List Bytes → List Bytes
entry_dirs origin [] = []
entry_dirs origin (e ∷ es) = run_dirs origin (split b':' e) ++ entry_dirs origin es

-- DT_RPATH counts where there is no DT_RUNPATH
abbrev pub or_rpath : List Bytes → List Bytes → List Bytes
or_rpath [] rpath = rpath
or_rpath (e ∷ es) rpath = e ∷ es

unfoldable pub run_path : ElfFile → Bytes → List Bytes
run_path f origin = entry_dirs origin (or_rpath f.runpath f.rpath)

abbrev pub machine_none : ℕ
machine_none = 0

unfoldable pub machine_in : Content → ℕ
machine_in (elf f) = f.machine
machine_in _ = machine_none

abbrev pub default_dirs : List Bytes
default_dirs =
    codes "/lib"
    ∷ codes "/usr/lib"
    ∷ codes "/lib64"
    ∷ codes "/usr/lib64"
    ∷ codes "/lib/x86_64-linux-gnu"
    ∷ codes "/usr/lib/x86_64-linux-gnu"
    ∷ codes "/lib/aarch64-linux-gnu"
    ∷ codes "/usr/lib/aarch64-linux-gnu"
    ∷ []

module _ (root : ImageRoot) where
  -- a file that is found is loadable if it is for the machine
  unfoldable pub loadable : ℕ → Option Bytes → Bool
  loadable machine none = false
  loadable machine (some path) = machine_in (root.content path) == machine

  unfoldable pub resolves : Bytes → List Bytes → ℕ → Bool
  resolves soname [] machine = false
  resolves soname (d ∷ dirs) machine =
      loadable machine (file_in_root root.node (join_path d soname)) || resolves soname dirs machine

  unfoldable pub unresolved_of : List Bytes → List Bytes → ℕ → List Bytes
  unresolved_of dirs [] machine = []
  unresolved_of dirs (soname ∷ needed) machine =
      let rest = unresolved_of dirs needed machine in
      if resolves soname dirs machine then rest else soname ∷ rest

  abbrev pub is_found : Option Bytes → Bool
  is_found none = false
  is_found (some _) = true

  unfoldable pub missing_interp : Bytes → List Bytes
  missing_interp interp =
      if str_eq interp [] || is_found (file_in_root root.node interp)
      then []
      else (codes "interpreter " ++ interp) ∷ []

  unfoldable pub elf_needs :
      ElfFile → Bytes → List Bytes → Option (List Bytes) → Result NeedsError (List Bytes)
  elf_needs f path search_dirs none = err needed_failed
  elf_needs f path search_dirs (some needed) = ok (
      missing_interp (interpreter f.progs)
      ++ unresolved_of (run_path f (dir path) ++ search_dirs) needed f.machine)

  unfoldable pub needs_in : Content → Bytes → List Bytes → Result NeedsError (List Bytes)
  needs_in unreadable path search_dirs = err open_failed
  needs_in not_elf path search_dirs = ok []
  needs_in bad_elf path search_dirs = err parse_failed
  needs_in (elf f) path search_dirs = elf_needs f path search_dirs f.needed

  unfoldable pub needs_of : Bytes → List Bytes → Result NeedsError (List Bytes)
  needs_of path search_dirs = needs_in (root.content path) path search_dirs

  -- the lines of a configuration file; `include` reads one that it includes
  unfoldable pub conf_line : (Bytes → List Bytes) → Bytes → Option Bytes → List Bytes
  conf_line include line none =
      if str_eq line [] || has_prefix line (codes "#") then [] else clean line ∷ []
  conf_line include line (some pattern) = include (trim_space pattern)

  unfoldable pub conf_lines : (Bytes → List Bytes) → List Bytes → List Bytes
  conf_lines include [] = []
  conf_lines include (line ∷ lines) =
      conf_line include (trim_space line) (cut_prefix (trim_space line) (codes "include "))
      ++ conf_lines include lines

  unfoldable pub conf_text : (Bytes → List Bytes) → Option Bytes → List Bytes
  conf_text include none = []
  conf_text include (some text) = conf_lines include (split b'\n' text)

  unfoldable pub read_all : (Bytes → List Bytes) → List Bytes → List Bytes
  read_all read [] = []
  read_all read (path ∷ paths) = read path ++ read_all read paths

  -- `left` is how deep files may still be included
  unfoldable pub read_conf : ℕ → Bytes → List Bytes
  read_conf zero path = []
  read_conf (suc left) path =
      conf_text (λ pattern. read_all (read_conf left) (sort_slice text_lt (root.glob pattern)))
        (root.read_file path)

  -- depth 0 to 8
  unfoldable pub ld_so_conf_dirs : List Bytes
  ld_so_conf_dirs = read_conf 9 (codes "/etc/ld.so.conf")
