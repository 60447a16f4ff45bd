-- ===== src/Elf/Check.antt =====
-- `check` and the flag `--allow` of oci/tools/elfneeds/main.go: which of the failures are allowed,
-- and which allowances are stale. `path.Match` is the argument `matches`, and its check of a pattern
-- the argument `well_formed`.
pub mod Verdict
use distroless.Prelude.{
  ℕ, Bool, true, false, ◌||◌, ◌&&◌, not, Option, none, some, List, [], ◌∷◌, ◌++◌, if◌then◌else◌,
  sort_slice, Result, ok, err, ◌>>=◌,
}
use distroless.Prelude.Dict.{contains}
use distroless.Strings.{Bytes, codes, str_eq, has_prefix, cut_first}
use distroless.Strings.Split.{join_commas}
use distroless.Strings.Order.{bytes_eq, text_lt}
use distroless.Elf.Needs.{ImageRoot, NeedsError, needs_of, ld_so_conf_dirs, default_dirs}

pub record Allow : Type 0 where
  pub glob : Bytes
  pub reason : Bytes

pub record Unresolved : Type 0 where
  pub file : Bytes
  pub missing : List Bytes

pub data FlagError : Type 0 where
  bad_form bad_pattern : FlagError

-- `allowFlag.Set`, behind the cut at the first `=`
unfoldable pub set_parts :
    (Bytes → Bool) → List Allow → Option (Bytes × Bytes) → Result FlagError (List Allow)
set_parts well_formed allows none = err bad_form
set_parts well_formed allows (some (glob, reason)) =
    if str_eq glob [] || str_eq reason []
    then err bad_form
    else if not (well_formed glob)
    then err bad_pattern
    else ok (allows ++ (record { glob = glob; reason = reason }) ∷ [])

unfoldable pub set_allow : (Bytes → Bool) → List Allow → Bytes → Result FlagError (List Allow)
set_allow well_formed allows v = set_parts well_formed allows (cut_first b'=' v)

-- an error with the file that it is about
abbrev pub CheckError : Type 0
CheckError = Bytes × NeedsError

unfoldable pub named_error : Bytes → Result NeedsError (List Bytes) → Result CheckError (List Bytes)
named_error path (ok missing) = ok missing
named_error path (err e) = err (path, e)

abbrev pub add_failure : Bytes → List Bytes → List Unresolved → List Unresolved
add_failure path [] failures = failures
add_failure path (m ∷ ms) failures = record { file = path; missing = m ∷ ms } ∷ failures

unfoldable pub file_needs : ImageRoot → List Bytes → Bytes → Result CheckError (List Bytes)
file_needs root search_dirs path =
    if has_prefix path (codes "/usr/lib/debug/")
    then ok []
    else named_error path (needs_of root path search_dirs)

-- the walk over the regular files of the image
unfoldable pub failures_of :
    ImageRoot → List Bytes → List Bytes → Result CheckError (List Unresolved)
failures_of root search_dirs [] = ok []
failures_of root search_dirs (path ∷ files) = do
  missing ← file_needs root search_dirs path
  failures ← failures_of root search_dirs files
  ok (add_failure path missing failures)

-- the text that is written, the verdict and the globs that were used
pub record Report : Type 0 where
  pub text : Bytes
  pub passes : Bool
  pub used : List Bytes

abbrev pub empty_report : Report
empty_report = record { text = []; passes = true; used = [] }

abbrev pub missing_text : Unresolved → Bytes
missing_text f = join_commas f.missing

module _ (matches : Bytes → Bytes → Bool) where
  unfoldable pub first_match : List Allow → Bytes → Option Allow
  first_match [] file = none
  first_match (a ∷ allows) file =
      let rest = first_match allows file in if matches a.glob file then some a else rest

  unfoldable pub failure_line : Unresolved → Option Allow → Report → Report
  failure_line f none r = record {
    text =
        r.text
        ++ (codes "MISSING  "
            ++ (f.file ++ (codes " cannot load: " ++ (missing_text f ++ codes "\n"))));
    passes = false;
    used = r.used;
  }
  failure_line f (some a) r =
      if str_eq a.reason []
      then record {
        text =
            r.text
            ++ (codes "MISSING  "
                ++ (f.file ++ (codes " cannot load: " ++ (missing_text f ++ codes "\n"))));
        passes = false;
        used = a.glob ∷ r.used;
      }
      else record {
        text =
            r.text
            ++ (codes "allowed  "
                ++ (f.file
                    ++ (codes ": "
                        ++ (missing_text f ++ (codes " (" ++ (a.reason ++ codes ")\n"))))));
        passes = r.passes;
        used = a.glob ∷ r.used;
      }

  unfoldable pub judge_failures : List Allow → List Unresolved → Report → Report
  judge_failures allows [] r = r
  judge_failures allows (f ∷ fs) r =
      judge_failures allows fs (failure_line f (first_match allows f.file) r)

  -- `quoted` is `%q`
  unfoldable pub stale_line : (Bytes → Bytes) → Allow → Report → Report
  stale_line quoted a r = if contains r.used a.glob then r else record {
    text =
        r.text
        ++ (codes "STALE    --allow " ++ (quoted a.glob ++ codes " silences nothing; remove it\n"));
    passes = false;
    used = r.used;
  }

  unfoldable pub judge_allows : (Bytes → Bytes) → List Allow → Report → Report
  judge_allows quoted [] r = r
  judge_allows quoted (a ∷ allows) r = judge_allows quoted allows (stale_line quoted a r)

  abbrev pub file_less : Unresolved → Unresolved → Bool
  file_less f g = text_lt f.file g.file

  unfoldable pub report_of : (Bytes → Bytes) → List Allow → List Unresolved → Report
  report_of quoted allows failures =
      judge_allows quoted allows
        (judge_failures allows (sort_slice file_less failures) empty_report)

  unfoldable pub check :
      (Bytes → Bytes) → ImageRoot → List Bytes → List Allow → Result CheckError Report
  check quoted root files allows = do
    failures ← failures_of root (ld_so_conf_dirs root ++ default_dirs) files
    ok (report_of quoted allows failures)
