-- ===== src/History/Tests.antt =====
-- The history of a tag that went from one build to another and back.
use distroless.Prelude.{
  ℕ, ◌*◌, ◌≡◌, refl, arith, true, none, some, List, [], ◌∷◌, if◌then◌else◌, ltb, All, ascending,
  all,
}
use distroless.Strings.{Bytes, codes, str_eq}
use distroless.Scans.Report.{Finding, Scan}
use distroless.Mirror.Ledger.{Move}
use distroless.History.{Era, new_history}
use distroless.History.Counts.{AddsUp, time_of, within, new_history-AddsUp}
use distroless.History.Handler.{Source, tag_eras}
use distroless.History.Revisited.{points_at, finished_at, tag_eras-revisited}

abbrev old_build : Bytes
old_build = codes "sha256:aa"

abbrev new_build : Bytes
new_build = codes "sha256:bb"

abbrev latest : Bytes
latest = codes "latest"

abbrev moved : ℕ → Bytes → Move
moved at digest = record { at = at; tag = latest; digest = digest; run = [] }

abbrev there_and_back : List Move
there_and_back = moved 10 old_build ∷ moved 20 new_build ∷ moved 30 old_build ∷ []

abbrev high_finding : Finding
high_finding = record {
  id = codes "CVE-1";
  severity = 2;
  package_name = codes "zlib";
  version = codes "1.3";
  upstream = [];
  kind = codes "deb";
  arch = codes "amd64";
  purl = [];
  fixed_in = [];
  fix_state = [];
  url = [];
  description = [];
  suppressed = none;
}

abbrev scan_at : ℕ → Scan
scan_at t = record {
  scanner = codes "grype";
  scanner_url = [];
  database = 1;
  finished = t;
  findings = high_finding ∷ [];
}

abbrev nightly : List Scan
nightly = scan_at 12 ∷ scan_at 22 ∷ []

abbrev ledger_source : Source
ledger_source = record {
  scans = λ family ref. some (new_build, scan_at 21 ∷ []);
  moves = λ family. some there_and_back;
}

abbrev nginx_eras : List Era
nginx_eras =
    (record { digest = new_build; from = 20; scans = scan_at 21 ∷ [] })
    ∷ (record { digest = old_build; from = 10; scans = nightly })
    ∷ []

counted_twice :
    points_at old_build 12
      (new_history
        (codes "nginx")
        old_build
        []
        (tag_eras ledger_source (codes "nginx") latest old_build nightly).0).points
    ≡ (if ltb 12 20 then 2 else 1) * finished_at 12 nightly
unfolding str_eq
counted_twice =
    tag_eras-revisited ledger_source (codes "nginx") latest (codes "nginx") [] nightly
      there_and_back (moved 10 old_build) (moved 20 new_build) (moved 30 old_build) 12 refl refl
      (omega arith) (omega arith) (omega arith) refl refl

nginx-AddsUp :
    let history = new_history (codes "nginx") old_build [] nginx_eras in
    All AddsUp history.points
    × (ascending time_of history.points ≡ true)
    × (all (within history.from history.to) history.points ≡ true)
nginx-AddsUp = new_history-AddsUp (codes "nginx") old_build [] nginx_eras
