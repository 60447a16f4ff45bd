-- ===== src/History/Handler.antt =====
-- `tagEras` of web/internal/directory/page.go, and the eras that `serveHistory` makes a history of. What
-- they read is the record `Source`.
use distroless.Prelude.{Bool, true, false, Option, none, some, List, [], ◌∷◌, ◌++◌, if◌then◌else◌}
use distroless.Strings.{Bytes, str_eq}
use distroless.Scans.Report.{Scan}
use distroless.Mirror.Ledger.{Move}
use distroless.Pages.{is_digest}
use distroless.History.{Era}

-- what the pages are made from: a reference's digest and its scans, and the moves of a family
pub record Source : Type 0 where
  pub scans : Bytes → Bytes → Option (Bytes × List Scan)
  pub moves : Bytes → Option (List Move)

-- the scans of an earlier build, none where they cannot be read
unfoldable pub scans_or_none : Option (Bytes × List Scan) → List Scan
scans_or_none none = []
scans_or_none (some (digest, scans)) = scans

-- the last era is of the build
unfoldable pub ends_with : Bytes → List Era → Bool
ends_with digest [] = false
ends_with digest (e ∷ []) = str_eq e.digest digest
ends_with digest (e ∷ f ∷ eras) = ends_with digest (f ∷ eras)

abbrev pub current_era : Bytes → List Scan → Era
current_era digest series = record { digest = digest; from = 0; scans = series }

unfoldable pub close_eras : Bytes → List Scan → List Era → List Era
close_eras digest series eras =
    if ends_with digest eras then eras else eras ++ current_era digest series ∷ []

module _ (source : Source) where
  unfoldable pub move_era : Bytes → Bytes → List Scan → Move → Era
  move_era family digest series m = record {
    digest = m.digest;
    from = m.at;
    scans = if str_eq m.digest digest then series else scans_or_none (source.scans family m.digest);
  }

  unfoldable pub moves_eras : Bytes → Bytes → Bytes → List Scan → List Move → List Era
  moves_eras family tag digest series [] = []
  moves_eras family tag digest series (m ∷ moves) =
      let rest = moves_eras family tag digest series moves in
      if str_eq m.tag tag then move_era family digest series m ∷ rest else rest

  unfoldable pub eras_from :
      Bytes → Bytes → Bytes → List Scan → Option (List Move) → List Era × Bool
  eras_from family tag digest series none = (current_era digest series ∷ [], false)
  eras_from family tag digest series (some moves) =
      (close_eras digest series (moves_eras family tag digest series moves), true)

  unfoldable pub tag_eras : Bytes → Bytes → Bytes → List Scan → List Era × Bool
  tag_eras family tag digest series = eras_from family tag digest series (source.moves family)

  unfoldable pub page_eras : Bytes → Bytes → Bytes → List Scan → List Era × Bool
  page_eras family ref digest series =
      if is_digest ref
      then (current_era digest series ∷ [], true)
      else tag_eras family ref digest series
