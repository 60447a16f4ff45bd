-- ===== src/Mirror/Client.antt =====
-- The methods of `Client` in web/internal/mirror/mirror.go and history.go that read what is attached
-- to a digest: `SBOM`, `Document`, `Scan`, `ScanDocument`, `Scans` and `Moves`. A cache is a package's: its operations
-- are the record `Lru`. A method takes the client's caches and returns them.
pub mod Cached
pub mod Genuine
use distroless.Prelude.{
  ℕ, ◌-◌, Bool, true, false, ◌==◌, Option, none, some, List, [], ◌∷◌, ◌++◌, if◌then◌else◌, map,
  take, sort_by, Result, ok, err, ◌>>=◌, ℤ,
}
use distroless.Strings.{Bytes, codes, str_eq, compare_nat}
use distroless.Scans.Report.{Scan}
use distroless.Scans.Table.{Component}
use distroless.Mirror.Sbom.{Bom, components}
use distroless.Mirror.Vex.{OpenVex, suppress}
use distroless.Mirror.Record.{Statement, Codec, ScanRecord, decode_scan, newest_scan}
use distroless.Mirror.Attached.{
  Repository, HeadError, no_answer, status, Layer, Image, Registry, MirrorError, bad_document,
  no_scan, unresolved, unreadable_ledger, no_ledger_layer, Place, or_fail, of_kind,
  newest_statement, max_attestation_bytes, repository, resolve, predicate, predicates,
}
use distroless.Mirror.Read.{read_components, read_scan, read_series, read_ledger}
use distroless.Mirror.Ledger.{Move, decode_ledger}

-- A cache of a package: what a key has, what looking it up does to the order of eviction, and what
-- adding does.
pub record Lru (V : Type 0) : Type 1 where
  pub Cache : Type 0
  pub empty : Cache
  pub find : Cache → Bytes → Option V
  pub touch : Cache → Bytes → Cache
  pub add : Cache → Bytes → V → Cache

-- the caches of the packages for each kind of entry
pub record Stores : Type 1 where
  pub components : Lru (List Component)
  pub scans : Lru Scan
  pub series : Lru (List Scan)
  pub ledgers : Lru (List Move)

pub record Client (s : Stores) : Type 0 where
  pub cache : s.components.Cache
  pub scans : s.scans.Cache
  pub series : s.series.Cache
  pub ledgers : s.ledgers.Cache

unfoldable pub new_client : (s : Stores) → Client s
new_client s = record {
  cache = s.components.empty;
  scans = s.scans.empty;
  series = s.series.empty;
  ledgers = s.ledgers.empty;
}

abbrev pub ledger_repository : Bytes
ledger_repository = codes "history"

module _ (s : Stores) (codec : Codec) (place : Place) (reg : Registry) where
  abbrev pub Answer : Type 0 → Type 0
  Answer A = Result MirrorError A × Client s

  unfoldable pub keep_components :
      Client s → Bytes → Result MirrorError (List Component) → Answer (Bytes × List Component)
  keep_components c digest (err e) = (err e, c)
  keep_components c digest (ok resolved) =
      (ok (digest, resolved), record c { cache = s.components.add c.cache digest resolved })

  unfoldable pub components_or_read :
      Client s → Repository → Bytes → Option (List Component) → Answer (Bytes × List Component)
  components_or_read c repo digest (some found) = (ok (digest, found), c)
  components_or_read c repo digest none =
      keep_components c digest (read_components codec place reg repo digest)

  unfoldable pub sbom_at :
      Client s → Result MirrorError (Repository × Bytes) → Answer (Bytes × List Component)
  sbom_at c (err e) = (err e, c)
  sbom_at c (ok (repo, digest)) =
      components_or_read (record c { cache = s.components.touch c.cache digest }) repo digest
        (s.components.find c.cache digest)

  unfoldable pub sbom : Client s → Bytes → Bytes → Answer (Bytes × List Component)
  sbom c family ref = sbom_at c (resolve codec place reg family ref)

  unfoldable pub keep_scan : Client s → Bytes → Result MirrorError Scan → Answer (Bytes × Scan)
  keep_scan c digest (err e) = (err e, c)
  keep_scan c digest (ok found) =
      (ok (digest, found), record c { scans = s.scans.add c.scans digest found })

  unfoldable pub scan_or_read : Client s → Repository → Bytes → Option Scan → Answer (Bytes × Scan)
  scan_or_read c repo digest (some found) = (ok (digest, found), c)
  scan_or_read c repo digest none = keep_scan c digest (read_scan codec place reg repo digest)

  unfoldable pub scan_at :
      Client s → Result MirrorError (Repository × Bytes) → Answer (Bytes × Scan)
  scan_at c (err e) = (err e, c)
  scan_at c (ok (repo, digest)) =
      scan_or_read (record c { scans = s.scans.touch c.scans digest }) repo digest
        (s.scans.find c.scans digest)

  unfoldable pub scan : Client s → Bytes → Bytes → Answer (Bytes × Scan)
  scan c family ref = scan_at c (resolve codec place reg family ref)

  unfoldable pub keep_series :
      Client s → Bytes → Result MirrorError (List Scan) → Answer (Bytes × List Scan)
  keep_series c digest (err e) = (err e, c)
  keep_series c digest (ok found) =
      (ok (digest, found), record c { series = s.series.add c.series digest found })

  unfoldable pub series_or_read :
      Client s → Repository → Bytes → Option (List Scan) → Answer (Bytes × List Scan)
  series_or_read c repo digest (some found) = (ok (digest, found), c)
  series_or_read c repo digest none = keep_series c digest (read_series codec place reg repo digest)

  unfoldable pub scans_at :
      Client s → Result MirrorError (Repository × Bytes) → Answer (Bytes × List Scan)
  scans_at c (err e) = (err e, c)
  scans_at c (ok (repo, digest)) =
      series_or_read (record c { series = s.series.touch c.series digest }) repo digest
        (s.series.find c.series digest)

  unfoldable pub scans : Client s → Bytes → Bytes → Answer (Bytes × List Scan)
  scans c family ref = scans_at c (resolve codec place reg family ref)

  unfoldable pub keep_ledger :
      Client s → Bytes → Result MirrorError (List Move) → Answer (List Move)
  keep_ledger c digest (err e) = (err e, c)
  keep_ledger c digest (ok moves) =
      (ok moves, record c { ledgers = s.ledgers.add c.ledgers digest moves })

  unfoldable pub ledger_or_read :
      Client s → Repository → Bytes → Option (List Move) → Answer (List Move)
  ledger_or_read c repo digest (some moves) = (ok moves, c)
  ledger_or_read c repo digest none = keep_ledger c digest (read_ledger codec place reg repo digest)

  -- a family without a ledger has no moves
  unfoldable pub moves_of : Client s → Repository → Result HeadError Bytes → Answer (List Move)
  moves_of c repo (err no_answer) = (err unresolved, c)
  moves_of c repo (err (status code)) = (if code == 404 then ok [] else err unresolved, c)
  moves_of c repo (ok digest) =
      ledger_or_read (record c { ledgers = s.ledgers.touch c.ledgers digest }) repo digest
        (s.ledgers.find c.ledgers digest)

  unfoldable pub moves_at : Client s → Bytes → Result MirrorError Repository → Answer (List Move)
  moves_at c family (err e) = (err e, c)
  moves_at c family (ok repo) = moves_of c repo (reg.head repo family)

  unfoldable pub moves : Client s → Bytes → Answer (List Move)
  moves c family = moves_at c family (repository codec place reg ledger_repository)
