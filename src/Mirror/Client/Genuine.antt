-- ===== src/Mirror/Client/Genuine.antt =====
-- Nothing that was not verified is shown, from a cache or from the registry.
pub mod Reads
use distroless.Prelude.{
  Bool, Option, none, some, List, [], ◌∷◌, ◌≡◌, ◌≢◌, refl, sym, ap, ◌∙◌, Result, ok, err,
  ok-injective, >>=-eq-ok, ◌>>=◌, All, map, sort_by, insert_by, is_neg, Bool-cases, inl, inr,
  if◌then◌else◌, Option-cases, some_eq,
}
use mathlib.Core.Path.{subst}
use distroless.Strings.{Bytes, str_eq}
use distroless.Strings.Laws.{str_eq_sound}
use distroless.Scans.Report.{Scan}
use distroless.Scans.Table.{Component}
use distroless.Mirror.Sbom.{Bom, components}
use distroless.Mirror.Record.{
  Statement, Codec, ScanRecord, decode_scan, newest_scan, newest_from, keep_decoded, keep_newer,
}
use distroless.Mirror.Attached.{
  Registry, MirrorError, Repository, Place, or_fail, of_kind, newest_statement, newest_signed,
  keep_signed, repository, HeadError, no_answer, status, predicate, predicates, bad_document,
  no_scan, resolve,
}
use distroless.Mirror.Attached.Verified.{Attests, predicate-Attests, predicates-Attests}
use distroless.Mirror.Ledger.{Move}
use distroless.Mirror.Read.{
  read_ledger, cyclonedx, vuln, openvex, compare_finished, read_components, apply_vex,
  newest_record, read_scan, all_scans, add_decoded, some_scans, read_series, document,
}
use distroless.Mirror.Client.{
  Lru, Stores, Client, new_client, keep_components, components_or_read, sbom_at, sbom, keep_scan,
  scan_or_read, scan_at, scan, keep_series, series_or_read, scans_at, scans, moves, moves_at,
  moves_of, ledger_or_read, keep_ledger, ledger_repository,
}
use distroless.Mirror.Client.Cached.{IsLru, Holds, Holds-empty, Holds-touch, Holds-add}
use distroless.Mirror.Client.Genuine.Reads.{
  GenuineComponents, GenuineScan, GenuineSeries, read_components-Genuine, read_scan-Genuine,
  read_series-Genuine,
}

err_ok : {A : Type 0} {e : MirrorError} {a : A} → ◌≢◌ {A = Result MirrorError A} (err e) (ok a)
err_ok h = cc

answer_keeps :
    {A : Type 0} (P : Bytes → A → Type 0) {d d' : Bytes} {a a' : A}
    → P d a
    → ◌≡◌ {A = Result MirrorError (Bytes × A)} (ok (d, a)) (ok (d', a'))
    → P d' a'
answer_keeps P p e = subst (λ (x : Bytes × _). P x.0 x.1) (ok-injective e) p

-- what each cache package documents
pub record AreLru (s : Stores) : Type 0 where
  pub components : IsLru s.components
  pub scans : IsLru s.scans
  pub series : IsLru s.series

-- entries may vanish: a page expires, or another one takes its place
abbrev Shrinks : {E : Type 0} (l : Lru E) → l.Cache → l.Cache → Type 0
Shrinks {E = E} l c c' = (k : Bytes) (v : E) → l.find c' k ≡ some v → l.find c k ≡ some v

module _ (s : Stores) (codec : Codec) where
  -- The clients that requests lead to, each against a registry that may answer anything.
  pub data Reached : Client s → Type 0 where
    fresh : Reached (new_client s)
    after_sbom :
        {c : Client s} (place : Place) (reg : Registry) (family ref : Bytes)
        → Reached c
        → Reached (sbom s codec place reg c family ref).1
    after_scan :
        {c : Client s} (place : Place) (reg : Registry) (family ref : Bytes)
        → Reached c
        → Reached (scan s codec place reg c family ref).1
    after_scans :
        {c : Client s} (place : Place) (reg : Registry) (family ref : Bytes)
        → Reached c
        → Reached (scans s codec place reg c family ref).1
    after_moves :
        {c : Client s} (place : Place) (reg : Registry) (family : Bytes)
        → Reached c
        → Reached (moves s codec place reg c family).1
    expired :
        {c : Client s} (c' : Client s)
        → Shrinks s.components c.cache c'.cache
        → Shrinks s.scans c.scans c'.scans
        → Shrinks s.series c.series c'.series
        → Reached c
        → Reached c'

  module _ (are_lru : AreLru s) where
    -- each cache entry comes from verified statements about its digest
    abbrev IsGenuine : Client s → Type 0
    IsGenuine c =
        Holds s.components are_lru.components (GenuineComponents codec) c.cache
        × Holds s.scans are_lru.scans (GenuineScan codec) c.scans
        × Holds s.series are_lru.series (GenuineSeries codec) c.series

    module _ (place : Place) (reg : Registry) where
      -- an answer and the caches behind it are genuine
      abbrev AnswersWith :
          {A : Type 0} → (Bytes → A → Type 0) → Result MirrorError (Bytes × A) × Client s → Type 0
      AnswersWith {A} P out =
          ((digest : Bytes) (a : A) → out.0 ≡ ok (digest, a) → P digest a) × IsGenuine out.1

      keep_components-Genuine :
          (c : Client s) (digest : Bytes) (r : Result MirrorError (List Component))
          → IsGenuine c
          → ((a : List Component) → r ≡ ok a → GenuineComponents codec digest a)
          → AnswersWith (GenuineComponents codec) (keep_components s codec place reg c digest r)
      unfolding keep_components
      keep_components-Genuine c digest (err e) g h = (λ d a k. absurd (err_ok k), g)
      keep_components-Genuine c digest (ok a) g h = (
        λ d b k. answer_keeps (GenuineComponents codec) (h a refl) k,
        (
          Holds-add s.components are_lru.components (GenuineComponents codec) c.cache digest a
              (h a refl) g.0,
          g.1,
          g.2,
        ),
      )

      components_or_read-Genuine :
          (c : Client s) (repo : Repository) (digest : Bytes) (o : Option (List Component))
          → IsGenuine c
          → ((a : List Component) → o ≡ some a → GenuineComponents codec digest a)
          → AnswersWith
              (GenuineComponents codec)
              (components_or_read s codec place reg c repo digest o)
      unfolding components_or_read
      components_or_read-Genuine c repo digest (some a) g h =
          (λ d b k. answer_keeps (GenuineComponents codec) (h a refl) k, g)
      components_or_read-Genuine c repo digest none g h =
          keep_components-Genuine c digest (read_components codec place reg repo digest) g
            (read_components-Genuine codec digest place reg repo)

      sbom-AnswersWith :
          (c : Client s) (family ref : Bytes)
          → IsGenuine c
          → AnswersWith (GenuineComponents codec) (sbom s codec place reg c family ref)
      unfolding sbom sbom_at
      sbom-AnswersWith c family ref g = by_digest (resolve codec place reg family ref)
        where
          by_digest :
              (r : Result MirrorError (Repository × Bytes))
              → AnswersWith (GenuineComponents codec) (sbom_at s codec place reg c r)
          by_digest (err e) = (λ d a k. absurd (err_ok k), g)
          by_digest (ok (repo, digest)) =
              components_or_read-Genuine (record c { cache = s.components.touch c.cache digest })
                repo digest (s.components.find c.cache digest)
                (
                  Holds-touch s.components are_lru.components (GenuineComponents codec) c.cache
                      digest g.0,
                  g.1,
                  g.2,
                )
                (λ a e. g.0 digest a e)

      keep_scan-Genuine :
          (c : Client s) (digest : Bytes) (r : Result MirrorError (Scan))
          → IsGenuine c
          → ((a : Scan) → r ≡ ok a → GenuineScan codec digest a)
          → AnswersWith (GenuineScan codec) (keep_scan s codec place reg c digest r)
      unfolding keep_scan
      keep_scan-Genuine c digest (err e) g h = (λ d a k. absurd (err_ok k), g)
      keep_scan-Genuine c digest (ok a) g h = (
        λ d b k. answer_keeps (GenuineScan codec) (h a refl) k,
        (
          g.0,
          Holds-add s.scans are_lru.scans (GenuineScan codec) c.scans digest a (h a refl) g.1,
          g.2,
        ),
      )

      scan_or_read-Genuine :
          (c : Client s) (repo : Repository) (digest : Bytes) (o : Option (Scan))
          → IsGenuine c
          → ((a : Scan) → o ≡ some a → GenuineScan codec digest a)
          → AnswersWith (GenuineScan codec) (scan_or_read s codec place reg c repo digest o)
      unfolding scan_or_read
      scan_or_read-Genuine c repo digest (some a) g h =
          (λ d b k. answer_keeps (GenuineScan codec) (h a refl) k, g)
      scan_or_read-Genuine c repo digest none g h =
          keep_scan-Genuine c digest (read_scan codec place reg repo digest) g
            (read_scan-Genuine codec digest place reg repo)

      scan-AnswersWith :
          (c : Client s) (family ref : Bytes)
          → IsGenuine c
          → AnswersWith (GenuineScan codec) (scan s codec place reg c family ref)
      unfolding scan scan_at
      scan-AnswersWith c family ref g = by_digest (resolve codec place reg family ref)
        where
          by_digest :
              (r : Result MirrorError (Repository × Bytes))
              → AnswersWith (GenuineScan codec) (scan_at s codec place reg c r)
          by_digest (err e) = (λ d a k. absurd (err_ok k), g)
          by_digest (ok (repo, digest)) =
              scan_or_read-Genuine (record c { scans = s.scans.touch c.scans digest }) repo digest
                (s.scans.find c.scans digest)
                (g.0, Holds-touch s.scans are_lru.scans (GenuineScan codec) c.scans digest g.1, g.2)
                (λ a e. g.1 digest a e)

      keep_series-Genuine :
          (c : Client s) (digest : Bytes) (r : Result MirrorError (List Scan))
          → IsGenuine c
          → ((a : List Scan) → r ≡ ok a → GenuineSeries codec digest a)
          → AnswersWith (GenuineSeries codec) (keep_series s codec place reg c digest r)
      unfolding keep_series
      keep_series-Genuine c digest (err e) g h = (λ d a k. absurd (err_ok k), g)
      keep_series-Genuine c digest (ok a) g h = (
        λ d b k. answer_keeps (GenuineSeries codec) (h a refl) k,
        (
          g.0,
          g.1,
          Holds-add s.series are_lru.series (GenuineSeries codec) c.series digest a (h a refl) g.2,
        ),
      )

      series_or_read-Genuine :
          (c : Client s) (repo : Repository) (digest : Bytes) (o : Option (List Scan))
          → IsGenuine c
          → ((a : List Scan) → o ≡ some a → GenuineSeries codec digest a)
          → AnswersWith (GenuineSeries codec) (series_or_read s codec place reg c repo digest o)
      unfolding series_or_read
      series_or_read-Genuine c repo digest (some a) g h =
          (λ d b k. answer_keeps (GenuineSeries codec) (h a refl) k, g)
      series_or_read-Genuine c repo digest none g h =
          keep_series-Genuine c digest (read_series codec place reg repo digest) g
            (read_series-Genuine codec digest place reg repo)

      scans-AnswersWith :
          (c : Client s) (family ref : Bytes)
          → IsGenuine c
          → AnswersWith (GenuineSeries codec) (scans s codec place reg c family ref)
      unfolding scans scans_at
      scans-AnswersWith c family ref g = by_digest (resolve codec place reg family ref)
        where
          by_digest :
              (r : Result MirrorError (Repository × Bytes))
              → AnswersWith (GenuineSeries codec) (scans_at s codec place reg c r)
          by_digest (err e) = (λ d a k. absurd (err_ok k), g)
          by_digest (ok (repo, digest)) =
              series_or_read-Genuine (record c { series = s.series.touch c.series digest }) repo
                digest (s.series.find c.series digest)
                (
                  g.0,
                  g.1,
                  Holds-touch s.series are_lru.series (GenuineSeries codec) c.series digest g.2,
                )
                (λ a e. g.2 digest a e)

      ledger_or_read-IsGenuine :
          (c : Client s) (repo : Repository) (digest : Bytes) (o : Option (List Move))
          → IsGenuine c
          → IsGenuine (ledger_or_read s codec place reg c repo digest o).1
      unfolding ledger_or_read keep_ledger
      ledger_or_read-IsGenuine c repo digest (some found) g = g
      ledger_or_read-IsGenuine c repo digest none g = kept (read_ledger codec place reg repo digest)
        where
          kept :
              (r : Result MirrorError (List Move))
              → IsGenuine (keep_ledger s codec place reg c digest r).1
          kept (err e) = g
          kept (ok found) = g

      moves-IsGenuine :
          (c : Client s) (family : Bytes)
          → IsGenuine c
          → IsGenuine (moves s codec place reg c family).1
      unfolding moves moves_at moves_of
      moves-IsGenuine c family g = by_repository (repository codec place reg ledger_repository)
        where
          by_head :
              (repo : Repository) (r : Result HeadError Bytes)
              → IsGenuine (moves_of s codec place reg c repo r).1
          by_head repo (err no_answer) = g
          by_head repo (err (status code)) = g
          by_head repo (ok digest) =
              ledger_or_read-IsGenuine (record c { ledgers = s.ledgers.touch c.ledgers digest })
                repo digest (s.ledgers.find c.ledgers digest) g

          by_repository :
              (r : Result MirrorError Repository)
              → IsGenuine (moves_at s codec place reg c family r).1
          by_repository (err e) = g
          by_repository (ok repo) = by_head repo (reg.head repo family)

    Reached-IsGenuine : (c : Client s) → Reached c → IsGenuine c
    unfolding new_client
    Reached-IsGenuine _ fresh = (
      Holds-empty s.components are_lru.components (GenuineComponents codec),
      Holds-empty s.scans are_lru.scans (GenuineScan codec),
      Holds-empty s.series are_lru.series (GenuineSeries codec),
    )
    Reached-IsGenuine _ (after_sbom {c} place reg family ref r) =
        (sbom-AnswersWith place reg c family ref (Reached-IsGenuine c r)).1
    Reached-IsGenuine _ (after_scan {c} place reg family ref r) =
        (scan-AnswersWith place reg c family ref (Reached-IsGenuine c r)).1
    Reached-IsGenuine _ (after_scans {c} place reg family ref r) =
        (scans-AnswersWith place reg c family ref (Reached-IsGenuine c r)).1
    Reached-IsGenuine _ (after_moves {c} place reg family r) =
        moves-IsGenuine place reg c family (Reached-IsGenuine c r)
    Reached-IsGenuine _ (expired {c} c' a b d r) =
        let g = Reached-IsGenuine c r in
        (λ k v e. g.0 k v (a k v e), λ k v e. g.1 k v (b k v e), λ k v e. g.2 k v (d k v e))

    -- Whatever requests a client has answered and whatever its caches have dropped, and whatever a
    -- registry holds, the components that SBOM returns are those of a CycloneDX document that a
    -- statement carries which the verifier accepted for the digest that is returned with them.
    pub sbom-GenuineComponents :
        (c : Client s) (place : Place) (reg : Registry) (family ref digest : Bytes)
        (cs : List Component)
        → Reached c
        → (sbom s codec place reg c family ref).0 ≡ ok (digest, cs)
        → GenuineComponents codec digest cs
    sbom-GenuineComponents c place reg family ref digest cs r h =
        (sbom-AnswersWith place reg c family ref (Reached-IsGenuine c r)).0 digest cs h

    -- The scan that Scan returns is a record that a statement carries which the verifier accepted
    -- for the digest returned with it, and what is suppressed in it is by a VEX document of a
    -- statement that was accepted for that digest too; for any history of the client's requests,
    -- any registry and any eviction.
    pub scan-GenuineScan :
        (c : Client s) (place : Place) (reg : Registry) (family ref digest : Bytes) (found : Scan)
        → Reached c
        → (scan s codec place reg c family ref).0 ≡ ok (digest, found)
        → GenuineScan codec digest found
    scan-GenuineScan c place reg family ref digest found r h =
        (scan-AnswersWith place reg c family ref (Reached-IsGenuine c r)).0 digest found h

    -- Each scan that Scans returns is genuine in this sense, for any history, registry and eviction.
    pub scans-GenuineSeries :
        (c : Client s) (place : Place) (reg : Registry) (family ref digest : Bytes)
        (found : List Scan)
        → Reached c
        → (scans s codec place reg c family ref).0 ≡ ok (digest, found)
        → GenuineSeries codec digest found
    scans-GenuineSeries c place reg family ref digest found r h =
        (scans-AnswersWith place reg c family ref (Reached-IsGenuine c r)).0 digest found h
