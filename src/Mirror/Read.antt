-- ===== src/Mirror/Read.antt =====
-- What the methods of `Client` in web/internal/mirror/mirror.go and history.go read of a digest where
-- the caches have nothing: the components, the newest scan or all of them, and the ledger.
use distroless.Prelude.{
  Bool, Option, none, some, List, [], ◌∷◌, if◌then◌else◌, map, take, sort_by, Result, ok, err,
  ◌>>=◌, ℤ,
}
use distroless.Strings.{Bytes, codes, str_eq, compare_nat}
use distroless.Scans.Report.{Scan}
use distroless.Scans.Table.{Component}
use distroless.Mirror.Sbom.{components}
use distroless.Mirror.Vex.{OpenVex, suppress}
use distroless.Mirror.Record.{Statement, Codec, ScanRecord, decode_scan, newest_scan}
use distroless.Mirror.Attached.{
  Repository, Layer, Registry, MirrorError, bad_document, no_scan, unreadable_ledger,
  no_ledger_layer, Place, or_fail, of_kind, newest_statement, max_attestation_bytes, resolve,
  predicate, predicates,
}
use distroless.Mirror.Ledger.{Move, decode_ledger}

abbrev pub cyclonedx : Bytes
cyclonedx = codes "https://cyclonedx.org/bom"

abbrev pub vuln : Bytes
vuln = codes "https://cosign.sigstore.dev/attestation/vuln/v1"

abbrev pub openvex : Bytes
openvex = codes "https://openvex.dev/ns"

abbrev pub ledger_media_type : Bytes
ledger_media_type = codes "application/vnd.distroless.tag-ledger.v1+jsonl"

abbrev pub is_ledger : Bytes → Bool
is_ledger media_type = str_eq media_type ledger_media_type

abbrev pub compare_finished : Scan → Scan → ℤ
compare_finished a b = compare_nat a.finished b.finished

-- a document that does not decode silences nothing
unfoldable pub apply_decoded : Option OpenVex → Scan → Scan
apply_decoded none scan = scan
apply_decoded (some vex) scan = suppress vex scan

-- the records that decode
unfoldable pub add_decoded : Option Scan → List Scan → List Scan
add_decoded none series = series
add_decoded (some found) series = found ∷ series

unfoldable pub some_scans : List Scan → Result MirrorError (List Scan)
some_scans [] = err no_scan
some_scans (x ∷ xs) = ok (x ∷ xs)

module _ (codec : Codec) where
  unfoldable pub apply_vex : Option Statement → Scan → Scan
  apply_vex none scan = scan
  apply_vex (some st) scan = apply_decoded (codec.decode_vex st.predicate) scan

  unfoldable pub newest_record : List Statement → Result MirrorError ScanRecord
  newest_record found = or_fail no_scan (newest_scan codec (of_kind vuln found))

  unfoldable pub all_scans : List Statement → List Scan
  all_scans [] = []
  all_scans (st ∷ sts) = add_decoded (decode_scan codec st.predicate) (all_scans sts)

  -- the first layer that is a ledger
  unfoldable pub ledger_in : List Layer → Result MirrorError (List Move)
  ledger_in [] = err no_ledger_layer
  ledger_in (l ∷ layers) = elim l.media_type [
    | none ↦ err unreadable_ledger
    | some media_type ↦
        let rest = ledger_in layers in
        let here = (do
          blob ← or_fail unreadable_ledger l.content
          decode_ledger codec (take max_attestation_bytes blob)) in
        if is_ledger media_type then here else rest
  ]

  module _ (place : Place) (reg : Registry) where
    -- what a resolved digest has, read from the registry
    unfoldable pub read_components : Repository → Bytes → Result MirrorError (List Component)
    read_components repo digest = do
      found ← predicate codec place reg repo digest cyclonedx
      bom ← or_fail bad_document (codec.decode_bom found)
      ok (components codec.parse_query bom)

    unfoldable pub document : Bytes → Bytes → Result MirrorError (Bytes × Bytes)
    document family ref = do
      (repo, digest) ← resolve codec place reg family ref
      found ← predicate codec place reg repo digest cyclonedx
      ok (digest, found)

    unfoldable pub read_scan : Repository → Bytes → Result MirrorError Scan
    read_scan repo digest = do
      found ← predicates codec place reg repo digest
      newest ← newest_record found
      ok (apply_vex (newest_statement (of_kind openvex found)) newest.0)

    unfoldable pub scan_document : Bytes → Bytes → Result MirrorError (Bytes × Bytes)
    scan_document family ref = do
      (repo, digest) ← resolve codec place reg family ref
      found ← predicates codec place reg repo digest
      newest ← newest_record found
      ok (digest, newest.1)

    unfoldable pub read_series : Repository → Bytes → Result MirrorError (List Scan)
    read_series repo digest = do
      found ← predicates codec place reg repo digest
      series ← some_scans (all_scans (of_kind vuln found))
      ok (
          sort_by compare_finished
            (map (apply_vex (newest_statement (of_kind openvex found))) series))

    unfoldable pub read_ledger : Repository → Bytes → Result MirrorError (List Move)
    read_ledger repo digest = do
      image ← or_fail unreadable_ledger (reg.image repo digest)
      layers ← or_fail unreadable_ledger image.layers
      ledger_in layers
