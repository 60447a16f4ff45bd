-- ===== src/Mirror/Client/Genuine/Reads.antt =====
-- What is read of a registry comes from verified statements.
use distroless.Prelude.{
  Option, none, some, List, [], ◌∷◌, All-sort_by, ◌≡◌, ◌≢◌, ltb, refl, sym, ap, ◌∙◌, ok,
  ok-injective, >>=-eq-ok, ◌>>=◌, All, map, sort_by, Bool-cases, inl, inr, some_eq,
}
use mathlib.Core.Path.{subst}
use distroless.Strings.{Bytes, str_eq}
use distroless.Strings.Laws.{str_eq_sound}
use distroless.Scans.Report.{Scan}
use distroless.Scans.Table.{Component}
use distroless.Mirror.Sbom.{Bom, components}
use distroless.Mirror.Record.{
  Statement, Codec, ScanRecord, decode_scan, newest_scan, newest_from, keep_decoded, keep_newer,
}
use distroless.Mirror.Attached.{
  Registry, MirrorError, Repository, Place, or_fail, of_kind, newest_statement, newest_signed,
  keep_signed, predicate, predicates, bad_document, no_scan,
}
use distroless.Mirror.Attached.Verified.{Attests, predicate-Attests, predicates-Attests}
use distroless.Mirror.Read.{
  cyclonedx, vuln, openvex, compare_finished, read_components, apply_vex, newest_record, read_scan,
  all_scans, add_decoded, some_scans, read_series,
}

none_record : {q : ScanRecord} → ◌≢◌ {A = Option ScanRecord} none (some q)
none_record h = cc

module _ (codec : Codec) where
  -- a verified statement of the kind about the digest
  abbrev pub AttestsKind : Bytes → Bytes → Statement → Type 0
  AttestsKind kind digest st = Attests codec digest st × (st.kind ≡ kind)

  -- the components of a verified CycloneDX document
  pub record GenuineComponents (digest : Bytes) (cs : List Component) : Type 0 where
    pub statement : Statement
    pub attested : AttestsKind cyclonedx digest statement
    pub bom : Bom
    pub decoded : codec.decode_bom statement.predicate ≡ some bom
    pub shown : cs ≡ components codec.parse_query bom

  abbrev pub GenuineVex : Bytes → Option Statement → Type 0
  GenuineVex digest none = Unit
  GenuineVex digest (some st) = AttestsKind openvex digest st

  -- the scan of a verified record, with what a verified VEX document silences
  pub record GenuineScan (digest : Bytes) (found : Scan) : Type 0 where
    pub statement : Statement
    pub attested : AttestsKind vuln digest statement
    pub recorded : Scan
    pub decoded : decode_scan codec statement.predicate ≡ some recorded
    pub vex : Option Statement
    pub vex_attested : GenuineVex digest vex
    pub shown : found ≡ apply_vex codec vex recorded

  abbrev pub GenuineSeries : Bytes → List Scan → Type 0
  GenuineSeries digest = All (GenuineScan digest)

or_fail-ok : {A : Type 0} (e : MirrorError) (o : Option A) (a : A) → or_fail e o ≡ ok a → o ≡ some a
unfolding or_fail
or_fail-ok e none a h = cc
or_fail-ok e (some b) a h = ap some (ok-injective h)

of_kind-All :
    (P : Statement → Type 0) (kind : Bytes) (sts : List Statement)
    → All P sts
    → All (λ (st : Statement). P st × (st.kind ≡ kind)) (of_kind kind sts)
unfolding of_kind
of_kind-All P kind [] all = tt
of_kind-All P kind (st ∷ sts) all = elim (Bool-cases (str_eq st.kind kind)) [
  | inl same ↦ rw same ((all.0, str_eq_sound st.kind kind same), of_kind-All P kind sts all.1)
  | inr other ↦ rw other (of_kind-All P kind sts all.1)
]

module _ (codec : Codec) (digest : Bytes) where
  -- a record that is kept is decoded from a statement with the property
  abbrev Recorded : (Statement → Type 0) → Option ScanRecord → Type 0
  Recorded P newest =
      (r : ScanRecord)
      → newest ≡ some r
      → (st : Statement) × P st × (decode_scan codec st.predicate ≡ some r.0)

  keep_decoded-Recorded :
      (P : Statement → Type 0) (st : Statement) (o : Option Scan) (newest : Option ScanRecord)
      → P st
      → decode_scan codec st.predicate ≡ o
      → Recorded P newest
      → Recorded P (keep_decoded o st.predicate newest)
  unfolding keep_decoded keep_newer
  keep_decoded-Recorded P st none newest p d h r e = h r e
  keep_decoded-Recorded P st (some x) none p d h r e =
      (st, p, d ∙ ap (λ (q : ScanRecord). some q.0) (some_eq e))
  keep_decoded-Recorded P st (some x) (some old) p d h r e =
      elim (Bool-cases (ltb old.0.finished x.finished)) [
        | inl newer ↦ (st, p, d ∙ ap (λ (q : ScanRecord). some q.0) (some_eq (rw newer at e)))
        | inr older ↦ h r (rw older at e)
      ]

  newest_from-Recorded :
      (P : Statement → Type 0) (sts : List Statement) (newest : Option ScanRecord)
      → All P sts
      → Recorded P newest
      → Recorded P (newest_from codec sts newest)
  unfolding newest_from
  newest_from-Recorded P [] newest all h = h
  newest_from-Recorded P (st ∷ sts) newest all h =
      newest_from-Recorded P sts (keep_decoded (decode_scan codec st.predicate) st.predicate newest)
        all.1 (keep_decoded-Recorded P st (decode_scan codec st.predicate) newest all.0 refl h)

  keep_signed-GenuineVex :
      (st : Statement) (o : Option Statement)
      → AttestsKind codec openvex digest st
      → GenuineVex codec digest o
      → GenuineVex codec digest (keep_signed st o)
  unfolding keep_signed
  keep_signed-GenuineVex st none a h = a
  keep_signed-GenuineVex st (some newest) a h =
      elim (Bool-cases (ltb st.signed_at newest.signed_at)) [
        | inl older ↦ rw older h
        | inr newer ↦ rw newer a
      ]

  newest_signed-GenuineVex :
      (sts : List Statement) (newest : Option Statement)
      → All (AttestsKind codec openvex digest) sts
      → GenuineVex codec digest newest
      → GenuineVex codec digest (newest_signed sts newest)
  unfolding newest_signed
  newest_signed-GenuineVex [] newest all h = h
  newest_signed-GenuineVex (st ∷ sts) newest all h =
      newest_signed-GenuineVex sts (keep_signed st newest) all.1
        (keep_signed-GenuineVex st newest all.0 h)

  newest_statement-GenuineVex :
      (found : List Statement)
      → All (Attests codec digest) found
      → GenuineVex codec digest (newest_statement (of_kind openvex found))
  unfolding newest_statement
  newest_statement-GenuineVex found all =
      newest_signed-GenuineVex (of_kind openvex found) none
        (of_kind-All (Attests codec digest) openvex found all) tt

  newest_record-Genuine :
      (found : List Statement) (r : ScanRecord)
      → All (Attests codec digest) found
      → newest_record codec found ≡ ok r
      → (st : Statement) × AttestsKind codec vuln digest st
        × (decode_scan codec st.predicate ≡ some r.0)
  unfolding newest_record newest_scan
  newest_record-Genuine found r all h =
      newest_from-Recorded (AttestsKind codec vuln digest) (of_kind vuln found) none
        (of_kind-All (Attests codec digest) vuln found all) (λ q e. absurd (none_record e)) r
        (or_fail-ok no_scan (newest_scan codec (of_kind vuln found)) r h)

  -- a scan as a verified record has it
  abbrev Decoded : Scan → Type 0
  Decoded x =
      (st : Statement) × AttestsKind codec vuln digest st
      × (decode_scan codec st.predicate ≡ some x)

  add_decoded-Decoded :
      (st : Statement) (o : Option Scan) (xs : List Scan)
      → AttestsKind codec vuln digest st
      → decode_scan codec st.predicate ≡ o
      → All Decoded xs
      → All Decoded (add_decoded o xs)
  unfolding add_decoded
  add_decoded-Decoded st none xs a d h = h
  add_decoded-Decoded st (some x) xs a d h = ((st, a, d), h)

  all_scans-Decoded :
      (sts : List Statement)
      → All (AttestsKind codec vuln digest) sts
      → All Decoded (all_scans codec sts)
  unfolding all_scans
  all_scans-Decoded [] all = tt
  all_scans-Decoded (st ∷ sts) all =
      add_decoded-Decoded st (decode_scan codec st.predicate) (all_scans codec sts) all.0 refl
        (all_scans-Decoded sts all.1)

  some_scans-eq : (xs ys : List Scan) → some_scans xs ≡ ok ys → xs ≡ ys
  unfolding some_scans
  some_scans-eq [] ys h = cc
  some_scans-eq (x ∷ xs) ys h = ok-injective h

  map-GenuineSeries :
      (v : Option Statement) (xs : List Scan)
      → GenuineVex codec digest v
      → All Decoded xs
      → GenuineSeries codec digest (map (apply_vex codec v) xs)
  map-GenuineSeries v [] g h = tt
  map-GenuineSeries v (x ∷ xs) g h = (
    record {
      statement = h.0.0;
      attested = h.0.1;
      recorded = x;
      decoded = h.0.2;
      vex = v;
      vex_attested = g;
      shown = refl;
    },
    map-GenuineSeries v xs g h.1,
  )

  module _ (place : Place) (reg : Registry) (repo : Repository) where
    pub read_components-Genuine :
        (cs : List Component)
        → read_components codec place reg repo digest ≡ ok cs
        → GenuineComponents codec digest cs
    unfolding read_components
    read_components-Genuine cs h =
        let (found, e, h') =
          >>=-eq-ok (predicate codec place reg repo digest cyclonedx)
            (λ found. or_fail bad_document (codec.decode_bom found) >>= λ bom.
              ok (components codec.parse_query bom))
            h in
        let (bom, e', h'') =
          >>=-eq-ok (or_fail bad_document (codec.decode_bom found))
            (λ bom. ok (components codec.parse_query bom)) h' in
        let (st, a, kind, same) = predicate-Attests codec place reg digest repo cyclonedx found e in
        record {
          statement = st;
          attested = (a, kind);
          bom = bom;
          decoded =
              ap codec.decode_bom same ∙ or_fail-ok bad_document (codec.decode_bom found) bom e';
          shown = sym (ok-injective h'');
        }

    pub read_scan-Genuine :
        (x : Scan) → read_scan codec place reg repo digest ≡ ok x → GenuineScan codec digest x
    unfolding read_scan
    read_scan-Genuine x h =
        let (found, e, h') =
          >>=-eq-ok (predicates codec place reg repo digest)
            (λ found. newest_record codec found >>= λ newest.
              ok (apply_vex codec (newest_statement (of_kind openvex found)) newest.0))
            h in
        let (r, e', h'') =
          >>=-eq-ok (newest_record codec found)
            (λ newest. ok (apply_vex codec (newest_statement (of_kind openvex found)) newest.0))
            h' in
        let all = predicates-Attests codec place reg digest repo found e in
        let (st, a, d) = newest_record-Genuine found r all e' in
        record {
          statement = st;
          attested = a;
          recorded = r.0;
          decoded = d;
          vex = newest_statement (of_kind openvex found);
          vex_attested = newest_statement-GenuineVex found all;
          shown = sym (ok-injective h'');
        }

    pub read_series-Genuine :
        (xs : List Scan)
        → read_series codec place reg repo digest ≡ ok xs
        → GenuineSeries codec digest xs
    unfolding read_series
    read_series-Genuine xs h =
        let (found, e, h') =
          >>=-eq-ok (predicates codec place reg repo digest)
            (λ found. some_scans (all_scans codec (of_kind vuln found)) >>= λ series. ok (
              sort_by compare_finished
                (map (apply_vex codec (newest_statement (of_kind openvex found))) series)))
            h in
        let (series, e', h'') =
          >>=-eq-ok (some_scans (all_scans codec (of_kind vuln found)))
            (λ series. ok (
              sort_by compare_finished
                (map (apply_vex codec (newest_statement (of_kind openvex found))) series)))
            h' in
        let all = predicates-Attests codec place reg digest repo found e in
        let decoded : All Decoded series =
          subst (All Decoded) (some_scans-eq (all_scans codec (of_kind vuln found)) series e') (
            all_scans-Decoded (of_kind vuln found)
              (of_kind-All (Attests codec digest) vuln found all)) in
        let vex = newest_statement (of_kind openvex found) in
        subst (GenuineSeries codec digest) (ok-injective h'') (
          All-sort_by (GenuineScan codec digest) compare_finished (map (apply_vex codec vex) series)
            (map-GenuineSeries vex series (newest_statement-GenuineVex found all) decoded))
