-- ===== src/Mirror/Record/Newest.antt =====
-- The scan record that is shown is the one that ran last.
use mathlib.Core.Logic.{⊎_elim}
use mathlib.Core.List.{Memᴰ}
use distroless.Prelude.{
  ℕ, ◌≤◌, Bool, ◌&&◌, true, false, Option, none, some, List, [], ◌∷◌, ◌≡◌, ◌≢◌, refl, sym, ap, ◌∙◌,
  arith, ltb, leb, all, any, ◌⊎◌, some_eq, Bool-cases, inl, inr,
}
use distroless.Scans.Report.{Scan}
use distroless.Mirror.Record.{
  Statement, Codec, ScanRecord, keep_newer, keep_decoded, decode_scan, newest_from, newest_scan,
}

-- a record that decodes finished by then
abbrev pub ends_by : ℕ → Option Scan → Bool
ends_by n none = true
ends_by n (some x) = leb x.finished n

abbrev pub decodes : Option Scan → Bool
decodes none = false
decodes (some x) = true

abbrev pub NotAfter : Option ScanRecord → ScanRecord → Type 0
NotAfter none r = Unit
NotAfter (some old) r = old.0.finished ≤ r.0.finished

some_none : {r : ScanRecord} → ◌≢◌ {A = Option ScanRecord} (some r) none
some_none h = cc

both : (a b : Bool) → a ≡ true → b ≡ true → a && b ≡ true
both a b h k = ground arith

module _ (codec : Codec) where
  -- the statement of a record
  abbrev pub IsOf : ScanRecord → List Statement → Type 0
  IsOf r sts =
      (st : Statement) × Memᴰ st sts
      × (st.predicate ≡ r.1)
      × (decode_scan codec st.predicate ≡ some r.0)

  abbrev pub all_end_by : ℕ → List Statement → Bool
  all_end_by n = all (λ (st : Statement). ends_by n (decode_scan codec st.predicate))

  abbrev pub any_decodes : List Statement → Bool
  any_decodes = any (λ (st : Statement). decodes (decode_scan codec st.predicate))

  -- what newest_from finds from a record on
  abbrev From : List Statement → Option ScanRecord → Option ScanRecord → Type 0
  From sts newest none = (newest ≡ none) × (any_decodes sts ≡ false)
  From sts newest (some r) =
      ((newest ≡ some r) ⊎ IsOf r sts) × (all_end_by r.0.finished sts ≡ true) × NotAfter newest r

  IsOf-tail :
      (st : Statement) (sts : List Statement) (r : ScanRecord) → IsOf r sts → IsOf r (st ∷ sts)
  IsOf-tail st sts r (x, m, e, d) = (x, Memᴰ.tail m, e, d)

  all_end_by-cons :
      (n : ℕ) (st : Statement) (sts : List Statement) (x : Scan)
      → decode_scan codec st.predicate ≡ some x
      → x.finished ≤ n
      → all_end_by n sts ≡ true
      → all_end_by n (st ∷ sts) ≡ true
  all_end_by-cons n st sts x d l b =
      rw d (both (leb x.finished n) (all_end_by n sts) (ground (arith, l)) b)

  IsOf-head :
      (st : Statement) (sts : List Statement) (x : Scan) (r : ScanRecord)
      → decode_scan codec st.predicate ≡ some x
      → ◌≡◌ {A = Option ScanRecord} (some (x, st.predicate)) (some r)
      → IsOf r (st ∷ sts)
  IsOf-head st sts x r d e = (
    st,
    Memᴰ.head refl,
    ap (λ (q : ScanRecord). q.1) (some_eq e),
    d ∙ ap (λ (q : ScanRecord). some q.0) (some_eq e),
  )

  From-newer :
      (old : ScanRecord) (st : Statement) (sts : List Statement) (x : Scan) (r : ScanRecord)
      → decode_scan codec st.predicate ≡ some x
      → ltb old.0.finished x.finished ≡ true
      → From sts (some (x, st.predicate)) (some r)
      → From (st ∷ sts) (some old) (some r)
  From-newer old st sts x r d newer (found, b, l) = (
    inr (⊎_elim (IsOf-head st sts x r d) (IsOf-tail st sts r) found),
    all_end_by-cons r.0.finished st sts x d l b,
    ground (arith, l, newer),
  )

  From-older :
      (old : ScanRecord) (st : Statement) (sts : List Statement) (x : Scan) (r : ScanRecord)
      → decode_scan codec st.predicate ≡ some x
      → ltb old.0.finished x.finished ≡ false
      → From sts (some old) (some r)
      → From (st ∷ sts) (some old) (some r)
  From-older old st sts x r d older (found, b, l) = (
    ⊎_elim inl (λ m. inr (IsOf-tail st sts r m)) found,
    all_end_by-cons r.0.finished st sts x d (ground (arith, l, older)) b,
    l,
  )

  From-cons :
      (st : Statement) (sts : List Statement) (newest : Option ScanRecord) (o : Option Scan)
      → decode_scan codec st.predicate ≡ o
      → (res : Option ScanRecord) → From sts (keep_decoded o st.predicate newest) res
      → From (st ∷ sts) newest res
  unfolding keep_decoded keep_newer
  From-cons st sts newest none d none h = (h.0, rw d h.1)
  From-cons st sts newest none d (some r) (inl e, b, l) = (inl e, rw d b, l)
  From-cons st sts newest none d (some r) (inr m, b, l) = (inr (IsOf-tail st sts r m), rw d b, l)
  From-cons st sts none (some x) d none h = absurd (some_none h.0)
  From-cons st sts none (some x) d (some r) (inl e, b, l) =
      (inr (IsOf-head st sts x r d e), all_end_by-cons r.0.finished st sts x d l b, tt)
  From-cons st sts none (some x) d (some r) (inr m, b, l) =
      (inr (IsOf-tail st sts r m), all_end_by-cons r.0.finished st sts x d l b, tt)
  From-cons st sts (some old) (some x) d none h =
      elim (Bool-cases (ltb old.0.finished x.finished)) [
        | inl newer ↦ absurd (some_none (rw newer at h.0))
        | inr older ↦ absurd (some_none (rw older at h.0))
      ]
  From-cons st sts (some old) (some x) d (some r) h =
      elim (Bool-cases (ltb old.0.finished x.finished)) [
        | inl newer ↦ From-newer old st sts x r d newer (rw newer at h)
        | inr older ↦ From-older old st sts x r d older (rw older at h)
      ]

  From-newest_from :
      (sts : List Statement) (newest : Option ScanRecord)
      → From sts newest (newest_from codec sts newest)
  unfolding newest_from
  From-newest_from [] none = (refl, refl)
  From-newest_from [] (some r) = (inl refl, refl, omega arith)
  From-newest_from (st ∷ sts) newest =
      From-cons st sts newest (decode_scan codec st.predicate) refl
        (newest_from codec sts (keep_decoded (decode_scan codec st.predicate) st.predicate newest))
        (From-newest_from sts (keep_decoded (decode_scan codec st.predicate) st.predicate newest))

  -- a record that ran last of those that decode, or none where none decodes
  abbrev pub IsNewest : List Statement → Option ScanRecord → Type 0
  IsNewest sts none = any_decodes sts ≡ false
  IsNewest sts (some r) = IsOf r sts × (all_end_by r.0.finished sts ≡ true)

  -- newestScan returns the scan of one of the statements, with its text, such that no statement that
  -- decodes finished later; it returns none exactly where no statement decodes.
  pub newest_scan-IsNewest : (sts : List Statement) → IsNewest sts (newest_scan codec sts)
  unfolding newest_scan
  newest_scan-IsNewest sts = by_result (newest_from codec sts none) (From-newest_from sts none)
    where
      by_result : (res : Option ScanRecord) → From sts none res → IsNewest sts res
      by_result none h = h.1
      by_result (some r) (inl e, b, l) = absurd (some_none (sym e))
      by_result (some r) (inr m, b, l) = (m, b)
