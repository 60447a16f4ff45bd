-- ===== src/Scans/Report/Arches.antt =====
-- Whatever architecture is asked for, a report shows something of a scan that found something.
use distroless.Prelude.{
  Bool, true, false, ◌||◌, List, [], ◌∷◌, ◌≡◌, ◌≢◌, refl, sym, ◌∙◌, arith, any, any-sort_slice,
  sort_slice, Bool-cases, inl, inr,
}
use distroless.Prelude.Dict.{contains}
use distroless.Strings.{Bytes, str_eq}
use distroless.Strings.Laws.{str_eq_refl}
use distroless.Strings.Order.{bytes_eq, text_lt}
use distroless.Tags.Grouping.{compact, compact_after}
use distroless.Scans.Arch.{
  is_everywhere, belongs_to, found_architectures, architectures, resolve_arch,
}
use distroless.Scans.Report.{Finding, FindingRow, Scan, row_key, row_of, new_report, shown_arch}
use distroless.Scans.Report.Rows.Listed.{is_finding}
use distroless.Scans.Report.Rows.{stands_for, new_report-stands_for}

module _ (a : Bytes) where
  contains-any : (xs : List Bytes) → contains xs a ≡ any (λ (x : Bytes). str_eq x a) xs
  unfolding contains
  contains-any [] = refl
  contains-any (x ∷ xs) = rw (contains-any xs) refl

  any-compact_after :
      (last : Bytes) (xs : List Bytes)
      → (str_eq last a || any (λ (x : Bytes). str_eq x a) (compact_after last xs))
        ≡ (str_eq last a || any (λ (x : Bytes). str_eq x a) xs)
  unfolding compact_after
  any-compact_after last [] = refl
  any-compact_after last (x ∷ xs) = ground (arith, any-compact_after x xs, bytes_eq.beq_iff last x)

  contains-compact : (xs : List Bytes) → contains (compact xs) a ≡ contains xs a
  unfolding compact
  contains-compact [] = refl
  contains-compact (x ∷ xs) =
      contains-any (x ∷ compact_after x xs) ∙ any-compact_after x xs ∙ sym (contains-any (x ∷ xs))

  contains-sort_slice : (xs : List Bytes) → contains (sort_slice text_lt xs) a ≡ contains xs a
  contains-sort_slice xs =
      contains-any (sort_slice text_lt xs)
      ∙ any-sort_slice (λ (x : Bytes). str_eq x a) text_lt xs
      ∙ sym (contains-any xs)

contains-resolve_arch :
    (requested a : Bytes) (available : List Bytes)
    → contains available a ≡ true
    → contains available (resolve_arch requested available) ≡ true
unfolding resolve_arch contains
contains-resolve_arch requested a [] h = cc
contains-resolve_arch requested a (x ∷ available) h = ground (arith, str_eq_refl x)

true_false : ◌≢◌ {A = Bool} true false
true_false h = cc

module _ {A : Type 0} (arch_of : A → Bytes) where
  any-found_architectures :
      (a : Bytes) (items : List A)
      → contains (found_architectures arch_of items) a ≡ true
      → any (λ (x : A). belongs_to (arch_of x) a) items ≡ true
  unfolding found_architectures contains belongs_to
  any-found_architectures a [] h = cc
  any-found_architectures a (x ∷ items) h = ground (arith, any-found_architectures a items)

  any-architectures :
      (a : Bytes) (items : List A)
      → contains (architectures arch_of items) a ≡ true
      → any (λ (x : A). belongs_to (arch_of x) a) items ≡ true
  unfolding architectures
  any-architectures a items h = any-found_architectures a items (
      sym (contains-sort_slice a (found_architectures arch_of items))
      ∙ sym (contains-compact a (sort_slice text_lt (found_architectures arch_of items)))
      ∙ h)

  architectures-some :
      (a : Bytes) (items : List A)
      → contains (found_architectures arch_of items) a ≡ true
      → contains (architectures arch_of items) a ≡ true
  unfolding architectures
  architectures-some a items h =
      contains-compact a (sort_slice text_lt (found_architectures arch_of items))
      ∙ contains-sort_slice a (found_architectures arch_of items)
      ∙ h

  found_own :
      (x : A) (items : List A)
      → is_everywhere (arch_of x) ≡ false
      → contains (found_architectures arch_of (x ∷ items)) (arch_of x) ≡ true
  unfolding found_architectures contains
  found_own x items own = ground (arith, str_eq_refl (arch_of x))

  -- there is an item for the architecture that is chosen
  any-resolve_arch :
      (requested : Bytes) (x : A) (items : List A)
      → any
          (λ (y : A).
            belongs_to (arch_of y) (resolve_arch requested (architectures arch_of (x ∷ items))))
          (x ∷ items)
        ≡ true
  unfolding belongs_to
  any-resolve_arch requested x items = elim (Bool-cases (is_everywhere (arch_of x))) [
    | inl everywhere ↦ ground (arith, everywhere)
    | inr own ↦
        any-architectures (resolve_arch requested (architectures arch_of (x ∷ items))) (x ∷ items) (
          contains-resolve_arch requested (arch_of x) (architectures arch_of (x ∷ items))
            (architectures-some (arch_of x) (x ∷ items) (found_own x items own)))
  ]

any-is_finding :
    (arch : Bytes) (fs : List Finding)
    → any (λ (f : Finding). belongs_to f.arch arch) fs ≡ true
    → (k : Bytes) × (p : Bytes) × (any (is_finding arch k p) fs ≡ true)
any-is_finding arch [] h = cc
any-is_finding arch (f ∷ fs) h = elim (Bool-cases (belongs_to f.arch arch)) [
  | inl mine ↦ (
    row_key (row_of f),
    f.package_name,
    ground (arith, str_eq_refl (row_key (row_of f)), str_eq_refl f.package_name),
  )
  | inr other ↦ let (k, p, found) = any-is_finding arch fs (rw other at h) in (k, p, ground arith)
]

nothing_stands :
    (k p : Bytes) (rows : List FindingRow) → rows ≡ [] → any (stands_for k p) rows ≡ false
nothing_stands k p [] h = refl
nothing_stands k p (r ∷ rows) h = cc

-- Whatever architecture is asked for, also one that the scan has not, the report of a scan with a
-- finding has a row.
pub new_report-some :
    (image digest arch : Bytes) (scan : Scan)
    → scan.findings ≢ []
    → (new_report image digest arch scan).rows ≢ []
new_report-some image digest arch scan some_found h = some_found (by_findings scan.findings refl)
  where
    by_findings : (fs : List Finding) → scan.findings ≡ fs → fs ≡ []
    by_findings [] e = refl
    by_findings (f ∷ fs) e =
        let shown : any (λ (g : Finding). belongs_to g.arch (shown_arch arch scan)) scan.findings
            ≡ true =
          rw e (any-resolve_arch (λ (g : Finding). g.arch) arch f fs) in
        let (k, p, found) = any-is_finding (shown_arch arch scan) scan.findings shown in
        absurd (
          true_false (
            sym found
            ∙ sym (new_report-stands_for image digest arch scan k p)
            ∙ nothing_stands k p (new_report image digest arch scan).rows h))
