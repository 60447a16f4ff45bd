-- ===== src/Pin/Resolve/Indexed.antt =====
-- Which packages `resolve` indexes: for each name and architecture the one that is kept of
-- those that the architectures' directories list.
use distroless.Prelude.{
  ℕ, suc, Bool, true, false, ◌&&◌, ◌||◌, not, Option, none, some, List, [], ◌∷◌, ◌++◌, ◌≡◌, refl,
  ◌∙◌, arith, if◌then◌else◌, ltb, ◌==◌, ℤ, pos, negsuc, is_neg, is_zero, Bool-cases, inl, inr,
}
use distroless.Prelude.Dict.{lookup, insert, lookup-insert}
use distroless.Strings.{Bytes, str_eq}
use distroless.Strings.Order.{bytes_eq}
use distroless.Pin.Evr.{format_evr, compare_evr}
use distroless.Pin.Provider.{PkgKey, PkgKey_eq, key_eq, key_eq_iff, noarch}
use distroless.Pin.Closure.{Candidate}
use distroless.Pin.Resolve.{
  PrimaryPackage, Metadata, Index, key_of, eligible, candidate_of, superseded, index_package,
  index_packages,
}

-- a package with the directory that lists it
abbrev pub Listed : Type 0
Listed = Bytes × PrimaryPackage

-- a noarch package counts in the first directory only, any other one in that of its architecture
abbrev pub is_offered : ℕ → Bytes → PrimaryPackage → Bool
is_offered i arch p = if str_eq p.arch noarch then i == 0 else str_eq p.arch arch

abbrev pub offered_by : ℕ → Bytes → List PrimaryPackage → List Listed
offered_by i arch [] = []
offered_by i arch (p ∷ ps) =
    if is_offered i arch p then (arch, p) ∷ offered_by i arch ps else offered_by i arch ps

abbrev pub offered : ℕ → List (Bytes × Metadata) → List Listed
offered i [] = []
offered i ((arch, m) ∷ metas) = offered_by i arch m.packages ++ offered (suc i) metas

abbrev pub is_positive : ℤ → Bool
is_positive (pos n) = ltb 0 n
is_positive (negsuc n) = false

abbrev pub is_named : PkgKey → PrimaryPackage → Bool
is_named k p = str_eq p.name k.name && str_eq p.arch k.arch

-- what is kept of a package
abbrev pub as_candidate : Option Listed → Option Candidate
as_candidate none = none
as_candidate (some (arch, p)) = some (record {
  evr = format_evr p.version;
  sha256 = p.checksum;
  path = arch ++ b'/' ∷ p.href;
  size = p.size;
  upstream = p.source_rpm;
  license = p.license;
  requires = p.requires;
  provides = p.provides;
})

abbrev pub evr_of : Option Listed → Option Bytes
evr_of none = none
evr_of (some (arch, p)) = some (format_evr p.version)

is_offered-eligible :
    (i : ℕ) (arch : Bytes) (p : PrimaryPackage) → eligible i arch p ≡ is_offered i arch p
unfolding eligible
is_offered-eligible i arch p = ground arith

and_false : (a : Bool) → (a && false) ≡ false
and_false a = ground arith

module _ (vercmp : Bytes → Bytes → ℤ) where
  abbrev pub is_newer : PrimaryPackage → Option Listed → Bool
  is_newer p none = true
  is_newer p (some (arch, q)) =
      is_positive (compare_evr vercmp (format_evr p.version) (format_evr q.version))

  -- the package that is kept for a key: each one that is newer replaces the one so far, `best`
  abbrev pub newest : PkgKey → Option Listed → List Listed → Option Listed
  newest k best [] = best
  newest k best ((arch, p) ∷ listed) =
      newest k (if is_named k p && is_newer p best then some (arch, p) else best) listed

  positive_order : (z : ℤ) → not (is_neg z || is_zero z) ≡ is_positive z
  positive_order (pos n) = ground arith
  positive_order (negsuc n) = refl

  is_newer-superseded :
      (p : PrimaryPackage) (best : Option Listed)
      → not (superseded vercmp (format_evr p.version) (evr_of best)) ≡ is_newer p best
  unfolding superseded
  is_newer-superseded p none = refl
  is_newer-superseded p (some (arch, q)) =
      positive_order (compare_evr vercmp (format_evr p.version) (format_evr q.version))

  -- the two maps hold the package at the key
  abbrev pub Holds : PkgKey → Option Listed → Index → Type 0
  Holds k best index =
      (lookup k index.candidates ≡ as_candidate best) × (lookup k index.best_evr ≡ evr_of best)

  key_eq-is_named : (k : PkgKey) (p : PrimaryPackage) → key_eq (key_of p) k ≡ is_named k p
  unfolding key_eq
  key_eq-is_named k p = refl

  -- the guard of a package whose key has the best one so far
  guard-is_newer :
      (k : PkgKey) (best : Option Listed) (i : ℕ) (arch : Bytes) (p : PrimaryPackage)
      (index : Index)
      → lookup k index.best_evr ≡ evr_of best
      → key_of p ≡ k
      → (eligible i arch p
          && not (superseded vercmp (format_evr p.version) (lookup (key_of p) index.best_evr)))
        ≡ (is_offered i arch p && is_newer p best)
  guard-is_newer k best i arch p index h e =
      rw (e, h, is_offered-eligible i arch p, is_newer-superseded p best) refl

  index_insert : Bytes → PrimaryPackage → Index → Index
  index_insert arch p index = record {
    candidates = insert (key_of p) (candidate_of arch p) index.candidates;
    best_evr = insert (key_of p) (format_evr p.version) index.best_evr;
  }

  Holds-insert_named :
      (k : PkgKey) (arch : Bytes) (p : PrimaryPackage) (index : Index)
      → is_named k p ≡ true
      → Holds k (some (arch, p)) (index_insert arch p index)
  unfolding index_insert candidate_of
  Holds-insert_named k arch p index named = (
    lookup-insert (key_of p) k (candidate_of arch p) index.candidates
        ∙ rw (key_eq-is_named k p, named) refl,
    lookup-insert (key_of p) k (format_evr p.version) index.best_evr
        ∙ rw (key_eq-is_named k p, named) refl,
  )

  Holds-insert_other :
      (k : PkgKey) (best : Option Listed) (arch : Bytes) (p : PrimaryPackage) (index : Index)
      → is_named k p ≡ false
      → Holds k best index
      → Holds k best (index_insert arch p index)
  unfolding index_insert
  Holds-insert_other k best arch p index other h = (
    lookup-insert (key_of p) k (candidate_of arch p) index.candidates
        ∙ rw (key_eq-is_named k p, other) h.0,
    lookup-insert (key_of p) k (format_evr p.version) index.best_evr
        ∙ rw (key_eq-is_named k p, other) h.1,
  )

  Holds-index_package :
      (k : PkgKey) (best : Option Listed) (i : ℕ) (arch : Bytes) (p : PrimaryPackage)
      (index : Index)
      → Holds k best index
      → Holds k
          (if is_offered i arch p && (is_named k p && is_newer p best)
            then some (arch, p)
            else best)
          (index_package vercmp i arch p index)
  unfolding index_package index_insert
  Holds-index_package k best i arch p index h = elim (Bool-cases (is_named k p)) [
    | inl named ↦
        let e : key_of p ≡ k = (key_eq_iff (key_of p) k).0 (key_eq-is_named k p ∙ named) in
        rw (named, guard-is_newer k best i arch p index h.1 e)
          (elim (Bool-cases (is_offered i arch p && is_newer p best)) [
            | inl taken ↦ rw taken (Holds-insert_named k arch p index named)
            | inr passed ↦ rw passed h
          ])
    | inr other ↦
        elim (Bool-cases (
          eligible i arch p
          && not (superseded vercmp (format_evr p.version) (lookup (key_of p) index.best_evr)))) [
            | inl taken ↦
                rw (other, taken, and_false (is_offered i arch p))
                  (Holds-insert_other k best arch p index other h)
            | inr passed ↦ rw (other, passed, and_false (is_offered i arch p)) h
          ]
  ]

  pub Holds-index_packages :
      (k : PkgKey) (i : ℕ) (arch : Bytes) (ps : List PrimaryPackage) (best : Option Listed)
      (index : Index)
      → Holds k best index
      → Holds k (newest k best (offered_by i arch ps)) (index_packages vercmp i arch ps index)
  unfolding index_packages
  Holds-index_packages k i arch [] best index h = h
  Holds-index_packages k i arch (p ∷ ps) best index h =
      let next = Holds-index_package k best i arch p index h in
      elim (Bool-cases (is_offered i arch p)) [
        | inl there ↦ rw there (
            Holds-index_packages k i arch ps
              (if is_named k p && is_newer p best then some (arch, p) else best)
              (index_package vercmp i arch p index) (rw there at next))
        | inr absent ↦ rw absent (
            Holds-index_packages k i arch ps best (index_package vercmp i arch p index)
              (rw absent at next))
      ]

  pub newest-append :
      (k : PkgKey) (best : Option Listed) (xs ys : List Listed)
      → newest k best (xs ++ ys) ≡ newest k (newest k best xs) ys
  newest-append k best [] ys = refl
  newest-append k best ((arch, p) ∷ xs) ys =
      newest-append k (if is_named k p && is_newer p best then some (arch, p) else best) xs ys
