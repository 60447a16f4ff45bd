-- ===== src/Scans/Report/Rows/Listed.antt =====
-- The rows list the findings that have been folded into them.
use distroless.Prelude.{
  All, All-append, ℕ, zero, suc, Bool, true, false, ◌&&◌, ◌||◌, Option, none, some, List, [], ◌∷◌,
  ◌++◌, ◌≡◌, refl, sym, ap, ◌∙◌, arith, length, any, any-append, Bool-cases, inl, inr, some_eq,
}
use distroless.Prelude.Dict.{lookup, lookup-insert}
use distroless.Strings.{Bytes, str_eq}
use distroless.Strings.Laws.{str_eq_sound}
use distroless.Strings.Order.{bytes_eq}
use distroless.Scans.Arch.{belongs_to}
use distroless.Scans.Report.{
  Finding, FindingRow, Folding, row_key, row_of, with_package, add_package, fold_row, fold_finding,
  fold_findings,
}

abbrev pub has : Bytes → List Bytes → Bool
has p = any (λ (q : Bytes). str_eq q p)

-- a row of key `k` lists package `p`
abbrev pub lists : Bytes → Bytes → FindingRow → Bool
lists k p r = str_eq (row_key r) k && has p r.packages

abbrev pub is_nil : List Bytes → Bool
is_nil [] = true
is_nil (x ∷ xs) = false

-- a finding that is shown for `arch`, of key `k` and package `p`
abbrev pub is_finding : Bytes → Bytes → Bytes → Finding → Bool
is_finding arch k p f =
    belongs_to f.arch arch && (str_eq (row_key (row_of f)) k && str_eq f.package_name p)

abbrev key_at : List FindingRow → ℕ → Option Bytes
key_at [] i = none
key_at (r ∷ rows) zero = some (row_key r)
key_at (r ∷ rows) (suc i) = key_at rows i

row_key-with_package : (p : Bytes) (r : FindingRow) → row_key (with_package p r) ≡ row_key r
unfolding row_key with_package
row_key-with_package p r = refl

key_at-add_package :
    (p : Bytes) (i j : ℕ) (rows : List FindingRow) → key_at (add_package p i rows) j ≡ key_at rows j
unfolding add_package
key_at-add_package p i j [] = refl
key_at-add_package p zero zero (r ∷ rows) = rw row_key-with_package refl
key_at-add_package p zero (suc j) (r ∷ rows) = refl
key_at-add_package p (suc i) zero (r ∷ rows) = refl
key_at-add_package p (suc i) (suc j) (r ∷ rows) = key_at-add_package p i j rows

key_at-append :
    (rows : List FindingRow) (r : FindingRow) (i : ℕ) (k : Bytes)
    → key_at rows i ≡ some k
    → key_at (rows ++ r ∷ []) i ≡ some k
key_at-append [] r i k h = cc
key_at-append (x ∷ rows) r zero k h = h
key_at-append (x ∷ rows) r (suc i) k h = key_at-append rows r i k h

key_at-last :
    (rows : List FindingRow) (r : FindingRow)
    → key_at (rows ++ r ∷ []) (length rows) ≡ some (row_key r)
key_at-last [] r = refl
key_at-last (x ∷ rows) r = key_at-last rows r

-- where the index has a key, the row there is of the key
abbrev pub IsIndexed : Folding → Type 0
IsIndexed st = (k : Bytes) (i : ℕ) → lookup k st.index ≡ some i → key_at st.rows i ≡ some k

IsIndexed-fold_row :
    (f : Finding) (o : Option ℕ) (st : Folding) → IsIndexed st → IsIndexed (fold_row f o st)
unfolding fold_row
IsIndexed-fold_row f (some n) st h k i e = key_at-add_package f.package_name n i st.rows ∙ h k i e
IsIndexed-fold_row f none st h k i e = elim (Bool-cases (str_eq (row_key (row_of f)) k)) [
  | inl same ↦
      let now : length st.rows ≡ i =
        some_eq (rw (lookup-insert (row_key (row_of f)) k (length st.rows) st.index, same) at e) in
      rw (sym now, sym (str_eq_sound (row_key (row_of f)) k same)) (key_at-last st.rows (row_of f))
  | inr other ↦
      key_at-append st.rows (row_of f) i k
        (h k i (rw (lookup-insert (row_key (row_of f)) k (length st.rows) st.index, other) at e))
]

lists-with_package :
    (k p name : Bytes) (r : FindingRow)
    → lists k p (with_package name r) ≡ (lists k p r || str_eq (row_key r) k && str_eq name p)
unfolding with_package row_key
lists-with_package k p name r =
    ground (arith, any-append (λ (q : Bytes). str_eq q p) r.packages (name ∷ []))

any-lists-add_package :
    (k p name key : Bytes) (i : ℕ) (rows : List FindingRow)
    → key_at rows i ≡ some key
    → any (lists k p) (add_package name i rows)
      ≡ (any (lists k p) rows || str_eq key k && str_eq name p)
unfolding add_package
any-lists-add_package k p name key i [] h = cc
any-lists-add_package k p name key zero (r ∷ rows) h =
    rw (sym (some_eq h)) (ground (arith, lists-with_package k p name r))
any-lists-add_package k p name key (suc i) (r ∷ rows) h =
    ground (arith, any-lists-add_package k p name key i rows h)

lists-row_of :
    (k p : Bytes) (f : Finding)
    → any (lists k p) (row_of f ∷ []) ≡ (str_eq (row_key (row_of f)) k && str_eq f.package_name p)
unfolding row_of row_key
lists-row_of k p f = ground arith

any-lists-fold_row :
    (k p : Bytes) (f : Finding) (o : Option ℕ) (st : Folding)
    → IsIndexed st
    → lookup (row_key (row_of f)) st.index ≡ o
    → any (lists k p) (fold_row f o st).rows
      ≡ (any (lists k p) st.rows || str_eq (row_key (row_of f)) k && str_eq f.package_name p)
unfolding fold_row
any-lists-fold_row k p f (some i) st h e =
    any-lists-add_package k p f.package_name (row_key (row_of f)) i st.rows
      (h (row_key (row_of f)) i e)
any-lists-fold_row k p f none st h e =
    any-append (lists k p) st.rows (row_of f ∷ [])
    ∙ ap (λ (b : Bool). any (lists k p) st.rows || b) (lists-row_of k p f)

IsIndexed-fold_finding :
    (arch : Bytes) (f : Finding) (st : Folding) → IsIndexed st → IsIndexed (fold_finding arch f st)
unfolding fold_finding
IsIndexed-fold_finding arch f st h = elim (Bool-cases (belongs_to f.arch arch)) [
  | inl mine ↦ rw mine (IsIndexed-fold_row f (lookup (row_key (row_of f)) st.index) st h)
  | inr other ↦ rw other h
]

any-lists-fold_finding :
    (arch k p : Bytes) (f : Finding) (st : Folding)
    → IsIndexed st
    → any (lists k p) (fold_finding arch f st).rows
      ≡ (any (lists k p) st.rows || is_finding arch k p f)
unfolding fold_finding
any-lists-fold_finding arch k p f st h = elim (Bool-cases (belongs_to f.arch arch)) [
  | inl mine ↦ rw mine (any-lists-fold_row k p f (lookup (row_key (row_of f)) st.index) st h refl)
  | inr other ↦ rw other (ground arith)
]

pub any-lists-fold_findings :
    (arch k p : Bytes) (fs : List Finding) (st : Folding)
    → IsIndexed st
    → any (lists k p) (fold_findings arch fs st).rows
      ≡ (any (lists k p) st.rows || any (is_finding arch k p) fs)
unfolding fold_findings
any-lists-fold_findings arch k p [] st h = ground arith
any-lists-fold_findings arch k p (f ∷ fs) st h = ground (
  arith,
  any-lists-fold_findings arch k p fs (fold_finding arch f st) (IsIndexed-fold_finding arch f st h),
  any-lists-fold_finding arch k p f st h,
)

-- Each row has a package.
abbrev pub Packed : List FindingRow → Type 0
Packed = All (λ r. is_nil r.packages ≡ false)

append-some : (xs : List Bytes) (x : Bytes) → is_nil (xs ++ x ∷ []) ≡ false
append-some [] x = refl
append-some (y ∷ xs) x = refl

Packed-add_package :
    (p : Bytes) (i : ℕ) (rows : List FindingRow) → Packed rows → Packed (add_package p i rows)
unfolding add_package with_package
Packed-add_package p i [] h = h
Packed-add_package p zero (r ∷ rows) h = (append-some r.packages p, h.1)
Packed-add_package p (suc i) (r ∷ rows) h = (h.0, Packed-add_package p i rows h.1)

Packed-fold_finding :
    (arch : Bytes) (f : Finding) (st : Folding)
    → Packed st.rows
    → Packed (fold_finding arch f st).rows
unfolding fold_finding fold_row row_of
Packed-fold_finding arch f st h = elim (Bool-cases (belongs_to f.arch arch)) [
  | inl mine ↦ rw mine (by_index (lookup (row_key (row_of f)) st.index))
  | inr other ↦ rw other h
]
  where
    by_index : (o : Option ℕ) → Packed (fold_row f o st).rows
    by_index (some i) = Packed-add_package f.package_name i st.rows h
    by_index none =
        All-append (λ (r : FindingRow). is_nil r.packages ≡ false) st.rows (row_of f ∷ []) h
          (refl, tt)

pub Packed-fold_findings :
    (arch : Bytes) (fs : List Finding) (st : Folding)
    → Packed st.rows
    → Packed (fold_findings arch fs st).rows
unfolding fold_findings
Packed-fold_findings arch [] st h = h
Packed-fold_findings arch (f ∷ fs) st h =
    Packed-fold_findings arch fs (fold_finding arch f st) (Packed-fold_finding arch f st h)
