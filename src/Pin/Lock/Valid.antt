-- ===== src/Pin/Lock/Valid.antt =====
-- A lockfile made from a closure passes `validate`.
use mathlib.Core.Logic.{⊎_elim}
use mathlib.Core.Path.{subst}
use mathlib.Core.List.{Memᴰ}
use distroless.Prelude.{
  Bool, true, false, ◌||◌, Option, none, some, List, [], ◌∷◌, ◌≡◌, ◌≢◌, ◌⊎◌, inl, inr, refl, sym,
  ◌∙◌, arith, ok, Bool-cases,
}
use distroless.Prelude.Dict.{lookup, insert, lookup-insert, contains, contains-Mem}
use distroless.Strings.{Bytes}
use distroless.Strings.Order.{bytes_eq}
use distroless.Pin.Provider.{PkgKey, key_eq, PkgKey_eq, noarch}
use distroless.Pin.Closure.{Candidates, ProvidesIndex, root_of, close_deps}
use distroless.Pin.Closure.Whole.{Includes, close_deps-IsClosed}
use distroless.Pin.Lock.{
  LockEntry, ArchEntries, Packages, lock_entry, or_empty, entries_of, add_entry, packages, is_some,
  missing_arches, missing_of, missing, unresolved, validate,
}

-- `out[name][arch]` is there
has_entry : Packages → Bytes → Bytes → Bool
has_entry out name arch = is_some (lookup arch (entries_of (lookup name out)))

has_entry-add_entry :
    (key : PkgKey) (entry : LockEntry) (out : Packages) (name arch : Bytes)
    → has_entry (add_entry key entry out) name arch
      ≡ (key_eq key (record { name = name; arch = arch }) || has_entry out name arch)
unfolding has_entry add_entry entries_of key_eq
has_entry-add_entry key entry out name arch = ground (
  arith,
  bytes_eq.beq_iff key.name name,
  lookup-insert key.name name (insert key.arch entry (entries_of (lookup key.name out))) out,
  lookup-insert key.arch arch entry (entries_of (lookup key.name out)),
)

has_entry-packages :
    (candidates : Candidates) (keys : List PkgKey) (out : Packages) (name arch : Bytes)
    → has_entry (packages candidates keys out) name arch
      ≡ (contains keys (record { name = name; arch = arch }) || has_entry out name arch)
unfolding packages contains
has_entry-packages candidates [] out name arch = refl
has_entry-packages candidates (key ∷ keys) out name arch = ground (
  arith,
  has_entry-packages candidates keys
      (add_entry key (lock_entry (or_empty (lookup key candidates))) out) name arch,
  has_entry-add_entry key (lock_entry (or_empty (lookup key candidates))) out name arch,
)

true_ne_false : true ≢ false
true_ne_false h = cc

missing_arches-nil :
    (name : Bytes) (entries : ArchEntries) (arches : List Bytes)
    → ((arch : Bytes) → Memᴰ arch arches → is_some (lookup arch entries) ≡ true)
    → missing_arches name entries arches ≡ []
unfolding missing_arches
missing_arches-nil name entries [] h = refl
missing_arches-nil name entries (arch ∷ arches) h =
    rw (h arch (Memᴰ.head refl)) (missing_arches-nil name entries arches (λ a m. h a (Memᴰ.tail m)))

-- one declared package is complete
missing_of-nil :
    (arches : List Bytes) (name : Bytes) (o : Option ArchEntries) (a : Bytes)
    → Memᴰ a arches
    → ((arch : Bytes)
        → Memᴰ arch arches
        → (is_some (lookup arch (entries_of o)) ≡ true)
          ⊎ (is_some (lookup noarch (entries_of o)) ≡ true))
    → missing_of arches name o ≡ []
unfolding missing_of entries_of lookup
missing_of-nil arches name none a m h = ⊎_elim (λ f. cc) (λ f. cc) (h a m)
missing_of-nil arches name (some []) a m h = ⊎_elim (λ f. cc) (λ f. cc) (h a m)
missing_of-nil arches name (some (e ∷ entries)) a m h =
    elim (Bool-cases (is_some (lookup noarch (e ∷ entries)))) [
      | inl there ↦ rw there
      | inr absent ↦ rw absent (
          missing_arches-nil name (e ∷ entries) arches
            (λ arch n. ⊎_elim (λ f. f) (λ f. absurd (true_ne_false (sym f ∙ absent))) (h arch n)))
    ]

module _ (candidates : Candidates) (index : ProvidesIndex) where
  root_of-cases :
      (arch name : Bytes) (k : PkgKey)
      → root_of candidates arch name ≡ ok k
      → (k ≡ record { name = name; arch = arch }) ⊎ (k ≡ record { name = name; arch = noarch })
  unfolding root_of
  root_of-cases arch name k h = ground arith

  has_root :
      (closure : List PkgKey) (arch name : Bytes) (k : PkgKey)
      → root_of candidates arch name ≡ ok k
      → Memᴰ k closure
      → (has_entry (packages candidates closure []) name arch ≡ true)
        ⊎ (has_entry (packages candidates closure []) name noarch ≡ true)
  has_root closure arch name k h m =
      ⊎_elim (λ e. inl (here arch e)) (λ e. inr (here noarch e)) (root_of-cases arch name k h)
    where
      here :
          (a : Bytes)
          → k ≡ record { name = name; arch = a }
          → has_entry (packages candidates closure []) name a ≡ true
      here a e = rw (
        has_entry-packages candidates closure [] name a,
        (contains-Mem closure (record { name = name; arch = a })).1
            (subst (λ (x : PkgKey). Memᴰ x closure) e m),
      )

  missing-nil :
      (closure : List PkgKey) (arch : Bytes) (arches names : List Bytes)
      → ((a : Bytes)
          → Memᴰ a (arch ∷ arches)
          → Includes candidates index (arch ∷ arches) names closure a)
      → missing (packages candidates closure []) (arch ∷ arches) names ≡ []
  unfolding missing has_entry
  missing-nil closure arch arches [] h = refl
  missing-nil closure arch arches (name ∷ names) h = rw (
    missing_of-nil (arch ∷ arches) name (lookup name (packages candidates closure [])) arch
        (Memᴰ.head refl)
        (λ a m. let (k, ek, mk) = h a m name (Memᴰ.head refl) in has_root closure a name k ek mk),
    missing-nil closure arch arches names (λ a m n i. h a m n (Memᴰ.tail i)),
  )

  -- After closeDeps has succeeded for at least one architecture, the packages that resolve makes of
  -- the closure pass validate, so a lockfile is never refused at that point.
  pub validate-packages :
      (arch : Bytes) (arches names : List Bytes) (closure : List PkgKey)
      → close_deps candidates index (arch ∷ arches) names ≡ ok closure
      → validate (packages candidates closure []) (arch ∷ arches) names ≡ none
  unfolding validate unresolved
  validate-packages arch arches names closure h =
      let (_, includes) = close_deps-IsClosed candidates index (arch ∷ arches) names closure h in
      rw (missing-nil closure arch arches names includes)
