-- ===== src/Pin/Lock/Entries.antt =====
-- What the packages of a lockfile hold under a name and an architecture.
use distroless.Prelude.{
  Bool, true, false, ◌||◌, Option, none, some, List, [], ◌∷◌, ◌≡◌, refl, ap, ◌∙◌, if◌then◌else◌,
  Bool-cases, inl, inr,
}
use distroless.Prelude.Dict.{lookup, insert, lookup-insert, contains}
use distroless.Strings.{Bytes, str_eq}
use distroless.Strings.Laws.{str_eq_sound}
use distroless.Strings.Order.{bytes_eq}
use distroless.Pin.Provider.{PkgKey, PkgKey_eq, key_eq, key_eq_iff}
use distroless.Pin.Closure.{Candidate, Candidates}
use distroless.Pin.Lock.{
  LockEntry, ArchEntries, Packages, or_empty, lock_entry, entries_of, add_entry, packages,
}

abbrev pub at_arch : Bytes → Option ArchEntries → Option LockEntry
at_arch arch none = none
at_arch arch (some entries) = lookup arch entries

abbrev pub entry_at : PkgKey → Packages → Option LockEntry
entry_at k out = at_arch k.arch (lookup k.name out)

-- what the lockfile says of a package
abbrev pub entry_of : Option Candidate → LockEntry
entry_of none = record {
  version = [];
  sha256 = [];
  path = [];
  size = 0;
  license = [];
  upstream = [];
}
entry_of (some c) = record {
  version = c.evr;
  sha256 = c.sha256;
  path = c.path;
  size = c.size;
  license = c.license;
  upstream = c.upstream;
}

lock_entry-entry_of : (o : Option Candidate) → lock_entry (or_empty o) ≡ entry_of o
unfolding lock_entry or_empty
lock_entry-entry_of none = refl
lock_entry-entry_of (some c) = refl

lookup-entries_of :
    (arch : Bytes) (o : Option ArchEntries) → lookup arch (entries_of o) ≡ at_arch arch o
unfolding lookup entries_of
lookup-entries_of arch none = refl
lookup-entries_of arch (some entries) = refl

entry_at-add_entry :
    (k key : PkgKey) (entry : LockEntry) (out : Packages)
    → entry_at k (add_entry key entry out) ≡ (if key_eq key k then some entry else entry_at k out)
unfolding add_entry key_eq
entry_at-add_entry k key entry out = elim (Bool-cases (str_eq key.name k.name)) [
  | inl same ↦
      let e : key.name ≡ k.name = str_eq_sound key.name k.name same in
      rw
        (
          lookup-insert key.name k.name (insert key.arch entry (entries_of (lookup key.name out)))
              out,
          same,
          lookup-insert key.arch k.arch entry (entries_of (lookup key.name out)),
          e,
          lookup-entries_of k.arch (lookup k.name out),
        )
        refl
  | inr other ↦
      rw
        (
          lookup-insert key.name k.name (insert key.arch entry (entries_of (lookup key.name out)))
              out,
          other,
        )
        refl
]

joined :
    {A : Type 0} (here later : Bool) (a b c : A)
    → (here ≡ true → a ≡ b)
    → (if later then b else if here then a else c) ≡ (if here || later then b else c)
joined true true a b c h = refl
joined true false a b c h = h refl
joined false true a b c h = refl
joined false false a b c h = refl

-- each key of the list has the entry of its candidate, and nothing else is added
pub entry_at-packages :
    (candidates : Candidates) (keys : List PkgKey) (k : PkgKey) (out : Packages)
    → entry_at k (packages candidates keys out)
      ≡ (if contains keys k then some (entry_of (lookup k candidates)) else entry_at k out)
unfolding packages contains
entry_at-packages candidates [] k out = refl
entry_at-packages candidates (key ∷ keys) k out =
    entry_at-packages candidates keys k
      (add_entry key (lock_entry (or_empty (lookup key candidates))) out)
    ∙ rw
        (
          entry_at-add_entry k key (lock_entry (or_empty (lookup key candidates))) out,
          lock_entry-entry_of (lookup key candidates),
        )
        (joined (key_eq key k) (contains keys k) (some (entry_of (lookup key candidates)))
          (some (entry_of (lookup k candidates))) (entry_at k out)
          (λ same.
            ap (λ (j : PkgKey). some (entry_of (lookup j candidates))) ((key_eq_iff key k).0 same)))
