-- ===== src/Tags/Latest.antt =====
-- The build that `latest` names comes first in the list.
use distroless.Prelude.{
  total, total-sort_by, ℕ, ◌<◌, Bool, true, false, ◌||◌, Option, none, some, List, [], ◌∷◌, ◌≡◌,
  refl, ap, ◌∙◌, arith, if◌then◌else◌, ℤ, is_neg, sort_by, insert_by, Bool-cases, inl, inr, any,
}
use distroless.Prelude.Dict.{lookup}
use distroless.Strings.{Bytes, str_eq, cmp_or, compare_nat}
use distroless.Strings.Laws.{str_eq_refl}
use distroless.Strings.Order.{bytes_eq}
use distroless.Tags.Order.{
  Tag, Release, default_ref, tag_rank, compare_tag, first_name, names_latest, compare_named_latest,
  compare_release,
}
use distroless.Tags.Grouping.{
  PublishedVersion, Groups, group, no_groups, finish, finish_release, add_release, new_versions,
  published_architectures, or_none,
}
use distroless.Tags.Counts.{listed-new_versions, listed, named, published, hit}

abbrev pub first_is {ℓ} : {A : Type ℓ} → (A → Bool) → List A → Bool
first_is p [] = false
first_is p (x ∷ xs) = p x

-- `p` marks entries that the comparison puts before all that are not marked
abbrev Leads {ℓ} : {A : Type ℓ} → (A → Bool) → (A → A → ℤ) → Type ℓ
Leads {A = A} p cmp =
    (a b : A) → p a ≡ true → p b ≡ false → (is_neg (cmp a b) ≡ true) × (is_neg (cmp b a) ≡ false)

module _ {ℓ} {A : Type ℓ} (p : A → Bool) (cmp : A → A → ℤ) (leads : Leads p cmp) where
  first_is-insert_by :
      (x : A) (ys : List A) → first_is p (insert_by cmp x ys) ≡ (p x || first_is p ys)
  unfolding insert_by
  first_is-insert_by x [] = ground arith
  first_is-insert_by x (y ∷ ys) = ground (arith, leads x y, leads y x)

  -- a sorted list begins with a marked entry if it has one
  first_is-sort_by : (xs : List A) → first_is p (sort_by cmp xs) ≡ any p xs
  unfolding sort_by
  first_is-sort_by [] = refl
  first_is-sort_by (x ∷ xs) =
      first_is-insert_by x (sort_by cmp xs) ∙ ap (λ (b : Bool). p x || b) (first_is-sort_by xs)

is_latest : Tag → Bool
is_latest t = str_eq t.name default_ref

Leads-is_latest : Leads is_latest (λ (a b : Tag). compare_tag a.name b.name)
unfolding is_latest compare_tag tag_rank cmp_or compare_nat
Leads-is_latest a b pa pb = ground arith

Leads-names_latest : Leads names_latest compare_release
unfolding compare_release compare_named_latest cmp_or
Leads-names_latest a b pa pb = ground arith

names_latest-first_is : (r : Release) → names_latest r ≡ first_is is_latest r.tags
unfolding names_latest is_latest str_eq
names_latest-first_is r = by_tags r.tags
  where
    by_tags : (ts : List Tag) → str_eq (first_name ts) default_ref ≡ first_is is_latest ts
    by_tags [] = refl
    by_tags (t ∷ ts) = refl

any-total :
    (ts : List Tag) → 0 < total (λ (t : Tag). hit default_ref t.name) ts → any is_latest ts ≡ true
unfolding is_latest
any-total [] h = absurd (omega arith)
any-total (t ∷ ts) h = ground (arith, any-total ts)

-- once its tags are sorted, a release that has the tag names it first
finish_release-latest :
    (architectures : List Bytes) (sizes : List (Bytes × ℕ)) (r : Release)
    → 0 < named default_ref (finish_release architectures sizes r)
    → names_latest (finish_release architectures sizes r) ≡ true
unfolding finish_release
finish_release-latest architectures sizes r h =
    names_latest-first_is (finish_release architectures sizes r)
    ∙ first_is-sort_by is_latest (λ (a b : Tag). compare_tag a.name b.name) Leads-is_latest r.tags
    ∙ any-total r.tags (
        omega (
          arith,
          total-sort_by (λ (t : Tag). hit default_ref t.name)
              (λ (a b : Tag). compare_tag a.name b.name) r.tags,
        ))

any-add_release :
    (architectures : List Bytes) (sizes : List (Bytes × ℕ)) (d : Bytes) (o : Option Release)
    (rs : List Release)
    → (0 < listed d default_ref rs → any names_latest rs ≡ true)
    → 0 < listed d default_ref (add_release architectures sizes o rs)
    → any names_latest (add_release architectures sizes o rs) ≡ true
unfolding add_release
any-add_release architectures sizes d none rs below h = below h
any-add_release architectures sizes d (some r) rs below h =
    ground (arith, below, finish_release-latest architectures sizes r)

any-finish :
    (architectures : List Bytes) (g : Groups) (d : Bytes) (order : List Bytes)
    → 0 < listed d default_ref (finish architectures g order)
    → any names_latest (finish architectures g order) ≡ true
unfolding finish
any-finish architectures g d [] h = absurd (omega arith)
any-finish architectures g d (k ∷ order) h =
    any-add_release architectures (or_none (lookup k g.sizes)) d (lookup k g.by_digest)
      (finish architectures g order) (any-finish architectures g d order) h

published-any :
    (vs : List PublishedVersion)
    → any (λ (v : PublishedVersion). str_eq v.tag default_ref) vs ≡ true
    → (d : Bytes) × (0 < published d default_ref vs)
published-any [] h = cc
published-any (v ∷ vs) h = elim (Bool-cases (str_eq v.tag default_ref)) [
  | inl here ↦ (v.digest, rw (here, str_eq_refl v.digest) (omega arith))
  | inr not_here ↦ let (d, more) = published-any vs (rw not_here at h) in (d, omega (arith, more))
]

-- If the tag `latest` is published, the first release of the list that NewVersions makes is one
-- that it names.
pub new_versions-latest :
    (image : Bytes) (versions : List PublishedVersion)
    → any (λ (v : PublishedVersion). str_eq v.tag default_ref) versions ≡ true
    → first_is names_latest (new_versions image versions).releases ≡ true
unfolding new_versions
new_versions-latest image versions h =
    let (d, there) = published-any versions h in
    let g = group versions no_groups in
    let rs = finish (published_architectures g.sizes) g g.order in
    first_is-sort_by names_latest compare_release Leads-names_latest rs
    ∙ any-finish (published_architectures g.sizes) g d g.order (
        omega (
          arith,
          listed-new_versions image versions d default_ref,
          total-sort_by (λ (r : Release). if str_eq r.digest d then named default_ref r else 0)
              compare_release rs,
          there,
        ))
