-- ===== src/Tags/Counts.antt =====
-- No tag is lost, doubled or moved to another build.
use distroless.Prelude.{
  total, total-append, total-sort_by, ℕ, ◌+◌, Bool, true, false, ◌||◌, Option, none, some, List, [],
  ◌∷◌, ◌++◌, ◌≡◌, refl, ap, ◌∙◌, arith, if◌then◌else◌, Bool-cases, inl, inr,
}
use distroless.Prelude.Dict.{lookup, insert, lookup-insert, contains}
use distroless.Strings.{Bytes, str_eq}
use distroless.Strings.Laws.{str_eq_sound}
use mathlib.Core.Path.{subst}
use distroless.Strings.Order.{bytes_eq}
use distroless.Tags.Order.{Tag, Release, compare_tag, compare_release}
use distroless.Tags.Grouping.{
  PublishedVersion, Groups, with_tag, new_tag, new_release, join_release, add_version, group,
  no_groups, finish, finish_release, add_release, new_versions, published_architectures, or_none,
}

abbrev pub hit : Bytes → Bytes → ℕ
hit n name = if str_eq name n then 1 else 0

-- how often a release has a tag of name `n`
abbrev pub named : Bytes → Release → ℕ
named n r = total (λ (t : Tag). hit n t.name) r.tags

-- how often a version of digest `d` and tag `n` is published
abbrev pub published : Bytes → Bytes → List PublishedVersion → ℕ
published d n = total (λ (v : PublishedVersion). if str_eq v.digest d then hit n v.tag else 0)

-- how often a release of digest `d` has a tag of name `n`
abbrev pub listed : Bytes → Bytes → List Release → ℕ
listed d n = total (λ (r : Release). if str_eq r.digest d then named n r else 0)

abbrev named_in : Bytes → Option Release → ℕ
named_in n none = 0
named_in n (some r) = named n r

-- how often the release that is kept for digest `d` has tag `n`
abbrev filed : Bytes → Bytes → Groups → ℕ
filed d n g = named_in n (lookup d g.by_digest)

abbrev is_some {ℓ} : {A : Type ℓ} → Option A → Bool
is_some none = false
is_some (some _) = true

abbrev NoRepeat : List Bytes → Type 0
NoRepeat [] = Unit {0}
NoRepeat (x ∷ xs) = (contains xs x ≡ false) × NoRepeat xs

pub record IsGrouped (g : Groups) : Type 0 where
  pub digests : (d : Bytes) (r : Release) → lookup d g.by_digest ≡ some r → r.digest ≡ d
  pub ordered : (d : Bytes) → contains g.order d ≡ is_some (lookup d g.by_digest)
  pub no_repeat : NoRepeat g.order

named-with_tag : (n name : Bytes) (r : Release) → named n (with_tag name r) ≡ named n r + hit n name
unfolding with_tag
named-with_tag n name r =
    omega (arith, total-append (λ (t : Tag). hit n t.name) r.tags (new_tag name ∷ []))

contains-append :
    (xs : List Bytes) (x y : Bytes) → contains (xs ++ x ∷ []) y ≡ (contains xs y || str_eq x y)
unfolding contains
contains-append [] x y = ground arith
contains-append (z ∷ xs) x y = ground (arith, contains-append xs x y)

NoRepeat-append :
    (xs : List Bytes) (x : Bytes) → NoRepeat xs → contains xs x ≡ false → NoRepeat (xs ++ x ∷ [])
unfolding contains
NoRepeat-append [] x h new = (refl, tt)
NoRepeat-append (y ∷ xs) x h new = (
  ground (arith, contains-append xs x y, bytes_eq.beq_iff x y, bytes_eq.beq_iff y x),
  NoRepeat-append xs x h.1 (ground arith),
)

filed-insert :
    (k d n : Bytes) (r : Release) (m : List (Bytes × Release)) (more : ℕ)
    → named n r ≡ named_in n (lookup k m) + more
    → named_in n (lookup d (insert k r m))
      ≡ named_in n (lookup d m) + (if str_eq k d then more else 0)
filed-insert k d n r m more h = elim (Bool-cases (str_eq k d)) [
  | inl same_key ↦
      let e : k ≡ d = str_eq_sound k d same_key in
      rw (lookup-insert k d r m, same_key)
        (subst (λ (x : Bytes). named n r ≡ named_in n (lookup x m) + more) e h)
  | inr other ↦ rw (lookup-insert k d r m, other) (omega arith)
]

module _ (v : PublishedVersion) (g : Groups) where
  filed-join_release :
      (o : Option Release) (d n : Bytes)
      → lookup v.digest g.by_digest ≡ o
      → filed d n (join_release v g o)
        ≡ filed d n g + (if str_eq v.digest d then hit n v.tag else 0)
  unfolding join_release
  filed-join_release none d n e =
      filed-insert v.digest d n (with_tag v.tag (new_release v)) g.by_digest (hit n v.tag)
        (rw e (named-with_tag n v.tag (new_release v)))
  filed-join_release (some r) d n e =
      filed-insert v.digest d n (with_tag v.tag r) g.by_digest (hit n v.tag)
        (rw e (named-with_tag n v.tag r))

  -- the release that is stored for the version's digest
  join_release-digests :
      (r : Release)
      → r.digest ≡ v.digest
      → ((d : Bytes) (s : Release) → lookup d g.by_digest ≡ some s → s.digest ≡ d)
      → (d : Bytes) (s : Release) → lookup d (insert v.digest r g.by_digest) ≡ some s
      → s.digest ≡ d
  join_release-digests r e old d s h =
      ground (arith, lookup-insert v.digest d r g.by_digest, bytes_eq.beq_iff v.digest d, old d s)

  join_release-IsGrouped :
      (o : Option Release)
      → lookup v.digest g.by_digest ≡ o
      → IsGrouped g
      → IsGrouped (join_release v g o)
  unfolding join_release with_tag
  join_release-IsGrouped none e h = record {
    digests = join_release-digests (with_tag v.tag (new_release v)) refl h.digests;
    ordered = λ d. ground (
      arith,
      contains-append g.order v.digest d,
      lookup-insert v.digest d (with_tag v.tag (new_release v)) g.by_digest,
      h.ordered d,
    );
    no_repeat = NoRepeat-append g.order v.digest h.no_repeat (h.ordered v.digest ∙ ap is_some e);
  }
  join_release-IsGrouped (some r) e h = record {
    digests = join_release-digests (with_tag v.tag r) (h.digests v.digest r e) h.digests;
    ordered = λ d. ground (
      arith,
      lookup-insert v.digest d (with_tag v.tag r) g.by_digest,
      h.ordered d,
      bytes_eq.beq_iff v.digest d,
    );
    no_repeat = h.no_repeat;
  }

-- the loop over the versions
filed-group :
    (vs : List PublishedVersion) (g : Groups) (d n : Bytes)
    → filed d n (group vs g) ≡ filed d n g + published d n vs
unfolding group add_version
filed-group [] g d n = omega arith
filed-group (v ∷ vs) g d n = omega (
  arith,
  filed-group vs (add_version v g) d n,
  filed-join_release v g (lookup v.digest g.by_digest) d n refl,
)

pub group-IsGrouped :
    (vs : List PublishedVersion) (g : Groups) → IsGrouped g → IsGrouped (group vs g)
unfolding group add_version
group-IsGrouped [] g h = h
group-IsGrouped (v ∷ vs) g h =
    group-IsGrouped vs (add_version v g)
      (join_release-IsGrouped v g (lookup v.digest g.by_digest) refl h)

IsGrouped-no_groups : IsGrouped no_groups
unfolding contains lookup
IsGrouped-no_groups = record { digests = λ d r h. cc; ordered = λ d. refl; no_repeat = tt }

filed-nothing : (d n : Bytes) → filed d n no_groups ≡ 0
unfolding lookup
filed-nothing d n = refl

named-finish_release :
    (architectures : List Bytes) (sizes : List (Bytes × ℕ)) (r : Release) (n : Bytes)
    → named n (finish_release architectures sizes r) ≡ named n r
unfolding finish_release
named-finish_release architectures sizes r n =
    total-sort_by (λ (t : Tag). hit n t.name) (λ (a b : Tag). compare_tag a.name b.name) r.tags

module _ (architectures : List Bytes) (g : Groups) (h : IsGrouped g) where
  -- what one digest of the order adds
  listed-add_release :
      (k d n : Bytes) (sizes : List (Bytes × ℕ)) (o : Option Release) (rs : List Release)
      → lookup k g.by_digest ≡ o
      → listed d n (add_release architectures sizes o rs)
        ≡ (if str_eq k d then named_in n o else 0) + listed d n rs
  unfolding add_release finish_release
  listed-add_release k d n sizes none rs e = ground arith
  listed-add_release k d n sizes (some r) rs e =
      let same_digest : (finish_release architectures sizes r).digest ≡ k = h.digests k r e in
      rw same_digest (ground (arith, named-finish_release architectures sizes r n))

  listed-finish :
      (order : List Bytes) (d n : Bytes)
      → NoRepeat order
      → listed d n (finish architectures g order) ≡ (if contains order d then filed d n g else 0)
  unfolding contains finish
  listed-finish [] d n u = refl
  listed-finish (k ∷ order) d n u = elim (Bool-cases (str_eq k d)) [
    | inl same_key ↦
        let e : k ≡ d = str_eq_sound k d same_key in
        ground (
          arith,
          listed-add_release k d n (or_none (lookup k g.sizes)) (lookup k g.by_digest)
              (finish architectures g order) refl,
          listed-finish order d n u.1,
          u.0,
        )
    | inr other ↦ ground (
      arith,
      listed-add_release k d n (or_none (lookup k g.sizes)) (lookup k g.by_digest)
          (finish architectures g order) refl,
      listed-finish order d n u.1,
    )
  ]

  listed-order : (d n : Bytes) → listed d n (finish architectures g g.order) ≡ filed d n g
  listed-order d n = ground (arith, listed-finish g.order d n h.no_repeat, h.ordered d)

-- In the list that NewVersions makes, the releases of a digest have a tag as often as the tag is
-- published for that digest: no tag is lost, doubled or moved to another build.
pub listed-new_versions :
    (image : Bytes) (versions : List PublishedVersion) (d n : Bytes)
    → listed d n (new_versions image versions).releases ≡ published d n versions
unfolding new_versions
listed-new_versions image versions d n =
    let g = group versions no_groups in
    let h = group-IsGrouped versions no_groups IsGrouped-no_groups in
    omega (
      arith,
      total-sort_by (λ (r : Release). if str_eq r.digest d then named n r else 0) compare_release
          (finish (published_architectures g.sizes) g g.order),
      listed-order (published_architectures g.sizes) g h d n,
      filed-group versions no_groups d n,
      filed-nothing d n,
    )
