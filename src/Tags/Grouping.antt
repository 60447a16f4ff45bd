-- ===== src/Tags/Grouping.antt =====
-- `NewVersions` and `publishedArchitectures` of web/internal/directory/versions.go.
use distroless.Prelude.{
  ℕ, Option, none, some, List, [], ◌∷◌, ◌++◌, if◌then◌else◌, map, sort_by, sort_slice,
}
use distroless.Prelude.Dict.{lookup, insert}
use distroless.Strings.{Bytes, str_eq}
use distroless.Strings.Order.{bytes_eq, text_lt}
use distroless.Tags.Order.{Tag, Release, compare_tag, compare_release}

abbrev pub Sizes : Type 0
Sizes = List (Bytes × ℕ)

pub record PublishedVersion : Type 0 where
  pub tag : Bytes
  pub digest : Bytes
  pub created : ℕ
  pub sizes : Sizes

-- `byDigest`, `sizes` and `order`
pub record Groups : Type 0 where
  pub by_digest : List (Bytes × Release)
  pub sizes : List (Bytes × Sizes)
  pub order : List Bytes

abbrev pub new_tag : Bytes → Tag
new_tag name = record { name = name; url = [] }

abbrev pub new_release : PublishedVersion → Release
new_release v = record { digest = v.digest; tags = []; created = v.created; sizes = []; sbom = [] }

unfoldable pub with_tag : Bytes → Release → Release
with_tag name r = record {
  digest = r.digest;
  tags = r.tags ++ new_tag name ∷ [];
  created = r.created;
  sizes = r.sizes;
  sbom = r.sbom;
}

-- one version joins the release of its digest, which is made if it is new
unfoldable pub join_release : PublishedVersion → Groups → Option Release → Groups
join_release v g (some r) = record {
  by_digest = insert v.digest (with_tag v.tag r) g.by_digest;
  sizes = g.sizes;
  order = g.order;
}
join_release v g none = record {
  by_digest = insert v.digest (with_tag v.tag (new_release v)) g.by_digest;
  sizes = insert v.digest v.sizes g.sizes;
  order = g.order ++ v.digest ∷ [];
}

unfoldable pub add_version : PublishedVersion → Groups → Groups
add_version v g = join_release v g (lookup v.digest g.by_digest)

unfoldable pub group : List PublishedVersion → Groups → Groups
group [] g = g
group (v ∷ vs) g = group vs (add_version v g)

abbrev pub no_groups : Groups
no_groups = record { by_digest = []; sizes = []; order = [] }

-- the architectures of every build, sorted and without repetition
unfoldable pub all_architectures : List (Bytes × Sizes) → List Bytes
all_architectures [] = []
all_architectures ((digest, by_architecture) ∷ sizes) =
    map (λ (entry : Bytes × ℕ). entry.0) by_architecture ++ all_architectures sizes

-- `slices.Compact`, with the text before
unfoldable pub compact_after : Bytes → List Bytes → List Bytes
compact_after last [] = []
compact_after last (x ∷ xs) =
    let rest = compact_after x xs in if str_eq last x then rest else x ∷ rest

unfoldable pub compact : List Bytes → List Bytes
compact [] = []
compact (x ∷ xs) = x ∷ compact_after x xs

unfoldable pub published_architectures : List (Bytes × Sizes) → List Bytes
published_architectures sizes = compact (sort_slice text_lt (all_architectures sizes))

-- the zero value where the map has no entry
abbrev pub or_none : Option Sizes → Sizes
or_none none = []
or_none (some sizes) = sizes

abbrev pub or_zero_size : Option ℕ → ℕ
or_zero_size none = 0
or_zero_size (some size) = size

abbrev pub size_row : Sizes → List Bytes → List ℕ
size_row sizes architectures =
    map (λ (architecture : Bytes). or_zero_size (lookup architecture sizes)) architectures

unfoldable pub finish_release : List Bytes → Sizes → Release → Release
finish_release architectures sizes r = record {
  digest = r.digest;
  tags = sort_by (λ (a b : Tag). compare_tag a.name b.name) r.tags;
  created = r.created;
  sizes = size_row sizes architectures;
  sbom = r.sbom;
}

unfoldable pub add_release : List Bytes → Sizes → Option Release → List Release → List Release
add_release architectures sizes none releases = releases
add_release architectures sizes (some r) releases = finish_release architectures sizes r ∷ releases

-- the loop over `order`; every digest of it has a release
unfoldable pub finish : List Bytes → Groups → List Bytes → List Release
finish architectures g [] = []
finish architectures g (digest ∷ order) =
    add_release architectures (or_none (lookup digest g.sizes)) (lookup digest g.by_digest)
      (finish architectures g order)

pub record Versions : Type 0 where
  pub image : Bytes
  pub architectures : List Bytes
  pub releases : List Release

abbrev pub versions_of : Bytes → Groups → Versions
versions_of image g = record {
  image = image;
  architectures = published_architectures g.sizes;
  releases = sort_by compare_release (finish (published_architectures g.sizes) g g.order);
}

unfoldable pub new_versions : Bytes → List PublishedVersion → Versions
new_versions image versions = versions_of image (group versions no_groups)
