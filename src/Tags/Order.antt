-- ===== src/Tags/Order.antt =====
-- The order of tags and of releases in web/internal/directory/versions.go (`tagRank`,
-- `compareTag`, `compareVersionTag`, `compareRelease`).
use distroless.Prelude.{
  ℕ, Bool, true, ◌&&◌, ◌||◌, not, List, [], ◌∷◌, if◌then◌else◌, ltb, ◌==◌, ℤ, pos, negsuc, neg,
  sub_int,
}
use distroless.Strings.{Bytes, codes, str_eq, compare_text, compare_nat, cmp_or}
use distroless.Version.{split_version, compare_fragment}

pub record Tag : Type 0 where
  pub name : Bytes
  pub url : Bytes

pub record Release : Type 0 where
  pub digest : Bytes
  pub tags : List Tag
  pub created : ℕ
  pub sizes : List ℕ
  pub sbom : Bytes

abbrev pub default_ref : Bytes
default_ref = codes "latest"

abbrev pub tag_latest : ℕ
tag_latest = 0

abbrev pub tag_name : ℕ
tag_name = 1

abbrev pub tag_version : ℕ
tag_version = 2

-- the first byte is no digit, or there is none
unfoldable pub is_name : Bytes → Bool
is_name [] = true
is_name (c ∷ tag) = ltb c b'0' || ltb b'9' c

unfoldable pub tag_rank : Bytes → ℕ
tag_rank tag =
    if str_eq tag default_ref then tag_latest else if is_name tag then tag_name else tag_version

abbrev pub compare_parts : ℤ × Bytes × Bytes → ℤ × Bytes × Bytes → ℤ
compare_parts a b =
    cmp_or (sub_int b.0 a.0 ∷ neg (compare_fragment a.1 b.1) ∷ compare_fragment a.2 b.2 ∷ [])

unfoldable pub compare_version_tag : Bytes → Bytes → ℤ
compare_version_tag a b = compare_parts (split_version a) (split_version b)

unfoldable pub compare_same_kind : Bytes → Bytes → ℤ
compare_same_kind a b =
    if tag_rank a == tag_version then compare_version_tag a b else compare_text a b

unfoldable pub compare_tag : Bytes → Bytes → ℤ
compare_tag a b = cmp_or (compare_nat (tag_rank a) (tag_rank b) ∷ compare_same_kind a b ∷ [])

abbrev pub first_name : List Tag → Bytes
first_name [] = []
first_name (t ∷ ts) = t.name

unfoldable pub names_latest : Release → Bool
names_latest r = str_eq (first_name r.tags) default_ref

-- the first tag that is a version
unfoldable pub version_in : List Tag → Bytes
version_in [] = []
version_in (t ∷ ts) =
    let rest = version_in ts in if tag_rank t.name == tag_version then t.name else rest

unfoldable pub version_of : Release → Bytes
version_of r = version_in r.tags

unfoldable pub compare_named_latest : Release → Release → ℤ
compare_named_latest a b =
    if names_latest a && not (names_latest b)
    then negsuc 0
    else if not (names_latest a) && names_latest b
    then pos 1
    else pos 0

-- A release has a tag; where it had none, `a.Tags[0]` would panic.
unfoldable pub compare_release : Release → Release → ℤ
compare_release a b = cmp_or (
    compare_named_latest a b
    ∷ compare_version_tag (version_of a) (version_of b)
    ∷ compare_tag (first_name a.tags) (first_name b.tags)
    ∷ [])
