-- ===== src/Mirror/Listing.antt =====
-- `Tags`, `Versions` and `build` of `Client` in web/internal/mirror/mirror.go, with what they call. The lookups
-- of `Versions` run at once, each into a place of its own, so their order does not matter.
pub mod Listed
use distroless.Prelude.{
  ℕ, zero, suc, ◌+◌, ◌-◌, ◌==◌, Bool, true, false, ◌&&◌, ◌||◌, Option, none, some, List, [], ◌∷◌,
  ◌++◌, if◌then◌else◌, not, leb, total, map, Result, ok, err, ◌>>=◌,
}
use distroless.Prelude.Dict.{lookup, insert}
use distroless.Strings.{Bytes, codes, str_eq, cut_prefix, is_digit}
use distroless.Strings.Order.{bytes_eq}
use distroless.Tags.Grouping.{Sizes, PublishedVersion}
use distroless.Mirror.Record.{Codec}
use distroless.Mirror.Attached.{
  Repository, HeadError, ImageConfig, Image, IndexEntry, Descriptor, image_of, index_of, Registry,
  MirrorError, bad_tags, bad_build, Place, or_fail, repository,
}
use distroless.Mirror.Client.{Lru}

abbrev pub is_hex : ℕ → Bool
is_hex c = is_digit c || (leb b'a' c && leb c b'f')

abbrev pub is_lower : ℕ → Bool
is_lower c = leb b'a' c && leb c b'z'

-- one or more letters to the end
unfoldable pub all_lower : Bytes → Bool
all_lower [] = true
all_lower (c ∷ s) = is_lower c && all_lower s

-- `(\.[a-z]+)?$`
unfoldable pub suffix_matches : Bytes → Bool
suffix_matches [] = true
suffix_matches (c ∷ []) = false
suffix_matches (c ∷ d ∷ s) = c == b'.' && (is_lower d && all_lower s)

-- `[0-9a-f]{n}` and the suffix
unfoldable pub hex_matches : ℕ → Bytes → Bool
hex_matches zero s = suffix_matches s
hex_matches (suc n) [] = false
hex_matches (suc n) (c ∷ s) = is_hex c && hex_matches n s

unfoldable pub below_prefix : Option Bytes → Bool
below_prefix none = false
below_prefix (some rest) = hex_matches 64 rest

-- cosignFallbackTag
unfoldable pub is_cosign_fallback : Bytes → Bool
is_cosign_fallback tag = below_prefix (cut_prefix tag (codes "sha256-"))

unfoldable pub drop_fallbacks : List Bytes → List Bytes
drop_fallbacks [] = []
drop_fallbacks (tag ∷ tags) =
    let rest = drop_fallbacks tags in if is_cosign_fallback tag then rest else tag ∷ rest

-- what is reported of a build beyond its digest
pub record Build : Type 0 where
  pub created : ℕ
  pub sizes : Sizes

abbrev pub no_build : Build
no_build = record { created = 0; sizes = [] }

-- the sum of the layers, below 2^63
unfoldable pub compressed_size : List ℕ → ℕ
compressed_size = total (λ (size : ℕ). size)

-- the config and the size of an image
unfoldable pub image_detail : Image → Result MirrorError (ImageConfig × ℕ)
image_detail image = do
  config ← or_fail bad_build image.config
  layers ← or_fail bad_build image.manifest
  ok (config, compressed_size layers)

-- the platform's architecture, or else the config's
unfoldable pub architecture_of : Option Bytes → Bytes → Bytes
architecture_of none of_config = of_config
architecture_of (some platform) of_config = if str_eq platform [] then of_config else platform

unfoldable pub build_of_image : Option Image → Result MirrorError Build
build_of_image image = do
  found ← or_fail bad_build image
  (config, size) ← image_detail found
  ok (record { created = config.created; sizes = insert config.architecture size [] })

unfoldable pub vanished : Bytes → Result HeadError Bytes → List PublishedVersion
vanished tag (err e) = []
vanished tag (ok digest) =
    if str_eq digest []
    then []
    else (record { tag = tag; digest = digest; created = 0; sizes = [] }) ∷ []

module _ (reg : Registry) where
  unfoldable pub add_child : Repository → IndexEntry → Build → Result MirrorError Build
  add_child repo child found = do
    image ← or_fail bad_build (reg.image repo child.digest)
    (config, size) ← image_detail image
    ok (record {
      created = config.created;
      sizes = insert (architecture_of child.architecture config.architecture) size found.sizes;
    })

  unfoldable pub add_children : Repository → List IndexEntry → Build → Result MirrorError Build
  add_children repo [] found = ok found
  add_children repo (child ∷ children) found = do
    more ← add_child repo child found
    add_children repo children more

  unfoldable pub build_of_index : Repository → Option (List IndexEntry) → Result MirrorError Build
  build_of_index repo none = err bad_build
  build_of_index repo (some []) = err bad_build
  build_of_index repo (some (child ∷ children)) = add_children repo (child ∷ children) no_build

  unfoldable pub build_of : Repository → Descriptor → Result MirrorError Build
  build_of repo (image_of image) = build_of_image image
  build_of repo (index_of manifest) = build_of_index repo manifest

  unfoldable pub read_build : Repository → Bytes → Result MirrorError Build
  read_build repo digest = do
    descriptor ← or_fail bad_build (reg.get repo digest)
    build_of repo descriptor

  -- the tags that still name a build, each with its digest
  unfoldable pub lookups : Repository → List Bytes → List PublishedVersion
  lookups repo [] = []
  lookups repo (tag ∷ tags) = vanished tag (reg.head repo tag) ++ lookups repo tags

  module _ (l : Lru Build) where
    -- the build, blank where it does not read
    unfoldable pub keep_build : l.Cache → Bytes → Result MirrorError Build → Build × l.Cache
    keep_build c digest (err e) = (no_build, c)
    keep_build c digest (ok found) = (found, l.add c digest found)

    unfoldable pub build_or_read : l.Cache → Repository → Bytes → Option Build → Build × l.Cache
    build_or_read c repo digest (some found) = (found, c)
    build_or_read c repo digest none = keep_build c digest (read_build repo digest)

    unfoldable pub build : l.Cache → Repository → Bytes → Build × l.Cache
    build c repo digest = build_or_read (l.touch c digest) repo digest (l.find c digest)

    abbrev pub or_blank : Option Build → Build
    or_blank none = no_build
    or_blank (some found) = found

    abbrev pub Described : Type 0
    Described = List (Bytes × Build)

    unfoldable pub describe_one :
        Repository → Bytes → Option Build → Described × l.Cache → Described × l.Cache
    describe_one repo digest (some known) (described, c) = (described, c)
    describe_one repo digest none (described, c) =
        let out = build c repo digest in (insert digest out.0 described, out.1)

    unfoldable pub describe_all :
        Repository → List PublishedVersion → Described × l.Cache → Described × l.Cache
    describe_all repo [] state = state
    describe_all repo (v ∷ versions) state =
        describe_all repo versions (describe_one repo v.digest (lookup v.digest state.0) state)

    abbrev pub detail : Described → PublishedVersion → PublishedVersion
    detail described v = record {
      tag = v.tag;
      digest = v.digest;
      created = (or_blank (lookup v.digest described)).created;
      sizes = (or_blank (lookup v.digest described)).sizes;
    }

    unfoldable pub describe :
        l.Cache → Repository → List PublishedVersion → List PublishedVersion × l.Cache
    describe c repo versions =
        let out = describe_all repo versions ([], c) in (map (detail out.0) versions, out.1)

    module _ (codec : Codec) (place : Place) where
      unfoldable pub published : Repository → Result MirrorError (List Bytes)
      published repo = do tags ← or_fail bad_tags (reg.tags repo); ok (drop_fallbacks tags)

      unfoldable pub tags : Bytes → Result MirrorError (List Bytes)
      tags family = do repo ← repository codec place reg family; published repo

      unfoldable pub listed_at :
          l.Cache
          → Repository
          → Result MirrorError (List Bytes)
          → Result MirrorError (List PublishedVersion) × l.Cache
      listed_at c repo (err e) = (err e, c)
      listed_at c repo (ok names) =
          let out = describe c repo (lookups repo names) in (ok out.0, out.1)

      unfoldable pub versions_at :
          l.Cache
          → Result MirrorError Repository
          → Result MirrorError (List PublishedVersion) × l.Cache
      versions_at c (err e) = (err e, c)
      versions_at c (ok repo) = listed_at c repo (published repo)

      unfoldable pub versions :
          l.Cache → Bytes → Result MirrorError (List PublishedVersion) × l.Cache
      versions c family = versions_at c (repository codec place reg family)
