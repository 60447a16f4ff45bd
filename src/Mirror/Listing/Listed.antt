-- ===== src/Mirror/Listing/Listed.antt =====
-- Which tags a family lists, and with which builds.
use distroless.Prelude.{
  Bool, true, false, ◌&&◌, ◌||◌, not, some, List, [], ◌∷◌, ◌≡◌, refl, ap, ◌∙◌, arith, map, any,
  any-append, Result, ok, err,
}
use distroless.Strings.{Bytes, str_eq}
use distroless.Strings.Order.{bytes_eq}
use distroless.Tags.Grouping.{PublishedVersion}
use distroless.Mirror.Record.{Codec}
use distroless.Mirror.Attached.{Repository, HeadError, Registry, Place, or_fail, repository}
use distroless.Mirror.Client.{Lru}
use distroless.Mirror.Listing.{
  Build, is_cosign_fallback, drop_fallbacks, vanished, lookups, detail, Described, describe,
  describe_all, published, listed_at, versions_at, versions,
}

-- this tag, of this build
abbrev pub points : Bytes → Bytes → PublishedVersion → Bool
points tag digest v = str_eq v.tag tag && str_eq v.digest digest

-- the registry resolves the tag to the digest
abbrev pub answers : Bytes → Result HeadError Bytes → Bool
answers digest (err e) = false
answers digest (ok d) = not (str_eq d []) && str_eq d digest

abbrev pub named : Bytes → List Bytes → Bool
named tag = any (λ (name : Bytes). str_eq name tag)

named-drop_fallbacks :
    (tag : Bytes) (names : List Bytes)
    → named tag (drop_fallbacks names) ≡ (named tag names && not (is_cosign_fallback tag))
unfolding drop_fallbacks
named-drop_fallbacks tag [] = refl
named-drop_fallbacks tag (name ∷ names) =
    ground (arith, named-drop_fallbacks tag names, bytes_eq.beq_iff name tag)

module _ (reg : Registry) (repo : Repository) (tag digest : Bytes) where
  points-vanished :
      (name : Bytes) (r : Result HeadError Bytes)
      → any (points tag digest) (vanished name r) ≡ (str_eq name tag && answers digest r)
  unfolding vanished
  points-vanished name (err e) = ground arith
  points-vanished name (ok d) = ground arith

  points-lookups :
      (names : List Bytes)
      → any (points tag digest) (lookups reg repo names)
        ≡ (named tag names && answers digest (reg.head repo tag))
  unfolding lookups
  points-lookups [] = refl
  points-lookups (name ∷ names) =
      any-append (points tag digest) (vanished name (reg.head repo name)) (lookups reg repo names)
      ∙ ap (λ (b : Bool). b || any (points tag digest) (lookups reg repo names))
          (points-vanished name (reg.head repo name))
      ∙ ap (λ (b : Bool). str_eq name tag && answers digest (reg.head repo name) || b)
          (points-lookups names)
      ∙ together (str_eq name tag) (named tag names) (answers digest (reg.head repo name))
          (answers digest (reg.head repo tag))
          (λ same.
            ap (λ (t : Bytes). answers digest (reg.head repo t))
              ((bytes_eq.beq_iff name tag).0 same))
    where
      together : (a b x y : Bool) → (a ≡ true → x ≡ y) → (a && x || (b && y)) ≡ ((a || b) && y)
      together false b x y h = refl
      together true b x y h = ground (arith, h refl)

  points-detail :
      (l : Lru Build) (described : Described reg l) (vs : List PublishedVersion)
      → any (points tag digest) (map (detail reg l described) vs) ≡ any (points tag digest) vs
  points-detail l described [] = refl
  points-detail l described (v ∷ vs) = rw (points-detail l described vs) refl

  -- Where a family's tags are listed, Versions names a build for a tag exactly if the tag is listed,
  -- is none of cosign's attachments, and the registry resolves it to that build's digest, which is
  -- not empty; whatever the cache holds and whichever builds can be read.
  pub versions-points :
      (l : Lru Build) (codec : Codec) (place : Place) (c : l.Cache) (family : Bytes)
      (names : List Bytes)
      → repository codec place reg family ≡ ok repo
      → reg.tags repo ≡ some names
      → (vs : List PublishedVersion) × ((versions reg l codec place c family).0 ≡ ok vs)
        × (any (points tag digest) vs ≡ (
            named tag names && not (is_cosign_fallback tag) && answers digest (reg.head repo tag)))
  unfolding versions versions_at listed_at published describe or_fail
  versions-points l codec place c family names e h =
      let found = lookups reg repo (drop_fallbacks names) in
      let out = describe_all reg l repo found ([], c) in
      (
        map (detail reg l out.0) found,
        rw (e, h) refl,
        points-detail l out.0 found
            ∙ points-lookups (drop_fallbacks names)
            ∙ ap (λ (b : Bool). b && answers digest (reg.head repo tag))
                (named-drop_fallbacks tag names),
      )
