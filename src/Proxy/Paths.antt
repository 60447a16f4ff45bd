-- ===== src/Proxy/Paths.antt =====
-- oci/proxy/proxy.go: what a request path asks for (`findOp`, `ExtractRepo`, `IsBlob`), where it
-- is sent (`RewritePath`) and how long the answer may be cached (`cacheControl`).
pub mod Laws
pub mod Policy
use distroless.Prelude.{
  ℕ, zero, suc, ◌+◌, Bool, true, false, ◌||◌, not, Option, none, some, List, [], ◌∷◌, ◌++◌,
  if◌then◌else◌, length, take, get_elem?, ◌==◌,
}
use distroless.Strings.{Bytes, codes, str_eq, has_prefix, trim_prefix}
use distroless.Strings.Split.{split, join, has_suffix}

abbrev pub manifests : Bytes
manifests = codes "manifests"

abbrev pub blobs : Bytes
blobs = codes "blobs"

abbrev pub tags : Bytes
tags = codes "tags"

abbrev pub referrers : Bytes
referrers = codes "referrers"

unfoldable pub is_op : Bytes → Bool
is_op s = str_eq s manifests || (str_eq s blobs || (str_eq s tags || str_eq s referrers))

-- `segments[i]` is an operation; an index is in range where the loop reads it
unfoldable pub op_at : Option Bytes → Bool
op_at none = false
op_at (some s) = is_op s

-- the loop from index `i - 1` down to 0; `none` is -1
unfoldable pub find_below : ℕ → List Bytes → Option ℕ
find_below zero segments = none
find_below (suc i) segments =
    let rest = find_below i segments in if op_at (get_elem? segments i) then some i else rest

unfoldable pub find_op : List Bytes → Option ℕ
find_op segments = find_below (length segments) segments

abbrev pub api_root : Bytes
api_root = codes "/v2/"

abbrev pub segments_of : Bytes → List Bytes
segments_of path = split b'/' (trim_prefix path api_root)

unfoldable pub rewrite_path : Bytes → Bytes → Bytes
rewrite_path path repository_prefix =
    api_root ++ (repository_prefix ++ b'/' ∷ trim_prefix path api_root)

-- the segments before the operation, if there are some
unfoldable pub repo_before : Option ℕ → List Bytes → Bytes → Bytes
repo_before none segments rest = rest
repo_before (some zero) segments rest = rest
repo_before (some (suc i)) segments rest = join b'/' (take (suc i) segments)

unfoldable pub extract_repo : Bytes → Bytes
extract_repo path =
    repo_before (find_op (segments_of path)) (segments_of path) (trim_prefix path api_root)

abbrev pub segment_is : Option Bytes → Bytes → Bool
segment_is none s = false
segment_is (some t) s = str_eq t s

unfoldable pub blob_at : Option ℕ → List Bytes → Bool
blob_at none segments = false
blob_at (some i) segments = segment_is (get_elem? segments i) blobs

unfoldable pub is_blob : Bytes → Bool
is_blob path = blob_at (find_op (segments_of path)) (segments_of path)

unfoldable pub is_tags_list : Bytes → Bool
is_tags_list path = has_suffix path (codes "/tags/list")

abbrev pub mutable_short : Bytes
mutable_short = codes "public, max-age=900, stale-while-revalidate=3600, stale-if-error=86400"

abbrev pub discovery_policy : Bytes
discovery_policy = codes "public, max-age=86400, stale-if-error=86400"

abbrev pub immutable_policy : Bytes
immutable_policy = codes "public, max-age=31536000, immutable"

abbrev pub blob_policy : Bytes
blob_policy = codes "public, max-age=120, stale-while-revalidate=120, stale-if-error=120"

-- the switch on the operation and the segment behind it
unfoldable pub operation_policy : Option Bytes → Option Bytes → Bytes
operation_policy (some op) (some ref) =
    if str_eq op manifests
    then (if has_prefix ref (codes "sha256:") then immutable_policy else mutable_short)
    else if str_eq op referrers
    then mutable_short
    else if str_eq op blobs
    then blob_policy
    else []
operation_policy _ _ = []

-- Without an operation, or with one at the end of the path, there is no policy.
unfoldable pub policy_at : Option ℕ → List Bytes → Bytes
policy_at none segments = []
policy_at (some i) segments = operation_policy (get_elem? segments i) (get_elem? segments (suc i))

unfoldable pub cache_control : Bytes → Bytes
cache_control path =
    if str_eq path api_root || str_eq path (codes "/v2")
    then discovery_policy
    else if str_eq path (codes "/v2/_catalog")
    then mutable_short
    else if is_tags_list path
    then mutable_short
    else policy_at (find_op (segments_of path)) (segments_of path)
