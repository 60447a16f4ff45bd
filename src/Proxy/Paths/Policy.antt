-- ===== src/Proxy/Paths/Policy.antt =====
-- The cache policy of a request path (`cacheControl`).
use distroless.Prelude.{
  ℕ, suc, Bool, true, false, not, ◌||◌, some, List, [], ◌∷◌, ◌++◌, ◌≡◌, refl, arith, if◌then◌else◌,
  length, ◌&&◌, ◌==◌, All,
}
use distroless.Strings.{Bytes, codes, str_eq, has_prefix}
use distroless.Strings.Split.{join, Lacks}
use distroless.Proxy.Paths.{
  is_op, api_root, is_tags_list, cache_control, policy_at, operation_policy, manifests, blobs,
  referrers, immutable_policy, mutable_short, blob_policy,
}
use distroless.Proxy.Paths.Laws.{
  NoOp, Segment, path_of, segments_of-path_of, find_op_last, at_op, behind_op,
}

==_false_sym : (a b : ℕ) → (a == b) ≡ false → (b == a) ≡ false
==_false_sym a b h = ground arith

and_false : (a b : Bool) → b ≡ false → a && b ≡ false
and_false true b h = h
and_false false b h = refl

-- a text with a separator is not a text without
str_eq-sep : (sep : ℕ) (s u t : Bytes) → Lacks sep t → str_eq (s ++ sep ∷ u) t ≡ false
unfolding str_eq
str_eq-sep sep [] u [] h = refl
str_eq-sep sep [] u (c ∷ t) h = rw (==_false_sym c sep h.0)
str_eq-sep sep (b ∷ s) u [] h = refl
str_eq-sep sep (b ∷ s) u (c ∷ t) h = and_false (b == c) _ (str_eq-sep sep s u t h.1)

-- A path of a repository, an operation and what follows is neither the root nor the catalog.
not_root :
    (r s : Bytes) (ss : List Bytes)
    → str_eq (path_of (r ∷ s ∷ ss)) api_root || str_eq (path_of (r ∷ s ∷ ss)) (codes "/v2") ≡ false
unfolding str_eq join
not_root [] s ss = refl
not_root (c ∷ r) s ss = refl

not_catalog :
    (r s : Bytes) (ss : List Bytes) → str_eq (path_of (r ∷ s ∷ ss)) (codes "/v2/_catalog") ≡ false
unfolding join str_eq
not_catalog r s ss =
    str_eq-sep b'/' r (join b'/' (s ∷ ss)) (codes "_catalog")
      (refl, (refl, (refl, (refl, (refl, (refl, (refl, (refl, tt))))))))

root_of :
    (r : Bytes) (rs : List Bytes) (op : Bytes) (qs : List Bytes)
    → str_eq (path_of ((r ∷ rs) ++ op ∷ qs)) api_root
        || str_eq (path_of ((r ∷ rs) ++ op ∷ qs)) (codes "/v2")
      ≡ false
root_of r [] op qs = not_root r op qs
root_of r (s ∷ rs) op qs = not_root r s (rs ++ op ∷ qs)

catalog_of :
    (r : Bytes) (rs : List Bytes) (op : Bytes) (qs : List Bytes)
    → str_eq (path_of ((r ∷ rs) ++ op ∷ qs)) (codes "/v2/_catalog") ≡ false
catalog_of r [] op qs = not_catalog r op qs
catalog_of r (s ∷ rs) op qs = not_catalog r s (rs ++ op ∷ qs)

-- The policy of a path is that of its last operation and the segment behind it.
cache_control-last :
    (r : Bytes) (rs : List Bytes) (op ref : Bytes) (qs : List Bytes)
    → is_op op ≡ true
    → NoOp (ref ∷ qs)
    → All Segment ((r ∷ rs) ++ op ∷ ref ∷ qs)
    → cache_control (path_of ((r ∷ rs) ++ op ∷ ref ∷ qs)) ≡ (
        if is_tags_list (path_of ((r ∷ rs) ++ op ∷ ref ∷ qs))
        then mutable_short
        else operation_policy (some op) (some ref))
unfolding cache_control policy_at
cache_control-last r rs op ref qs operation none_after texts = rw (
  root_of r rs op (ref ∷ qs),
  catalog_of r rs op (ref ∷ qs),
  segments_of-path_of r (rs ++ op ∷ ref ∷ qs) texts,
  find_op_last (r ∷ rs) op (ref ∷ qs) operation none_after,
  at_op (r ∷ rs) op (ref ∷ qs) operation none_after (length (r ∷ rs)) refl,
  behind_op (r ∷ rs) op (ref ∷ qs) operation none_after (suc (length (r ∷ rs))) 0 (omega arith),
)

immutable_choice :
    (m r b d : Bool)
    → str_eq
        (if m
          then (if d then immutable_policy else mutable_short)
          else if r
          then mutable_short
          else if b
          then blob_policy
          else [])
        immutable_policy
      ≡ m && d
unfolding str_eq
immutable_choice true r b true = refl
immutable_choice true r b false = refl
immutable_choice false true b d = refl
immutable_choice false false true d = refl
immutable_choice false false false d = refl

list_choice :
    (t : Bool) (policy : Bytes) (q : Bool)
    → str_eq policy immutable_policy ≡ q
    → str_eq (if t then mutable_short else policy) immutable_policy ≡ not t && q
unfolding str_eq
list_choice true policy q h = refl
list_choice false policy q h = h

-- Only a manifest named by its digest is immutable.
operation_policy-immutable :
    (op ref : Bytes)
    → str_eq (operation_policy (some op) (some ref)) immutable_policy
      ≡ str_eq op manifests && has_prefix ref (codes "sha256:")
unfolding operation_policy
operation_policy-immutable op ref =
    immutable_choice (str_eq op manifests) (str_eq op referrers) (str_eq op blobs)
      (has_prefix ref (codes "sha256:"))

-- The answer to a path gets the immutable policy exactly if the path does not end in /tags/list,
-- its last operation is `manifests`, and the segment behind it starts with sha256:,
-- for a path of /v2/ and slash-free segments in which `op` is an operation with a segment before
-- it and no operation after it
-- but at least one segment.
pub cache_control-immutable :
    (r : Bytes) (rs : List Bytes) (op ref : Bytes) (qs : List Bytes)
    → is_op op ≡ true
    → NoOp (ref ∷ qs)
    → All Segment ((r ∷ rs) ++ op ∷ ref ∷ qs)
    → str_eq (cache_control (path_of ((r ∷ rs) ++ op ∷ ref ∷ qs))) immutable_policy
      ≡ not (is_tags_list (path_of ((r ∷ rs) ++ op ∷ ref ∷ qs)))
        && (str_eq op manifests && has_prefix ref (codes "sha256:"))
cache_control-immutable r rs op ref qs operation none_after texts =
    rw (cache_control-last r rs op ref qs operation none_after texts) (
      list_choice (is_tags_list (path_of ((r ∷ rs) ++ op ∷ ref ∷ qs))) _ _
        (operation_policy-immutable op ref))
