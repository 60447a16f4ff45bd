-- ===== src/Proxy/Paths/Laws.antt =====
-- The repository and the operation of a path are read off its last operation segment.
use distroless.Prelude.{
  ℕ, zero, suc, ◌+◌, true, false, Option, some, List, [], ◌∷◌, ◌++◌, ◌≡◌, refl, sym, ◌∙◌, ap, arith,
  length, take, get_elem?, All, All-append, length-append, append_assoc,
}
use mathlib.Core.Path.{subst}
use distroless.Strings.{Bytes, str_eq, trim_prefix}
use distroless.Strings.Laws.{cut_prefix-append}
use distroless.Strings.Split.{join, Lacks, split-join}
use distroless.Proxy.Paths.{
  is_op, op_at, find_below, find_op, api_root, segments_of, rewrite_path, repo_before, extract_repo,
  is_blob, blob_at, blobs,
}

abbrev pub NoOp : List Bytes → Type 0
NoOp = All (λ s. is_op s ≡ false)

get_elem?-append :
    (xs ys : List Bytes) (i j : ℕ) → i ≡ length xs + j → get_elem? (xs ++ ys) i ≡ get_elem? ys j
get_elem?-append [] ys i j e = ap (get_elem? ys) (omega arith)
get_elem?-append (x ∷ xs) ys zero j e = absurd (omega arith)
get_elem?-append (x ∷ xs) ys (suc i) j e = get_elem?-append xs ys i j (omega arith)

take-append : (xs ys : List Bytes) → take (length xs) (xs ++ ys) ≡ xs
take-append [] ys = refl
take-append (x ∷ xs) ys = ap (λ (l : List Bytes). x ∷ l) (take-append xs ys)

-- segments that are no operation are passed over from the end
NoOp-op_at : (s : List Bytes) (i : ℕ) → NoOp s → op_at (get_elem? s i) ≡ false
unfolding op_at
NoOp-op_at [] i h = refl
NoOp-op_at (x ∷ s) zero h = h.0
NoOp-op_at (x ∷ s) (suc i) h = NoOp-op_at s i h.1

op_at-some : (o : Option Bytes) (s : Bytes) → o ≡ some s → is_op s ≡ true → op_at o ≡ true
unfolding op_at
op_at-some o s e h = rw (e, h)

module _ (rs : List Bytes) (op : Bytes) (qs : List Bytes) (operation : is_op op ≡ true)
    (none_after : NoOp qs) where
  pub at_op : (i : ℕ) → i ≡ length rs → get_elem? (rs ++ op ∷ qs) i ≡ some op
  at_op i e = get_elem?-append rs (op ∷ qs) i 0 (omega arith)

  pub behind_op : (i k : ℕ) → i ≡ suc (length rs + k) → get_elem? (rs ++ op ∷ qs) i ≡ get_elem? qs k
  behind_op i k e = get_elem?-append rs (op ∷ qs) i (suc k) (omega arith)

  find_below_last :
      (i k : ℕ) → i ≡ length rs + k → find_below (suc i) (rs ++ op ∷ qs) ≡ some (length rs)
  unfolding find_below
  find_below_last i zero e =
      let here : i ≡ length rs = omega arith in
      rw (op_at-some (get_elem? (rs ++ op ∷ qs) i) op (at_op i here) operation, here)
  find_below_last zero (suc k) e = absurd (omega arith)
  find_below_last (suc i) (suc k) e = rw (
    behind_op (suc i) k (omega arith),
    NoOp-op_at qs k none_after,
    find_below_last i k (omega arith),
  )

  pub find_op_last : find_op (rs ++ op ∷ qs) ≡ some (length rs)
  unfolding find_op
  find_op_last =
      let size : length (rs ++ op ∷ qs) ≡ suc (length rs + length qs) =
        omega (arith, length-append rs (op ∷ qs)) in
      ap (λ (n : ℕ). find_below n (rs ++ op ∷ qs)) size
      ∙ find_below_last (length rs + length qs) (length qs) refl

abbrev pub Segment : Bytes → Type 0
Segment = Lacks b'/'

-- `/v2/` and the segments, with `/` between them
abbrev pub path_of : List Bytes → Bytes
path_of segments = api_root ++ join b'/' segments

trim_prefix-append : (p s : Bytes) → trim_prefix (p ++ s) p ≡ s
unfolding trim_prefix
trim_prefix-append p s = rw (trim_prefix, cut_prefix-append p s)

pub segments_of-path_of :
    (s : Bytes) (ss : List Bytes) → All Segment (s ∷ ss) → segments_of (path_of (s ∷ ss)) ≡ s ∷ ss
segments_of-path_of s ss h =
    rw (trim_prefix-append api_root (join b'/' (s ∷ ss)), split-join b'/' s ss h)

-- The repository of a path is the segments before its last operation, joined by slashes:
-- for a path of /v2/ and slash-free segments in which `op` is an operation with a segment before
-- it and no operation after it,
-- ExtractRepo returns the segments before `op`.
pub extract_repo-last :
    (r : Bytes) (rs : List Bytes) (op : Bytes) (qs : List Bytes)
    → is_op op ≡ true
    → NoOp qs
    → All Segment ((r ∷ rs) ++ op ∷ qs)
    → extract_repo (path_of ((r ∷ rs) ++ op ∷ qs)) ≡ join b'/' (r ∷ rs)
unfolding extract_repo repo_before
extract_repo-last r rs op qs operation none_after texts = rw (
  segments_of-path_of r (rs ++ op ∷ qs) texts,
  find_op_last (r ∷ rs) op qs operation none_after,
  take-append (r ∷ rs) (op ∷ qs),
)

-- IsBlob tells whether the last operation of a path is `blobs`, for a path of /v2/ and slash-free segments in which `op` is an operation with a segment before
-- it and no operation after it.
pub is_blob-last :
    (r : Bytes) (rs : List Bytes) (op : Bytes) (qs : List Bytes)
    → is_op op ≡ true
    → NoOp qs
    → All Segment ((r ∷ rs) ++ op ∷ qs)
    → is_blob (path_of ((r ∷ rs) ++ op ∷ qs)) ≡ str_eq op blobs
unfolding is_blob blob_at
is_blob-last r rs op qs operation none_after texts = rw (
  segments_of-path_of r (rs ++ op ∷ qs) texts,
  find_op_last (r ∷ rs) op qs operation none_after,
  at_op (r ∷ rs) op qs operation none_after (length (r ∷ rs)) refl,
)

join-append :
    (p : Bytes) (ps : List Bytes) (r : Bytes) (rs : List Bytes)
    → join b'/' (p ∷ ps) ++ b'/' ∷ join b'/' (r ∷ rs) ≡ join b'/' ((p ∷ ps) ++ r ∷ rs)
unfolding join
join-append p [] r rs = refl
join-append p (q ∷ ps) r rs =
    append_assoc p (b'/' ∷ join b'/' (q ∷ ps)) (b'/' ∷ join b'/' (r ∷ rs))
    ∙ ap (λ (l : Bytes). p ++ b'/' ∷ l) (join-append q ps r rs)

-- The rewritten path is the path of the prefix's segments followed by the old ones.
pub rewrite_path-path_of :
    (p : Bytes) (ps : List Bytes) (s : Bytes) (ss : List Bytes)
    → rewrite_path (path_of (s ∷ ss)) (join b'/' (p ∷ ps)) ≡ path_of ((p ∷ ps) ++ s ∷ ss)
unfolding rewrite_path
rewrite_path-path_of p ps s ss =
    rw (trim_prefix-append api_root (join b'/' (s ∷ ss)), join-append p ps s ss)

-- Where a path is sent upstream, its repository is the one of the request behind the prefix and
-- a slash, for a prefix of slash-free segments and
-- for a path of /v2/ and slash-free segments in which `op` is an operation with a segment before
-- it and no operation after it.
pub extract_repo-rewrite_path :
    (p : Bytes) (ps : List Bytes) (r : Bytes) (rs : List Bytes) (op : Bytes) (qs : List Bytes)
    → is_op op ≡ true
    → NoOp qs
    → All Segment (p ∷ ps)
    → All Segment ((r ∷ rs) ++ op ∷ qs)
    → extract_repo (rewrite_path (path_of ((r ∷ rs) ++ op ∷ qs)) (join b'/' (p ∷ ps)))
      ≡ join b'/' (p ∷ ps) ++ b'/' ∷ extract_repo (path_of ((r ∷ rs) ++ op ∷ qs))
extract_repo-rewrite_path p ps r rs op qs operation none_after prefix texts =
    let all_texts : All Segment ((p ∷ ps ++ r ∷ rs) ++ op ∷ qs) =
      subst (λ (l : List Bytes). All Segment l) (sym (append_assoc (p ∷ ps) (r ∷ rs) (op ∷ qs)))
        (All-append Segment (p ∷ ps) ((r ∷ rs) ++ op ∷ qs) prefix texts) in
    ap extract_repo (
      rewrite_path-path_of p ps r (rs ++ op ∷ qs)
      ∙ ap path_of (sym (append_assoc (p ∷ ps) (r ∷ rs) (op ∷ qs))))
    ∙ extract_repo-last p (ps ++ r ∷ rs) op qs operation none_after all_texts
    ∙ sym (join-append p ps r rs)
    ∙ ap (λ (l : Bytes). join b'/' (p ∷ ps) ++ b'/' ∷ l)
        (sym (extract_repo-last r rs op qs operation none_after texts))
