-- ===== src/Proxy/Tests.antt =====
-- Tests of Paths and Serve on the paths of the registry's API, and a run of each of its theorems.
use mathlib.Core.Path.{◌≡◌, refl}
use distroless.Prelude.{ℕ, none, some, ok, true, not, ◌&&◌, [], ◌∷◌, ◌++◌}
use distroless.Strings
use distroless.Strings.{Bytes, codes, str_eq, has_prefix}
use distroless.Strings.Split
use distroless.Strings.Split.{join}
use distroless.Proxy.Paths
use distroless.Proxy.Paths.{
  manifests, blobs, tags, extract_repo, rewrite_path, is_op, is_blob, is_tags_list, cache_control,
  immutable_policy, api_root,
}
use distroless.Proxy.Paths.Laws.{NoOp, Segment, path_of, extract_repo-last}
use distroless.Proxy.Http.{fresh}
use distroless.Proxy.Serve.{Request, Upstream, failed, new_proxy, serve_http}
use distroless.Proxy.Serve.Laws.{IsRedirectOrError, serve_http-blob}
use distroless.Proxy.Paths.Policy.{cache_control-immutable}

abbrev go : Bytes
go = codes "go"

go_text : Segment go
go_text = (refl, (refl, tt))

abbrev base : Bytes
base = codes "base"

base_text : Segment base
base_text = (refl, (refl, (refl, (refl, tt))))

man_text : Segment (codes "manifests")
man_text = (refl, (refl, (refl, (refl, (refl, (refl, (refl, (refl, (refl, tt)))))))))

abbrev ref : Bytes
ref = codes "sha256:0"

ref_text : Segment ref
ref_text = (refl, (refl, (refl, (refl, (refl, (refl, (refl, (refl, tt))))))))

blb_text : Segment (codes "blobs")
blb_text = (refl, (refl, (refl, (refl, (refl, tt)))))

manifests_operation : is_op manifests ≡ true
unfolding is_op Strings.str_eq
manifests_operation = refl

blobs_operation : is_op blobs ≡ true
unfolding is_op Strings.str_eq
blobs_operation = refl

ref-NoOp : NoOp (ref ∷ [])
unfolding is_op Strings.str_eq
ref-NoOp = (refl, tt)

repo_example :
    extract_repo (path_of ((base ∷ go ∷ []) ++ manifests ∷ ref ∷ [])) ≡ join b'/' (base ∷ go ∷ [])
repo_example =
    extract_repo-last base (go ∷ []) manifests (ref ∷ []) manifests_operation ref-NoOp
      (base_text, (go_text, (man_text, (ref_text, tt))))

immutable_example :
    str_eq (cache_control (path_of ((go ∷ []) ++ manifests ∷ ref ∷ []))) immutable_policy
    ≡ not (is_tags_list (path_of ((go ∷ []) ++ manifests ∷ ref ∷ [])))
      && (str_eq manifests manifests && has_prefix ref (codes "sha256:"))
immutable_example =
    cache_control-immutable go [] manifests ref [] manifests_operation ref-NoOp
      (go_text, (man_text, (ref_text, tt)))

-- A tag that is named like an operation is taken for one.
tag_named_blobs : is_blob (codes "/v2/go/manifests/blobs") ≡ true
unfolding is_blob Paths.blob_at Paths.find_op Paths.find_below Paths.op_at is_op Strings.str_eq
    Strings.trim_prefix Strings.cut_prefix Split.split
tag_named_blobs = refl

-- an upstream that answers everything with 200; its network, its cache and so on are a number
abbrev always_ok : Upstream ℕ ℕ ℕ ℕ
always_ok = record {
  new_repository = λ full registry plain. some 0;
  new_transport = λ ref net. (ok 0, net);
  new_request = λ r. true;
  round_trip = λ t r net.
      (some (record { status_code = 200; header = []; body = codes "x"; complete = true }), net);
  cache_get = λ cache repo. (none, cache);
  cache_add = λ cache repo t. cache;
  unmarshal = λ body. failed;
  marshal = λ fields. none;
  marshal_text = λ text. text;
  marshal_catalog = λ repos. [];
  status_text = λ code. [];
}

abbrev blob_request : Request
blob_request = record {
  method = codes "GET";
  url = record { scheme = []; host = []; path = codes "/v2/go/blobs/sha256:0"; raw_query = [] };
  header = [];
}

blob_path : is_blob (codes "/v2/go/blobs/sha256:0") ≡ true
unfolding is_blob Paths.blob_at Paths.find_op Paths.find_below Paths.op_at is_op Strings.str_eq
    Strings.trim_prefix Strings.cut_prefix Split.split
blob_path = refl

serve_example :
    IsRedirectOrError
      (serve_http always_ok
        (new_proxy (codes "r.io") (codes "base") [])
        blob_request
        fresh
        (record { network = 0; transports = 0 })).0
serve_example =
    serve_http-blob always_ok (new_proxy (codes "r.io") (codes "base") []) blob_request
      (record { network = 0; transports = 0 }) blob_path
