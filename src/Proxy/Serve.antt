-- ===== src/Proxy/Serve.antt =====
-- oci/proxy/proxy.go: `New`, `ServeHTTP`, `serveCatalog`, `getTransport`, `proxyRequest` and
-- `rewriteTagsName`. The registry client, the transport cache and JSON are an `Upstream`; the
-- proxy's state is its transport cache and the network.
pub mod Laws
use distroless.Prelude.{
  ℕ, Bool, true, false, ◌||◌, ◌&&◌, not, Option, none, some, List, [], ◌∷◌, ◌++◌, if◌then◌else◌,
  ltb, leb, ◌==◌, length, Result, ok, err,
}
use distroless.Strings.{Bytes, codes, str_eq, has_prefix}
use distroless.Proxy.Paths.{
  api_root, rewrite_path, extract_repo, is_blob, is_tags_list, cache_control,
}
use distroless.Proxy.Http.{
  Header, get, values, set, add, ResponseWriter, fresh, set_header, write_header, write, http_error,
  decimal,
}

pub record Proxy : Type 0 where
  pub upstream : Bytes
  pub repository_prefix : Bytes
  pub scheme : Bytes
  pub repos : Option (List Bytes)

unfoldable pub insecure : Proxy → Proxy
insecure p = record {
  upstream = p.upstream;
  repository_prefix = p.repository_prefix;
  scheme = codes "http";
  repos = p.repos;
}

unfoldable pub with_repos : List Bytes → Proxy → Proxy
with_repos repos p = record {
  upstream = p.upstream;
  repository_prefix = p.repository_prefix;
  scheme = p.scheme;
  repos = some repos;
}

unfoldable pub apply_options : List (Proxy → Proxy) → Proxy → Proxy
apply_options [] p = p
apply_options (o ∷ opts) p = apply_options opts (o p)

unfoldable pub new_proxy : Bytes → Bytes → List (Proxy → Proxy) → Proxy
new_proxy upstream repository_prefix opts = apply_options opts (record {
  upstream = upstream;
  repository_prefix = repository_prefix;
  scheme = codes "https";
  repos = none;
})

pub record Url : Type 0 where
  pub scheme : Bytes
  pub host : Bytes
  pub path : Bytes
  pub raw_query : Bytes

pub record Request : Type 0 where
  pub method : Bytes
  pub url : Url
  pub header : Header

-- `complete` is whether the body can be read to its end; `body` is what can be read
pub record Response : Type 0 where
  pub status_code : ℕ
  pub header : Header
  pub body : Bytes
  pub complete : Bool

-- what `json.Unmarshal` into a map leaves: an error, the nil map (for `null`), or a map
pub data Decoded : Type 0 where
  failed nil_map : Decoded
  object : List (Bytes × Bytes) → Decoded

-- the status of a `transport.Error`, where the error is one
pub data TransportError : Type 0 where
  parse_repository : TransportError
  transport : Option ℕ → TransportError

-- The registry client, the cache of transports and the JSON codec: what they do with the network
-- `W`, a transport `T`, the cache `C` and a repository `R`.
pub record Upstream (W T C R : Type 0) : Type 0 where
  pub new_repository : Bytes → Bytes → Bool → Option R
  pub new_transport : R → W → Result (Option ℕ) T × W
  pub new_request : Request → Bool
  pub round_trip : T → Request → W → Option Response × W
  pub cache_get : C → Bytes → Option T × C
  pub cache_add : C → Bytes → T → C
  pub unmarshal : Bytes → Decoded
  pub marshal : List (Bytes × Bytes) → Option Bytes
  pub marshal_text : Bytes → Bytes
  pub marshal_catalog : List Bytes → Bytes
  pub status_text : ℕ → Bytes

pub record State (W C : Type 0) : Type 0 where
  pub network : W
  pub transports : C

abbrev pub bad_gateway : ℕ
bad_gateway = 502

-- the headers of the upstream's answer that are passed on; keys in their canonical spelling
abbrev pub proxy_headers : List Bytes
proxy_headers =
    codes "Content-Type"
    ∷ codes "Content-Length"
    ∷ codes "Docker-Content-Digest"
    ∷ codes "Docker-Distribution-Api-Version"
    ∷ codes "Etag"
    ∷ codes "Link"
    ∷ codes "Location"
    ∷ []

-- `Header().Set` of a value that is not empty
unfoldable pub set_nonempty : Bytes → Bytes → Header → Header
set_nonempty key [] h = h
set_nonempty key (c ∷ v) h = set key (c ∷ v) h

unfoldable pub copy_headers : List Bytes → Header → Header → Header
copy_headers [] from h = h
copy_headers (k ∷ keys) from h = copy_headers keys from (set_nonempty k (get k from) h)

unfoldable pub forward_accept : List Bytes → Header → Header
forward_accept [] h = h
forward_accept (v ∷ vs) h = forward_accept vs (add (codes "Accept") v h)

unfoldable pub forwarded : Header → Header
forwarded from =
    copy_headers (codes "If-None-Match" ∷ codes "If-Modified-Since" ∷ []) from
      (forward_accept (values (codes "Accept") from) [])

unfoldable pub outgoing : Proxy → Request → Request
outgoing p r = record {
  method = r.method;
  url = record {
    scheme = p.scheme;
    host = p.upstream;
    path = rewrite_path r.url.path p.repository_prefix;
    raw_query = r.url.raw_query;
  };
  header = forwarded r.header;
}

module _ {W T C R : Type 0} (up : Upstream W T C R) where
  -- a transport that was made is kept in the cache
  unfoldable pub keep_transport :
      Bytes → C → Result (Option ℕ) T × W → Result TransportError T × State W C
  keep_transport repo cache (err e, net) =
      (err (transport e), record { network = net; transports = cache })
  keep_transport repo cache (ok t, net) =
      (ok t, record { network = net; transports = up.cache_add cache repo t })

  unfoldable pub open_transport : Bytes → W → C → Option R → Result TransportError T × State W C
  open_transport repo net cache none =
      (err parse_repository, record { network = net; transports = cache })
  open_transport repo net cache (some ref) = keep_transport repo cache (up.new_transport ref net)

  unfoldable pub cached_or_open :
      Proxy → Bytes → W → Option T × C → Result TransportError T × State W C
  cached_or_open p repo net (some t, cache) = (ok t, record { network = net; transports = cache })
  cached_or_open p repo net (none, cache) = open_transport repo net cache (
      up.new_repository (p.repository_prefix ++ b'/' ∷ repo) p.upstream
        (str_eq p.scheme (codes "http")))

  unfoldable pub get_transport : Proxy → Bytes → State W C → Result TransportError T × State W C
  get_transport p repo s = cached_or_open p repo s.network (up.cache_get s.transports repo)

  -- none: the write to the nil map panics
  unfoldable pub named : Bytes → ℕ → Bytes → ResponseWriter → Decoded → Option ResponseWriter
  named repo code text w failed = some (write text (write_header code w))
  named repo code text w nil_map = none
  named repo code text w (object fields) =
      elim (up.marshal (set (codes "name") (up.marshal_text repo) fields)) [
        | none ↦ some (write text (write_header code w))
        | some out ↦ some (
            write out
              (write_header code (set_header (codes "Content-Length") (decimal (length out)) w)))
      ]

  unfoldable pub rewrite_tags_name : ResponseWriter → Response → Bytes → Option ResponseWriter
  rewrite_tags_name w resp repo =
      if resp.complete
      then named repo resp.status_code resp.body w (up.unmarshal resp.body)
      else some (write_header resp.status_code w)

  unfoldable pub with_policy : Bytes → Header → Header
  with_policy path h = set_nonempty (codes "Cache-Control") (cache_control path) h

  unfoldable pub answer_header : Bytes → Response → Header → Header
  answer_header path resp h =
      if resp.status_code == 200 || resp.status_code == 307
      then with_policy path (copy_headers proxy_headers resp.header h)
      else copy_headers proxy_headers resp.header h

  unfoldable pub pass_on : Bytes → Bytes → Response → ResponseWriter → Option ResponseWriter
  pass_on path repo resp w =
      if is_tags_list path && resp.status_code == 200
      then rewrite_tags_name w resp repo
      else some (write resp.body (write_header resp.status_code w))

  unfoldable pub deliver : Bytes → Bytes → ResponseWriter → Option Response → Option ResponseWriter
  deliver path repo w none = some (http_error (codes "upstream request failed") bad_gateway w)
  deliver path repo w (some resp) =
      if is_blob path && ltb resp.status_code 300
      then some (http_error (codes "upstream did not redirect blob request") bad_gateway w)
      else pass_on path repo resp
          (record { header = answer_header path resp w.header; status = w.status; body = w.body })

  unfoldable pub delivered :
      Bytes → Bytes → ResponseWriter → C → Option Response × W → Option ResponseWriter × State W C
  delivered path repo w cache (o, net) =
      (deliver path repo w o, record { network = net; transports = cache })

  unfoldable pub send :
      Proxy → Request → Bytes → ResponseWriter → T → State W C → Option ResponseWriter × State W C
  send p r repo w t s =
      if up.new_request (outgoing p r)
      then delivered r.url.path repo w s.transports (up.round_trip t (outgoing p r) s.network)
      else (some (http_error (codes "bad request") 500 w), s)

  -- a status of the client's fault is passed on
  unfoldable pub refuse : TransportError → ResponseWriter → ResponseWriter
  refuse (transport (some code)) w =
      if leb 400 code && ltb code 500
      then http_error (up.status_text code) code w
      else http_error (codes "transport setup failed") bad_gateway w
  refuse (transport none) w = http_error (codes "transport setup failed") bad_gateway w
  refuse parse_repository w = http_error (codes "transport setup failed") bad_gateway w

  unfoldable pub with_transport :
      Proxy
      → Request
      → Bytes
      → ResponseWriter
      → Result TransportError T × State W C
      → Option ResponseWriter × State W C
  with_transport p r repo w (err e, s) = (some (refuse e w), s)
  with_transport p r repo w (ok t, s) = send p r repo w t s

  unfoldable pub proxy_request :
      Proxy → Request → ResponseWriter → State W C → Option ResponseWriter × State W C
  proxy_request p r w s =
      with_transport p r (extract_repo r.url.path) w (get_transport p (extract_repo r.url.path) s)

  unfoldable pub or_empty : Option (List Bytes) → List Bytes
  or_empty none = []
  or_empty (some repos) = repos

  unfoldable pub serve_catalog : Proxy → ResponseWriter → ResponseWriter
  serve_catalog p w =
      write (up.marshal_catalog (or_empty p.repos) ++ codes "\n")
        (set_header (codes "Content-Type") (codes "application/json") w)

  unfoldable pub serve_root : Bytes → ResponseWriter → ResponseWriter
  serve_root path w = write (codes "{}") (
      set_header (codes "Cache-Control") (cache_control path) (
        set_header (codes "Docker-Distribution-Api-Version") (codes "registry/2.0")
          (set_header (codes "Content-Type") (codes "application/json") w)))

  unfoldable pub serve_http :
      Proxy → Request → ResponseWriter → State W C → Option ResponseWriter × State W C
  serve_http p r w s =
      if not (str_eq r.method (codes "GET")) && not (str_eq r.method (codes "HEAD"))
      then (some (write_header 405 w), s)
      else if str_eq r.url.path api_root || str_eq r.url.path (codes "/v2")
      then (some (serve_root r.url.path w), s)
      else if str_eq r.url.path (codes "/v2/_catalog")
      then (
        some (serve_catalog p (set_header (codes "Cache-Control") (cache_control r.url.path) w)),
        s,
      )
      else if not (has_prefix r.url.path api_root)
      then (some (write_header 404 w), s)
      else proxy_request p r w s
