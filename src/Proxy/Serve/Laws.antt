-- ===== src/Proxy/Serve/Laws.antt =====
-- What the proxy answers to a request for a blob.
use distroless.Prelude.{
  ℕ, Bool, true, false, ◌&&◌, ◌≤◌, not, Option, none, some, if◌then◌else◌, ltb, leb, ◌==◌, Result,
  ok, err, ◌≡◌, refl, arith, Bool-cases, inl, inr, ap, sym, ◌∙◌, ◌≢◌,
}
use distroless.Strings.{Bytes, codes, str_eq, has_prefix}
use distroless.Strings
use distroless.Strings.Split
use distroless.Strings.Laws.{str_eq_sound}
use distroless.Proxy.Paths
use distroless.Proxy.Paths.{extract_repo, is_blob, is_tags_list, cache_control, api_root}
use distroless.Proxy.Http.{
  ResponseWriter, fresh, http_error, write, write_header, set_header, del_header, first_status,
  sent_status,
}
use distroless.Proxy.Serve.{
  outgoing, serve_http, Proxy, Request, Response, TransportError, parse_repository, transport,
  Upstream, State, get_transport, deliver, pass_on, delivered, send, refuse, with_transport,
  proxy_request,
}

-- the handler does not panic, and what it sends has a status of 300 or more
unfoldable pub IsRedirectOrError : Option ResponseWriter → Type 0
IsRedirectOrError none = ⊥
IsRedirectOrError (some w) = 300 ≤ sent_status w.status

http_error-300 :
    (message : Bytes) (code : ℕ) (w : ResponseWriter)
    → w.status ≡ none
    → 300 ≤ code
    → IsRedirectOrError (some (http_error message code w))
unfolding IsRedirectOrError http_error write write_header set_header del_header first_status
    sent_status
http_error-300 message code w unsent h = rw (unsent) h

module _ {W T C R : Type 0} (up : Upstream W T C R) (w : ResponseWriter)
    (unsent : w.status ≡ none) where
  not_ok : (code : ℕ) → ltb code 300 ≡ false → (code == 200) ≡ false
  not_ok code h = ground arith

  at_least : (code : ℕ) → ltb code 300 ≡ false → 300 ≤ code
  at_least code h = ground arith

  and_not : (a b : Bool) → b ≡ false → a && b ≡ false
  and_not true b h = h
  and_not false b h = refl

  deliver-blob :
      (path repo : Bytes) (o : Option Response)
      → is_blob path ≡ true
      → IsRedirectOrError (deliver up path repo w o)
  unfolding deliver IsRedirectOrError pass_on write write_header first_status sent_status
  deliver-blob path repo none b = http_error-300 _ 502 w unsent (omega arith)
  deliver-blob path repo (some resp) b = elim (Bool-cases (ltb resp.status_code 300)) [
    | inl low ↦ rw (b, low) (http_error-300 _ 502 w unsent (omega arith))
    | inr high ↦
        rw
          (
            b,
            high,
            and_not (is_tags_list path) (resp.status_code == 200) (not_ok resp.status_code high),
            unsent,
          )
          (at_least resp.status_code high)
  ]

  at_least_400 : (code : ℕ) → leb 400 code && ltb code 500 ≡ true → 300 ≤ code
  at_least_400 code h = ground arith

  refuse-300 : (e : TransportError) → IsRedirectOrError (some (refuse up e w))
  unfolding refuse
  refuse-300 parse_repository = http_error-300 _ 502 w unsent (omega arith)
  refuse-300 (transport none) = http_error-300 _ 502 w unsent (omega arith)
  refuse-300 (transport (some code)) = elim (Bool-cases (leb 400 code && ltb code 500)) [
    | inl client ↦
        rw (client) (http_error-300 (up.status_text code) code w unsent (at_least_400 code client))
    | inr other ↦ rw (other) (http_error-300 _ 502 w unsent (omega arith))
  ]

  send-blob :
      (p : Proxy) (r : Request) (repo : Bytes) (t : T) (s : State W C)
      → is_blob r.url.path ≡ true
      → IsRedirectOrError (send up p r repo w t s).0
  unfolding send delivered
  send-blob p r repo t s b = elim (Bool-cases (up.new_request (outgoing p r))) [
    | inl valid ↦
        rw (valid) (deliver-blob r.url.path repo (up.round_trip t (outgoing p r) s.network).0 b)
    | inr invalid ↦ rw (invalid) (http_error-300 _ 500 w unsent (omega arith))
  ]

  with_transport-blob :
      (p : Proxy) (r : Request) (repo : Bytes) (got : Result TransportError T × State W C)
      → is_blob r.url.path ≡ true
      → IsRedirectOrError (with_transport up p r repo w got).0
  unfolding with_transport
  with_transport-blob p r repo (err e, s) b = refuse-300 e
  with_transport-blob p r repo (ok t, s) b = send-blob p r repo t s b

true≢false : true ≢ false
true≢false h = cc

-- The root and the catalog are no blobs.
no_blob :
    (is_blob api_root ≡ false)
    × (is_blob (codes "/v2") ≡ false)
    × (is_blob (codes "/v2/_catalog") ≡ false)
unfolding is_blob Paths.blob_at Paths.find_op Paths.find_below Split.split Strings.trim_prefix
    Strings.cut_prefix Paths.op_at Paths.is_op str_eq
no_blob = (refl, refl, refl)

not_path :
    (path : Bytes) → is_blob path ≡ true → (s : Bytes) → is_blob s ≡ false → str_eq path s ≡ false
not_path path b s other = elim (Bool-cases (str_eq path s)) [
  | inl same ↦ absurd (true≢false (sym b ∙ ap is_blob (str_eq_sound path s same) ∙ other))
  | inr different ↦ different
]

elsewhere :
    {W T C R : Type 0} (up : Upstream W T C R) (p : Proxy) (r : Request) (s : State W C)
    → is_blob r.url.path ≡ true
    → IsRedirectOrError
        (if not (has_prefix r.url.path api_root)
          then (some (write_header 404 fresh), s)
          else proxy_request up p r fresh s).0
unfolding IsRedirectOrError write_header first_status sent_status fresh proxy_request
elsewhere up p r s b = elim (Bool-cases (has_prefix r.url.path api_root)) [
  | inl served ↦ rw (served) (
      with_transport-blob up fresh refl p r (extract_repo r.url.path)
        (get_transport up p (extract_repo r.url.path) s) b)
  | inr foreign ↦ rw (foreign) (omega arith)
]

-- A request for a path that IsBlob tells to be a blob's is never answered with a status below
-- 300, and never with a panic, whatever the request, the upstream, its answers, the cache and the
-- JSON codec do.
pub serve_http-blob :
    {W T C R : Type 0} (up : Upstream W T C R) (p : Proxy) (r : Request) (s : State W C)
    → is_blob r.url.path ≡ true
    → IsRedirectOrError (serve_http up p r fresh s).0
unfolding serve_http IsRedirectOrError write_header first_status sent_status fresh
serve_http-blob up p r s b =
    elim (Bool-cases
      (not (str_eq r.method (codes "GET")) && not (str_eq r.method (codes "HEAD")))) [
        | inl other ↦ rw (other) (omega arith)
        | inr read ↦
            rw
              (
                read,
                not_path r.url.path b api_root no_blob.0,
                not_path r.url.path b (codes "/v2") no_blob.1,
                not_path r.url.path b (codes "/v2/_catalog") no_blob.2,
              )
              (elsewhere up p r s b)
      ]
