-- ===== src/Pages/Serve/Download.antt =====
-- What a download is answered with.
use distroless.Prelude.{
  Bool, true, false, if◌then◌else◌, ◌≢◌, Option-cases, ap, ◌∙◌, Option, none, some, [], ◌++◌, ◌≡◌,
  refl, Bool-cases, ◌⊎◌, inl, inr, take, ℕ,
}
use distroless.Strings.{Bytes, codes, str_eq, has_prefix, cut_prefix}
use distroless.Strings.Laws.{cut_prefix_sound}
use distroless.Proxy.Http.{
  ResponseWriter, get, set, del, set_header, del_header, write_header, write, first_status,
  http_error, fresh,
}
use distroless.Pages.{is_digest, is_hex, valid_ref, pull_name}
use distroless.Pages.Serve.{
  Attested, Web, PageRequest, cache_control, text_in, quoted, cached_for, with_validator,
  bad_reference, not_published, send_document, answer_document, serve_document,
}

-- an error, which no cache is told to keep
abbrev pub Refused : ℕ → ResponseWriter → Type 0
Refused code w = (w.status ≡ some code) × (get cache_control w.header ≡ [])

-- the whole document, or no body for a reader whose copy is good
abbrev pub Delivered : Bytes → Bytes → ResponseWriter → Type 0
Delivered policy document w =
    (get cache_control w.header ≡ policy)
    × (((w.status ≡ some 304) × (w.body ≡ [])) ⊎ ((w.status ≡ some 200) × (w.body ≡ document)))

-- the policy that stands for a SHA-256 digest, or the one that stands for a tag
abbrev pub by_kind : Bytes → Bytes → Bytes → Bytes
by_kind ref at_digest at_tag = if has_prefix ref (codes "sha256:") then at_digest else at_tag

abbrev pub document_policy : Bytes → Bytes
document_policy ref =
    by_kind ref (codes "public, max-age=31536000, immutable") (codes "public, max-age=300")

hex_none : is_hex none ≢ true
unfolding is_hex
hex_none h = cc

is_digest-prefix : (s : Bytes) → is_digest (codes "sha256:" ++ s) ≡ true
unfolding is_digest
is_digest-prefix s = refl

-- of a reference that is valid, the colon tells which kind it is
is_digest-valid_ref :
    (ref : Bytes) → valid_ref ref ≡ true → is_digest ref ≡ has_prefix ref (codes "sha256:")
unfolding valid_ref has_prefix
is_digest-valid_ref ref valid = elim (Option-cases (cut_prefix ref (codes "sha256:"))) [
  | inl absent ↦ elim (Bool-cases (is_digest ref)) [
    | inl digest ↦ absurd (hex_none (rw (digest, absent) at valid))
    | inr tag ↦ rw (absent, tag) refl
  ]
  | inr (s, there) ↦
      let e : ref ≡ codes "sha256:" ++ s = cut_prefix_sound ref (codes "sha256:") s there in
      rw there (ap is_digest e ∙ is_digest-prefix s)
]

pub cached_for-by_kind :
    (ref at_digest at_tag : Bytes)
    → valid_ref ref ≡ true
    → cached_for ref at_digest at_tag ≡ by_kind ref at_digest at_tag
unfolding cached_for
cached_for-by_kind ref at_digest at_tag valid =
    ap (λ b. if b then at_digest else at_tag) (is_digest-valid_ref ref valid)

-- what the answer is, by what the reference is and what is published
abbrev pub Answered : Bool → Option (Bytes × Bytes) → Bytes → ResponseWriter → Type 0
Answered false published policy w = Refused 400 w
Answered true none policy w = Refused 404 w
Answered true (some (digest, document)) policy w = Delivered policy document w

pub Refused-http_error : (message : Bytes) (code : ℕ) → Refused code (http_error message code fresh)
unfolding http_error write write_header set_header del_header get set del first_status fresh str_eq
Refused-http_error message code = (refl, refl)

module _ (web : Web) (mirror : Bytes) (kind : Attested) (r : PageRequest) where
  document_policy_lem :
      valid_ref r.ref ≡ true
      → cached_for r.ref (codes "public, max-age=31536000, immutable") (codes "public, max-age=300")
        ≡ document_policy r.ref
  document_policy_lem =
      cached_for-by_kind r.ref (codes "public, max-age=31536000, immutable")
        (codes "public, max-age=300")

  Delivered-send_document :
      (digest document : Bytes)
      → valid_ref r.ref ≡ true
      → Delivered (document_policy r.ref) document (send_document web kind r digest document fresh)
  unfolding send_document with_validator write write_header set_header get set del first_status
      fresh str_eq
  Delivered-send_document digest document valid =
      elim (Bool-cases (
        text_in r.if_none_match (quoted (digest ++ codes "-" ++ take 12 (web.sum_hex document))))) [
          | inl good ↦ rw good (document_policy_lem valid, inl (refl, refl))
          | inr stale ↦ rw stale (document_policy_lem valid, inr (refl, refl))
        ]

  Answered-answer_document :
      (published : Option (Bytes × Bytes))
      → valid_ref r.ref ≡ true
      → Answered true published
          (document_policy r.ref)
          (answer_document web kind mirror r published fresh)
  unfolding answer_document not_published
  Answered-answer_document none valid =
      Refused-http_error
        (codes "no " ++ kind.what ++ codes " published for " ++ pull_name mirror r.family r.ref) 404
  Answered-answer_document (some (digest, document)) valid =
      Delivered-send_document digest document valid

  -- A download of no image reference is answered with status 400, and one of which nothing is published
  -- with 404, neither of which a cache is told to keep. Any other is answered with the whole document
  -- that is published, or with 304 and no body: for a reference that starts with sha256: a cache may keep
  -- it for a year as immutable, and for any other one, a tag, for five minutes.
  pub serve_document-Answered :
      (fetch : Bytes → Bytes → Option (Bytes × Bytes))
      → Answered
          (valid_ref r.ref)
          (fetch r.family r.ref)
          (document_policy r.ref)
          (serve_document web fetch mirror kind r fresh)
  unfolding serve_document bad_reference
  serve_document-Answered fetch = elim (Bool-cases (valid_ref r.ref)) [
    | inl valid ↦ rw valid (Answered-answer_document (fetch r.family r.ref) valid)
    | inr other ↦ rw other (Refused-http_error (codes "not an image reference: " ++ r.ref) 400)
  ]
