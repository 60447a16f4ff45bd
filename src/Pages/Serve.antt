-- ===== src/Pages/Serve.antt =====
-- The answers of web/internal/directory/page.go: `permanentRedirect`, `revalidated`, `writePage`,
-- `serveDocument`, `links` and `siblings`. A handler takes the response writer that it writes to.
-- The packages net/url, crypto/sha256, time and html/template are the record `Web`.
pub mod Views
pub mod Download
pub mod Shown
mod Tests
use distroless.Prelude.{
  ℕ, Bool, true, false, ◌||◌, not, Option, none, some, List, [], ◌∷◌, ◌++◌, if◌then◌else◌, ltb,
  length, map, sort_by, take,
}
use distroless.Strings.{Bytes, codes, str_eq, has_prefix}
use distroless.Proxy.Http.{ResponseWriter, set_header, write_header, write, http_error}
use distroless.Tags.Order.{Tag, compare_tag}
use distroless.Tags.Grouping.{Versions}
use distroless.Scans.Table.{Table}
use distroless.Scans.Report.{Report}
use distroless.History.{History}
use distroless.Pages.{
  is_digest, valid_ref, short_digest, pull_name, download_name, arch_query, family_url,
  resource_url,
}

pub record Links : Type 0 where
  pub download : Bytes
  pub sbom : Bytes
  pub vulnerabilities : Bytes
  pub history : Bytes
  pub versions : Bytes
  pub showing : Bytes
  pub permalink : Bytes
  pub siblings : List Tag

-- what a template renders, with the logo and the strip above the page left out
pub data Page : Type 0 where
  sbom_page : Table → Links → Page
  vulnerabilities_page : Report → Links → Page
  history_page : History → Links → Page
  versions_page : Versions → Page

-- `sum_hex` is a SHA-256 sum in hexadecimal, `format_time` the layout RFC3339Nano in UTC
pub record Web : Type 0 where
  pub path_escape : Bytes → Bytes
  pub query_escape : Bytes → Bytes
  pub sum_hex : Bytes → Bytes
  pub format_time : ℕ → Bytes
  pub render : Page → Option Bytes
  pub redirect : Bytes → ℕ → ResponseWriter → ResponseWriter

-- the fields of a request that the handlers read; `arch` is the value of its query
pub record PageRequest : Type 0 where
  pub family : Bytes
  pub ref : Bytes
  pub raw_query : Bytes
  pub arch : Bytes
  pub if_none_match : Bytes

abbrev pub view_sbom : Bytes
view_sbom = codes "sbom"

abbrev pub view_vulnerabilities : Bytes
view_vulnerabilities = codes "vulnerabilities"

abbrev pub view_history : Bytes
view_history = codes "history"

abbrev pub view_versions : Bytes
view_versions = codes "versions"

-- `strings.Contains`
unfoldable pub text_in : Bytes → Bytes → Bool
text_in [] part = has_prefix [] part
text_in (c ∷ s) part = has_prefix (c ∷ s) part || text_in s part

unfoldable pub quoted : Bytes → Bytes
quoted validator = 0x22 ∷ validator ++ 0x22 ∷ []

abbrev pub cache_control : Bytes
cache_control = codes "Cache-Control"

abbrev pub etag : Bytes
etag = codes "Etag"

unfoldable pub cached_for : Bytes → Bytes → Bytes → Bytes
cached_for ref at_digest at_tag = if is_digest ref then at_digest else at_tag

-- the headers of an answer that a validator stands for
unfoldable pub with_validator : Bytes → Bytes → ResponseWriter → ResponseWriter
with_validator validator policy w =
    set_header cache_control policy (set_header etag (quoted validator) w)

-- the answer, and whether the reader's copy was still good
unfoldable pub revalidated : PageRequest → Bytes → ResponseWriter → ResponseWriter × Bool
revalidated r validator w =
    let headed =
      with_validator validator
        (cached_for r.ref (codes "public, max-age=86400") (codes "public, max-age=300")) w in
    if text_in r.if_none_match (quoted validator)
    then (write_header 304 headed, true)
    else (headed, false)

unfoldable pub write_rendered : Option Bytes → ResponseWriter → ResponseWriter
write_rendered none w = http_error (codes "internal error") 500 w
write_rendered (some page) w =
    write page (set_header (codes "Content-Type") (codes "text/html; charset=utf-8") w)

-- what a download is called, its media type and the end of its name
pub record Attested : Type 0 where
  pub what : Bytes
  pub content_type : Bytes
  pub extension : Bytes

unfoldable pub bad_reference : Bytes → ResponseWriter → ResponseWriter
bad_reference ref w = http_error (codes "not an image reference: " ++ ref) 400 w

unfoldable pub not_published : Bytes → Bytes → ResponseWriter → ResponseWriter
not_published what image w =
    http_error (codes "no " ++ what ++ codes " published for " ++ image) 404 w

-- more than one tag, in the order of the versions page
unfoldable pub sibling_tags : (Bytes → Bytes) → Option (List Bytes) → List Tag
sibling_tags url none = []
sibling_tags url (some tags) =
    if ltb (length tags) 2
    then []
    else map (λ (tag : Bytes). record { name = tag; url = url tag }) (sort_by compare_tag tags)

module _ (web : Web) where
  unfoldable pub write_page : Page → ResponseWriter → ResponseWriter
  write_page page w = write_rendered (web.render page) w

  unfoldable pub permanent_redirect :
      (Bytes → Bytes) → PageRequest → ResponseWriter → ResponseWriter
  permanent_redirect target r w =
      let query = if str_eq r.raw_query [] then [] else codes "?" ++ r.raw_query in
      web.redirect (target r.family ++ query) 301
        (set_header cache_control (codes "public, max-age=300") w)

  -- the answer of a document that was fetched
  unfoldable pub send_document :
      Attested → PageRequest → Bytes → Bytes → ResponseWriter → ResponseWriter
  send_document kind r digest document w =
      let validator = digest ++ codes "-" ++ take 12 (web.sum_hex document) in
      let headed =
        with_validator validator
          (cached_for r.ref (codes "public, max-age=31536000, immutable")
            (codes "public, max-age=300"))
          w in
      if text_in r.if_none_match (quoted validator)
      then write_header 304 headed
      else write document (
          set_header (codes "Content-Disposition")
            (codes "attachment; filename="
              ++ quoted (download_name r.family r.ref digest kind.extension))
            (set_header (codes "Content-Type") kind.content_type headed))

  unfoldable pub answer_document :
      Attested → Bytes → PageRequest → Option (Bytes × Bytes) → ResponseWriter → ResponseWriter
  answer_document kind mirror r none w = not_published kind.what (pull_name mirror r.family r.ref) w
  answer_document kind mirror r (some (digest, document)) w = send_document kind r digest document w

  unfoldable pub serve_document :
      (Bytes → Bytes → Option (Bytes × Bytes))
      → Bytes
      → Attested
      → PageRequest
      → ResponseWriter
      → ResponseWriter
  serve_document fetch mirror kind r w =
      if not (valid_ref r.ref)
      then bad_reference r.ref w
      else answer_document kind mirror r (fetch r.family r.ref) w

  -- `tags` is what the source lists of the family
  unfoldable pub siblings : Option (List Bytes) → Bytes → Bytes → Bytes → List Tag
  siblings tags family view query =
      sibling_tags (λ tag. resource_url web.path_escape family tag view ++ query) tags

  unfoldable pub links : Option (List Bytes) → PageRequest → Bytes → Bytes → Links
  links tags r digest view =
      let query = arch_query web.query_escape r.arch in
      let url = resource_url web.path_escape r.family in
      record {
        download = url r.ref (view ++ codes ".json");
        sbom = url r.ref view_sbom ++ query;
        vulnerabilities = url r.ref view_vulnerabilities ++ query;
        history = url r.ref view_history ++ query;
        versions = family_url web.path_escape r.family view_versions;
        showing = if is_digest r.ref then short_digest r.ref else r.ref;
        permalink = if is_digest r.ref then [] else url digest view ++ query;
        siblings = siblings tags r.family view query;
      }
