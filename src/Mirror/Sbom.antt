-- ===== src/Mirror/Sbom.antt =====
-- `components` of web/internal/mirror/mirror.go and what it calls: a CycloneDX document as the rows
-- of a page. What `url.ParseQuery` reads of a query is the argument `parse_query`.
use distroless.Prelude.{◌++◌, Option, none, some, List, [], ◌∷◌, if◌then◌else◌, not, map}
use distroless.Strings.{Bytes, codes, str_eq, cut_first, cut_prefix}
use distroless.Strings.Split.{join_commas}
use distroless.Scans.Table.{Component}

-- a choice of the license union; `license` is the id and the name where there is one
pub record LicenseChoice : Type 0 where
  pub license : Option (Bytes × Bytes)
  pub expression : Bytes

pub record BomComponent : Type 0 where
  pub name : Bytes
  pub version : Bytes
  pub licenses : Option (List LicenseChoice)
  pub package_url : Bytes
  pub cpe : Bytes

-- a document, to the depth that is read
pub record Bom : Type 0 where
  pub components : Option (List BomComponent)

unfoldable pub expression_names : Bytes → List Bytes
expression_names expression = if str_eq expression [] then [] else expression ∷ []

unfoldable pub choice_names : Option (Bytes × Bytes) → Bytes → List Bytes
choice_names none expression = expression_names expression
choice_names (some (id, name)) expression =
    if not (str_eq id [])
    then id ∷ []
    else if not (str_eq name [])
    then name ∷ []
    else expression_names expression

unfoldable pub license_names : List LicenseChoice → List Bytes
license_names [] = []
license_names (c ∷ choices) = choice_names c.license c.expression ++ license_names choices

unfoldable pub licenses : Option (List LicenseChoice) → Bytes
licenses none = []
licenses (some choices) = join_commas (license_names choices)

abbrev pub Query : Type 0
Query = Bytes → Bytes → Option Bytes

abbrev pub or_empty : Option Bytes → Bytes
or_empty none = []
or_empty (some s) = s

unfoldable pub query_value : Query → Bytes → Option (Bytes × Bytes) → Bytes
query_value parse_query key none = []
query_value parse_query key (some (before, query)) = or_empty (parse_query query key)

unfoldable pub qualifier : Query → Bytes → Bytes → Bytes
qualifier parse_query purl key = query_value parse_query key (cut_first b'?' purl)

-- what stands before the first slash
unfoldable pub before_slash : Bytes → Option (Bytes × Bytes) → Bytes
before_slash rest none = rest
before_slash rest (some (kind, name)) = kind

unfoldable pub ecosystem_of : Option Bytes → Bytes
ecosystem_of none = []
ecosystem_of (some rest) = before_slash rest (cut_first b'/' rest)

unfoldable pub ecosystem : Bytes → Bytes
ecosystem purl = ecosystem_of (cut_prefix purl (codes "pkg:"))

unfoldable pub component_row : Query → BomComponent → Component
component_row parse_query c = record {
  name = c.name;
  version = c.version;
  license = licenses c.licenses;
  kind = ecosystem c.package_url;
  purl = c.package_url;
  arch = qualifier parse_query c.package_url (codes "arch");
  cpe = c.cpe;
}

unfoldable pub components_of : Query → Option (List BomComponent) → List Component
components_of parse_query none = []
components_of parse_query (some cs) = map (component_row parse_query) cs

unfoldable pub components : Query → Bom → List Component
components parse_query bom = components_of parse_query bom.components
