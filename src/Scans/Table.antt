-- ===== src/Scans/Table.antt =====
-- `NewTable` and `rankVersions` of web/internal/directory/sbom.go: an SBOM as the table that a page
-- shows. The fields that the handler sets are left out.
pub mod Kept
use distroless.Prelude.{
  ℕ, zero, suc, Option, none, some, List, [], ◌∷◌, if◌then◌else◌, length, get_elem?, map, sort_by,
  ℤ, is_zero,
}
use distroless.Strings.{Bytes, compare_text, cmp_or}
use distroless.Version.{compare_version}
use distroless.Scans.Arch.{belongs_to, architectures, resolve_arch}

pub record Component : Type 0 where
  pub name : Bytes
  pub version : Bytes
  pub license : Bytes
  pub kind : Bytes
  pub purl : Bytes
  pub arch : Bytes
  pub cpe : Bytes

pub record Row : Type 0 where
  pub component : Component
  pub version_rank : ℕ

pub record Table : Type 0 where
  pub image : Bytes
  pub digest : Bytes
  pub arch : Bytes
  pub architectures : List Bytes
  pub rows : List Row

unfoldable pub rows_of : Bytes → List Component → List Row
rows_of arch [] = []
rows_of arch (c ∷ components) =
    let rest = rows_of arch components in
    if belongs_to c.arch arch then (record { component = c; version_rank = 0 }) ∷ rest else rest

unfoldable pub compare_row : Row → Row → ℤ
compare_row a b = cmp_or (
    compare_text a.component.name b.component.name
    ∷ compare_version a.component.version b.component.version
    ∷ [])

-- `i` and the `n - 1` numbers after it
unfoldable pub indexes : ℕ → ℕ → List ℕ
indexes i zero = []
indexes i (suc n) = i ∷ indexes (suc i) n

abbrev pub version_in_row : Option Row → Bytes
version_in_row none = []
version_in_row (some r) = r.component.version

abbrev pub compare_at : List Row → ℕ → ℕ → ℤ
compare_at rows a b =
    compare_version (version_in_row (get_elem? rows a)) (version_in_row (get_elem? rows b))

unfoldable pub version_order : List Row → List ℕ
version_order rows = sort_by (compare_at rows) (indexes 0 (length rows))

unfoldable pub set_rank : ℕ → ℕ → List Row → List Row
set_rank i rank [] = []
set_rank zero rank (r ∷ rows) = (record { component = r.component; version_rank = rank }) ∷ rows
set_rank (suc i) rank (r ∷ rows) = r ∷ set_rank i rank rows

-- the rank of a row, behind the one before it in the order
unfoldable pub next_rank : List Row → ℕ → Option ℕ → ℕ → ℕ
next_rank rows rank none row = rank
next_rank rows rank (some previous) row =
    if is_zero (compare_at rows previous row) then rank else suc rank

unfoldable pub set_ranks : ℕ → Option ℕ → List ℕ → List Row → List Row
set_ranks rank previous [] rows = rows
set_ranks rank previous (row ∷ order) rows =
    let rank' = next_rank rows rank previous row in
    set_ranks rank' (some row) order (set_rank row rank' rows)

unfoldable pub rank_versions : List Row → List Row
rank_versions rows = set_ranks 0 none (version_order rows) rows

abbrev pub component_architectures : List Component → List Bytes
component_architectures = architectures (λ (c : Component). c.arch)

unfoldable pub new_table : Bytes → Bytes → Bytes → List Component → Table
new_table image digest arch components = record {
  image = image;
  digest = digest;
  arch = resolve_arch arch (component_architectures components);
  architectures = component_architectures components;
  rows = rank_versions (
      sort_by compare_row
        (rows_of (resolve_arch arch (component_architectures components)) components));
}
