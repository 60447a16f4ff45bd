-- ===== src/Scans/Table/Kept.antt =====
-- A table has the components of its architecture, each as often as the SBOM has it.
use distroless.Prelude.{
  ℕ, zero, suc, Option, none, some, List, [], ◌∷◌, ◌≡◌, refl, ◌∙◌, arith, if◌then◌else◌, total,
  total-sort_by, sort_by,
}
use distroless.Strings.{Bytes}
use distroless.Scans.Arch.{belongs_to, resolve_arch}
use distroless.Scans.Table.{
  Component, Row, rows_of, compare_row, version_order, set_rank, next_rank, set_ranks,
  rank_versions, component_architectures, new_table,
}

module _ (f : Component → ℕ) where
  abbrev weight : List Row → ℕ
  weight = total (λ (r : Row). f r.component)

  weight-set_rank : (i rank : ℕ) (rows : List Row) → weight (set_rank i rank rows) ≡ weight rows
  unfolding set_rank
  weight-set_rank i rank [] = refl
  weight-set_rank zero rank (r ∷ rows) = refl
  weight-set_rank (suc i) rank (r ∷ rows) = omega (arith, weight-set_rank i rank rows)

  weight-set_ranks :
      (rank : ℕ) (previous : Option ℕ) (order : List ℕ) (rows : List Row)
      → weight (set_ranks rank previous order rows) ≡ weight rows
  unfolding set_ranks
  weight-set_ranks rank previous [] rows = refl
  weight-set_ranks rank previous (row ∷ order) rows =
      let rank' = next_rank rows rank previous row in
      weight-set_ranks rank' (some row) order (set_rank row rank' rows)
      ∙ weight-set_rank row rank' rows

  weight-rows_of :
      (arch : Bytes) (components : List Component)
      → weight (rows_of arch components)
        ≡ total (λ (c : Component). if belongs_to c.arch arch then f c else 0) components
  unfolding rows_of
  weight-rows_of arch [] = refl
  weight-rows_of arch (c ∷ components) = ground (arith, weight-rows_of arch components)

  -- The rows of a table that NewTable makes are the components that belong to the architecture it
  -- resolves, each as often as the SBOM has it: any sum over the rows' components is the sum over
  -- those components.
  pub new_table-total :
      (image digest arch : Bytes) (components : List Component)
      → total (λ (r : Row). f r.component) (new_table image digest arch components).rows
        ≡ total
            (λ (c : Component).
              if belongs_to c.arch (new_table image digest arch components).arch then f c else 0)
            components
  unfolding new_table rank_versions
  new_table-total image digest arch components =
      let shown = resolve_arch arch (component_architectures components) in
      let rows = rows_of shown components in
      weight-set_ranks 0 none (version_order (sort_by compare_row rows)) (sort_by compare_row rows)
      ∙ total-sort_by (λ (r : Row). f r.component) compare_row rows
      ∙ weight-rows_of shown components
