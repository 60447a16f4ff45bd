-- ===== src/Scans/Report/Counts.antt =====
-- What the report counts, and the order of its rows.
use distroless.Prelude.{
  ℕ, zero, suc, ◌+◌, ◌<◌, Bool, true, ◌&&◌, not, List, [], ◌∷◌, ◌≡◌, refl, sym, ap, ◌∙◌, arith,
  if◌then◌else◌, ◌==◌, length, total, ascending, Follows, ascending-sort_by, map, Bool-cases, inl,
  inr,
}
use distroless.Strings.{Bytes, compare_nat, cmp_or}
use distroless.Scans.Severity.{scale, rank, rank_from}
use distroless.Scans.Report.{
  FindingRow, SeverityCount, Scan, Tally, is_suppressed, bump, tally_row, tally_rows, no_tally,
  summary_of, report_on, new_report, compare_suppressed, compare_rows, rows_for, shown_arch,
  tidy_row, fold_findings, no_rows,
}

rank_bound : (s : ℕ) → rank s < 6
unfolding rank rank_from
rank_bound s = ground arith

abbrev at : ℕ → List ℕ → ℕ
at i [] = 0
at zero (n ∷ counts) = n
at (suc i) (n ∷ counts) = at i counts

abbrev one_if : Bool → ℕ
one_if b = if b then 1 else 0

length-bump : (i : ℕ) (counts : List ℕ) → length (bump i counts) ≡ length counts
unfolding bump
length-bump i [] = refl
length-bump zero (n ∷ counts) = refl
length-bump (suc i) (n ∷ counts) = omega (arith, length-bump i counts)

at-bump :
    (i j : ℕ) (counts : List ℕ)
    → i < length counts
    → at j (bump i counts) ≡ at j counts + one_if (i == j)
unfolding bump
at-bump i j [] h = absurd (omega arith)
at-bump zero zero (n ∷ counts) h = ground arith
at-bump zero (suc j) (n ∷ counts) h = ground arith
at-bump (suc i) zero (n ∷ counts) h = ground arith
at-bump (suc i) (suc j) (n ∷ counts) h = ground (arith, at-bump i j counts)

abbrev sum : List ℕ → ℕ
sum = total (λ (n : ℕ). n)

sum-bump : (i : ℕ) (counts : List ℕ) → i < length counts → sum (bump i counts) ≡ suc (sum counts)
unfolding bump
sum-bump i [] h = absurd (omega arith)
sum-bump zero (n ∷ counts) h = omega arith
sum-bump (suc i) (n ∷ counts) h = omega (arith, sum-bump i counts (omega arith))

-- the number of the open rows that stand at a place of the scale
abbrev pub open_at : ℕ → List FindingRow → ℕ
open_at i =
    total (λ (r : FindingRow). one_if (not (is_suppressed r) && rank r.finding.severity == i))

-- what counting some rows adds to a tally
abbrev Adds : ℕ → List FindingRow → Tally → Tally → Type 0
Adds i rows t t' =
    (length t'.counts ≡ 6)
    × (at i t'.counts ≡ at i t.counts + open_at i rows)
    × (t'.open_count + t'.suppressed_count ≡ t.open_count + t.suppressed_count + length rows)
    × (sum t'.counts + t.open_count ≡ t'.open_count + sum t.counts)

Adds-tally_row :
    (i : ℕ) (r : FindingRow) (t : Tally) → length t.counts ≡ 6 → Adds i (r ∷ []) t (tally_row r t)
unfolding tally_row
Adds-tally_row i r t six = elim (Bool-cases (is_suppressed r)) [
  | inl set ↦ rw set (six, omega arith, omega arith, omega arith)
  | inr unset ↦
      let place = rank_bound r.finding.severity in
      let more = sum-bump (rank r.finding.severity) t.counts (omega (arith, place)) in
      rw unset (
        length-bump (rank r.finding.severity) t.counts ∙ six,
        at-bump (rank r.finding.severity) i t.counts (omega (arith, place)) ∙ omega arith,
        omega arith,
        omega (arith, more),
      )
]

Adds-tally_rows :
    (i : ℕ) (rows : List FindingRow) (t : Tally)
    → length t.counts ≡ 6
    → Adds i rows t (tally_rows rows t)
unfolding tally_rows
Adds-tally_rows i [] t six = (six, omega arith, omega arith, omega arith)
Adds-tally_rows i (r ∷ rows) t six =
    let (six', a, b, c) = Adds-tally_row i r t six in
    let (n, a', b', c') = Adds-tally_rows i rows (tally_row r t) six' in
    (n, omega (arith, a, a'), omega (arith, b, b'), omega (arith, c, c'))

-- what a summary says of a severity
abbrev pub count_at : ℕ → List SeverityCount → ℕ
count_at s = total (λ (c : SeverityCount). if c.severity == s then c.count else 0)

abbrev pub counted : List SeverityCount → ℕ
counted = total (λ (c : SeverityCount). c.count)

count_at-summary_of :
    (s l n : ℕ) (levels counts : List ℕ)
    → count_at s (summary_of (l ∷ levels) (n ∷ counts))
      ≡ (if l == s then n else 0) + count_at s (summary_of levels counts)
unfolding summary_of
count_at-summary_of s l n levels counts = ground arith

counted-summary_of :
    (levels counts : List ℕ)
    → length levels ≡ length counts
    → counted (summary_of levels counts) ≡ sum counts
unfolding summary_of
counted-summary_of [] [] h = refl
counted-summary_of [] (n ∷ counts) h = absurd (omega arith)
counted-summary_of (l ∷ levels) [] h = absurd (omega arith)
counted-summary_of (l ∷ levels) (n ∷ counts) h =
    ground (arith, counted-summary_of levels counts (omega arith))

at-rank :
    (s a b c d e f : ℕ)
    → s < 6
    → (if 1 == s then a else 0)
        + ((if 2 == s then b else 0)
            + ((if 3 == s then c else 0)
                + ((if 4 == s then d else 0)
                    + ((if 5 == s then e else 0) + ((if 0 == s then f else 0) + 0)))))
      ≡ at (rank s) (a ∷ b ∷ c ∷ d ∷ e ∷ f ∷ [])
unfolding rank rank_from
at-rank zero a b c d e f h = omega arith
at-rank (suc zero) a b c d e f h = omega arith
at-rank (suc (suc zero)) a b c d e f h = omega arith
at-rank (suc (suc (suc zero))) a b c d e f h = omega arith
at-rank (suc (suc (suc (suc zero)))) a b c d e f h = omega arith
at-rank (suc (suc (suc (suc (suc zero))))) a b c d e f h = omega arith
at-rank (suc (suc (suc (suc (suc (suc s)))))) a b c d e f h = absurd (omega arith)

count_at-scale :
    (s : ℕ) (counts : List ℕ)
    → length counts ≡ 6
    → s < 6
    → count_at s (summary_of scale counts) ≡ at (rank s) counts
unfolding summary_of
count_at-scale s [] six h = absurd (omega arith)
count_at-scale s (a ∷ []) six h = absurd (omega arith)
count_at-scale s (a ∷ b ∷ []) six h = absurd (omega arith)
count_at-scale s (a ∷ b ∷ c ∷ []) six h = absurd (omega arith)
count_at-scale s (a ∷ b ∷ c ∷ d ∷ []) six h = absurd (omega arith)
count_at-scale s (a ∷ b ∷ c ∷ d ∷ e ∷ []) six h = absurd (omega arith)
count_at-scale s (a ∷ b ∷ c ∷ d ∷ e ∷ f ∷ g ∷ counts) six h = absurd (omega arith)
count_at-scale s (a ∷ b ∷ c ∷ d ∷ e ∷ f ∷ []) six h =
    rw
      (
        count_at-summary_of s 1 a (2 ∷ 3 ∷ 4 ∷ 5 ∷ 0 ∷ []) (b ∷ c ∷ d ∷ e ∷ f ∷ []),
        count_at-summary_of s 2 b (3 ∷ 4 ∷ 5 ∷ 0 ∷ []) (c ∷ d ∷ e ∷ f ∷ []),
        count_at-summary_of s 3 c (4 ∷ 5 ∷ 0 ∷ []) (d ∷ e ∷ f ∷ []),
        count_at-summary_of s 4 d (5 ∷ 0 ∷ []) (e ∷ f ∷ []),
        count_at-summary_of s 5 e (0 ∷ []) (f ∷ []),
        count_at-summary_of s 0 f [] [],
      )
      (at-rank s a b c d e f h)

abbrev zeros : ℕ → List ℕ
zeros zero = []
zeros (suc n) = 0 ∷ zeros n

at-zeros : (i n : ℕ) → at i (zeros n) ≡ 0
at-zeros i zero = refl
at-zeros zero (suc n) = refl
at-zeros (suc i) (suc n) = at-zeros i n

-- The numbers of a report add up: its open and its suppressed rows are all of its rows, the summary
-- counts the open ones, and at each of the six severities as many as there are of its rank.
pub new_report-counts :
    (image digest arch : Bytes) (scan : Scan) (s : ℕ)
    → s < 6
    → let report = new_report image digest arch scan in
      (report.open_count + report.suppressed_count ≡ length report.rows)
      × (counted report.summary ≡ report.open_count)
      × (count_at s report.summary ≡ open_at (rank s) report.rows)
unfolding new_report report_on
new_report-counts image digest arch scan s h =
    let rows = rows_for (shown_arch arch scan) scan.findings in
    let (six, places, all_rows, sums) = Adds-tally_rows (rank s) rows no_tally refl in
    (
      omega (arith, all_rows),
      counted-summary_of scale (tally_rows rows no_tally).counts (sym six) ∙ omega (arith, sums),
      count_at-scale s (tally_rows rows no_tally).counts six h
          ∙ places
          ∙ ap (λ (n : ℕ). n + open_at (rank s) rows) (at-zeros (rank s) 6)
          ∙ omega arith,
    )

-- where a row belongs: the open ones first, and the worst severity first
abbrev pub place_of : FindingRow → ℕ
place_of r = (if is_suppressed r then 6 else 0) + rank r.finding.severity

Follows-compare_rows : Follows place_of compare_rows
unfolding compare_rows compare_suppressed compare_nat cmp_or
Follows-compare_rows a b =
    ground (arith, rank_bound a.finding.severity, rank_bound b.finding.severity)

-- In a report the open rows stand before the suppressed ones, and among either the worse severities
-- before the others.
pub new_report-ascending :
    (image digest arch : Bytes) (scan : Scan)
    → ascending place_of (new_report image digest arch scan).rows ≡ true
unfolding new_report report_on rows_for
new_report-ascending image digest arch scan =
    ascending-sort_by place_of compare_rows Follows-compare_rows
      (map tidy_row (fold_findings (shown_arch arch scan) scan.findings no_rows).rows)
