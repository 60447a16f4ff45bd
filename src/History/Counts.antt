-- ===== src/History/Counts.antt =====
-- What a history counts, and the order of its points.
use distroless.Prelude.{
  ℕ, zero, suc, ◌+◌, ◌≤◌, ◌<◌, Bool, true, ◌&&◌, List, [], ◌∷◌, ◌≡◌, refl, ◌∙◌, arith, leb, length,
  total, all, ascending, Follows, ascending-sort_by, All, All-sort_by, All-append, sort_by,
  Bool-cases, inl, inr,
}
use distroless.Strings.{Bytes, compare_nat}
use distroless.Scans.Report.{Scan, SeverityCount, new_report}
use distroless.Scans.Report.Counts.{counted, new_report-counts}
use distroless.History.{
  Era, Point, band, no_counts, add_at, band_counts, point_of, until_of, is_past, era_points,
  points_of, compare_points, first_time, last_time, history_on, ordered, eras_arch, new_history,
}

abbrev sum : List ℕ → ℕ
sum = total (λ (n : ℕ). n)

band_bound : (s : ℕ) → band s < 6
unfolding band
band_bound s = ground arith

length-add_at : (i n : ℕ) (counts : List ℕ) → length (add_at i n counts) ≡ length counts
unfolding add_at
length-add_at i n [] = refl
length-add_at zero n (c ∷ counts) = refl
length-add_at (suc i) n (c ∷ counts) = omega (arith, length-add_at i n counts)

sum-add_at :
    (i n : ℕ) (counts : List ℕ) → i < length counts → sum (add_at i n counts) ≡ sum counts + n
unfolding add_at
sum-add_at i n [] h = absurd (omega arith)
sum-add_at zero n (c ∷ counts) h = omega arith
sum-add_at (suc i) n (c ∷ counts) h = omega (arith, sum-add_at i n counts (omega arith))

sum-band_counts :
    (summary : List SeverityCount) (counts : List ℕ)
    → length counts ≡ 6
    → sum (band_counts summary counts) ≡ sum counts + counted summary
unfolding band_counts
sum-band_counts [] counts six = omega arith
sum-band_counts (c ∷ summary) counts six =
    let here =
      sum-add_at (band c.severity) c.count counts (omega (arith, six, band_bound c.severity)) in
    let rest =
      sum-band_counts summary (add_at (band c.severity) c.count counts)
        (length-add_at (band c.severity) c.count counts ∙ six) in
    omega (arith, here, rest)

-- the bands of a point are its open findings
abbrev pub AddsUp : Point → Type 0
AddsUp p = sum p.counts ≡ p.open_count

AddsUp-point_of :
    (image arch digest : Bytes) (scan : Scan)
    → AddsUp (point_of digest scan (new_report image digest arch scan))
unfolding point_of
AddsUp-point_of image arch digest scan =
    let bands = sum-band_counts (new_report image digest arch scan).summary no_counts refl in
    let report = (new_report-counts image digest arch scan 0 (omega arith)).1 in
    omega (arith, bands, report)

AddsUp-era_points :
    (image arch : Bytes) (until : ℕ) (digest : Bytes) (scans : List Scan)
    → All AddsUp (era_points image arch until digest scans)
unfolding era_points
AddsUp-era_points image arch until digest [] = tt
AddsUp-era_points image arch until digest (scan ∷ scans) =
    elim (Bool-cases (is_past until scan.finished)) [
      | inl past ↦ rw past (AddsUp-era_points image arch until digest scans)
      | inr here ↦
          rw here (
            AddsUp-point_of image arch digest scan,
            AddsUp-era_points image arch until digest scans,
          )
    ]

AddsUp-points_of : (image arch : Bytes) (eras : List Era) → All AddsUp (points_of image arch eras)
unfolding points_of
AddsUp-points_of image arch [] = tt
AddsUp-points_of image arch (e ∷ eras) =
    All-append AddsUp (era_points image arch (until_of eras) e.digest e.scans)
      (points_of image arch eras) (AddsUp-era_points image arch (until_of eras) e.digest e.scans)
      (AddsUp-points_of image arch eras)

abbrev pub time_of : Point → ℕ
time_of p = p.finished

Follows-compare_points : Follows time_of compare_points
unfolding compare_points compare_nat
Follows-compare_points a b = ground arith

abbrev pub within : ℕ → ℕ → Point → Bool
within from to p = leb from p.finished && leb p.finished to

-- in order, the points stand between the first and the last time
within-ascending :
    (p : Point) (points : List Point) (n : ℕ)
    → ascending time_of (p ∷ points) ≡ true
    → n ≤ p.finished
    → (p.finished ≤ last_time (p ∷ points))
      × (all (within n (last_time (p ∷ points))) (p ∷ points) ≡ true)
unfolding last_time
within-ascending p [] n h low = (omega arith, ground arith)
within-ascending p (q ∷ points) n h low =
    let (below, rest) = within-ascending q points n (ground arith) (ground arith) in
    (ground (arith, below), ground (arith, below, rest))

within-times :
    (points : List Point)
    → ascending time_of points ≡ true
    → all (within (first_time points) (last_time points)) points ≡ true
unfolding first_time
within-times [] h = refl
within-times (p ∷ points) h = (within-ascending p points p.finished h (omega arith)).1

-- The bands of each point of a history add up to its open findings, the points stand in the order in
-- which the scans finished, and all of them between the two ends of the history.
pub new_history-AddsUp :
    (image digest arch : Bytes) (eras : List Era)
    → let history = new_history image digest arch eras in
      All AddsUp history.points
      × (ascending time_of history.points ≡ true)
      × (all (within history.from history.to) history.points ≡ true)
unfolding new_history history_on
new_history-AddsUp image digest arch eras =
    let points = points_of image (eras_arch arch eras) (ordered eras) in
    let in_order = ascending-sort_by time_of compare_points Follows-compare_points points in
    (
      All-sort_by AddsUp compare_points points
          (AddsUp-points_of image (eras_arch arch eras) (ordered eras)),
      in_order,
      within-times (sort_by compare_points points) in_order,
    )
