-- ===== src/History/Revisited.antt =====
-- A tag that moved away from a build and back to it.
use distroless.Prelude.{
  ℕ, ◌+◌, ◌*◌, ◌<◌, Bool, false, ◌&&◌, not, List, [], ◌∷◌, map, ◌≡◌, refl, ap, ◌∙◌, arith, some,
  if◌then◌else◌, ◌==◌, ltb, total, total-append, total-sort_by, sort_by, Bool-cases, inl, inr,
}
use distroless.Prelude.{insert_by}
use distroless.Prelude.{is_neg}
use distroless.Strings.Laws.{str_eq_refl}
use distroless.Strings.{Bytes, compare_nat, str_eq}
use distroless.Scans.Report.{Scan}
use distroless.Mirror.Ledger.{Move}
use distroless.History.{
  Era, Point, point_of, until_of, is_past, era_points, points_of, compare_points, compare_eras,
  history_on, ordered, eras_arch, new_history,
}
use distroless.History.Handler.{
  Source, move_era, moves_eras, ends_with, close_eras, eras_from, tag_eras,
}

abbrev one_if : Bool → ℕ
one_if b = if b then 1 else 0

-- the points of a build at a time
abbrev pub points_at : Bytes → ℕ → List Point → ℕ
points_at digest t = total (λ (p : Point). one_if (str_eq p.digest digest && p.finished == t))

-- the scans that finished at a time
abbrev pub finished_at : ℕ → List Scan → ℕ
finished_at t = total (λ (s : Scan). one_if (s.finished == t))

points_at-era_points :
    (image arch : Bytes) (until : ℕ) (digest d : Bytes) (t : ℕ) (scans : List Scan)
    → points_at d t (era_points image arch until digest scans)
      ≡ (if str_eq digest d && not (is_past until t) then finished_at t scans else 0)
unfolding era_points point_of is_past
points_at-era_points image arch until digest d t [] = ground arith
points_at-era_points image arch until digest d t (scan ∷ scans) =
    ground (arith, points_at-era_points image arch until digest d t scans)

-- the scans of a build that finished at a time before its era ended
abbrev pub kept_at : Bytes → ℕ → List Era → ℕ
kept_at d t [] = 0
kept_at d t (e ∷ eras) =
    (if str_eq e.digest d && not (is_past (until_of eras) t) then finished_at t e.scans else 0)
    + kept_at d t eras

points_at-points_of :
    (image arch d : Bytes) (t : ℕ) (eras : List Era)
    → points_at d t (points_of image arch eras) ≡ kept_at d t eras
unfolding points_of
points_at-points_of image arch d t [] = refl
points_at-points_of image arch d t (e ∷ eras) =
    total-append (λ (p : Point). one_if (str_eq p.digest d && p.finished == t))
      (era_points image arch (until_of eras) e.digest e.scans) (points_of image arch eras)
    ∙ ap (λ (n : ℕ). n + points_at d t (points_of image arch eras))
        (points_at-era_points image arch (until_of eras) e.digest d t e.scans)
    ∙ ap
        (λ (n : ℕ).
          (if str_eq e.digest d && not (is_past (until_of eras) t)
            then finished_at t e.scans
            else 0)
          + n)
        (points_at-points_of image arch d t eras)

points_at-new_history :
    (image digest arch d : Bytes) (t : ℕ) (eras : List Era)
    → points_at d t (new_history image digest arch eras).points ≡ kept_at d t (ordered eras)
unfolding new_history history_on
points_at-new_history image digest arch d t eras =
    total-sort_by (λ (p : Point). one_if (str_eq p.digest d && p.finished == t)) compare_points
      (points_of image (eras_arch arch eras) (ordered eras))
    ∙ points_at-points_of image (eras_arch arch eras) d t (ordered eras)

-- the moves of a tag
abbrev pub of_tag : Bytes → List Move → List Move
of_tag tag [] = []
of_tag tag (m ∷ moves) = if str_eq m.tag tag then m ∷ of_tag tag moves else of_tag tag moves

moves_eras-of_tag :
    (source : Source) (family tag digest : Bytes) (series : List Scan) (moves : List Move)
    → moves_eras source family tag digest series moves
      ≡ map (move_era source family digest series) (of_tag tag moves)
unfolding moves_eras
moves_eras-of_tag source family tag digest series [] = refl
moves_eras-of_tag source family tag digest series (m ∷ moves) =
    elim (Bool-cases (str_eq m.tag tag)) [
      | inl same ↦ rw (same, moves_eras-of_tag source family tag digest series moves) refl
      | inr other ↦ rw (other, moves_eras-of_tag source family tag digest series moves) refl
    ]

not_before : (a b : Era) → 0 < a.from → a.from < b.from → is_neg (compare_eras b a) ≡ false
unfolding compare_eras compare_nat
not_before a b h k = ground arith

ordered-three :
    (a b c : Era)
    → 0 < a.from
    → a.from < b.from
    → b.from < c.from
    → ordered (a ∷ b ∷ c ∷ []) ≡ a ∷ b ∷ c ∷ []
unfolding sort_by insert_by
ordered-three a b c h k l = rw (not_before b c (omega arith) l, not_before a b h k) refl

kept_at-three :
    (a b c : Era) (t : ℕ)
    → 0 < a.from
    → a.from < b.from
    → b.from < c.from
    → str_eq b.digest a.digest ≡ false
    → c.digest ≡ a.digest
    → c.scans ≡ a.scans
    → kept_at a.digest t (a ∷ b ∷ c ∷ []) ≡ (if ltb t b.from then 2 else 1) * finished_at t a.scans
unfolding is_past until_of
kept_at-three a b c t h k l other back same =
    rw (back, same, other, str_eq_refl a.digest) (ground arith)

abbrev era_at : Bytes → ℕ → List Scan → Era
era_at digest from scans = record { digest = digest; from = from; scans = scans }

module _ (source : Source) (family tag image arch : Bytes) where
  -- Where a tag moved from one build to another and back, and the first is the current one, the
  -- history has each scan of it that finished before the tag moved away twice, and the later ones
  -- once, those of the time in between among them.
  pub tag_eras-revisited :
      (series : List Scan) (moves : List Move) (a b c : Move) (t : ℕ)
      → source.moves family ≡ some moves
      → of_tag tag moves ≡ a ∷ b ∷ c ∷ []
      → 0 < a.at
      → a.at < b.at
      → b.at < c.at
      → str_eq b.digest a.digest ≡ false
      → c.digest ≡ a.digest
      → points_at a.digest t
          (new_history image a.digest arch (tag_eras source family tag a.digest series).0).points
        ≡ (if ltb t b.at then 2 else 1) * finished_at t series
  unfolding tag_eras eras_from close_eras ends_with move_era
  tag_eras-revisited series moves a b c t known mine h k l other back =
      let e = era_at a.digest a.at series in
      let f = move_era source family a.digest series b in
      let g = era_at a.digest c.at series in
      rw
        (
          known,
          moves_eras-of_tag source family tag a.digest series moves,
          mine,
          back,
          str_eq_refl a.digest,
        )
        (points_at-new_history image a.digest arch a.digest t (e ∷ f ∷ g ∷ [])
          ∙ ap (kept_at a.digest t) (ordered-three e f g h k l)
          ∙ kept_at-three e f g t h k l other refl refl)
