-- ===== src/Elf/Check/Verdict.antt =====
-- When an image passes `check`.
use distroless.Prelude.{
  Bool, true, false, ◌||◌, ◌&&◌, Option, none, some, List, [], ◌∷◌, ◌≡◌, refl, ap, ◌∙◌, arith,
  if◌then◌else◌, sort_slice, all, any, all-sort_slice, any-sort_slice, not,
}
use distroless.Prelude.Dict.{contains}
use distroless.Strings.{Bytes, str_eq}
use distroless.Strings.Order.{bytes_eq, text_lt}
use distroless.Elf.Check.{
  Allow, Unresolved, Report, empty_report, first_match, failure_line, judge_failures, stale_line,
  judge_allows, report_of,
}

and_assoc : (a b c : Bool) → (a && b) && c ≡ (a && (b && c))
and_assoc true b c = refl
and_assoc false b c = refl

abbrev file_order : Unresolved → Unresolved → Bool
file_order f g = text_lt f.file g.file

module _ (matches : Bytes → Bytes → Bool) (allows : List Allow) where
  -- the allowances that match a file, in their order, and the first of them
  abbrev pub matching : Bytes → List Allow → List Allow
  matching file [] = []
  matching file (a ∷ bs) = if matches a.glob file then a ∷ matching file bs else matching file bs

  abbrev pub head_of : List Allow → Option Allow
  head_of [] = none
  head_of (a ∷ bs) = some a

  first_match-head_of :
      (file : Bytes) (bs : List Allow) → first_match matches bs file ≡ head_of (matching file bs)
  unfolding first_match
  first_match-head_of file [] = refl
  first_match-head_of file (a ∷ bs) = ground (arith, first_match-head_of file bs)

  -- the first allowance that matches gives a reason
  abbrev pub reasoned : Option Allow → Bool
  reasoned none = false
  reasoned (some a) = not (str_eq a.reason [])

  abbrev pub is_glob : Bytes → Option Allow → Bool
  is_glob g none = false
  is_glob g (some a) = str_eq a.glob g

  abbrev pub excused : Unresolved → Bool
  excused f = reasoned (head_of (matching f.file allows))

  -- the first allowance that matches the file is one of this glob
  abbrev pub uses : Bytes → Unresolved → Bool
  uses g f = is_glob g (head_of (matching f.file allows))

  failure_line-passes :
      (f : Unresolved) (o : Option Allow) (r : Report)
      → (failure_line matches f o r).passes ≡ (r.passes && reasoned o)
  unfolding failure_line
  failure_line-passes f none r = ground arith
  failure_line-passes f (some a) r = ground arith

  failure_line-used :
      (f : Unresolved) (o : Option Allow) (r : Report) (g : Bytes)
      → contains (failure_line matches f o r).used g ≡ (contains r.used g || is_glob g o)
  unfolding failure_line contains
  failure_line-used f none r g = ground arith
  failure_line-used f (some a) r g = ground arith

  judge_failures-passes :
      (fs : List Unresolved) (r : Report)
      → (judge_failures matches allows fs r).passes ≡ (r.passes && all excused fs)
  unfolding judge_failures
  judge_failures-passes [] r = ground arith
  judge_failures-passes (f ∷ fs) r =
      let o = first_match matches allows f.file in
      ground (
        arith,
        judge_failures-passes fs (failure_line matches f o r),
        failure_line-passes f o r,
        first_match-head_of f.file allows,
      )

  judge_failures-used :
      (fs : List Unresolved) (r : Report) (g : Bytes)
      → contains (judge_failures matches allows fs r).used g
        ≡ (contains r.used g || any (uses g) fs)
  unfolding judge_failures
  judge_failures-used [] r g = ground arith
  judge_failures-used (f ∷ fs) r g =
      let o = first_match matches allows f.file in
      ground (
        arith,
        judge_failures-used fs (failure_line matches f o r) g,
        failure_line-used f o r g,
        first_match-head_of f.file allows,
      )

  stale_line-passes :
      (quoted : Bytes → Bytes) (a : Allow) (r : Report)
      → (stale_line matches quoted a r).passes ≡ (r.passes && contains r.used a.glob)
  unfolding stale_line
  stale_line-passes quoted a r = ground arith

  stale_line-used :
      (quoted : Bytes → Bytes) (a : Allow) (r : Report)
      → (stale_line matches quoted a r).used ≡ r.used
  unfolding stale_line
  stale_line-used quoted a r = ground arith

  judge_allows-passes :
      (quoted : Bytes → Bytes) (bs : List Allow) (r : Report)
      → (judge_allows matches quoted bs r).passes
        ≡ (r.passes && all (λ (a : Allow). contains r.used a.glob) bs)
  unfolding judge_allows
  judge_allows-passes quoted [] r = ground arith
  judge_allows-passes quoted (a ∷ bs) r =
      judge_allows-passes quoted bs (stale_line matches quoted a r)
      ∙ ap
          (λ (u : List Bytes).
            (stale_line matches quoted a r).passes && all (λ (b : Allow). contains u b.glob) bs)
          (stale_line-used quoted a r)
      ∙ ap (λ (p : Bool). p && all (λ (b : Allow). contains r.used b.glob) bs)
          (stale_line-passes quoted a r)
      ∙ and_assoc r.passes (contains r.used a.glob) (all (λ (b : Allow). contains r.used b.glob) bs)

  all_same :
      (p q : Allow → Bool) (bs : List Allow) → ((a : Allow) → p a ≡ q a) → all p bs ≡ all q bs
  all_same p q [] h = refl
  all_same p q (a ∷ bs) h = rw (h a, all_same p q bs h)

  -- The image passes exactly if the first allowance that matches an unresolved file gives a reason,
  -- for each such file, and each allowance has the glob of one that is first for such a file.
  pub report_of-passes :
      (quoted : Bytes → Bytes) (failures : List Unresolved)
      → (report_of matches quoted allows failures).passes
        ≡ (all excused failures && all (λ (a : Allow). any (uses a.glob) failures) allows)
  unfolding report_of contains
  report_of-passes quoted failures =
      let sorted = sort_slice file_order failures in
      let r = judge_failures matches allows sorted empty_report in
      let used_at : (a : Allow) → contains r.used a.glob ≡ any (uses a.glob) failures = λ a.
        judge_failures-used sorted empty_report a.glob
        ∙ any-sort_slice (uses a.glob) file_order failures in
      judge_allows-passes quoted allows r
      ∙ ap (λ (p : Bool). p && all (λ (a : Allow). contains r.used a.glob) allows)
          (judge_failures-passes sorted empty_report ∙ all-sort_slice excused file_order failures)
      ∙ ap (λ (p : Bool). all excused failures && p)
          (all_same (λ (a : Allow). contains r.used a.glob)
            (λ (a : Allow). any (uses a.glob) failures) allows used_at)
