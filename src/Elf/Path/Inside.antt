-- ===== src/Elf/Path/Inside.antt =====
-- A rooted path that is clean does not leave its root.
use distroless.Prelude.{
  true, false, Option, none, some, List, [], ◌∷◌, ◌++◌, ◌≡◌, refl, arith, All, Bool-cases, inl, inr,
}
use distroless.Strings.{Bytes, str_eq, cut_last}
use distroless.Strings.Split.{split, join}
use distroless.Elf.Path.{
  slash, is_abs, dot_dot, is_here, go_up, add_segment, keep_segments, backwards, render, clean,
  join_path, dir_of, dir,
}

abbrev pub Down : List Bytes → Type 0
Down = All (λ seg. (is_here seg ≡ false) × (str_eq seg dot_dot ≡ false))

-- a rooted path of segments that only go down
pub IsInside : Bytes → Type 0
IsInside path = (segs : List Bytes) × (path ≡ slash ∷ join slash segs) × Down segs

add_segment-Down : (kept : List Bytes) (seg : Bytes) → Down kept → Down (add_segment true kept seg)
unfolding add_segment go_up
add_segment-Down [] seg h = elim (Bool-cases (is_here seg)) [
  | inl here ↦ rw here tt
  | inr there ↦ elim (Bool-cases (str_eq seg dot_dot)) [
    | inl up ↦ rw (there, up) tt
    | inr down ↦ rw (there, down) ((there, down), tt)
  ]
]
add_segment-Down (k ∷ kept) seg h = elim (Bool-cases (is_here seg)) [
  | inl here ↦ rw here h
  | inr there ↦ elim (Bool-cases (str_eq seg dot_dot)) [
    | inl up ↦ rw (there, up, h.0.1) h.1
    | inr down ↦ rw (there, down) ((there, down), h)
  ]
]

keep_segments-Down : (kept segs : List Bytes) → Down kept → Down (keep_segments true kept segs)
unfolding keep_segments
keep_segments-Down kept [] h = h
keep_segments-Down kept (seg ∷ segs) h =
    keep_segments-Down (add_segment true kept seg) segs (add_segment-Down kept seg h)

backwards-Down : (kept out : List Bytes) → Down kept → Down out → Down (backwards kept out)
unfolding backwards
backwards-Down [] out h k = k
backwards-Down (seg ∷ kept) out h k = backwards-Down kept (seg ∷ out) h.1 (h.0, k)

pub clean-IsInside : (path : Bytes) → is_abs path ≡ true → IsInside (clean path)
unfolding clean render IsInside
clean-IsInside path h = rw h (
  backwards (keep_segments true [] (split slash path)) [],
  refl,
  backwards-Down (keep_segments true [] (split slash path)) []
      (keep_segments-Down [] (split slash path) tt) tt,
)

pub is_abs-IsInside : (path : Bytes) → IsInside path → is_abs path ≡ true
unfolding IsInside is_abs
is_abs-IsInside path h = rw (h.1)

pub join_path-IsInside : (a b : Bytes) → is_abs a ≡ true → IsInside (join_path a b)
unfolding join_path is_abs
join_path-IsInside [] b h = cc
join_path-IsInside (c ∷ s) [] h = clean-IsInside (c ∷ s) h
join_path-IsInside (c ∷ s) (d ∷ t) h = clean-IsInside (c ∷ (s ++ slash ∷ d ∷ t)) h

cut_last-abs :
    (t : Bytes) (o : Option (Bytes × Bytes))
    → cut_last slash t ≡ o
    → is_abs (dir (slash ∷ t)) ≡ true
unfolding cut_last dir dir_of clean render is_abs
cut_last-abs t none e = rw e
cut_last-abs t (some (l, r)) e = rw e

pub dir-IsInside : (path : Bytes) → is_abs path ≡ true → is_abs (dir path) ≡ true
unfolding is_abs
dir-IsInside [] h = cc
dir-IsInside (c ∷ t) h =
    let e : c ≡ slash = ground (arith, h) in rw e (cut_last-abs t (cut_last slash t) refl)
