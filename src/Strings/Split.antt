-- ===== src/Strings/Split.antt =====
-- `strings.Split` at one byte, `strings.Join`, and `strings.HasSuffix`.
use distroless.Prelude.{
  ℕ, Bool, false, ◌||◌, [], ◌∷◌, ◌++◌, List, ◌≡◌, refl, ◌∙◌, ap, if◌then◌else◌, ◌==◌, ==_refl, All,
}
use distroless.Strings.{Bytes, codes, str_eq}

abbrev pub push_first : ℕ → List Bytes → List Bytes
push_first c [] = (c ∷ []) ∷ []
push_first c (s ∷ ss) = (c ∷ s) ∷ ss

unfoldable pub split : ℕ → Bytes → List Bytes
split sep [] = [] ∷ []
split sep (c ∷ s) = let rest = split sep s in if c == sep then [] ∷ rest else push_first c rest

unfoldable pub join : ℕ → List Bytes → Bytes
join sep [] = []
join sep (s ∷ []) = s
join sep (s ∷ t ∷ ss) = s ++ sep ∷ join sep (t ∷ ss)

unfoldable pub has_suffix : Bytes → Bytes → Bool
has_suffix [] p = str_eq [] p
has_suffix (c ∷ s) p = str_eq (c ∷ s) p || has_suffix s p

-- a segment: a text without the separator
abbrev pub Lacks : ℕ → Bytes → Type 0
Lacks sep = All (λ c. (c == sep) ≡ false)

split-Lacks : (sep : ℕ) (s : Bytes) → Lacks sep s → split sep s ≡ s ∷ []
unfolding split
split-Lacks sep [] h = refl
split-Lacks sep (c ∷ s) h = rw (h.0, split-Lacks sep s h.1)

split-sep : (sep : ℕ) (s t : Bytes) → Lacks sep s → split sep (s ++ sep ∷ t) ≡ s ∷ split sep t
unfolding split
split-sep sep [] t h = rw (==_refl sep)
split-sep sep (c ∷ s) t h = rw (h.0, split-sep sep s t h.1)

-- `strings.Join(ss, ", ")`
unfoldable pub join_commas : List Bytes → Bytes
join_commas [] = []
join_commas (s ∷ []) = s
join_commas (s ∷ t ∷ ss) = s ++ (codes ", " ++ join_commas (t ∷ ss))

-- Splitting what was joined gives the segments back.
pub split-join :
    (sep : ℕ) (s : Bytes) (ss : List Bytes)
    → All (Lacks sep) (s ∷ ss)
    → split sep (join sep (s ∷ ss)) ≡ s ∷ ss
unfolding join
split-join sep s [] h = split-Lacks sep s h.0
split-join sep s (t ∷ ss) h =
    split-sep sep s (join sep (t ∷ ss)) h.0
    ∙ ap (λ (l : List Bytes). s ∷ l) (split-join sep t ss h.1)
