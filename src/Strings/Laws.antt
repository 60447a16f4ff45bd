-- ===== src/Strings/Laws.antt =====
-- Laws of the text functions.
use distroless.Prelude.{true, false, none, some, [], ◌∷◌, ◌++◌, ◌≡◌, refl, arith, ==_refl}
use distroless.Strings.{Bytes, str_eq, cut_prefix, has_prefix}

pub str_eq_refl : (s : Bytes) → str_eq s s ≡ true
unfolding str_eq
str_eq_refl [] = refl
str_eq_refl (c ∷ s) = rw (==_refl c) (str_eq_refl s)

pub str_eq_sound : (s t : Bytes) → str_eq s t ≡ true → s ≡ t
unfolding str_eq
str_eq_sound [] [] h = refl
str_eq_sound [] (y ∷ t) h = cc
str_eq_sound (x ∷ s) [] h = cc
str_eq_sound (x ∷ s) (y ∷ t) h = ground (arith, str_eq_sound s t)

pub cut_prefix_sound : (s p r : Bytes) → cut_prefix s p ≡ some r → s ≡ p ++ r
unfolding cut_prefix
cut_prefix_sound s [] r h = ground arith
cut_prefix_sound [] (x ∷ p) r h = cc
cut_prefix_sound (c ∷ s) (x ∷ p) r h = ground (arith, cut_prefix_sound s p r)

pub cut_prefix-append : (p r : Bytes) → cut_prefix (p ++ r) p ≡ some r
unfolding cut_prefix
cut_prefix-append [] r = cut_nil r
  where
    cut_nil : (r : Bytes) → cut_prefix r [] ≡ some r
    cut_nil [] = refl
    cut_nil (c ∷ r) = refl
cut_prefix-append (x ∷ p) r = rw (==_refl x) (cut_prefix-append p r)

pub has_prefix-cut : (s p : Bytes) → has_prefix s p ≡ false → cut_prefix s p ≡ none
unfolding has_prefix
has_prefix-cut s p h = ground arith
