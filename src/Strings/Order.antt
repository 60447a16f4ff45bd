-- ===== src/Strings/Order.antt =====
-- Go's `<` on strings, and its laws.
use distroless.Prelude.{Bool, true, false, [], ◌∷◌, ◌≡◌, refl, arith, if◌then◌else◌, ltb}
use distroless.Prelude.Dict.{Eq}
use distroless.Strings.{Bytes, str_eq}
use distroless.Strings.Laws.{str_eq_refl, str_eq_sound}

instance abbrev pub bytes_eq : Eq Bytes
bytes_eq = record { beq = str_eq; beq_iff = λ s t. (str_eq_sound s t, λ e. rw e (str_eq_refl t)) }

unfoldable pub text_lt : Bytes → Bytes → Bool
text_lt s [] = false
text_lt [] (y ∷ t) = true
text_lt (x ∷ s) (y ∷ t) =
    let rest = text_lt s t in if ltb x y then true else if ltb y x then false else rest

pub text_lt_irrefl : (s : Bytes) → text_lt s s ≡ false
unfolding text_lt
text_lt_irrefl [] = refl
text_lt_irrefl (x ∷ s) = ground (arith, text_lt_irrefl s)

pub text_lt_asym : (s t : Bytes) → text_lt s t ≡ true → text_lt t s ≡ false
unfolding text_lt
text_lt_asym [] [] h = refl
text_lt_asym [] (y ∷ t) h = refl
text_lt_asym (x ∷ s) [] h = cc
text_lt_asym (x ∷ s) (y ∷ t) h = ground (arith, text_lt_asym s t)

pub text_lt_total : (s t : Bytes) → text_lt s t ≡ false → text_lt t s ≡ false → s ≡ t
unfolding text_lt
text_lt_total [] [] h k = refl
text_lt_total [] (y ∷ t) h k = cc
text_lt_total (x ∷ s) [] h k = cc
text_lt_total (x ∷ s) (y ∷ t) h k = ground (arith, text_lt_total s t)

-- "not greater" is transitive
pub text_le_trans :
    (a b c : Bytes) → text_lt b a ≡ false → text_lt c b ≡ false → text_lt c a ≡ false
unfolding text_lt
text_le_trans [] [] [] h k = refl
text_le_trans [] [] (z ∷ c) h k = refl
text_le_trans [] (y ∷ b) [] h k = cc
text_le_trans [] (y ∷ b) (z ∷ c) h k = refl
text_le_trans (x ∷ a) [] c h k = cc
text_le_trans (x ∷ a) (y ∷ b) [] h k = cc
text_le_trans (x ∷ a) (y ∷ b) (z ∷ c) h k = ground (arith, text_le_trans a b c)
