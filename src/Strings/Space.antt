-- ===== src/Strings/Space.antt =====
-- `strings.TrimSpace` and `strings.Fields` on ASCII texts, `strings.ToLower` on ASCII texts.
use distroless.Prelude.{
  ℕ, ◌+◌, Bool, ◌||◌, ◌&&◌, List, [], ◌∷◌, ◌++◌, if◌then◌else◌, leb, ◌==◌, map,
}
use distroless.Strings.{Bytes}

-- tab, newline, vertical tab, form feed, carriage return and space
unfoldable pub is_space : ℕ → Bool
is_space c = (leb 9 c && leb c 13) || c == b' '

unfoldable pub trim_left : Bytes → Bytes
trim_left [] = []
trim_left (c ∷ s) = let rest = trim_left s in if is_space c then rest else c ∷ s

-- a byte before a text whose end is trimmed
abbrev pub keep_byte : ℕ → Bytes → Bytes
keep_byte c [] = if is_space c then [] else c ∷ []
keep_byte c (x ∷ s) = c ∷ x ∷ s

unfoldable pub trim_right : Bytes → Bytes
trim_right [] = []
trim_right (c ∷ s) = keep_byte c (trim_right s)

unfoldable pub trim_space : Bytes → Bytes
trim_space s = trim_left (trim_right s)

-- the word before the rest, if it is not empty
abbrev pub push_word : Bytes → List Bytes → List Bytes
push_word [] words = words
push_word (c ∷ w) words = (c ∷ w) ∷ words

-- `word` is what has been read of the current word
unfoldable pub fields_from : Bytes → Bytes → List Bytes
fields_from word [] = push_word word []
fields_from word (c ∷ s) =
    let next = fields_from [] s in
    let more = fields_from (word ++ c ∷ []) s in if is_space c then push_word word next else more

unfoldable pub fields : Bytes → List Bytes
fields s = fields_from [] s

unfoldable pub lower : ℕ → ℕ
lower c = if leb b'A' c && leb c b'Z' then c + 32 else c

unfoldable pub to_lower : Bytes → Bytes
to_lower = map lower
