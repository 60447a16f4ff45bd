-- ===== src/CaBundle/Value/Encoded.antt =====
-- decodeP11Value reads back what p11-kit wrote.
use distroless.Prelude.{
  ℕ, ◌+◌, ◌*◌, ◌/◌, ◌%◌, ◌<◌, Bool, true, false, some, [], ◌∷◌, ◌++◌, ◌≡◌, refl, sym, ap, ◌∙◌,
  arith, if◌then◌else◌, ltb, ◌==◌, ok, ok-injective, ==_iff, ◌≢◌, All, Bool-cases, inl, inr,
}
use distroless.Strings.{Bytes}
use distroless.CaBundle.Value.{
  quote, percent, init_last, before_quote, unquoted, hex_value, escaped, decode_escapes,
  decode_p11_value,
}

abbrev pub hex_digit : ℕ → ℕ
hex_digit n = if ltb n 10 then 48 + n else 87 + n

-- the bytes that are written as themselves, and any other byte as an escape
abbrev pub encode_escapes : (ℕ → Bool) → Bytes → Bytes
encode_escapes plain [] = []
encode_escapes plain (c ∷ s) =
    if plain c
    then c ∷ encode_escapes plain s
    else percent ∷ hex_digit (c / 16) ∷ hex_digit (c % 16) ∷ encode_escapes plain s

abbrev pub encode_p11_value : (ℕ → Bool) → Bytes → Bytes
encode_p11_value plain s = quote ∷ (encode_escapes plain s ++ quote ∷ [])

bool_apart : true ≢ false
bool_apart h = cc

hex_value-hex_digit : (n : ℕ) → n < 16 → hex_value (hex_digit n) ≡ some n
unfolding hex_value
hex_value-hex_digit n h = ground arith

decode_escapes-plain :
    (c : ℕ) (s t : Bytes)
    → c == percent ≡ false
    → decode_escapes s ≡ ok t
    → decode_escapes (c ∷ s) ≡ ok (c ∷ t)
unfolding decode_escapes
decode_escapes-plain c [] t p h = rw p (ap (λ (x : Bytes). ok (c ∷ x)) (ok-injective h))
decode_escapes-plain c (x ∷ []) t p h = rw (p, h) refl
decode_escapes-plain c (x ∷ y ∷ s) t p h = rw (p, h) refl

decode_escapes-escape :
    (high low a b : ℕ) (s t : Bytes)
    → hex_value high ≡ some a
    → hex_value low ≡ some b
    → decode_escapes s ≡ ok t
    → decode_escapes (percent ∷ high ∷ low ∷ s) ≡ ok ((a * 16 + b) ∷ t)
unfolding decode_escapes escaped
decode_escapes-escape high low a b s t x y h = rw (x, y, h) refl

init_last-append : (s : Bytes) (c : ℕ) → init_last (s ++ c ∷ []) ≡ some (s, c)
unfolding init_last
init_last-append [] c = refl
init_last-append (x ∷ []) c = refl
init_last-append (x ∷ y ∷ s) c = rw (init_last-append (y ∷ s) c) refl

module _ (plain : ℕ → Bool) (escapes_percent : plain percent ≡ false) where
  plain_other : (c : ℕ) → plain c ≡ true → c == percent ≡ false
  plain_other c h = elim (Bool-cases (c == percent)) [
    | inl same ↦
        absurd (bool_apart (sym h ∙ ap plain ((==_iff c percent).0 same) ∙ escapes_percent))
    | inr other ↦ other
  ]

  decode_escapes-encode_escapes :
      (s : Bytes) → All (λ c. c < 256) s → decode_escapes (encode_escapes plain s) ≡ ok s
  unfolding decode_escapes
  decode_escapes-encode_escapes [] h = refl
  decode_escapes-encode_escapes (c ∷ s) h = elim (Bool-cases (plain c)) [
    | inl yes_plain ↦ rw yes_plain (
        decode_escapes-plain c (encode_escapes plain s) s (plain_other c yes_plain)
          (decode_escapes-encode_escapes s h.1))
    | inr not_plain ↦ rw not_plain (
        decode_escapes-escape (hex_digit (c / 16)) (hex_digit (c % 16)) (c / 16) (c % 16)
          (encode_escapes plain s) s (hex_value-hex_digit (c / 16) (omega (arith, h.0)))
          (hex_value-hex_digit (c % 16) (omega arith)) (decode_escapes-encode_escapes s h.1)
        ∙ ap (λ (n : ℕ). ok (n ∷ s)) (omega (arith, h.0)))
  ]

  -- Where p11-kit writes some bytes, the percent sign not among them, as themselves and any other
  -- byte as %XX, in quotes, decodeP11Value reads back each text of bytes.
  pub decode_p11_value-encode_p11_value :
      (s : Bytes) → All (λ c. c < 256) s → decode_p11_value (encode_p11_value plain s) ≡ ok s
  unfolding decode_p11_value unquoted before_quote
  decode_p11_value-encode_p11_value s h =
      rw (init_last-append (encode_escapes plain s) quote) (decode_escapes-encode_escapes s h)
