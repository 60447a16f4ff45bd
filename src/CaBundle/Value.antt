-- ===== src/CaBundle/Value.antt =====
-- `decodeP11Value` and `distrustedForServersAt` of
-- bazel/modules/rules_rpm/rpm/tools/ca-bundle/main.go. Times are seconds; `time.Parse` is the record
-- `Dates`.
pub mod Encoded
use distroless.Prelude.{
  ℕ, ◌+◌, ◌*◌, ◌-◌, Bool, true, false, ◌||◌, ◌&&◌, Option, none, some, List, [], ◌∷◌, if◌then◌else◌,
  leb, ltb, ◌==◌, length, Result, ok, err, ◌>>=◌,
}
use distroless.Strings.{Bytes, codes, str_eq}

pub data BundleError : Type 0 where
  no_entry bad_tar undecodable_pem early_pem no_colon unterminated_pem : BundleError
  not_quoted truncated_escape bad_escape : BundleError
  bad_extension bad_usage bad_date bad_certificate : BundleError

abbrev pub quote : ℕ
quote = 0x22

abbrev pub percent : ℕ
percent = b'%'

-- what stands before the last byte, and that byte
unfoldable pub init_last : Bytes → Option (Bytes × ℕ)
init_last [] = none
init_last (c ∷ []) = some ([], c)
init_last (c ∷ d ∷ s) = elim (init_last (d ∷ s)) [ none ↦ none | some (l, x) ↦ some (c ∷ l, x) ]

-- the text before a last quote
unfoldable pub before_quote : Option (Bytes × ℕ) → Result BundleError Bytes
before_quote none = err not_quoted
before_quote (some (s, c)) = if c == quote then ok s else err not_quoted

unfoldable pub unquoted : Bytes → Result BundleError Bytes
unquoted [] = err not_quoted
unquoted (c ∷ s) = if c == quote then before_quote (init_last s) else err not_quoted

-- the value of a hexadecimal digit
unfoldable pub hex_value : ℕ → Option ℕ
hex_value c =
    if leb b'0' c && leb c b'9'
    then some (c - b'0')
    else if leb b'a' c && leb c b'f'
    then some (c - b'a' + 10)
    else if leb b'A' c && leb c b'F'
    then some (c - b'A' + 10)
    else none

-- the byte of two digits, before the bytes that follow
unfoldable pub escaped : Option ℕ → Option ℕ → Result BundleError Bytes → Result BundleError Bytes
escaped none low rest = err bad_escape
escaped (some high) none rest = err bad_escape
escaped (some high) (some low) rest = do s ← rest; ok ((high * 16 + low) ∷ s)

unfoldable pub decode_escapes : Bytes → Result BundleError Bytes
decode_escapes [] = ok []
decode_escapes (c ∷ []) = if c == percent then err truncated_escape else ok (c ∷ [])
decode_escapes (c ∷ h ∷ []) =
    let plain = (do s ← decode_escapes (h ∷ []); ok (c ∷ s)) in
    if c == percent then err truncated_escape else plain
decode_escapes (c ∷ h ∷ l ∷ s) =
    let plain = (do t ← decode_escapes (h ∷ l ∷ s); ok (c ∷ t)) in
    let byte = escaped (hex_value h) (hex_value l) (decode_escapes s) in
    if c == percent then byte else plain

unfoldable pub decode_p11_value : Bytes → Result BundleError Bytes
decode_p11_value value = do s ← unquoted value; decode_escapes s

-- "060102150405Z" and "20060102150405Z"
pub record Dates : Type 0 where
  pub parse_utc : Bytes → Option ℕ
  pub parse_generalized : Bytes → Option ℕ

abbrev pub max_leaf_lifetime : ℕ
max_leaf_lifetime = 398 * 24 * 3600

unfoldable pub parse_date : Dates → Bytes → Option ℕ
parse_date dates raw =
    if length raw == 13
    then dates.parse_utc raw
    else if length raw == 15
    then dates.parse_generalized raw
    else none

unfoldable pub dead_at : ℕ → Option ℕ → Result BundleError Bool
dead_at now none = err bad_date
dead_at now (some date) = ok (ltb (date + max_leaf_lifetime) now)

abbrev pub unset : Bytes
unset = quote ∷ (percent ∷ b'0' ∷ b'0' ∷ quote ∷ [])

unfoldable pub distrusted_for_servers_at : Dates → ℕ → Bytes → Result BundleError Bool
distrusted_for_servers_at dates now value =
    if str_eq value [] || str_eq value unset
    then ok false
    else (do raw ← unquoted value; dead_at now (parse_date dates raw))
