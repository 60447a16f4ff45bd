-- ===== src/CaBundle/Tests.antt =====
-- Examples of the CA bundle, on a trust source of four objects.
use distroless.Prelude.{
  ◌++◌, ℕ, ◌<◌, ◌%◌, Bool, true, false, Option, none, some, List, [], ◌∷◌, ◌≡◌, refl, arith, ◌==◌,
  not, any, Result, ok, err,
}
use distroless.Strings.{Bytes, codes}
use distroless.CaBundle.Value.{BundleError, Dates, percent}
use distroless.CaBundle.Value.Encoded.{encode_p11_value, decode_p11_value-encode_p11_value}
use distroless.CaBundle.Value.{decode_p11_value}
use distroless.CaBundle.Object.{P11Object}
use distroless.CaBundle.Anchors.{Encodings, RawValue, server_anchors}
use distroless.CaBundle.Anchors.Exact.{has, anchors_cert, restriction, server_anchors-has}

-- every value is its own content, and a certificate its own key
abbrev plain_encodings : Encodings
plain_encodings = record {
  pem_decode = λ text. none;
  pem_encode = λ block. block.bytes;
  extension_value = λ der. some der;
  usages = λ der. some (der ∷ []);
  unmarshal = λ der. some (record { class = 0; tag = 0; bytes = der; full_bytes = der }, der);
}

abbrev no_dates : Dates
no_dates = record { parse_utc = λ raw. none; parse_generalized = λ raw. none }

abbrev restricting : Bytes → Bytes → P11Object
restricting value key = record {
  attrs =
      (codes "class", codes "x-certificate-extension")
      ∷ (codes "object-id", codes "2.5.29.37")
      ∷ (codes "value", value)
      ∷ [];
  pems = (record { kind = codes "PUBLIC KEY"; bytes = key }) ∷ [];
}

abbrev trusting : Bytes → P11Object
trusting cert = record {
  attrs = (codes "trusted", codes "true") ∷ [];
  pems = (record { kind = codes "CERTIFICATE"; bytes = cert }) ∷ [];
}

abbrev web_key : Bytes
web_key = codes "web"

abbrev mail_key : Bytes
mail_key = codes "mail"

abbrev server_and_mail : List P11Object
server_and_mail =
    restricting (0x22 ∷ codes "%01%03%06%01%05%05%07%03%01" ++ 0x22 ∷ []) web_key
    ∷ restricting (0x22 ∷ codes "%01%03%06%01%05%05%07%03%04" ++ 0x22 ∷ []) mail_key
    ∷ trusting web_key
    ∷ trusting mail_key
    ∷ []

server_and_mail_anchors :
    server_anchors plain_encodings no_dates 0 server_and_mail ≡ ok (web_key ∷ [])
unfolding server_anchors distroless.CaBundle.Anchors.server_auth_by_key
    distroless.CaBundle.Anchors.restricts distroless.Strings.str_eq distroless.CaBundle.Anchors.attr
    distroless.Prelude.Dict.lookup distroless.CaBundle.Anchors.allows_servers decode_p11_value
    distroless.CaBundle.Value.unquoted distroless.CaBundle.Value.before_quote
    distroless.CaBundle.Value.init_last distroless.CaBundle.Value.decode_escapes
    distroless.CaBundle.Value.escaped distroless.CaBundle.Value.hex_value
    distroless.CaBundle.Anchors.anchors distroless.CaBundle.Anchors.is_trusted
    distroless.CaBundle.Anchors.trusted_anchors distroless.CaBundle.Anchors.after_version
    distroless.CaBundle.Anchors.certificate_key distroless.CaBundle.Anchors.forbidden
    distroless.CaBundle.Anchors.key_bytes distroless.CaBundle.Anchors.key_in
    distroless.CaBundle.Anchors.note_keys distroless.CaBundle.Anchors.object_anchors
    distroless.CaBundle.Anchors.skip_fields distroless.CaBundle.Anchors.subject_public_key_info
    distroless.CaBundle.Value.distrusted_for_servers_at distroless.Prelude.Dict.insert
server_and_mail_anchors = refl

mail_key_not_anchored :
    has mail_key (web_key ∷ [])
    ≡ any
        (anchors_cert plain_encodings no_dates 0
          (λ k. restriction plain_encodings k server_and_mail)
          mail_key)
        server_and_mail
mail_key_not_anchored =
    server_anchors-has plain_encodings no_dates 0 server_and_mail (web_key ∷ []) mail_key
      server_and_mail_anchors

abbrev only_letters : ℕ → Bool
only_letters c = not (c == percent)

percent_text_read_back :
    decode_p11_value (encode_p11_value only_letters (codes "a%b")) ≡ ok (codes "a%b")
percent_text_read_back =
    decode_p11_value-encode_p11_value only_letters refl (codes "a%b")
      (omega arith, (omega arith, (omega arith, tt)))
