-- ===== src/CaBundle/Anchors.antt =====
-- `extractServerAnchors`, `subjectPublicKeyInfo`, `readTarEntry`, `writeBundleTar` and `run` of
-- bazel/modules/rules_rpm/rpm/tools/ca-bundle/main.go. The maps by the hexadecimal text of a key are
-- by the key itself. The packages encoding/asn1 and encoding/pem are the record `Encodings`.
pub mod Exact
use distroless.Prelude.{
  ℕ, zero, suc, Bool, true, false, ◌||◌, ◌&&◌, not, Option, none, some, List, [], ◌∷◌, ◌++◌,
  if◌then◌else◌, ◌==◌, any, length, Result, ok, err, ◌>>=◌,
}
use distroless.Prelude.Dict.{lookup, insert}
use distroless.Strings.{Bytes, codes, str_eq}
use distroless.Strings.Order.{bytes_eq}
use distroless.CaBundle.Value.{
  BundleError, no_entry, bad_tar, bad_extension, bad_usage, bad_certificate, decode_p11_value,
  Dates, distrusted_for_servers_at,
}
use distroless.CaBundle.Object.{PemBlock, P11Object, parse_p11_kit}

abbrev pub Oid : Type 0
Oid = List ℕ

-- what `asn1.Unmarshal` reads into a RawValue
pub record RawValue : Type 0 where
  pub class : ℕ
  pub tag : ℕ
  pub bytes : Bytes
  pub full_bytes : Bytes

pub record Encodings : Type 0 where
  pub pem_decode : Bytes → Option PemBlock
  pub pem_encode : PemBlock → Bytes
  -- the value of an extension, and the usages of an ExtKeyUsage
  pub extension_value : Bytes → Option Bytes
  pub usages : Bytes → Option (List Oid)
  -- a value and what follows it
  pub unmarshal : Bytes → Option (RawValue × Bytes)

abbrev pub oid_ext_key_usage : Bytes
oid_ext_key_usage = codes "2.5.29.37"

abbrev pub oid_server_auth : Oid
oid_server_auth = 1 ∷ 3 ∷ 6 ∷ 1 ∷ 5 ∷ 5 ∷ 7 ∷ 3 ∷ 1 ∷ []

abbrev pub oid_any_extended_key : Oid
oid_any_extended_key = 2 ∷ 5 ∷ 29 ∷ 37 ∷ 0 ∷ []

abbrev pub or_bad : {A : Type 0} → BundleError → Option A → Result BundleError A
or_bad e none = err e
or_bad e (some a) = ok a

abbrev pub or_empty : Option Bytes → Bytes
or_empty none = []
or_empty (some s) = s

-- the attribute, "" where it is not set
unfoldable pub attr : P11Object → Bytes → Bytes
attr o key = or_empty (lookup key o.attrs)

unfoldable pub restricts : P11Object → Bool
restricts o =
    str_eq (attr o (codes "class")) (codes "x-certificate-extension")
    && str_eq (attr o (codes "object-id")) oid_ext_key_usage

abbrev pub is_server_usage : Oid → Bool
is_server_usage u = str_eq u oid_server_auth || str_eq u oid_any_extended_key

-- serverAuthByKey
abbrev pub ByKey : Type 0
ByKey = List (Bytes × Bool)

unfoldable pub note_keys : Bool → List PemBlock → ByKey → ByKey
note_keys allowed [] keys = keys
note_keys allowed (b ∷ blocks) keys =
    let more = note_keys allowed blocks (insert b.bytes allowed keys) in
    let rest = note_keys allowed blocks keys in
    if str_eq b.kind (codes "PUBLIC KEY") then more else rest

-- `allowed, restricted := serverAuthByKey[key]; restricted && !allowed`
unfoldable pub forbidden : Option Bool → Bool
forbidden none = false
forbidden (some allowed) = not allowed

unfoldable pub is_trusted : P11Object → Bool
is_trusted o =
    str_eq (attr o (codes "trusted")) (codes "true")
    && not (str_eq (attr o (codes "x-distrusted")) (codes "true"))

module _ (enc : Encodings) where
  unfoldable pub allows_servers : P11Object → Result BundleError Bool
  allows_servers o = do
    der ← decode_p11_value (attr o (codes "value"))
    value ← or_bad bad_extension (enc.extension_value der)
    usages ← or_bad bad_usage (enc.usages value)
    ok (any is_server_usage usages)

  -- the first loop
  unfoldable pub server_auth_by_key : List P11Object → ByKey → Result BundleError ByKey
  server_auth_by_key [] keys = ok keys
  server_auth_by_key (o ∷ objects) keys =
      let skipped = server_auth_by_key objects keys in
      let noted = (do
        allowed ← allows_servers o
        server_auth_by_key objects (note_keys allowed o.pems keys)) in
      if restricts o then noted else skipped

  -- five fields after the serial number
  unfoldable pub skip_fields : ℕ → RawValue → Bytes → Option RawValue
  skip_fields zero field rest = some field
  skip_fields (suc n) field rest = elim (enc.unmarshal rest) [
    | none ↦ none
    | some (next, rest') ↦ skip_fields n next rest'
  ]

  -- the version may be missing
  unfoldable pub after_version : RawValue → Bytes → Option RawValue
  after_version field rest =
      if field.class == 2 && field.tag == 0
      then skip_fields 6 field rest
      else skip_fields 5 field rest

  unfoldable pub key_in : Option (RawValue × Bytes) → Option RawValue
  key_in none = none
  key_in (some (field, rest)) = after_version field rest

  unfoldable pub certificate_key : Option (RawValue × Bytes) → Option RawValue
  certificate_key none = none
  certificate_key (some (outer, rest)) = elim (enc.unmarshal outer.bytes) [
    | none ↦ none
    | some (tbs, rest') ↦ key_in (enc.unmarshal tbs.bytes)
  ]

  unfoldable pub key_bytes : Option RawValue → Result BundleError Bytes
  key_bytes none = err bad_certificate
  key_bytes (some field) = ok field.full_bytes

  unfoldable pub subject_public_key_info : Bytes → Result BundleError Bytes
  subject_public_key_info cert = key_bytes (certificate_key (enc.unmarshal cert))

  -- the certificates of an object that the keys allow
  unfoldable pub object_anchors : ByKey → List PemBlock → Result BundleError (List Bytes)
  object_anchors keys [] = ok []
  object_anchors keys (b ∷ blocks) =
      let rest = object_anchors keys blocks in
      let kept = (do
        spki ← subject_public_key_info b.bytes
        certs ← object_anchors keys blocks
        ok (if forbidden (lookup spki keys) then certs else b.bytes ∷ certs)) in
      if str_eq b.kind (codes "CERTIFICATE") then kept else rest

  module _ (dates : Dates) (now : ℕ) where
    -- the certificates of an object, none where it is distrusted at the time
    unfoldable pub trusted_anchors : ByKey → P11Object → Result BundleError (List Bytes)
    trusted_anchors keys o = do
      dead ← distrusted_for_servers_at dates now (attr o (codes "nss-server-distrust-after"))
      if dead then ok [] else object_anchors keys o.pems

    -- the second loop
    unfoldable pub anchors : ByKey → List P11Object → Result BundleError (List Bytes)
    anchors keys [] = ok []
    anchors keys (o ∷ objects) =
        let skipped = anchors keys objects in
        let kept = (do
          here ← trusted_anchors keys o
          rest ← anchors keys objects
          ok (here ++ rest)) in
        if is_trusted o then kept else skipped

    unfoldable pub bundle_of : List Bytes → Bytes
    bundle_of [] = []
    bundle_of (cert ∷ certs) =
        enc.pem_encode (record { kind = codes "CERTIFICATE"; bytes = cert }) ++ bundle_of certs

    unfoldable pub server_anchors : List P11Object → Result BundleError (List Bytes)
    server_anchors objects = do keys ← server_auth_by_key objects []; anchors keys objects

    unfoldable pub extract_server_anchors : Bytes → Result BundleError Bytes
    extract_server_anchors text = do
      objects ← parse_p11_kit enc.pem_decode text
      certs ← server_anchors objects
      ok (bundle_of certs)
