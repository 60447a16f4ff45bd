-- ===== src/CaBundle/Tar.antt =====
-- `readTarEntry`, `writeBundleTar` and `run` of bazel/modules/rules_rpm/rpm/tools/ca-bundle/main.go,
-- on the entries of a tar.
use distroless.Prelude.{
  ℕ, Bool, Option, none, some, List, [], ◌∷◌, if◌then◌else◌, Result, ok, err, ◌>>=◌,
}
use distroless.Strings.{Bytes, codes, str_eq}
use distroless.CaBundle.Value.{BundleError, no_entry, bad_tar, Dates}
use distroless.CaBundle.Anchors.{Encodings, extract_server_anchors}

-- the entries that can be read, with their content, none where it is broken; and whether the tar
-- ends behind them
pub record TarInput : Type 0 where
  pub entries : List (Bytes × Option Bytes)
  pub ends : Bool

abbrev pub type_reg : ℕ
type_reg = b'0'

abbrev pub type_symlink : ℕ
type_symlink = b'2'

pub record TarEntry : Type 0 where
  pub name : Bytes
  pub mode : ℕ
  pub type_flag : ℕ
  pub link_name : Bytes
  pub content : Bytes

abbrev pub trust_source_path : Bytes
trust_source_path = codes "./usr/share/pki/ca-trust-source/ca-bundle.trust.p11-kit"

abbrev pub bundle_path : Bytes
bundle_path = codes "./etc/pki/ca-trust/extracted/pem/tls-ca-bundle.pem"

abbrev pub bundle_target : Bytes
bundle_target = codes "/etc/pki/ca-trust/extracted/pem/tls-ca-bundle.pem"

unfoldable pub entry_content : Option Bytes → Result BundleError Bytes
entry_content none = err bad_tar
entry_content (some content) = ok content

unfoldable pub find_entry : Bytes → Bool → List (Bytes × Option Bytes) → Result BundleError Bytes
find_entry name ends [] = if ends then err no_entry else err bad_tar
find_entry name ends ((n, content) ∷ entries) =
    let rest = find_entry name ends entries in if str_eq n name then entry_content content else rest

unfoldable pub read_tar_entry : TarInput → Bytes → Result BundleError Bytes
read_tar_entry tar name = find_entry name tar.ends tar.entries

abbrev pub bundle_link : Bytes → TarEntry
bundle_link name = record {
  name = name;
  mode = 0x1ff;
  type_flag = type_symlink;
  link_name = bundle_target;
  content = [];
}

unfoldable pub write_bundle_tar : Bytes → List TarEntry
write_bundle_tar bundle =
    (record {
      name = bundle_path;
      mode = 0x1a4;
      type_flag = type_reg;
      link_name = [];
      content = bundle;
    })
    ∷ bundle_link (codes "./etc/pki/tls/certs/ca-bundle.crt")
    ∷ bundle_link (codes "./etc/pki/tls/cert.pem")
    ∷ []

unfoldable pub run : Encodings → Dates → ℕ → TarInput → Result BundleError (List TarEntry)
run enc dates now tar = do
  source ← read_tar_entry tar trust_source_path
  bundle ← extract_server_anchors enc dates now source
  ok (write_bundle_tar bundle)
