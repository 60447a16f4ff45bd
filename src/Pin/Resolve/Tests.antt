-- ===== src/Pin/Resolve/Tests.antt =====
-- A repository of one noarch package behind a signature, and runs of the theorems on it.
use distroless.Prelude.{ℕ, suc, true, some, List, [], ◌∷◌, ◌≡◌, refl, ok, pos}
use distroless.Prelude.Dict
use distroless.Strings
use distroless.Strings.{Bytes, codes, str_eq}
use distroless.Pin.Evr
use distroless.Pin.Text.{required}
use distroless.Pin.Provider
use distroless.Pin.Provider.{noarch}
use distroless.Pin.Closure
use distroless.Pin.Fetch
use distroless.Pin.Fetch.{response}
use distroless.Pin.Lock
use distroless.Pin.Lock.{packages}
use distroless.Pin.Resolve
use distroless.Pin.Resolve.{
  Repository, Repomd, PrimaryPackage, Metadata, Lockfile, fetch_metadata, metadata, repomd_url,
}
use distroless.Pin.Resolve.Trust.{IsTrusted, fetch_metadata-IsTrusted}

abbrev app : PrimaryPackage
app = record {
  name = codes "app";
  arch = noarch;
  version = record { epoch = []; ver = codes "1"; rel = codes "2" };
  checksum = codes "ab";
  size = 7;
  href = codes "p";
  license = codes "MIT";
  source_rpm = [];
  provides = [];
  requires = [];
}

abbrev listing : Repomd
listing = record {
  revision = codes "r";
  entries =
      record { type = codes "primary"; checksum = codes "h"; href = codes "primary.xml.gz" } ∷ [];
}

-- the network answers with the address itself, and every file hashes to `h`
abbrev mirror : Repository ℕ
mirror = record {
  ask = λ url n. (response 200 (some url), suc n);
  verify = some (λ signed signature. true);
  sha256_hex = λ bytes. codes "h";
  parse_repomd = λ bytes. some listing;
  gunzip = λ bytes. some bytes;
  parse_primary = λ bytes. some (app ∷ []);
  vercmp = λ a b. pos 0;
}

abbrev x86 : Bytes
x86 = codes "x86_64"

abbrev fetched : Metadata
fetched =
    metadata mirror (codes "u") required (repomd_url mirror (codes "u") required x86) listing
      (app ∷ [])

metadata_fetched : fetch_metadata mirror (codes "u") required x86 0 ≡ (ok fetched, 3)
unfolding fetch_metadata Resolve.chain Resolve.fetch Resolve.wrapped Resolve.check_signature
    Resolve.signature_answer Resolve.checked Resolve.located Resolve.primary_of
    Resolve.primary_packages Fetch.http_get Fetch.get_from Fetch.settled Fetch.may_retry
    Fetch.http_get_once Fetch.read_body Strings.str_eq
metadata_fetched = refl

sound_example : IsTrusted mirror (codes "u") required x86 fetched
sound_example =
    fetch_metadata-IsTrusted mirror (codes "u") required x86 fetched 0 3 metadata_fetched

abbrev locked : Lockfile
locked = record {
  schema_version = 1;
  url = codes "u";
  revision = codes "r";
  repomd_sha256 = codes "h";
  packages =
      (
        codes "app",
        (
          noarch,
          record {
            version = codes "1-2";
            sha256 = codes "ab";
            path = codes "x86_64/p";
            size = 7;
            license = codes "MIT";
            upstream = [];
          },
        )
            ∷ [],
      )
      ∷ [];
}
