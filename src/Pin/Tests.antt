-- ===== src/Pin/Tests.antt =====
-- A small repository: `app` is noarch and needs `libc.so`, which `c` provides on each of two
-- architectures; and runs of the theorems on it.
use mathlib.Core.List.{Memᴰ}
use mathlib.Core.List.Memᴰ
use distroless.Prelude.{
  ℕ, zero, suc, ◌+◌, Bool, true, false, Option, none, some, List, [], ◌∷◌, ◌++◌, ◌≡◌, ◌↔◌, ◌⊎◌, inl,
  inr, refl, arith, Result, ok, err, ℤ, pos, if◌then◌else◌,
}
use distroless.Prelude.Dict
use distroless.Prelude.Dict.{lookup, contains, Mem-cons}
use distroless.Strings
use distroless.Strings.{Bytes, codes, str_eq}
use distroless.Pin.Evr.{PrimaryVersion}
use distroless.Pin.Text
use distroless.Pin.Provider
use distroless.Pin.Provider.{PkgKey, noarch, pick_provider, pick_provider_order}
use distroless.Pin.Closure
use distroless.Pin.Closure.{
  Candidate, Candidates, CloseError, not_found, provides_index, close_deps, has_candidate,
}
use distroless.Pin.Closure.Whole.{IsClosed, Includes, Missing, close_deps-IsClosed, close_deps-err}
use distroless.Pin.Closure.Noarch.{NoarchOnly, noarch_second_arch}
use distroless.Pin.Fetch
use distroless.Pin.Fetch.{Answer, response, no_response, http_get}
use distroless.Pin.Fetch.Retry.{ask_next, Tried, http_get-Tried}

abbrev key : Bytes → Bytes → PkgKey
key name arch = record { name = name; arch = arch }

abbrev candidate : List Bytes → List Bytes → Candidate
candidate requires provides = record {
  evr = codes "1-1";
  sha256 = [];
  path = [];
  size = 0;
  upstream = [];
  license = [];
  requires = requires;
  provides = provides;
}

abbrev x86 : Bytes
x86 = codes "x86_64"

abbrev arm : Bytes
arm = codes "aarch64"

abbrev app : Bytes
app = codes "app"

abbrev repository : Candidates
repository =
    (key app noarch, candidate (codes "libc.so" ∷ codes "/bin/sh" ∷ []) [])
    ∷ (key (codes "c") x86, candidate [] (codes "libc.so" ∷ []))
    ∷ (key (codes "c") arm, candidate [] (codes "libc.so" ∷ []))
    ∷ []

closed_x86 :
    close_deps repository (provides_index repository) (x86 ∷ []) (app ∷ [])
    ≡ ok (key (codes "c") x86 ∷ key app noarch ∷ [])
unfolding close_deps Closure.close_arches Closure.close_arch Closure.roots Closure.root_of
    Closure.has_candidate Closure.returned Closure.walk Closure.total_requires Closure.deps
    Closure.chosen Closure.requires_of Closure.provides_index Closure.provides_from
    Closure.add_providers Closure.add_provider Text.skip_require Provider.pick_provider
    Provider.compatible Provider.is_compatible Provider.less Provider.key_eq Dict.lookup
    Dict.contains Strings.str_eq Strings.has_prefix distroless.Prelude.sort_slice
closed_x86 = refl

-- the same closure for both architectures: c is not there for aarch64
closed_both :
    close_deps repository (provides_index repository) (x86 ∷ arm ∷ []) (app ∷ [])
    ≡ ok (key (codes "c") x86 ∷ key app noarch ∷ [])
unfolding close_deps Closure.close_arches Closure.close_arch Closure.roots Closure.root_of
    Closure.has_candidate Closure.returned Closure.walk Closure.total_requires Closure.deps
    Closure.chosen Closure.requires_of Closure.provides_index Closure.provides_from
    Closure.add_providers Closure.add_provider Text.skip_require Provider.pick_provider
    Provider.compatible Provider.is_compatible Provider.less Provider.key_eq Dict.lookup
    Dict.contains Strings.str_eq Strings.has_prefix distroless.Prelude.sort_slice
closed_both = refl

closed_example :
    IsClosed repository
      (provides_index repository)
      (x86 ∷ [])
      (app ∷ [])
      (key (codes "c") x86 ∷ key app noarch ∷ [])
    × ((arch : Bytes)
        → Memᴰ arch (x86 ∷ [])
        → Includes repository
            (provides_index repository)
            (x86 ∷ [])
            (app ∷ [])
            (key (codes "c") x86 ∷ key app noarch ∷ [])
            arch)
closed_example =
    close_deps-IsClosed repository (provides_index repository) (x86 ∷ []) (app ∷ [])
      (key (codes "c") x86 ∷ key app noarch ∷ []) closed_x86

c_for_ppc :
    close_deps repository (provides_index repository) (codes "ppc" ∷ []) (codes "c" ∷ [])
    ≡ err (not_found (codes "c") (codes "ppc"))
unfolding close_deps Closure.close_arches Closure.close_arch Closure.roots Closure.root_of
    Closure.has_candidate Provider.key_eq Dict.lookup Strings.str_eq
c_for_ppc = refl

missing_example :
    Missing repository
      (provides_index repository)
      (codes "ppc" ∷ [])
      (codes "c" ∷ [])
      (not_found (codes "c") (codes "ppc"))
missing_example =
    close_deps-err repository (provides_index repository) (codes "ppc" ∷ []) (codes "c" ∷ [])
      (not_found (codes "c") (codes "ppc")) c_for_ppc

app-noarch : has_candidate repository (key app noarch) ≡ true
unfolding has_candidate Dict.lookup Provider.key_eq Strings.str_eq
app-noarch = refl

app_is_noarch :
    (arch : Bytes)
    → has_candidate repository (key app arch) ≡ false
    → NoarchOnly repository (provides_index repository) arch (app ∷ [])
unfolding NoarchOnly
app_is_noarch arch h name m =
    let same : name ≡ app = Memᴰ.eq_of_singleton m in rw same (h, app-noarch)

no_x86 : has_candidate repository (key app x86) ≡ false
unfolding has_candidate Dict.lookup Provider.key_eq Strings.str_eq
no_x86 = refl

no_arm : has_candidate repository (key app arm) ≡ false
unfolding has_candidate Dict.lookup Provider.key_eq Strings.str_eq
no_arm = refl

second_arch_example :
    close_deps repository (provides_index repository) (x86 ∷ arm ∷ []) (app ∷ [])
    ≡ close_deps repository (provides_index repository) (x86 ∷ []) (app ∷ [])
second_arch_example =
    noarch_second_arch repository (provides_index repository) x86 arm (app ∷ [])
      (app_is_noarch x86 no_x86) (app_is_noarch arm no_arm)

swapped :
    (p : PkgKey)
    → Memᴰ p (key (codes "c") arm ∷ key (codes "c") x86 ∷ [])
      ↔ Memᴰ p (key (codes "c") x86 ∷ key (codes "c") arm ∷ [])
swapped p = (
  λ m. turn (key (codes "c") arm) (key (codes "c") x86) m,
  λ m. turn (key (codes "c") x86) (key (codes "c") arm) m,
)
  where
    turn : (a b : PkgKey) → Memᴰ p (a ∷ b ∷ []) → Memᴰ p (b ∷ a ∷ [])
    turn a b (Memᴰ.head e) = Memᴰ.tail (Memᴰ.head e)
    turn a b (Memᴰ.tail m) = Memᴰ.head (Memᴰ.eq_of_singleton m)

order_example :
    pick_provider (key (codes "c") arm ∷ key (codes "c") x86 ∷ []) x86
    ≡ pick_provider (key (codes "c") x86 ∷ key (codes "c") arm ∷ []) x86
order_example =
    pick_provider_order x86 (key (codes "c") arm ∷ key (codes "c") x86 ∷ [])
      (key (codes "c") x86 ∷ key (codes "c") arm ∷ []) swapped

-- two failures that may pass, then a body
abbrev flaky : ℕ → Answer
flaky zero = no_response
flaky (suc zero) = response 503 none
flaky (suc (suc n)) = response 200 (some (codes "ok"))

fetched : http_get (ask_next flaky) 0 ≡ ((ok (codes "ok"), 1 ∷ 2 ∷ []), 3)
unfolding http_get Fetch.get_from Fetch.settled Fetch.may_retry Fetch.http_get_once Fetch.read_body
fetched = refl

retry_example : Tried flaky 0 2 1 (http_get (ask_next flaky) 0)
retry_example = http_get-Tried flaky 0

abbrev nginx : PrimaryVersion
nginx = record { epoch = codes "2"; ver = codes "1.26"; rel = codes "3.hum1" }
