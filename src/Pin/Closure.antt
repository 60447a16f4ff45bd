-- ===== src/Pin/Closure.antt =====
-- The dependency walk of bazel/modules/rules_rpm/rpm/tools/pin/main.go: the index of what is
-- provided in `resolve`, `closeDeps` and `validate`. A Go map is an association list, or for the
-- index of capabilities a function; the set `closure` is a list.
pub mod Walk
pub mod Correct
pub mod Whole
pub mod Noarch
use distroless.Prelude.{
  ℕ, zero, suc, ◌+◌, Bool, true, false, not, Option, none, some, List, [], ◌∷◌, ◌++◌, if◌then◌else◌,
  length, Result, ok, err, ◌>>=◌, ◌<◌,
}
use distroless.Prelude.Dict.{contains, lookup, insert}
use distroless.Strings.{Bytes, codes, str_eq}
use distroless.Strings.Order.{bytes_eq}
use distroless.Pin.Text.{skip_require}
use distroless.Pin.Provider.{PkgKey, noarch, key_eq, PkgKey_eq, pick_provider}

pub record Candidate : Type 0 where
  pub evr : Bytes
  pub sha256 : Bytes
  pub path : Bytes
  pub size : ℕ
  pub upstream : Bytes
  pub license : Bytes
  pub requires : List Bytes
  pub provides : List Bytes

abbrev pub Candidates : Type 0
Candidates = List (PkgKey × Candidate)

abbrev pub ProvidesIndex : Type 0
ProvidesIndex = Bytes → List PkgKey

unfoldable pub add_provider : Bytes → PkgKey → ProvidesIndex → ProvidesIndex
add_provider capability key index c = if str_eq c capability then index c ++ key ∷ [] else index c

unfoldable pub add_providers : List Bytes → PkgKey → ProvidesIndex → ProvidesIndex
add_providers [] key index = index
add_providers (p ∷ ps) key index = add_providers ps key (add_provider p key index)

unfoldable pub provides_from : Candidates → ProvidesIndex → ProvidesIndex
provides_from [] index = index
provides_from ((key, c) ∷ cs) index =
    provides_from cs (add_providers (key.name ∷ c.provides) key index)

unfoldable pub provides_index : Candidates → ProvidesIndex
provides_index candidates = provides_from candidates (λ _. [])

pub data CloseError : Type 0 where
  not_found : Bytes → Bytes → CloseError
  out_of_fuel : CloseError

unfoldable pub total_requires : Candidates → ℕ
total_requires [] = 0
total_requires ((_, c) ∷ cs) = length c.requires + total_requires cs

unfoldable pub returned : Option (List PkgKey) → Result CloseError (List PkgKey)
returned none = err out_of_fuel
returned (some closure) = ok closure

module _ (candidates : Candidates) where
  -- the zero value of a missing candidate requires nothing
  unfoldable pub requires_of : PkgKey → List Bytes
  requires_of k = elim (lookup k candidates) [ none ↦ [] | some c ↦ c.requires ]

  unfoldable pub has_candidate : PkgKey → Bool
  has_candidate k = elim (lookup k candidates) [ none ↦ false | some _ ↦ true ]

  unfoldable pub root_of : Bytes → Bytes → Result CloseError PkgKey
  root_of arch name =
      if has_candidate (record { name = name; arch = arch })
      then ok (record { name = name; arch = arch })
      else if has_candidate (record { name = name; arch = noarch })
      then ok (record { name = name; arch = noarch })
      else err (not_found name arch)

  unfoldable pub roots : Bytes → List Bytes → Result CloseError (List PkgKey)
  roots arch [] = ok []
  roots arch (name ∷ names) = do root ← root_of arch name; rest ← roots arch names; ok (root ∷ rest)

module _ (candidates : Candidates) (index : ProvidesIndex) where
  -- what the inner loop appends to the worklist
  unfoldable pub chosen : Bytes → List Bytes → List PkgKey
  chosen arch [] = []
  chosen arch (req ∷ reqs) =
      let rest = chosen arch reqs in
      if skip_require req
      then rest
      else elim (pick_provider (index req) arch) [ none ↦ rest | some p ↦ p ∷ rest ]

  unfoldable pub deps : Bytes → PkgKey → List PkgKey
  deps arch k = chosen arch (requires_of candidates k)

  -- the loop over the worklist
  unfoldable pub walk : ℕ → Bytes → List PkgKey → List PkgKey → Option (List PkgKey)
  walk fuel arch [] closure = some closure
  walk zero arch (cur ∷ work) closure = none
  walk (suc fuel) arch (cur ∷ work) closure =
      let skipped = walk fuel arch work closure in
      let visited = walk fuel arch (work ++ deps arch cur) (cur ∷ closure) in
      if contains closure cur then skipped else visited

  abbrev pub walk_fuel : List PkgKey → ℕ
  walk_fuel work = length work + total_requires candidates

  unfoldable pub close_arch : Bytes → List Bytes → List PkgKey → Result CloseError (List PkgKey)
  close_arch arch names closure = do
    work ← roots candidates arch names
    returned (walk (walk_fuel work) arch work closure)

  unfoldable pub close_arches :
      List Bytes → List Bytes → List PkgKey → Result CloseError (List PkgKey)
  close_arches [] names closure = ok closure
  close_arches (arch ∷ arches) names closure = do
    visited ← close_arch arch names closure
    close_arches arches names visited

  unfoldable pub close_deps : List Bytes → List Bytes → Result CloseError (List PkgKey)
  close_deps arches names = close_arches arches names []
