-- ===== src/Pin/Closure/Walk.antt =====
-- The dependency walk ends, and what each of its rounds keeps.
use distroless.Prelude.{
  ℕ, zero, suc, ◌+◌, ◌≤◌, false, some, List, [], ◌∷◌, ◌++◌, ◌≡◌, inl, inr, refl, ap, arith,
  if◌then◌else◌, length, length-append, Bool-cases,
}
use distroless.Prelude.Dict.{contains, lookup}
use distroless.Strings.{Bytes}
use distroless.Pin.Provider.{PkgKey, key_eq_iff, PkgKey_eq}
use distroless.Pin.Closure.{
  Candidates, ProvidesIndex, requires_of, chosen, deps, walk, total_requires,
}

-- what the candidates that are not yet visited require in all
pub unvisited : Candidates → List PkgKey → ℕ
unvisited [] closure = 0
unvisited ((k, c) ∷ cs) closure =
    (if contains closure k then 0 else length c.requires) + unvisited cs closure

unvisited-nil : (cs : Candidates) → unvisited cs [] ≡ total_requires cs
unfolding unvisited total_requires contains
unvisited-nil [] = refl
unvisited-nil (c ∷ cs) = ap (λ (n : ℕ). length c.1.requires + n) (unvisited-nil cs)

pub unvisited-le :
    (cs : Candidates) (closure : List PkgKey) → unvisited cs closure ≤ total_requires cs
unfolding unvisited total_requires
unvisited-le [] closure = omega arith
unvisited-le ((k, c) ∷ cs) closure = ground (arith, unvisited-le cs closure)

-- marking a package takes what it requires off
unvisited-cons_le :
    (cs : Candidates) (closure : List PkgKey) (k : PkgKey)
    → unvisited cs (k ∷ closure) ≤ unvisited cs closure
unfolding unvisited contains
unvisited-cons_le [] closure k = omega arith
unvisited-cons_le ((j, c) ∷ cs) closure k = ground (arith, unvisited-cons_le cs closure k)

unvisited-cons :
    (cs : Candidates) (closure : List PkgKey) (k : PkgKey)
    → contains closure k ≡ false
    → unvisited cs (k ∷ closure) + length (requires_of cs k) ≤ unvisited cs closure
unfolding unvisited contains requires_of lookup
unvisited-cons [] closure k new = omega arith
unvisited-cons ((j, c) ∷ cs) closure k new = ground (
  arith,
  key_eq_iff j k,
  key_eq_iff k j,
  unvisited-cons_le cs closure k,
  unvisited-cons cs closure k new,
)

module _ (candidates : Candidates) (index : ProvidesIndex) where
  length-chosen :
      (arch : Bytes) (reqs : List Bytes) → length (chosen candidates index arch reqs) ≤ length reqs
  unfolding chosen
  length-chosen arch [] = omega arith
  length-chosen arch (req ∷ reqs) = ground (arith, length-chosen arch reqs)

  length-deps :
      (arch : Bytes) (k : PkgKey)
      → length (deps candidates index arch k) ≤ length (requires_of candidates k)
  unfolding deps
  length-deps arch k = length-chosen arch (requires_of candidates k)

  -- Every round shortens the list or visits a package, so the fuel is enough.
  pub walk_returns :
      (fuel : ℕ) (arch : Bytes) (work closure : List PkgKey)
      → length work + unvisited candidates closure ≤ fuel
      → (result : List PkgKey) × (walk candidates index fuel arch work closure ≡ some result)
  unfolding walk
  walk_returns fuel arch [] closure h = (closure, refl)
  walk_returns zero arch (cur ∷ work) closure h = absurd (omega arith)
  walk_returns (suc fuel) arch (cur ∷ work) closure h = elim (Bool-cases (contains closure cur)) [
    | inl seen ↦ rw seen (walk_returns fuel arch work closure (omega arith))
    | inr new ↦
        let enough : length (work ++ deps candidates index arch cur)
              + unvisited candidates (cur ∷ closure)
            ≤ fuel =
          omega (
            arith,
            length-append work (deps candidates index arch cur),
            length-deps arch cur,
            unvisited-cons candidates closure cur new,
          ) in
        rw new
          (walk_returns fuel arch (work ++ deps candidates index arch cur) (cur ∷ closure) enough)
  ]
