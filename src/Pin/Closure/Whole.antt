-- ===== src/Pin/Closure/Whole.antt =====
-- `closeDeps` over all architectures: its result is a closure of the declared packages, and it
-- fails only where a declared package is missing.
use mathlib.Core.Logic.{⊎_elim}
use mathlib.Core.Path.{subst}
use mathlib.Core.List.{Memᴰ}
use mathlib.Core.List.Memᴰ
use distroless.Prelude.{
  false, Option, none, some, List, [], ◌∷◌, ◌≡◌, ◌≢◌, inl, inr, refl, sym, ap, ◌∙◌, arith, ok, err,
  >>=-eq-ok, >>=-eq-err, ok-injective,
}
use distroless.Strings.{Bytes}
use distroless.Pin.Provider.{PkgKey, noarch}
use distroless.Pin.Closure.{
  Candidates, ProvidesIndex, CloseError, not_found, has_candidate, root_of, roots, deps, walk_fuel,
  returned, close_arch, close_arches, close_deps,
}
use distroless.Pin.Closure.Walk.{walk_returns, unvisited-le}
use distroless.Pin.Closure.Correct.{Visits, Held, walk-Visits}

-- what can be reached from the declared packages by dependencies on some declared architecture
pub data Reached (candidates : Candidates) (index : ProvidesIndex) (arches names : List Bytes)
    : PkgKey → Type 0 where
  root :
      (arch name : Bytes) (k : PkgKey)
      → Memᴰ arch arches
      → Memᴰ name names
      → root_of candidates arch name ≡ ok k
      → Reached candidates index arches names k
  dep :
      (arch : Bytes) (k d : PkgKey)
      → Memᴰ arch arches
      → Reached candidates index arches names k
      → Memᴰ d (deps candidates index arch k)
      → Reached candidates index arches names d

module _ (candidates : Candidates) (index : ProvidesIndex) (arches names : List Bytes) where
  -- nothing is in it that is not reached, and each package has its dependencies for one of the
  -- architectures in it
  pub record IsClosed (closure : List PkgKey) : Type 0 where
    pub reached : (k : PkgKey) → Memᴰ k closure → Reached candidates index arches names k
    pub closed :
        (k : PkgKey)
        → Memᴰ k closure
        → (arch : Bytes) × Memᴰ arch arches
          × ((d : PkgKey) → Memᴰ d (deps candidates index arch k) → Memᴰ d closure)

  abbrev pub Includes : List PkgKey → Bytes → Type 0
  Includes closure arch =
      (name : Bytes)
      → Memᴰ name names
      → (k : PkgKey) × (root_of candidates arch name ≡ ok k) × Memᴰ k closure

  roots-ok :
      (arch : Bytes) (ns : List Bytes) (work : List PkgKey)
      → roots candidates arch ns ≡ ok work
      → ((name : Bytes)
          → Memᴰ name ns
          → (k : PkgKey) × (root_of candidates arch name ≡ ok k) × Memᴰ k work)
        × ((k : PkgKey)
            → Memᴰ k work
            → (name : Bytes) × Memᴰ name ns × (root_of candidates arch name ≡ ok k))
  unfolding roots
  roots-ok arch [] work h = (
    λ name m. absurd (Memᴰ.not-nil m),
    λ k m. absurd (Memᴰ.not-nil (subst (Memᴰ k) (sym (ok-injective h)) m)),
  )
  roots-ok arch (n ∷ ns) work h =
      let (r, er, h') = >>=-eq-ok (root_of candidates arch n) _ h in
      let (rest, erest, h'') = >>=-eq-ok (roots candidates arch ns) _ h' in
      let (there, back) = roots-ok arch ns rest erest in
      let cut : r ∷ rest ≡ work = ok-injective h'' in
      (
        λ name m.
            subst
              (λ (w : List PkgKey). (k : PkgKey) × (root_of candidates arch name ≡ ok k) × Memᴰ k w)
              cut
              (⊎_elim
                (λ e. (
                  r,
                  subst (λ (x : Bytes). root_of candidates arch x ≡ ok r) (sym e) er,
                  Memᴰ.head refl,
                ))
                (λ n'. let (k, ek, mk) = there name n' in (k, ek, Memᴰ.tail mk))
                (Memᴰ.cases_cons m)),
        λ k m.
            ⊎_elim (λ e. (n, Memᴰ.head refl, er ∙ ap ok (sym e)))
              (λ n'. let (name, mn, ek) = back k n' in (name, Memᴰ.tail mn, ek))
              (Memᴰ.cases_cons (subst (Memᴰ k) (sym cut) m)),
      )

  Good : PkgKey → Type 0
  Good = Reached candidates index arches names

  held_nil : (c : List PkgKey) (k : PkgKey) → Held c [] k → Memᴰ k c
  held_nil c k h = ⊎_elim (λ m. m) (λ m. absurd (Memᴰ.not-nil m)) h

  record Grows (arch : Bytes) (c c' : List PkgKey) : Type 0 where
    is_closed : IsClosed c'
    kept : (k : PkgKey) → Memᴰ k c → Memᴰ k c'
    includes : Includes c' arch

  Grows-Visits :
      (arch : Bytes) (c work c' : List PkgKey)
      → IsClosed c
      → Memᴰ arch arches
      → roots candidates arch names ≡ ok work
      → Visits candidates index arch Good c work c' []
      → Grows arch c c'
  unfolding Good
  Grows-Visits arch c work c' closed m er v = record {
    is_closed = record {
      reached = λ k n. v.good k (inl n);
      closed = λ k n.
          ⊎_elim
            (λ old. let (a, ma, all) = closed.closed k old in (a, ma, λ d e. v.kept d (all d e)))
            (λ all. (arch, m, λ d e. held_nil c' d (all d e))) (v.closed k n);
    };
    kept = v.kept;
    includes = λ name n.
        let (k, ek, mk) = (roots-ok arch names work er).0 name n in
        (k, ek, held_nil c' k (v.started k mk));
  }

  returned-ok : (o : Option (List PkgKey)) (c : List PkgKey) → returned o ≡ ok c → o ≡ some c
  unfolding returned
  returned-ok none c h = cc
  returned-ok (some r) c h = ap some (ok-injective h)

  close_arch-Grows :
      (arch : Bytes) (c c' : List PkgKey)
      → IsClosed c
      → Memᴰ arch arches
      → close_arch candidates index arch names c ≡ ok c'
      → Grows arch c c'
  unfolding close_arch Good
  close_arch-Grows arch c c' closed m h =
      let (work, er, h') = >>=-eq-ok (roots candidates arch names) _ h in
      let start : Visits candidates index arch Good c work c work = record {
        kept = λ k n. n;
        started = λ k n. inr n;
        good = λ k n.
            ⊎_elim (closed.reached k)
              (λ w.
                let (name, mn, ek) = (roots-ok arch names work er).1 k w in
                root arch name k m mn ek)
              n;
        closed = λ k n. inl n;
      } in
      Grows-Visits arch c work c' closed m er (
        walk-Visits candidates index arch Good (λ k d g e. dep arch k d m g e) c work
          (walk_fuel candidates index work) c work c' start (returned-ok _ c' h'))

  -- the loop over the architectures that are left
  close_arches-IsClosed :
      (left : List Bytes) (c c' : List PkgKey)
      → IsClosed c
      → ((arch : Bytes) → Memᴰ arch left → Memᴰ arch arches)
      → close_arches candidates index left names c ≡ ok c'
      → IsClosed c'
        × ((k : PkgKey) → Memᴰ k c → Memᴰ k c')
        × ((arch : Bytes) → Memᴰ arch left → Includes c' arch)
  unfolding close_arches
  close_arches-IsClosed [] c c' closed sub h =
      let same : c ≡ c' = ok-injective h in
      (subst IsClosed same closed, λ k m. subst (Memᴰ k) same m, λ arch m. absurd (Memᴰ.not-nil m))
  close_arches-IsClosed (arch ∷ left) c c' closed sub h =
      let (d, ed, h') = >>=-eq-ok (close_arch candidates index arch names c) _ h in
      let g = close_arch-Grows arch c d closed (sub arch (Memᴰ.head refl)) ed in
      let (closed', kept', includes') =
        close_arches-IsClosed left d c' g.is_closed (λ a m. sub a (Memᴰ.tail m)) h' in
      (
        closed',
        λ k m. kept' k (g.kept k m),
        λ a m.
            ⊎_elim
              (λ e.
                subst (Includes c') (sym e)
                  (λ name n. let (k, ek, mk) = g.includes name n in (k, ek, kept' k mk)))
              (includes' a) (Memᴰ.cases_cons m),
      )

  -- Where closeDeps succeeds, the closure has every declared package for every declared
  -- architecture, each of its packages has its dependencies for one of the architectures in it,
  -- and nothing is in it that the declared packages do not reach.
  pub close_deps-IsClosed :
      (closure : List PkgKey)
      → close_deps candidates index arches names ≡ ok closure
      → IsClosed closure × ((arch : Bytes) → Memᴰ arch arches → Includes closure arch)
  unfolding close_deps
  close_deps-IsClosed closure h =
      let start : IsClosed [] = record {
        reached = λ k m. absurd (Memᴰ.not-nil m);
        closed = λ k m. absurd (Memᴰ.not-nil m);
      } in
      let (closed, _, includes) = close_arches-IsClosed arches [] closure start (λ a m. m) h in
      (closed, includes)

  -- a declared package that is neither built for the architecture nor noarch
  abbrev pub Missing : CloseError → Type 0
  Missing e =
      (name : Bytes) × (arch : Bytes) × (e ≡ not_found name arch)
      × Memᴰ name names
      × Memᴰ arch arches
      × (has_candidate candidates (record { name = name; arch = arch }) ≡ false)
      × (has_candidate candidates (record { name = name; arch = noarch }) ≡ false)

  root_of-err :
      (arch name : Bytes) (e : CloseError)
      → Memᴰ name names
      → Memᴰ arch arches
      → root_of candidates arch name ≡ err e
      → Missing e
  unfolding root_of
  root_of-err arch name e mn ma h = (name, arch, ground arith, mn, ma, ground arith, ground arith)

  roots-err :
      (arch : Bytes) (ns : List Bytes) (e : CloseError)
      → Memᴰ arch arches
      → ((n : Bytes) → Memᴰ n ns → Memᴰ n names)
      → roots candidates arch ns ≡ err e
      → Missing e
  unfolding roots
  roots-err arch [] e ma sub h = cc
  roots-err arch (n ∷ ns) e ma sub h =
      ⊎_elim (λ er. root_of-err arch n e (sub n (Memᴰ.head refl)) ma er)
        (λ (r, er, h').
          ⊎_elim (λ es. roots-err arch ns e ma (λ x m. sub x (Memᴰ.tail m)) es)
            (λ (rest, es, h''). cc) (>>=-eq-err (roots candidates arch ns) _ h'))
        (>>=-eq-err (root_of candidates arch n) _ h)

  ok_ne_err : {c : List PkgKey} {e : CloseError} → ok c ≢ err e
  ok_ne_err h = cc

  -- the fuel is enough
  close_arch-err :
      (arch : Bytes) (c : List PkgKey) (e : CloseError)
      → Memᴰ arch arches
      → close_arch candidates index arch names c ≡ err e
      → Missing e
  unfolding close_arch returned
  close_arch-err arch c e ma h =
      ⊎_elim (λ er. roots-err arch names e ma (λ n m. m) er)
        (λ (work, er, h').
          let (result, done) =
            walk_returns candidates index (walk_fuel candidates index work) arch work c
              (omega (arith, unvisited-le candidates c)) in
          absurd (ok_ne_err (rw (done, returned) at h')))
        (>>=-eq-err (roots candidates arch names) _ h)

  close_arches-err :
      (left : List Bytes) (c : List PkgKey) (e : CloseError)
      → ((arch : Bytes) → Memᴰ arch left → Memᴰ arch arches)
      → close_arches candidates index left names c ≡ err e
      → Missing e
  unfolding close_arches
  close_arches-err [] c e sub h = cc
  close_arches-err (arch ∷ left) c e sub h =
      ⊎_elim (λ ea. close_arch-err arch c e (sub arch (Memᴰ.head refl)) ea)
        (λ (d, ed, h'). close_arches-err left d e (λ a m. sub a (Memᴰ.tail m)) h')
        (>>=-eq-err (close_arch candidates index arch names c) _ h)

  -- closeDeps always returns, and its only error is a declared package that has, for a declared
  -- architecture, neither a candidate of that architecture nor a noarch one.
  pub close_deps-err :
      (e : CloseError) → close_deps candidates index arches names ≡ err e → Missing e
  unfolding close_deps
  close_deps-err e h = close_arches-err arches [] e (λ a m. m) h
