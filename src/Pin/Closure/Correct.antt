-- ===== src/Pin/Closure/Correct.antt =====
-- What the dependency walk has visited when it returns.
use mathlib.Core.Path.{subst}
use mathlib.Core.Logic.{⊎_elim}
use mathlib.Core.List.{Memᴰ}
use mathlib.Core.List.Memᴰ
use distroless.Prelude.{
  ℕ, zero, suc, some, List, [], ◌∷◌, ◌++◌, ◌≡◌, ◌⊎◌, inl, inr, refl, sym, Bool-cases, some_eq,
}
use distroless.Prelude.Dict.{contains, contains-Mem}
use distroless.Strings.{Bytes}
use distroless.Pin.Provider.{PkgKey, PkgKey_eq}
use distroless.Pin.Closure.{Candidates, ProvidesIndex, deps, walk}

-- in the set or still on the worklist
abbrev pub Held : List PkgKey → List PkgKey → PkgKey → Type 0
Held closure work k = Memᴰ k closure ⊎ Memᴰ k work

module _ (candidates : Candidates) (index : ProvidesIndex) (arch : Bytes) where
  -- what one loop has done to the set `before`, with `start` as its first worklist and `Good` a
  -- property of packages that dependencies keep
  pub record Visits (Good : PkgKey → Type 0) (before start closure work : List PkgKey)
      : Type 0 where
    pub kept : (k : PkgKey) → Memᴰ k before → Memᴰ k closure
    pub started : (k : PkgKey) → Memᴰ k start → Held closure work k
    pub good : (k : PkgKey) → Held closure work k → Good k
    pub closed :
        (k : PkgKey)
        → Memᴰ k closure
        → Memᴰ k before
          ⊎ ((d : PkgKey) → Memᴰ d (deps candidates index arch k) → Held closure work d)

  module _ (Good : PkgKey → Type 0)
      (good_deps : (k d : PkgKey) → Good k → Memᴰ d (deps candidates index arch k) → Good d)
      (before start : List PkgKey) where
    drop_seen :
        (closure work : List PkgKey) (cur k : PkgKey)
        → Memᴰ cur closure
        → Held closure (cur ∷ work) k
        → Held closure work k
    drop_seen closure work cur k seen (inl m) = inl m
    drop_seen closure work cur k seen (inr m) =
        ⊎_elim (λ e. inl (Memᴰ.cast e seen)) inr (Memᴰ.cases_cons m)

    Visits-seen :
        (closure work : List PkgKey) (cur : PkgKey)
        → Memᴰ cur closure
        → Visits Good before start closure (cur ∷ work)
        → Visits Good before start closure work
    Visits-seen closure work cur seen v = record {
      kept = v.kept;
      started = λ k m. drop_seen closure work cur k seen (v.started k m);
      good = λ k h. v.good k (⊎_elim inl (λ m. inr (Memᴰ.tail m)) h);
      closed = λ k m.
          ⊎_elim inl (λ all. inr (λ d e. drop_seen closure work cur d seen (all d e)))
            (v.closed k m);
    }

    move_new :
        (closure work more : List PkgKey) (cur k : PkgKey)
        → Held closure (cur ∷ work) k
        → Held (cur ∷ closure) (work ++ more) k
    move_new closure work more cur k (inl m) = inl (Memᴰ.tail m)
    move_new closure work more cur k (inr m) =
        ⊎_elim (λ e. inl (Memᴰ.head e)) (λ n. inr (Memᴰ.append_left more n)) (Memᴰ.cases_cons m)

    new-Good :
        (closure work : List PkgKey) (cur : PkgKey)
        → Visits Good before start closure (cur ∷ work)
        → Good cur
        → (k : PkgKey) → Held (cur ∷ closure) (work ++ deps candidates index arch cur) k
        → Good k
    new-Good closure work cur v good_cur k (inl m) =
        ⊎_elim (λ e. subst Good (sym e) good_cur) (λ n. v.good k (inl n)) (Memᴰ.cases_cons m)
    new-Good closure work cur v good_cur k (inr m) =
        ⊎_elim (λ n. v.good k (inr (Memᴰ.tail n))) (good_deps cur k good_cur)
          (Memᴰ.append_cases work m)

    Visits-new :
        (closure work : List PkgKey) (cur : PkgKey)
        → Visits Good before start closure (cur ∷ work)
        → Visits Good before start (cur ∷ closure) (work ++ deps candidates index arch cur)
    Visits-new closure work cur v =
        let more = deps candidates index arch cur in
        let good_cur = v.good cur (inr (Memᴰ.head refl)) in
        record {
          kept = λ k m. Memᴰ.tail (v.kept k m);
          started = λ k m. move_new closure work more cur k (v.started k m);
          good = λ k h. new-Good closure work cur v good_cur k h;
          closed = λ k m.
              ⊎_elim
                (λ e. inr (λ d n. inr (
                  Memᴰ.append_right work
                    (subst (λ (x : PkgKey). Memᴰ d (deps candidates index arch x)) e n))))
                (λ old.
                  ⊎_elim inl (λ all. inr (λ d n. move_new closure work more cur d (all d n)))
                    (v.closed k old))
                (Memᴰ.cases_cons m);
        }

    -- the loop keeps all of it, and ends with an empty worklist
    pub walk-Visits :
        (fuel : ℕ) (closure work result : List PkgKey)
        → Visits Good before start closure work
        → walk candidates index fuel arch work closure ≡ some result
        → Visits Good before start result []
    unfolding walk
    walk-Visits fuel closure [] result v h = rw (← some_eq h) v
    walk-Visits zero closure (cur ∷ work) result v h = cc
    walk-Visits (suc fuel) closure (cur ∷ work) result v h =
        elim (Bool-cases (contains closure cur)) [
          | inl seen ↦
              walk-Visits fuel closure work result
                (Visits-seen closure work cur ((contains-Mem closure cur).0 seen) v) (rw seen at h)
          | inr new ↦
              walk-Visits fuel (cur ∷ closure) (work ++ deps candidates index arch cur) result
                (Visits-new closure work cur v) (rw new at h)
        ]
