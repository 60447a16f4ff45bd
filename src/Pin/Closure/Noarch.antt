-- ===== src/Pin/Closure/Noarch.antt =====
-- A noarch package is visited for the first architecture only.
use mathlib.Core.Path.{subst}
use mathlib.Core.List.{Memᴰ}
use mathlib.Core.List.Memᴰ
use distroless.Prelude.{
  ℕ, zero, suc, ◌≤◌, true, false, some, List, [], ◌∷◌, ◌≡◌, refl, sym, ◌∙◌, arith, length, ok,
  ok-injective, map,
}
use distroless.Prelude.Dict.{contains-Mem}
use distroless.Strings.{Bytes}
use distroless.Pin.Provider.{PkgKey, PkgKey_eq, noarch}
use distroless.Pin.Closure.{
  Candidates, ProvidesIndex, has_candidate, root_of, roots, walk, walk_fuel, returned, close_arch,
  close_arches, close_deps,
}
use distroless.Pin.Closure.Walk.{walk_returns, unvisited-le}
use distroless.Pin.Closure.Whole.{Includes, close_deps-IsClosed}

abbrev pub noarch_key : Bytes → PkgKey
noarch_key name = record { name = name; arch = noarch }

held_map :
    (names : List Bytes) (c : List PkgKey)
    → ((name : Bytes) → Memᴰ name names → Memᴰ (noarch_key name) c)
    → (k : PkgKey) → Memᴰ k (map noarch_key names)
    → Memᴰ k c
held_map [] c h k m = absurd (Memᴰ.not-nil m)
held_map (n ∷ names) c h k (Memᴰ.head e) = Memᴰ.cast e (h n (Memᴰ.head refl))
held_map (n ∷ names) c h k (Memᴰ.tail m) = held_map names c (λ x i. h x (Memᴰ.tail i)) k m

module _ (candidates : Candidates) (index : ProvidesIndex) where
  -- each name is that of a noarch package and of none that is built for `arch`
  unfoldable pub NoarchOnly : Bytes → List Bytes → Type 0
  NoarchOnly arch names =
      (name : Bytes)
      → Memᴰ name names
      → (has_candidate candidates (record { name = name; arch = arch }) ≡ false)
        × (has_candidate candidates (noarch_key name) ≡ true)

  root_of-noarch :
      (arch name : Bytes)
      → has_candidate candidates (record { name = name; arch = arch }) ≡ false
      → has_candidate candidates (noarch_key name) ≡ true
      → root_of candidates arch name ≡ ok (noarch_key name)
  unfolding root_of
  root_of-noarch arch name other there = rw (other, there)

  roots-noarch :
      (arch : Bytes) (names : List Bytes)
      → NoarchOnly arch names
      → roots candidates arch names ≡ ok (map noarch_key names)
  unfolding roots NoarchOnly
  roots-noarch arch [] h = refl
  roots-noarch arch (n ∷ names) h =
      let (other, there) = h n (Memᴰ.head refl) in
      rw (root_of-noarch arch n other there, roots-noarch arch names (λ x m. h x (Memᴰ.tail m)))

  walk-seen :
      (fuel : ℕ) (arch : Bytes) (work closure : List PkgKey)
      → length work ≤ fuel
      → ((k : PkgKey) → Memᴰ k work → Memᴰ k closure)
      → walk candidates index fuel arch work closure ≡ some closure
  unfolding walk
  walk-seen fuel arch [] closure h sub = refl
  walk-seen zero arch (cur ∷ work) closure h sub = absurd (omega arith)
  walk-seen (suc fuel) arch (cur ∷ work) closure h sub =
      rw ((contains-Mem closure cur).1 (sub cur (Memᴰ.head refl)))
        (walk-seen fuel arch work closure (omega arith) (λ k m. sub k (Memᴰ.tail m)))

  close_arch-walk :
      (arch : Bytes) (names : List Bytes) (work before closure : List PkgKey)
      → roots candidates arch names ≡ ok work
      → walk candidates index (walk_fuel candidates index work) arch work before ≡ some closure
      → close_arch candidates index arch names before ≡ ok closure
  unfolding close_arch returned
  close_arch-walk arch names work before closure er ew = rw (er, ew)

  close_one :
      (arch : Bytes) (names : List Bytes) (closure : List PkgKey)
      → close_arch candidates index arch names [] ≡ ok closure
      → close_deps candidates index (arch ∷ []) names ≡ ok closure
  unfolding close_deps close_arches
  close_one arch names closure h = rw h

  close_two :
      (a b : Bytes) (names : List Bytes) (c d : List PkgKey)
      → close_arch candidates index a names [] ≡ ok c
      → close_arch candidates index b names c ≡ ok d
      → close_deps candidates index (a ∷ b ∷ []) names ≡ ok d
  unfolding close_deps close_arches
  close_two a b names c d ha hb = rw (ha, hb)

  roots_held :
      (a : Bytes) (names : List Bytes) (c : List PkgKey)
      → NoarchOnly a names
      → Includes candidates index (a ∷ []) names c a
      → (k : PkgKey) → Memᴰ k (map noarch_key names)
      → Memᴰ k c
  unfolding NoarchOnly
  roots_held a names c h included k m =
      held_map names c
        (λ name n.
          let (l, el, ml) = included name n in
          let (other, there) = h name n in
          subst (λ (x : PkgKey). Memᴰ x c)
            (ok-injective (sym el ∙ root_of-noarch a name other there)) ml)
        k m

  -- Where every declared package is noarch, a second architecture adds nothing to the closure: what
  -- the packages require is looked up for the first architecture alone.
  pub noarch_second_arch :
      (a b : Bytes) (names : List Bytes)
      → NoarchOnly a names
      → NoarchOnly b names
      → close_deps candidates index (a ∷ b ∷ []) names ≡ close_deps candidates index (a ∷ []) names
  noarch_second_arch a b names ha hb =
      let work = map noarch_key names in
      let (c, ew) =
        walk_returns candidates index (walk_fuel candidates index work) a work []
          (omega (arith, unvisited-le candidates [])) in
      let first = close_arch-walk a names work [] c (roots-noarch a names ha) ew in
      let (_, included) =
        close_deps-IsClosed candidates index (a ∷ []) names c (close_one a names c first) in
      let again =
        walk-seen (walk_fuel candidates index work) b work c (omega arith)
          (roots_held a names c ha (included a (Memᴰ.head refl))) in
      close_two a b names c c first
        (close_arch-walk b names work c c (roots-noarch b names hb) again)
      ∙ sym (close_one a names c first)
