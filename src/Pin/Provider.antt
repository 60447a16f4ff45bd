-- ===== src/Pin/Provider.antt =====
-- Which package of a repository stands for a required capability: `pickProvider` of
-- bazel/modules/rules_rpm/rpm/tools/pin/main.go.
use mathlib.Core.List.{Memᴰ}
use mathlib.Core.List.Memᴰ
use mathlib.Core.Path.{subst}
use mathlib.Core.Logic.{⊎_elim}
use distroless.Prelude.{
  Bool, true, false, ◌||◌, ◌&&◌, Option, none, some, List, [], ◌∷◌, ◌≡◌, ◌↔◌, ◌⊎◌, inl, inr, refl,
  sym, ap, ◌∙◌, arith, if◌then◌else◌, Bool-cases, Option-cases, some_eq, sort_slice, insert_less,
}
use distroless.Prelude.Dict.{Eq, Mem-cons}
use distroless.Strings.{Bytes, codes, str_eq}
use distroless.Strings.Order.{
  bytes_eq, text_lt, text_lt_irrefl, text_lt_asym, text_lt_total, text_le_trans,
}

pub record PkgKey : Type 0 where
  pub name : Bytes
  pub arch : Bytes

abbrev pub noarch : Bytes
noarch = codes "noarch"

unfoldable pub key_eq : PkgKey → PkgKey → Bool
key_eq a b = str_eq a.name b.name && str_eq a.arch b.arch

pub key_eq_iff : (a b : PkgKey) → (key_eq a b ≡ true) ↔ (a ≡ b)
unfolding key_eq
key_eq_iff a b = ground (arith, bytes_eq.beq_iff a.name b.name, bytes_eq.beq_iff a.arch b.arch)

instance abbrev pub PkgKey_eq : Eq PkgKey
PkgKey_eq = record { beq = key_eq; beq_iff = key_eq_iff }

unfoldable pub is_compatible : Bytes → PkgKey → Bool
is_compatible target p = str_eq p.arch target || str_eq p.arch noarch

unfoldable pub compatible : Bytes → List PkgKey → List PkgKey
compatible target [] = []
compatible target (p ∷ ps) =
    let rest = compatible target ps in if is_compatible target p then p ∷ rest else rest

-- the comparison of the sort
unfoldable pub less : Bytes → PkgKey → PkgKey → Bool
less target p q = if str_eq p.name q.name then str_eq p.arch target else text_lt p.name q.name

abbrev pub first {ℓ} : {A : Type ℓ} → List A → Option A
first [] = none
first (x ∷ xs) = some x

unfoldable pub pick_provider : List PkgKey → Bytes → Option PkgKey
pick_provider providers target = first (sort_slice (less target) (compatible target providers))

-- `k` is as good as `q`: its name is not greater, and among equal names it is of the target.
pub record Before (target : Bytes) (k q : PkgKey) : Type 0 where
  pub named : text_lt q.name k.name ≡ false
  pub built : k.name ≡ q.name → (k.arch ≡ q.arch) ⊎ (k.arch ≡ target)

-- The head of a sorted list is the better of the first entry and the head of the sorted rest.
abbrev better : (PkgKey → PkgKey → Bool) → PkgKey → Option PkgKey → PkgKey
better lt x none = x
better lt x (some y) = if lt y x then y else x

first-insert_less :
    (lt : PkgKey → PkgKey → Bool) (x : PkgKey) (ys : List PkgKey)
    → first (insert_less lt x ys) ≡ some (better lt x (first ys))
unfolding insert_less
first-insert_less lt x [] = refl
first-insert_less lt x (y ∷ ys) = ground arith

module _ (target : Bytes) where
  Before-refl : (k : PkgKey) → Before target k k
  Before-refl k = record { named = text_lt_irrefl k.name; built = λ _. inl refl }

  Before-trans : (a b c : PkgKey) → Before target a b → Before target b c → Before target a c
  Before-trans a b c p q = record {
    named = text_le_trans a.name b.name c.name p.named q.named;
    built = λ same.
        let same_b : a.name ≡ b.name =
          text_lt_total a.name b.name
            (subst (λ (n : Bytes). text_lt n b.name ≡ false) (sym same) q.named) p.named in
        ground (arith, p.built same_b, q.built (sym same_b ∙ same));
  }

  Fits : PkgKey → Type 0
  Fits k = (k.arch ≡ target) ⊎ (k.arch ≡ noarch)

  less-Before : (x y : PkgKey) → less target y x ≡ true → Before target y x
  unfolding less
  less-Before x y h = ground (
    arith,
    bytes_eq.beq_iff y.name x.name,
    bytes_eq.beq_iff y.arch target,
    text_lt_asym y.name x.name,
    text_lt_irrefl x.name,
  )

  not_less-Before : (x y : PkgKey) → Fits x → Fits y → less target y x ≡ false → Before target x y
  unfolding less Fits
  not_less-Before x y fx fy h =
      ground (
        arith,
        bytes_eq.beq_iff y.name x.name,
        bytes_eq.beq_iff y.arch target,
        text_lt_irrefl x.name,
      )

  better-Mem :
      (x : PkgKey) (o : Option PkgKey) (ys : List PkgKey)
      → ((y : PkgKey) → o ≡ some y → Memᴰ y ys)
      → Memᴰ (better (less target) x o) (x ∷ ys)
  better-Mem x none ys h = Memᴰ.head refl
  better-Mem x (some y) ys h = elim (Bool-cases (less target y x)) [
    | inl le ↦ rw le (Memᴰ.tail (h y refl))
    | inr gt ↦ rw gt (Memᴰ.head refl)
  ]

  -- the head of a list of packages that fit, once it is sorted
  pub record IsBest (ps : List PkgKey) (k : PkgKey) : Type 0 where
    pub listed : Memᴰ k ps
    pub best : (q : PkgKey) → Memᴰ q ps → Before target k q

  AllFit : List PkgKey → Type 0
  AllFit ps = (q : PkgKey) → Memᴰ q ps → Fits q

  IsBest-better :
      (x y : PkgKey) (ps : List PkgKey)
      → AllFit (x ∷ ps)
      → IsBest ps y
      → IsBest (x ∷ ps) (better (less target) x (some y))
  unfolding AllFit
  IsBest-better x y ps fit b = elim (Bool-cases (less target y x)) [
    | inl le ↦ rw le (record {
      listed = Memᴰ.tail b.listed;
      best = λ q m. ⊎_elim (λ e. rw e (less-Before x y le)) (b.best q) (Memᴰ.cases_cons m);
    })
    | inr gt ↦
        let ahead = not_less-Before x y (fit x (Memᴰ.head refl)) (fit y (Memᴰ.tail b.listed)) gt in
        rw gt (record {
          listed = Memᴰ.head refl;
          best = λ q m.
              ⊎_elim (λ e. rw e (Before-refl x)) (λ n. Before-trans x y q ahead (b.best q n))
                (Memᴰ.cases_cons m);
        })
  ]

  first-sort_slice :
      (ps : List PkgKey) (k : PkgKey)
      → AllFit ps
      → first (sort_slice (less target) ps) ≡ some k
      → IsBest ps k
  unfolding sort_slice AllFit
  first-sort_slice [] k fit h = cc
  first-sort_slice (x ∷ []) k fit h = rw (← some_eq h) (record {
    listed = Memᴰ.head refl;
    best = λ q m. rw (Memᴰ.eq_of_singleton m) (Before-refl x);
  })
  first-sort_slice (x ∷ y ∷ ps) k fit h =
      let lt = less target in
      let z : PkgKey = better lt y (first (sort_slice lt ps)) in
      let ez : first (sort_slice lt (y ∷ ps)) ≡ some z =
        first-insert_less lt y (sort_slice lt ps) in
      let ek : better lt x (some z) ≡ k = some_eq (
        ap (λ (o : Option PkgKey). some (better lt x o)) (sym ez)
        ∙ sym (first-insert_less lt x (sort_slice lt (y ∷ ps)))
        ∙ h) in
      subst (IsBest (x ∷ y ∷ ps)) ek (
        IsBest-better x z (y ∷ ps) fit
          (first-sort_slice (y ∷ ps) z (λ q m. fit q (Memᴰ.tail m)) ez))

  pub mem-compatible :
      (q : PkgKey) (ps : List PkgKey)
      → Memᴰ q (compatible target ps) ↔ (Memᴰ q ps × (is_compatible target q ≡ true))
  unfolding compatible
  mem-compatible q [] = (λ m. absurd (Memᴰ.not-nil m), λ m. absurd (Memᴰ.not-nil m.0))
  mem-compatible q (p ∷ ps) =
      ground (arith, Mem-cons q p ps, Mem-cons q p (compatible target ps), mem-compatible q ps)

  is_compatible-Fits : (q : PkgKey) → is_compatible target q ≡ true → Fits q
  unfolding is_compatible Fits
  is_compatible-Fits q h =
      ground (arith, bytes_eq.beq_iff q.arch target, bytes_eq.beq_iff q.arch noarch)

  compatible-AllFit : (ps : List PkgKey) → AllFit (compatible target ps)
  unfolding AllFit
  compatible-AllFit ps q m = is_compatible-Fits q ((mem-compatible q ps).0 m).1

  -- pickProvider's choice is a compatible provider that stands before every other one.
  pub pick_provider-IsBest :
      (ps : List PkgKey) (k : PkgKey)
      → pick_provider ps target ≡ some k
      → IsBest (compatible target ps) k
  unfolding pick_provider
  pick_provider-IsBest ps k h = first-sort_slice (compatible target ps) k (compatible-AllFit ps) h

  IsBest-unique :
      (ps qs : List PkgKey) (k l : PkgKey)
      → ((q : PkgKey) → Memᴰ q ps ↔ Memᴰ q qs)
      → IsBest ps k
      → IsBest qs l
      → k ≡ l
  IsBest-unique ps qs k l same a b =
      let forth = a.best l ((same l).1 b.listed) in
      let back = b.best k ((same k).0 a.listed) in
      let named = text_lt_total k.name l.name back.named forth.named in
      ground (arith, forth.built named, back.built (sym named))

  sort_slice-none : (ps : List PkgKey) → first (sort_slice (less target) ps) ≡ none → ps ≡ []
  unfolding sort_slice
  sort_slice-none [] h = refl
  sort_slice-none (x ∷ ps) h = cc (first-insert_less (less target) x (sort_slice (less target) ps))

  none-compatible :
      (ps : List PkgKey) (q : PkgKey)
      → pick_provider ps target ≡ none
      → ¬ Memᴰ q (compatible target ps)
  unfolding pick_provider
  none-compatible ps q h m =
      Memᴰ.not-nil (subst (Memᴰ q) (sort_slice-none (compatible target ps) h) m)

  -- The choice depends on which packages provide, not on the order or the repetition in which the
  -- index lists them.
  pub pick_provider_order :
      (ps qs : List PkgKey)
      → ((q : PkgKey) → Memᴰ q ps ↔ Memᴰ q qs)
      → pick_provider ps target ≡ pick_provider qs target
  pick_provider_order ps qs same =
      let same_fit : (q : PkgKey) → Memᴰ q (compatible target ps) ↔ Memᴰ q (compatible target qs) =
        λ q. ground (arith, same q, mem-compatible q ps, mem-compatible q qs) in
      elim (Option-cases (pick_provider ps target)) [
        | inl none_p ↦ elim (Option-cases (pick_provider qs target)) [
          | inl none_q ↦ none_p ∙ sym none_q
          | inr (l, el) ↦
              absurd
                (none-compatible ps l none_p ((same_fit l).1 (pick_provider-IsBest qs l el).listed))
        ]
        | inr (k, ek) ↦ elim (Option-cases (pick_provider qs target)) [
          | inl none_q ↦
              absurd
                (none-compatible qs k none_q ((same_fit k).0 (pick_provider-IsBest ps k ek).listed))
          | inr (l, el) ↦
              ek
              ∙ ap some (
                  IsBest-unique (compatible target ps) (compatible target qs) k l same_fit
                    (pick_provider-IsBest ps k ek) (pick_provider-IsBest qs l el))
              ∙ sym el
        ]
      ]
