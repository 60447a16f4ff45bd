-- ===== src/Mirror/Client/Cached.antt =====
-- What a cache holds, and that using it keeps it so.
use distroless.Prelude.{Option, none, some, ◌≡◌, ◌≢◌, ◌∙◌, ◌⊎◌, sym}
use mathlib.Core.Logic.{⊎_elim}
use mathlib.Core.Path.{subst}
use distroless.Strings.{Bytes}
use distroless.Mirror.Client.{Lru}

-- What a cache package documents: an empty cache has no entry, a lookup makes none, and adding an
-- entry makes that one only. Which entries are evicted is left open.
pub record IsLru {V : Type 0} (l : Lru V) : Type 0 where
  pub find_empty : (k : Bytes) → l.find l.empty k ≡ none
  pub find_touch :
      (c : l.Cache) (j k : Bytes) (v : V) → l.find (l.touch c j) k ≡ some v → l.find c k ≡ some v
  pub find_add :
      (c : l.Cache) (j k : Bytes) (w v : V)
      → l.find (l.add c j w) k ≡ some v
      → ((j ≡ k) × (w ≡ v)) ⊎ (l.find c k ≡ some v)

none_some : {V : Type 0} {v : V} → ◌≢◌ {A = Option V} none (some v)
none_some h = cc

module _ {V : Type 0} (l : Lru V) (is_lru : IsLru l) (P : Bytes → V → Type 0) where
  -- each entry has the property
  abbrev pub Holds : l.Cache → Type 0
  Holds c = (k : Bytes) (v : V) → l.find c k ≡ some v → P k v

  pub Holds-empty : Holds l.empty
  Holds-empty k v e = absurd (none_some (sym (is_lru.find_empty k) ∙ e))

  pub Holds-touch : (c : l.Cache) (j : Bytes) → Holds c → Holds (l.touch c j)
  Holds-touch c j h k v e = h k v (is_lru.find_touch c j k v e)

  pub Holds-add : (c : l.Cache) (j : Bytes) (w : V) → P j w → Holds c → Holds (l.add c j w)
  Holds-add c j w p h k v e =
      ⊎_elim
        (λ (same_key, same_value). subst (P k) same_value (subst (λ (d : Bytes). P d w) same_key p))
        (λ old. h k v old) (is_lru.find_add c j k w v e)
