-- ===== src/Pin/Evr.antt =====
-- The epoch:version-release strings of bazel/modules/rules_rpm/rpm/tools/pin/main.go
-- (`formatEVR`, `splitEVR`, `compareEVR`).
use distroless.Prelude.{
  ℕ, Bool, ◌||◌, Option, none, some, [], ◌∷◌, ◌++◌, ◌≡◌, refl, if◌then◌else◌, ==_refl, ℤ,
  Bool-cases, inl, inr,
}
use distroless.Strings.{Bytes, codes, str_eq, cut_first, cut_last, cmp_or}
use distroless.Strings.Split.{Lacks}

pub record PrimaryVersion : Type 0 where
  pub epoch : Bytes
  pub ver : Bytes
  pub rel : Bytes

abbrev no_epoch : Bytes → Bool
no_epoch e = str_eq e [] || str_eq e (codes "0")

unfoldable pub format_evr : PrimaryVersion → Bytes
format_evr v =
    if no_epoch v.epoch then v.ver ++ b'-' ∷ v.rel else v.epoch ++ b':' ∷ (v.ver ++ b'-' ∷ v.rel)

-- the rest behind the epoch, split at its last dash
unfoldable pub split_release : Bytes → Option (Bytes × Bytes) → Bytes × Bytes
split_release evr none = (evr, [])
split_release evr (some (version, release)) = (version, release)

unfoldable pub split_at_epoch : Bytes → Option (Bytes × Bytes) → Bytes × Bytes
split_at_epoch evr none = (codes "0", evr)
split_at_epoch evr (some (epoch, rest)) = (epoch, rest)

unfoldable pub split_evr : Bytes → PrimaryVersion
split_evr evr =
    let (epoch, rest) = split_at_epoch evr (cut_first b':' evr) in
    let (version, release) = split_release rest (cut_last b'-' rest) in
    record { epoch = epoch; ver = version; rel = release }

-- The third-party `rpmutils.Vercmp` is the argument `vercmp`.
unfoldable pub compare_evr : (Bytes → Bytes → ℤ) → Bytes → Bytes → ℤ
compare_evr vercmp a b =
    let va = split_evr a in
    let vb = split_evr b in
    cmp_or (vercmp va.epoch vb.epoch ∷ vercmp va.ver vb.ver ∷ vercmp va.rel vb.rel ∷ [])

-- what a version is after a missing epoch has become a zero
abbrev pub normalised : PrimaryVersion → PrimaryVersion
normalised v = record {
  epoch = if no_epoch v.epoch then codes "0" else v.epoch;
  ver = v.ver;
  rel = v.rel;
}

cut_first-sep : (c : ℕ) (s t : Bytes) → Lacks c s → cut_first c (s ++ c ∷ t) ≡ some (s, t)
unfolding cut_first
cut_first-sep c [] t h = rw (==_refl c)
cut_first-sep c (x ∷ s) t h = rw (h.0, cut_first-sep c s t h.1)

cut_first-Lacks : (c : ℕ) (s : Bytes) → Lacks c s → cut_first c s ≡ none
unfolding cut_first
cut_first-Lacks c [] h = refl
cut_first-Lacks c (x ∷ s) h = rw (h.0, cut_first-Lacks c s h.1)

cut_last-Lacks : (c : ℕ) (s : Bytes) → Lacks c s → cut_last c s ≡ none
unfolding cut_last
cut_last-Lacks c [] h = refl
cut_last-Lacks c (x ∷ s) h = rw (cut_last-Lacks c s h.1, h.0)

cut_last-sep : (c : ℕ) (s t : Bytes) → Lacks c t → cut_last c (s ++ c ∷ t) ≡ some (s, t)
unfolding cut_last
cut_last-sep c [] t h = rw (cut_last-Lacks c t h, ==_refl c)
cut_last-sep c (x ∷ s) t h = rw (cut_last-sep c s t h)

Lacks-append : (c : ℕ) (s t : Bytes) → Lacks c s → Lacks c t → Lacks c (s ++ t)
Lacks-append c [] t hs ht = ht
Lacks-append c (x ∷ s) t hs ht = (hs.0, Lacks-append c s t hs.1 ht)

-- splitEVR reads back what formatEVR wrote, a missing epoch as "0", where neither the epoch, the
-- version nor the release has a colon and the release has no dash.
pub split_evr-format_evr :
    (v : PrimaryVersion)
    → Lacks b':' v.epoch
    → Lacks b':' v.ver
    → Lacks b':' v.rel
    → Lacks b'-' v.rel
    → split_evr (format_evr v) ≡ normalised v
unfolding split_evr format_evr split_at_epoch split_release
split_evr-format_evr v he hv hr hd = elim (Bool-cases (no_epoch v.epoch)) [
  | inl absent ↦
      let plain : cut_first b':' (v.ver ++ b'-' ∷ v.rel) ≡ none =
        cut_first-Lacks b':' (v.ver ++ b'-' ∷ v.rel)
          (Lacks-append b':' v.ver (b'-' ∷ v.rel) hv (refl, hr)) in
      rw (absent, plain, cut_last-sep b'-' v.ver v.rel hd)
  | inr there ↦ rw (
    there,
    cut_first-sep b':' v.epoch (v.ver ++ b'-' ∷ v.rel) he,
    cut_last-sep b'-' v.ver v.rel hd,
  )
]
