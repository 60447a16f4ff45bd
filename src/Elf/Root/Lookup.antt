-- ===== src/Elf/Root/Lookup.antt =====
-- What `fileInRoot` finds, and where.
use mathlib.Core.Path.{subst}
use distroless.Prelude.{
  ℕ, zero, suc, ◌<◌, true, Option, none, some, ◌≡◌, ◌≢◌, ◌⊎◌, ◌↔◌, inl, inr, refl, sym, ap, ◌∙◌,
  arith, Bool-cases, some_eq,
}
use distroless.Strings.{Bytes}
use distroless.Elf.Path.{is_abs, clean, dir}
use distroless.Elf.Path.Inside.{
  IsInside, clean-IsInside, is_abs-IsInside, join_path-IsInside, dir-IsInside,
}
use distroless.Elf.Root.{
  Node, absent, directory, regular, symlink, Image, max_links, link_target, follow, file_in_root,
}

-- the path that stands at `q` is reached from `p` over `n` links
pub data Links (image : Image) : ℕ → Bytes → Bytes → Type 0 where
  here : (p : Bytes) → Links image 0 p p
  over :
      {n : ℕ} {q : Bytes} (p target : Bytes)
      → image p ≡ symlink (some target)
      → Links image n (link_target p target) q
      → Links image (suc n) p q

link_target-IsInside : (p target : Bytes) → IsInside p → IsInside (link_target p target)
unfolding link_target
link_target-IsInside p target h = elim (Bool-cases (is_abs target)) [
  | inl abs ↦ rw abs (clean-IsInside target abs)
  | inr rel ↦ rw rel (join_path-IsInside (dir p) target (dir-IsInside p (is_abs-IsInside p h)))
]

none_some : {q : Bytes} → ◌≢◌ {A = Option Bytes} none (some q)
none_some h = cc

module _ (image : Image) where
  -- one round
  follow-node :
      (rounds : ℕ) (p q : Bytes) (node : Node)
      → image p ≡ node
      → follow image (suc rounds) p ≡ some q
      → ((node ≡ regular) × (p ≡ q))
        ⊎ ((target : Bytes) × (node ≡ symlink (some target))
            × (follow image rounds (link_target p target) ≡ some q))
  unfolding follow
  follow-node rounds p q absent e h = absurd (none_some (rw (e, follow) at h))
  follow-node rounds p q directory e h = absurd (none_some (rw (e, follow) at h))
  follow-node rounds p q regular e h = inl (refl, some_eq (rw (e, follow) at h))
  follow-node rounds p q (symlink none) e h = absurd (none_some (rw (e, follow) at h))
  follow-node rounds p q (symlink (some target)) e h = inr (target, refl, (rw (e, follow) at h))

  follow-Links :
      (rounds : ℕ) (p q : Bytes)
      → follow image rounds p ≡ some q
      → (n : ℕ) × (n < rounds) × Links image n p q × (image q ≡ regular)
  unfolding follow
  follow-Links zero p q h = absurd (none_some h)
  follow-Links (suc rounds) p q h = elim (follow-node rounds p q (image p) refl h) [
    | inl (e, same) ↦ (
      0,
      omega arith,
      subst (λ (x : Bytes). Links image 0 p x) same (here p),
      ap image (sym same) ∙ e,
    )
    | inr (target, e, more) ↦
        let (n, lt, links, found) = follow-Links rounds (link_target p target) q more in
        (suc n, omega arith, over p target e links, found)
  ]

  Links-follow :
      (rounds n : ℕ) (p q : Bytes)
      → Links image n p q
      → image q ≡ regular
      → n < rounds
      → follow image rounds p ≡ some q
  unfolding follow
  Links-follow zero n p q l e h = absurd (omega arith)
  Links-follow (suc rounds) _ p q (here _) e h = rw (e, follow)
  Links-follow (suc rounds) _ p q (over {n} _ target e' l) e h =
      rw (e', follow) (Links-follow rounds n (link_target p target) q l e (omega arith))

  Links-IsInside : (n : ℕ) (p q : Bytes) → Links image n p q → IsInside p → IsInside q
  Links-IsInside _ p q (here _) i = i
  Links-IsInside _ p q (over {n} _ target e l) i =
      Links-IsInside n (link_target p target) q l (link_target-IsInside p target i)

  -- For a rooted path, fileInRoot finds exactly the regular file that the path, once clean, leads
  -- to over fewer than 40 links, and the path of that file has no segment `..`.
  pub file_in_root_iff :
      (path q : Bytes)
      → is_abs path ≡ true
      → (file_in_root image path ≡ some q)
        ↔ ((n : ℕ) × (n < 40) × Links image n (clean path) q × (image q ≡ regular) × IsInside q)
  unfolding file_in_root
  file_in_root_iff path q abs = (
    λ h.
        let (n, lt, links, found) = follow-Links max_links (clean path) q h in
        (n, lt, links, found, Links-IsInside n (clean path) q links (clean-IsInside path abs)),
    λ (n, lt, links, found, _). Links-follow max_links n (clean path) q links found lt,
  )
