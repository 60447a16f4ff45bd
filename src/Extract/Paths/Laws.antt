-- ===== src/Extract/Paths/Laws.antt =====
-- Where the paths of a payload go.
use distroless.Prelude.{
  Bool, true, false, ◌||◌, none, some, List, [], ◌∷◌, ◌++◌, ◌≡◌, refl, sym, ◌∙◌, ap, arith, ◌⊎◌,
  inl, inr, ◌↔◌, any, Bool-cases, Option-cases, map, append_assoc,
}
use distroless.Strings.{Bytes, codes, str_eq, has_prefix, cut_prefix, trim_prefix}
use distroless.Strings.Laws.{str_eq_refl, str_eq_sound, cut_prefix_sound, cut_prefix-append}
use distroless.Extract.Paths.{
  slash, is_under, should_strip, stripped_prefixes, merge_into_usr, merged_usr, merge_link,
  merged_usr_link, legacy_roots,
}

-- the path is the directory, or the directory, a slash and more
abbrev pub Below : Bytes → Bytes → Type 0
Below path dir = (path ≡ dir) ⊎ ((rest : Bytes) × (path ≡ (dir ++ slash) ++ rest))

abbrev pub BelowSome : Bytes → List Bytes → Type 0
BelowSome path [] = ⊥
BelowSome path (dir ∷ dirs) = Below path dir ⊎ BelowSome path dirs

has_prefix-append : (p r : Bytes) → has_prefix (p ++ r) p ≡ true
unfolding has_prefix
has_prefix-append p r = rw (cut_prefix-append p r, has_prefix)

has_prefix_rest : (s p : Bytes) → has_prefix s p ≡ true → (r : Bytes) × (s ≡ p ++ r)
unfolding has_prefix
has_prefix_rest s p h = elim (Option-cases (cut_prefix s p)) [
  | inl e ↦ absurd (cc (h, e))
  | inr (r, e) ↦ (r, cut_prefix_sound s p r e)
]

or_true : (b : Bool) → (b || true) ≡ true
or_true true = refl
or_true false = refl

is_under_iff : (path dir : Bytes) → (is_under path dir ≡ true) ↔ Below path dir
unfolding is_under
is_under_iff path dir = (forth, back)
  where
    forth : (str_eq path dir || has_prefix path (dir ++ slash)) ≡ true → Below path dir
    forth h = elim (Bool-cases (str_eq path dir)) [
      | inl e ↦ inl (str_eq_sound path dir e)
      | inr e ↦ inr (has_prefix_rest path (dir ++ slash) (rw e at h))
    ]

    back : Below path dir → (str_eq path dir || has_prefix path (dir ++ slash)) ≡ true
    back (inl e) = rw (e, str_eq_refl dir)
    back (inr (r, e)) =
        rw (e, has_prefix-append (dir ++ slash) r) (or_true (str_eq ((dir ++ slash) ++ r) dir))

any-BelowSome :
    (path : Bytes) (dirs : List Bytes) → (any (is_under path) dirs ≡ true) ↔ BelowSome path dirs
any-BelowSome path [] = (λ h. cc, λ h. absurd h)
any-BelowSome path (dir ∷ dirs) = (
  λ h. elim (Bool-cases (is_under path dir)) [
    | inl e ↦ inl ((is_under_iff path dir).0 e)
    | inr e ↦ inr ((any-BelowSome path dirs).0 (rw e at h))
  ],
  λ h. elim h [
    | inl b ↦ rw ((is_under_iff path dir).1 b)
    | inr b ↦ rw ((any-BelowSome path dirs).1 b) (or_true (is_under path dir))
  ],
)

-- A path is dropped exactly if, without a leading "./", it is one of the listed directories or lies
-- below one.
pub should_strip_iff :
    (filename : Bytes)
    → (should_strip filename ≡ true)
      ↔ BelowSome (trim_prefix filename (codes "./")) stripped_prefixes
unfolding should_strip
should_strip_iff filename = any-BelowSome (trim_prefix filename (codes "./")) stripped_prefixes

-- a link into a legacy root, seen without its leading slash
is_under-slash : (x p : Bytes) → is_under (slash ++ x) (slash ++ p) ≡ is_under x p
unfolding is_under str_eq has_prefix cut_prefix
is_under-slash x p = refl

-- The two loops over the legacy roots agree: a path stays where the link to it stays, and moves
-- where the link moves.
record Stay (ps : List Bytes) (filename clean g : Bytes) : Type 0 where
  path : g ≡ filename
  link : merge_link (map (λ p. slash ++ p) ps) (slash ++ clean) ≡ slash ++ clean

record Move (ps : List Bytes) (clean g : Bytes) : Type 0 where
  path : g ≡ codes "./usr/" ++ clean
  link : merge_link (map (λ p. slash ++ p) ps) (slash ++ clean) ≡ codes "/usr/" ++ clean

link_moves :
    (p : Bytes) (ps : List Bytes) (clean : Bytes)
    → is_under clean p ≡ true
    → merge_link (map (λ p. slash ++ p) (p ∷ ps)) (slash ++ clean) ≡ codes "/usr/" ++ clean
unfolding merge_link
link_moves p ps clean h = rw (is_under-slash clean p, h)

link_stays :
    (p : Bytes) (ps : List Bytes) (clean : Bytes)
    → is_under clean p ≡ false
    → merge_link (map (λ p. slash ++ p) (p ∷ ps)) (slash ++ clean)
      ≡ merge_link (map (λ p. slash ++ p) ps) (slash ++ clean)
unfolding merge_link
link_stays p ps clean h = rw (is_under-slash clean p, h)

under_rest :
    (clean p rest : Bytes) → cut_prefix clean (p ++ slash) ≡ some rest → is_under clean p ≡ true
under_rest clean p rest e =
    (is_under_iff clean p).1 (inr (rest, cut_prefix_sound clean (p ++ slash) rest e))

not_under :
    (clean p : Bytes)
    → str_eq clean p ≡ false
    → cut_prefix clean (p ++ slash) ≡ none
    → is_under clean p ≡ false
unfolding is_under has_prefix
not_under clean p h e = rw (h, e, has_prefix)

moved_path :
    (p rest clean g : Bytes)
    → clean ≡ (p ++ slash) ++ rest
    → some (codes "./usr/" ++ (p ++ (slash ++ rest))) ≡ some g
    → g ≡ codes "./usr/" ++ clean
moved_path p rest clean g e h = ground (arith, append_assoc p slash rest)

merge_into_usr-cases :
    (ps : List Bytes) (filename clean g : Bytes)
    → merge_into_usr ps filename clean ≡ some g
    → Stay ps filename clean g ⊎ Move ps clean g
unfolding merge_into_usr
merge_into_usr-cases [] filename clean g h =
    inl (record { path = ground arith; link = unfold merge_link in refl })
merge_into_usr-cases (p ∷ ps) filename clean g h = elim (Bool-cases (str_eq clean p)) [
  | inl same ↦ absurd (cc (rw (same, merge_into_usr) at h))
  | inr other ↦ elim (Option-cases (cut_prefix clean (p ++ slash))) [
    | inl e ↦
        let stays = link_stays p ps clean (not_under clean p other e) in
        elim (merge_into_usr-cases ps filename clean g (rw (other, e, merge_into_usr) at h)) [
          | inl s ↦ inl (record { path = s.path; link = stays ∙ s.link })
          | inr m ↦ inr (record { path = m.path; link = stays ∙ m.link })
        ]
    | inr (rest, e) ↦ inr (record {
      path =
          moved_path p rest clean g (cut_prefix_sound clean (p ++ slash) rest e)
            (rw (other, e, merge_into_usr) at h);
      link = link_moves p ps clean (under_rest clean p rest e);
    })
  ]
]

-- A path under /usr stays where it is.
usr_stays : (x : Bytes) → merged_usr (codes "./usr/" ++ x) ≡ some (codes "./usr/" ++ x)
unfolding merged_usr merge_into_usr trim_prefix cut_prefix str_eq
usr_stays [] = refl
usr_stays (c ∷ x) = refl

-- Where a path of the payload goes, it stays: rewriting the result again changes nothing, so no
-- path in the tar lies in a legacy root.
pub merged_usr_idempotent :
    (filename g : Bytes) → merged_usr filename ≡ some g → merged_usr g ≡ some g
merged_usr_idempotent filename g h =
    elim (merge_into_usr-cases legacy_roots filename (trim_prefix filename (codes "./")) g
      (unfold merged_usr in h)) [
        | inl s ↦ rw s.path (rw s.path at h)
        | inr m ↦ rw m.path (usr_stays (trim_prefix filename (codes "./")))
      ]

trim_prefix-append : (p x : Bytes) → trim_prefix (p ++ x) p ≡ x
unfolding trim_prefix
trim_prefix-append p x = rw (cut_prefix-append p x, trim_prefix)

merged_usr_link_rooted :
    (x : Bytes)
    → merged_usr_link (slash ++ x) ≡ merge_link (map (λ p. slash ++ p) legacy_roots) (slash ++ x)
unfolding merged_usr_link has_prefix cut_prefix
merged_usr_link_rooted [] = refl
merged_usr_link_rooted (c ∷ x) = refl

merged_usr_rooted :
    (x : Bytes) → merge_into_usr legacy_roots (codes "./" ++ x) x ≡ merged_usr (codes "./" ++ x)
unfolding merged_usr
merged_usr_rooted x =
    ap (λ c. merge_into_usr legacy_roots (codes "./" ++ x) c)
      (sym (trim_prefix-append (codes "./") x))

-- Paths and absolute links to them are rewritten alike: where the payload's path ./x becomes ./y, a
-- symlink to /x becomes one to /y.
pub merged_usr_link-merged_usr :
    (x g : Bytes)
    → merged_usr (codes "./" ++ x) ≡ some g
    → (y : Bytes) × (g ≡ codes "./" ++ y) × (merged_usr_link (slash ++ x) ≡ slash ++ y)
merged_usr_link-merged_usr x g h =
    elim (merge_into_usr-cases legacy_roots (codes "./" ++ x) x g (merged_usr_rooted x ∙ h)) [
      | inl s ↦ (x, s.path, merged_usr_link_rooted x ∙ s.link)
      | inr m ↦ (codes "usr/" ++ x, m.path, merged_usr_link_rooted x ∙ m.link)
    ]
