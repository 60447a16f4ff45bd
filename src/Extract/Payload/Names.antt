-- ===== src/Extract/Payload/Names.antt =====
-- The names in the tar are those of the entries that are kept.
use distroless.Prelude.{
  ℕ, ◌+◌, Bool, true, false, ◌&&◌, Option, none, some, List, [], ◌∷◌, ◌++◌, ◌≡◌, refl, sym, ◌∙◌, ap,
  arith, if◌then◌else◌, inl, inr, Bool-cases, ok, ok-injective, >>=-eq-ok, ltb,
}
use distroless.Strings.{Bytes}
use distroless.Strings.Count.{count, count-append}
use distroless.Extract.Payload.{
  Kind, no_bits, regular, FileId, same_file, Entry, Header, Member, PendingLink, PendingMap, lookup,
  delete, hold, State, is_cpio_regular, is_regular_kind, hardlink, write_cpio_entry_as_tar,
  write_hardlink_as_tar, write_links, write_hardlink_set, drain, is_carrier, hand_over,
  stripped_step, hold_back, links_of, release_links, after_entry, destination,
}
use distroless.Extract.Payload.Writes.{
  is_special_kind, Written, write_hardlink_lem, write_cpio_entry_lem,
}

abbrev pub names : List Member → List Bytes
names [] = []
names (m ∷ ms) = m.header.name ∷ names ms

names-append : (xs ys : List Member) → names (xs ++ ys) ≡ names xs ++ names ys
names-append [] ys = refl
names-append (x ∷ xs) ys = ap (λ (l : List Bytes). x.header.name ∷ l) (names-append xs ys)

abbrev pub link_names : List PendingLink → List Bytes
link_names [] = []
link_names (l ∷ ls) = l.name ∷ link_names ls

abbrev pub held : PendingMap → List Bytes
held [] = []
held ((id, links) ∷ m) = link_names links ++ held m

abbrev pub kept_name : Entry → Option Bytes → List Bytes
kept_name e none = []
kept_name e (some name) = if is_special_kind e.kind then [] else name ∷ []

-- the names under which the payload's entries belong in the tar
abbrev pub kept_names : List Entry → List Bytes
kept_names [] = []
kept_names (e ∷ es) = kept_name e (destination e.filename) ++ kept_names es

-- how often `n` is a name in the tar
abbrev pub in_tar : Bytes → List Member → ℕ
in_tar n tar = count n (names tar)

in_tar-append :
    (n : Bytes) (tar : List Member) (m : Member)
    → in_tar n (tar ++ m ∷ []) ≡ in_tar n tar + count n (m.header.name ∷ [])
in_tar-append n tar m =
    rw (names-append tar (m ∷ [])) (count-append n (names tar) (m.header.name ∷ []))

-- how often `n` is held back
abbrev pub in_held : Bytes → PendingMap → ℕ
in_held n m = count n (held m)

abbrev pub in_links : Bytes → List PendingLink → ℕ
in_links n links = count n (link_names links)

pub Written-names :
    (n : Bytes) (k : Kind) (name : Bytes) (tar tar' : List Member)
    → Written k name tar tar'
    → in_tar n tar' ≡ in_tar n tar + count n (if is_special_kind k then [] else name ∷ [])
unfolding count
Written-names n k name tar tar' (inl (special, same)) = rw (special, same) (omega arith)
Written-names n k name tar tar' (inr (plain, a)) = rw plain (
    ap (in_tar n) a.appended
    ∙ in_tar-append n tar a.member
    ∙ ap (λ x. in_tar n tar + count n (x ∷ [])) a.named)

-- every name of `keys` in the map is looked up or left by `delete`
pub in_held-delete :
    (n : Bytes) (id : FileId) (m : PendingMap)
    → in_held n m ≡ in_links n (links_of (lookup id m)) + in_held n (delete id m)
unfolding lookup delete
in_held-delete n id [] = unfold count in refl
in_held-delete n id ((j, links) ∷ m) = elim (Bool-cases (same_file j id)) [
  | inl e ↦ rw (e, lookup, delete) (count-append n (link_names links) (held m))
  | inr e ↦
      rw (e, lookup, delete)
        (omega (
          arith,
          in_held-delete n id m,
          count-append n (link_names links) (held m),
          count-append n (link_names links) (held (delete id m)),
        ))
]

link_names-append :
    (xs ys : List PendingLink) → link_names (xs ++ ys) ≡ link_names xs ++ link_names ys
link_names-append [] ys = refl
link_names-append (x ∷ xs) ys = ap (λ (l : List Bytes). x.name ∷ l) (link_names-append xs ys)

in_held-hold :
    (n : Bytes) (id : FileId) (link : PendingLink) (m : PendingMap)
    → in_held n (hold id link m) ≡ in_held n m + count n (link.name ∷ [])
unfolding hold
in_held-hold n id link [] = unfold count in ground arith
in_held-hold n id link ((j, links) ∷ m) = elim (Bool-cases (same_file j id)) [
  | inl e ↦
      rw (e, hold, link_names-append links (link ∷ []))
        (omega (
          arith,
          count-append n (link_names links ++ link.name ∷ []) (held m),
          count-append n (link_names links) (link.name ∷ []),
          count-append n (link_names links) (held m),
        ))
  | inr e ↦
      rw (e, hold)
        (omega (
          arith,
          in_held-hold n id link m,
          count-append n (link_names links) (held (hold id link m)),
          count-append n (link_names links) (held m),
        ))
]

-- in the tar or held back
abbrev pub total : Bytes → State → ℕ
total n s = in_tar n s.tar + in_held n s.pending_links

-- a carrier is a regular file, and no regular file is passed over
pub regular_plain : (k : Kind) → is_regular_kind k ≡ true → is_special_kind k ≡ false
regular_plain no_bits h = refl
regular_plain regular h = refl
regular_plain _ h = cc

carrier_plain : (e : Entry) → is_carrier e ≡ true → is_special_kind e.kind ≡ false
unfolding is_carrier is_cpio_regular
carrier_plain e h = regular_plain e.kind (ground arith)

pub drain_same : (e : Entry) (s s' : State) → drain e s ≡ ok s' → s' ≡ s
unfolding drain
drain_same e s s' h = ground arith

module _ (accepts : Header → Bool) (n : Bytes) where
  write_links_names :
      (links : List PendingLink) (target : Bytes) (tar tar' : List Member)
      → write_links accepts links target tar ≡ ok tar'
      → in_tar n tar' ≡ in_tar n tar + in_links n links
  unfolding write_links hardlink
  write_links_names [] target tar tar' h = unfold count in ground arith
  write_links_names (link ∷ links) target tar tar' h =
      let (t, w, r) =
        >>=-eq-ok (write_hardlink_as_tar accepts link.ent link.name target tar)
          (write_links accepts links target) h in
      let (fits, e) = write_hardlink_lem accepts link.ent link.name target tar t w in
      omega (
        arith,
        write_links_names links target t tar' r,
        ap (in_tar n) e,
        in_tar-append n tar (hardlink link.ent link.name target),
        count-append n (link.name ∷ []) (link_names links),
      )

  pub write_hardlink_set_names :
      (e : Entry) (links : List PendingLink) (tar tar' : List Member)
      → is_special_kind e.kind ≡ false
      → write_hardlink_set accepts e links tar ≡ ok tar'
      → in_tar n tar' ≡ in_tar n tar + in_links n links
  unfolding write_hardlink_set
  write_hardlink_set_names e [] tar tar' p h = cc
  write_hardlink_set_names e (first ∷ links) tar tar' p h =
      let (t, w, r) =
        >>=-eq-ok (write_cpio_entry_as_tar accepts e first.name tar)
          (write_links accepts links first.name) h in
      let c =
        Written-names n e.kind first.name tar t
          (write_cpio_entry_lem accepts e first.name tar t w) in
      omega (
        arith,
        write_links_names links first.name t tar' r,
        rw p at c,
        count-append n (first.name ∷ []) (link_names links),
      )

  total-hand_over :
      (e : Entry) (o : Option (List PendingLink)) (s s' : State)
      → is_special_kind e.kind ≡ false
      → lookup e.file_id s.pending_links ≡ o
      → hand_over accepts e o s ≡ ok s'
      → total n s' ≡ total n s
  unfolding hand_over
  total-hand_over e none s s' p q h = ap (total n) (drain_same e s s' h)
  total-hand_over e (some links) s s' p q h =
      let (t, w, r) =
        >>=-eq-ok (write_hardlink_set accepts e links s.tar)
          (λ tar. ok (record s { tar = tar; pending_links = delete e.file_id s.pending_links }))
          h in
      let same = ok-injective r in
      omega (
        arith,
        write_hardlink_set_names e links s.tar t p w,
        ap (total n) (sym same),
        in_held-delete n e.file_id s.pending_links,
        ap (λ o. in_links n (links_of o)) q,
      )

  pub total-stripped_step :
      (e : Entry) (s s' : State) → stripped_step accepts e s ≡ ok s' → total n s' ≡ total n s
  unfolding stripped_step
  total-stripped_step e s s' h = elim (Bool-cases (is_carrier e)) [
    | inl c ↦
        total-hand_over e (lookup e.file_id s.pending_links) s s' (carrier_plain e c) refl
          (rw (c, stripped_step) at h)
    | inr c ↦ ap (total n) (drain_same e s s' (rw (c, stripped_step) at h))
  ]

  pub total-hold_back :
      (e : Entry) (name : Bytes) (s : State)
      → is_cpio_regular e ≡ true
      → total n (hold_back e name s) ≡ total n s + count n (kept_name e (some name))
  unfolding hold_back is_cpio_regular
  total-hold_back e name s p =
      rw (regular_plain e.kind p)
        (omega (arith, in_held-hold n e.file_id (record { name = name; ent = e }) s.pending_links))

  total-release_links :
      (e : Entry) (name : Bytes) (s s' : State) (tar : List Member)
      → release_links accepts e name s tar ≡ ok s'
      → total n s' ≡ in_tar n tar + in_held n s.pending_links
  unfolding release_links
  total-release_links e name s s' tar h =
      let links = links_of (lookup e.file_id s.pending_links) in
      let (t, w, r) =
        >>=-eq-ok (write_links accepts links name tar)
          (λ tar'. ok (record s { tar = tar'; pending_links = delete e.file_id s.pending_links }))
          h in
      omega (
        arith,
        write_links_names links name tar t w,
        ap (total n) (sym (ok-injective r)),
        in_held-delete n e.file_id s.pending_links,
      )

  pub total-after_entry :
      (e : Entry) (name : Bytes) (s s' : State) (tar : List Member)
      → after_entry accepts e name s tar ≡ ok s'
      → total n s' ≡ in_tar n tar + in_held n s.pending_links
  unfolding after_entry
  total-after_entry e name s s' tar h = elim (Bool-cases (is_cpio_regular e && ltb 1 e.nlink)) [
    | inl c ↦ total-release_links e name s s' tar (rw (c, after_entry) at h)
    | inr c ↦ ap (total n) (sym (ok-injective (rw (c, after_entry) at h)))
  ]
