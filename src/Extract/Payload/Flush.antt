-- ===== src/Extract/Payload/Flush.antt =====
-- The end of the walk: the sets that are still held back are written.
use distroless.Prelude.{
  ℕ, ◌+◌, ◌≤◌, Bool, true, false, ◌&&◌, Option, none, some, List, [], ◌∷◌, ◌≡◌, refl, sym, ap,
  arith, if◌then◌else◌, inl, inr, Bool-cases, Result, ok, err, ok-injective, >>=-eq-ok, ltb, ◌==◌,
}
use mathlib.Core.Path.{subst}
use distroless.Strings.{Bytes}
use distroless.Strings.Count.{count, count-append}
use distroless.Extract.Payload.{
  FileId, same_file, Entry, filesize, Header, Member, Error, cpio_next, PendingLink, PendingMap,
  lookup, delete, State, is_cpio_regular, write_cpio_entry_as_tar, write_links, write_hardlink_set,
  is_carrier, hand_over, stripped_step, links_of, release_links, after_entry, write_through,
  kept_step, destination, step_to, step, walk, flush_set, flush, start, write_payload_as_tar,
}
use distroless.Extract.Payload.Names.{
  link_names, in_tar, in_held, in_links, held, kept_names, write_hardlink_set_names, in_held-delete,
  drain_same, regular_plain,
}
use distroless.Extract.Payload.Pending.{
  Tracked, FirstRegular, FirstRegular-lookup, Tracked-hold_back, Tracked-delete, listed,
  same_file_sound,
}
use distroless.Extract.Payload.Kept.{total-walk, count_nil, and_first}

abbrev pub IsTracked : State → Type 0
IsTracked s = Tracked s.pending_order s.pending_links

module _ (accepts : Header → Bool) where
  hand_over-Tracked :
      (e : Entry) (o : Option (List PendingLink)) (s s' : State)
      → hand_over accepts e o s ≡ ok s'
      → IsTracked s
      → IsTracked s'
  unfolding hand_over
  hand_over-Tracked e none s s' h t = subst IsTracked (sym (drain_same e s s' h)) t
  hand_over-Tracked e (some links) s s' h t =
      let (u, w, r) =
        >>=-eq-ok (write_hardlink_set accepts e links s.tar)
          (λ tar. ok (record s { tar = tar; pending_links = delete e.file_id s.pending_links }))
          h in
      subst IsTracked (ok-injective r) (Tracked-delete s.pending_order e.file_id s.pending_links t)

  stripped_step-Tracked :
      (e : Entry) (s s' : State) → stripped_step accepts e s ≡ ok s' → IsTracked s → IsTracked s'
  unfolding stripped_step
  stripped_step-Tracked e s s' h t = elim (Bool-cases (is_carrier e)) [
    | inl c ↦
        hand_over-Tracked e (lookup e.file_id s.pending_links) s s' (rw (c, stripped_step) at h) t
    | inr c ↦ subst IsTracked (sym (drain_same e s s' (rw (c, stripped_step) at h))) t
  ]

  after_entry-Tracked :
      (e : Entry) (name : Bytes) (s s' : State) (tar : List Member)
      → after_entry accepts e name s tar ≡ ok s'
      → IsTracked s
      → IsTracked s'
  unfolding after_entry release_links
  after_entry-Tracked e name s s' tar h t = elim (Bool-cases (is_cpio_regular e && ltb 1 e.nlink)) [
    | inl c ↦
        let (u, w, r) =
          >>=-eq-ok (write_links accepts (links_of (lookup e.file_id s.pending_links)) name tar)
            (λ tar'. ok (record s { tar = tar'; pending_links = delete e.file_id s.pending_links }))
            (rw (c, after_entry) at h) in
        subst IsTracked (ok-injective r)
          (Tracked-delete s.pending_order e.file_id s.pending_links t)
    | inr c ↦ subst IsTracked (ok-injective (rw (c, after_entry) at h)) t
  ]

  kept_step-Tracked :
      (e : Entry) (name : Bytes) (s s' : State)
      → kept_step accepts e name s ≡ ok s'
      → IsTracked s
      → IsTracked s'
  unfolding kept_step write_through
  kept_step-Tracked e name s s' h t =
      elim (Bool-cases (is_cpio_regular e && (ltb 1 e.nlink && filesize e == 0))) [
        | inl c ↦ subst IsTracked (ok-injective (rw (c, kept_step) at h)) (
            Tracked-hold_back e name s
              (and_first (is_cpio_regular e) (ltb 1 e.nlink && filesize e == 0) c) t)
        | inr c ↦
            let (u, w, r) =
              >>=-eq-ok (write_cpio_entry_as_tar accepts e name s.tar)
                (after_entry accepts e name s) (rw (c, kept_step) at h) in
            after_entry-Tracked e name s s' u r t
      ]

  step-Tracked :
      (e : Entry) (o : Option Bytes) (s s' : State)
      → step_to accepts e o s ≡ ok s'
      → IsTracked s
      → IsTracked s'
  unfolding step_to
  step-Tracked e none s s' h t = stripped_step-Tracked e s s' h t
  step-Tracked e (some name) s s' h t = kept_step-Tracked e name s s' h t

  pub walk-Tracked :
      (es : List Entry) (s s' : State) → walk accepts es s ≡ ok s' → IsTracked s → IsTracked s'
  unfolding walk step
  walk-Tracked [] s s' h t = subst IsTracked (ok-injective h) t
  walk-Tracked (e ∷ es) s s' h t =
      let (u, w, r) =
        >>=-eq-ok (step_to accepts e (destination e.filename) s) (walk accepts es) h in
      walk-Tracked es u s' r (step-Tracked e (destination e.filename) s u w t)

pub if_ok :
    (b : Bool) (m : Result Error (List Member)) (tar : List Member)
    → (if b then m else err cpio_next) ≡ ok tar
    → m ≡ ok tar
if_ok true m tar h = h
if_ok false m tar h = cc

-- how often `n` is in the sets of the order
in_order : Bytes → PendingMap → List FileId → ℕ
in_order n m [] = 0
in_order n m (id ∷ order) = in_links n (links_of (lookup id m)) + in_order n m order

module _ (accepts : Header → Bool) (n : Bytes) where
  flush_set_names :
      (o : Option (List PendingLink)) (tar tar' : List Member)
      → ((links : List PendingLink) → o ≡ some links → FirstRegular links)
      → flush_set accepts o tar ≡ ok tar'
      → in_tar n tar' ≡ in_tar n tar + in_links n (links_of o)
  unfolding flush_set
  flush_set_names none tar tar' f h = omega (arith, ap (in_tar n) (ok-injective h), count_nil n)
  flush_set_names (some []) tar tar' f h = cc
  flush_set_names (some (first ∷ links)) tar tar' f h =
      write_hardlink_set_names accepts n (record first.ent { readable = true }) (first ∷ links) tar
        tar' (regular_plain first.ent.kind (f (first ∷ links) refl)) h

  flush_names :
      (m : PendingMap) (all order : List FileId) (tar tar' : List Member)
      → Tracked all m
      → flush accepts m order tar ≡ ok tar'
      → in_tar n tar' ≡ in_tar n tar + in_order n m order
  unfolding flush in_order
  flush_names m all [] tar tar' t h = omega (arith, ap (in_tar n) (ok-injective h))
  flush_names m all (id ∷ order) tar tar' t h =
      let (u, w, r) = >>=-eq-ok (flush_set accepts (lookup id m) tar) (flush accepts m order) h in
      omega (
        arith,
        flush_names m all order u tar' t r,
        flush_set_names (lookup id m) tar u (λ links e. FirstRegular-lookup all id links m t e) w,
      )

  -- a set that heads the map is in the order's sum as often as its id is in the order
  in_order-head :
      (j : FileId) (links : List PendingLink) (m : PendingMap) (order : List FileId)
      → lookup j m ≡ none
      → (in_order n m order ≤ in_order n ((j, links) ∷ m) order)
        × (listed j order ≡ true
            → in_links n links + in_order n m order ≤ in_order n ((j, links) ∷ m) order)
  unfolding in_order lookup
  in_order-head j links m [] e = (omega arith, λ h. cc)
  in_order-head j links m (id ∷ order) e = elim (Bool-cases (same_file j id)) [
    | inl same ↦
        let ih = in_order-head j links m order e in
        let gone : lookup id m ≡ none = rw (same_file_sound j id same) at e in
        rw (same, gone) (omega (arith, ih.0, count_nil n), λ h. omega (arith, ih.0, count_nil n))
    | inr other ↦
        let ih = in_order-head j links m order e in
        rw other (omega (arith, ih.0), λ h. omega (arith, ih.1 h))
  ]

  in_held-le-in_order :
      (m : PendingMap) (order : List FileId) → Tracked order m → in_held n m ≤ in_order n m order
  in_held-le-in_order [] order t = omega (arith, count_nil n)
  in_held-le-in_order ((j, links) ∷ m) order t = omega (
    arith,
    in_held-le-in_order m order t.3,
    (in_order-head j links m order t.1).1 t.0,
    count-append n (link_names links) (held m),
  )

  in_order-zero : (m : PendingMap) (order : List FileId) → in_held n m ≡ 0 → in_order n m order ≡ 0
  unfolding in_order
  in_order-zero m [] h = refl
  in_order-zero m (id ∷ order) h = omega (arith, in_order-zero m order h, in_held-delete n id m)

-- The names in the tar are the names that the kept entries of the payload go to. A payload that is
-- extracted loses no kept path: each occurs in the tar at least as often as among the kept entries,
-- hardlinks and sets whose bytes came with a stripped path included. And nothing else is written.
pub write_payload_as_tar-names :
    (accepts : Header → Bool) (entries : List Entry) (ends : Bool) (tar : List Member)
    (name : Bytes)
    → write_payload_as_tar accepts entries ends ≡ ok tar
    → (count name (kept_names entries) ≤ in_tar name tar)
      × (count name (kept_names entries) ≡ 0 → in_tar name tar ≡ 0)
unfolding write_payload_as_tar
write_payload_as_tar-names accepts entries ends tar name h =
    let (s, w, r) =
      >>=-eq-ok (walk accepts entries start)
        (λ s. if ends then flush accepts s.pending_links s.pending_order s.tar else err cpio_next)
        h in
    let flushed = if_ok ends (flush accepts s.pending_links s.pending_order s.tar) tar r in
    let t = walk-Tracked accepts entries start s w tt in
    let total = total-walk accepts name entries start s w in
    let end =
      flush_names accepts name s.pending_links s.pending_order s.pending_order s.tar tar t
        flushed in
    (
      omega (
        arith,
        total,
        end,
        in_held-le-in_order accepts name s.pending_links s.pending_order t,
        count_nil name,
      ),
      λ z. omega (
        arith,
        total,
        end,
        z,
        in_order-zero accepts name s.pending_links s.pending_order
            (omega (arith, total, z, count_nil name)),
        count_nil name,
      ),
    )
