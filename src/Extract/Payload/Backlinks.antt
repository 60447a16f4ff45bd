-- ===== src/Extract/Payload/Backlinks.antt =====
-- Every hardlink in the tar points back to a regular file that is already there.
use distroless.Prelude.{
  ◌≤◌, Bool, true, false, ◌&&◌, ◌||◌, ◌≢◌, Option, none, some, List, [], ◌∷◌, ◌++◌, ◌≡◌, refl, sym,
  arith, if◌then◌else◌, inl, inr, Bool-cases, ok, err, ok-injective, >>=-eq-ok, ltb, ◌==◌, length,
}
use mathlib.Core.Path.{subst}
use distroless.Strings.{Bytes, str_eq}
use distroless.Strings.Laws.{str_eq_refl}
use distroless.Extract.Payload.{
  Kind, FileId, TypeFlag, type_reg, type_link, ustar_linkname_max, Entry, filesize, Header, Member,
  cpio_next, PendingLink, PendingMap, lookup, delete, State, is_cpio_regular, is_regular_kind,
  hardlink, write_cpio_entry_as_tar, write_hardlink_as_tar, write_links, write_hardlink_set,
  is_carrier, hand_over, stripped_step, hold_back, links_of, release_links, after_entry,
  write_through, kept_step, destination, step_to, step, walk, flush_set, flush, start,
  write_payload_as_tar,
}
use distroless.Extract.Payload.Writes.{write_cpio_entry_lem}
use distroless.Extract.Payload.Names.{drain_same, regular_plain}
use distroless.Extract.Payload.Pending.{Tracked, FirstRegular, FirstRegular-lookup}
use distroless.Extract.Payload.Kept.{and_first}
use distroless.Extract.Payload.Flush.{walk-Tracked, if_ok}
use distroless.Extract.Payload.Writes.{Written, write_hardlink_lem}

abbrev is_file_flag : TypeFlag → Bool
is_file_flag type_reg = true
is_file_flag _ = false

carrier_regular : (e : Entry) → is_carrier e ≡ true → is_regular_kind e.kind ≡ true
unfolding is_carrier is_cpio_regular
carrier_regular e h = ground arith

-- a regular file of that name is in the tar
abbrev pub has_file : Bytes → List Member → Bool
has_file name [] = false
has_file name (m ∷ ms) =
    (is_file_flag m.header.typeflag && str_eq m.header.name name) || has_file name ms

-- An archive that an extractor can unpack in one pass: every header tells the size of what follows,
-- and every hardlink has a target that USTAR can hold and that is a regular file already unpacked.
pub data Backed : List Member → Type 0 where
  empty : Backed []
  entry :
      {tar : List Member} (m : Member)
      → Backed tar
      → m.header.size ≡ length m.content
      → m.header.typeflag ≢ type_link
      → Backed (tar ++ m ∷ [])
  link :
      {tar : List Member} (m : Member)
      → Backed tar
      → m.header.size ≡ length m.content
      → length m.header.linkname ≤ ustar_linkname_max
      → has_file m.header.linkname tar ≡ true
      → Backed (tar ++ m ∷ [])

has_file-append :
    (name : Bytes) (tar : List Member) (m : Member)
    → has_file name tar ≡ true
    → has_file name (tar ++ m ∷ []) ≡ true
has_file-append name [] m h = cc
has_file-append name (x ∷ tar) m h = ground (arith, has_file-append name tar m)

has_file_last :
    (tar : List Member) (m : Member)
    → m.header.typeflag ≡ type_reg
    → has_file m.header.name (tar ++ m ∷ []) ≡ true
has_file_last [] m h = rw (h, str_eq_refl m.header.name)
has_file_last (x ∷ tar) m h = ground (arith, has_file_last tar m h)

module _ (accepts : Header → Bool) where
  write_links-Backed :
      (links : List PendingLink) (target : Bytes) (tar tar' : List Member)
      → write_links accepts links target tar ≡ ok tar'
      → has_file target tar ≡ true
      → Backed tar
      → Backed tar'
  unfolding write_links hardlink
  write_links-Backed [] target tar tar' h f b = subst Backed (ok-injective h) b
  write_links-Backed (l ∷ links) target tar tar' h f b =
      let (t, w, r) =
        >>=-eq-ok (write_hardlink_as_tar accepts l.ent l.name target tar)
          (write_links accepts links target) h in
      let (fits, e) = write_hardlink_lem accepts l.ent l.name target tar t w in
      let m = hardlink l.ent l.name target in
      write_links-Backed links target t tar' r (rw e (has_file-append target tar m f))
        (rw e (link m b refl fits f))

  Written-Backed :
      (k : Kind) (name : Bytes) (tar tar' : List Member)
      → Written k name tar tar'
      → Backed tar
      → Backed tar'
  Written-Backed k name tar tar' (inl (special, same)) b = rw same b
  Written-Backed k name tar tar' (inr (plain, a)) b =
      rw a.appended (entry a.member b a.sized a.no_link)

  Written-has_file :
      (k : Kind) (name : Bytes) (tar tar' : List Member)
      → Written k name tar tar'
      → is_regular_kind k ≡ true
      → has_file name tar' ≡ true
  Written-has_file k name tar tar' (inl (special, same)) r = cc (special, regular_plain k r)
  Written-has_file k name tar tar' (inr (plain, a)) r =
      rw (a.appended, ← a.named) (has_file_last tar a.member (a.is_file r))

  write_hardlink_set-Backed :
      (e : Entry) (links : List PendingLink) (tar tar' : List Member)
      → is_regular_kind e.kind ≡ true
      → write_hardlink_set accepts e links tar ≡ ok tar'
      → Backed tar
      → Backed tar'
  unfolding write_hardlink_set
  write_hardlink_set-Backed e [] tar tar' p h b = cc
  write_hardlink_set-Backed e (first ∷ links) tar tar' p h b =
      let (t, w, r) =
        >>=-eq-ok (write_cpio_entry_as_tar accepts e first.name tar)
          (write_links accepts links first.name) h in
      let wr = write_cpio_entry_lem accepts e first.name tar t w in
      write_links-Backed links first.name t tar' r (Written-has_file e.kind first.name tar t wr p)
        (Written-Backed e.kind first.name tar t wr b)

  hand_over-Backed :
      (e : Entry) (o : Option (List PendingLink)) (s s' : State)
      → is_regular_kind e.kind ≡ true
      → hand_over accepts e o s ≡ ok s'
      → Backed s.tar
      → Backed s'.tar
  unfolding hand_over
  hand_over-Backed e none s s' p h b =
      subst (λ (x : State). Backed x.tar) (sym (drain_same e s s' h)) b
  hand_over-Backed e (some links) s s' p h b =
      let (u, w, r) =
        >>=-eq-ok (write_hardlink_set accepts e links s.tar)
          (λ tar. ok (record s { tar = tar; pending_links = delete e.file_id s.pending_links }))
          h in
      subst (λ (x : State). Backed x.tar) (ok-injective r)
        (write_hardlink_set-Backed e links s.tar u p w b)

  stripped_step-Backed :
      (e : Entry) (s s' : State) → stripped_step accepts e s ≡ ok s' → Backed s.tar → Backed s'.tar
  unfolding stripped_step
  stripped_step-Backed e s s' h b = elim (Bool-cases (is_carrier e)) [
    | inl c ↦
        hand_over-Backed e (lookup e.file_id s.pending_links) s s' (carrier_regular e c)
          (rw (c, stripped_step) at h) b
    | inr c ↦
        subst (λ (x : State). Backed x.tar) (sym (drain_same e s s' (rw (c, stripped_step) at h))) b
  ]

  after_entry-Backed :
      (e : Entry) (name : Bytes) (s s' : State) (tar : List Member)
      → after_entry accepts e name s tar ≡ ok s'
      → (is_regular_kind e.kind ≡ true → has_file name tar ≡ true)
      → Backed tar
      → Backed s'.tar
  unfolding after_entry release_links is_cpio_regular
  after_entry-Backed e name s s' tar h f b =
      elim (Bool-cases (is_regular_kind e.kind && ltb 1 e.nlink)) [
        | inl c ↦
            let (u, w, r) =
              >>=-eq-ok (write_links accepts (links_of (lookup e.file_id s.pending_links)) name tar)
                (λ tar'.
                  ok (record s { tar = tar'; pending_links = delete e.file_id s.pending_links }))
                (rw (c, after_entry) at h) in
            subst (λ (x : State). Backed x.tar) (ok-injective r)
              (write_links-Backed (links_of (lookup e.file_id s.pending_links)) name tar u w
                (f (and_first (is_regular_kind e.kind) (ltb 1 e.nlink) c)) b)
        | inr c ↦ subst (λ (x : State). Backed x.tar) (ok-injective (rw (c, after_entry) at h)) b
      ]

  kept_step-Backed :
      (e : Entry) (name : Bytes) (s s' : State)
      → kept_step accepts e name s ≡ ok s'
      → Backed s.tar
      → Backed s'.tar
  unfolding kept_step write_through hold_back
  kept_step-Backed e name s s' h b =
      elim (Bool-cases (is_cpio_regular e && (ltb 1 e.nlink && filesize e == 0))) [
        | inl c ↦ subst (λ (x : State). Backed x.tar) (ok-injective (rw (c, kept_step) at h)) b
        | inr c ↦
            let (u, w, r) =
              >>=-eq-ok (write_cpio_entry_as_tar accepts e name s.tar)
                (after_entry accepts e name s) (rw (c, kept_step) at h) in
            let wr = write_cpio_entry_lem accepts e name s.tar u w in
            after_entry-Backed e name s s' u r (Written-has_file e.kind name s.tar u wr)
              (Written-Backed e.kind name s.tar u wr b)
      ]

  step-Backed :
      (e : Entry) (o : Option Bytes) (s s' : State)
      → step_to accepts e o s ≡ ok s'
      → Backed s.tar
      → Backed s'.tar
  unfolding step_to
  step-Backed e none s s' h b = stripped_step-Backed e s s' h b
  step-Backed e (some name) s s' h b = kept_step-Backed e name s s' h b

  walk-Backed :
      (es : List Entry) (s s' : State) → walk accepts es s ≡ ok s' → Backed s.tar → Backed s'.tar
  unfolding walk step
  walk-Backed [] s s' h b = subst (λ (x : State). Backed x.tar) (ok-injective h) b
  walk-Backed (e ∷ es) s s' h b =
      let (u, w, r) =
        >>=-eq-ok (step_to accepts e (destination e.filename) s) (walk accepts es) h in
      walk-Backed es u s' r (step-Backed e (destination e.filename) s u w b)

  flush_set-Backed :
      (o : Option (List PendingLink)) (tar tar' : List Member)
      → ((links : List PendingLink) → o ≡ some links → FirstRegular links)
      → flush_set accepts o tar ≡ ok tar'
      → Backed tar
      → Backed tar'
  unfolding flush_set
  flush_set-Backed none tar tar' f h b = subst Backed (ok-injective h) b
  flush_set-Backed (some []) tar tar' f h b = cc
  flush_set-Backed (some (first ∷ links)) tar tar' f h b =
      write_hardlink_set-Backed (record first.ent { readable = true }) (first ∷ links) tar tar'
        (f (first ∷ links) refl) h b

  flush-Backed :
      (m : PendingMap) (all order : List FileId) (tar tar' : List Member)
      → Tracked all m
      → flush accepts m order tar ≡ ok tar'
      → Backed tar
      → Backed tar'
  unfolding flush
  flush-Backed m all [] tar tar' t h b = subst Backed (ok-injective h) b
  flush-Backed m all (id ∷ order) tar tar' t h b =
      let (u, w, r) = >>=-eq-ok (flush_set accepts (lookup id m) tar) (flush accepts m order) h in
      flush-Backed m all order u tar' t r (
        flush_set-Backed (lookup id m) tar u (λ links e. FirstRegular-lookup all id links m t e) w
          b)

-- Every tar that is written can be unpacked in one pass: each hardlink points to a regular file that
-- stands before it and whose name USTAR can hold, and each header has the size of its content.
pub write_payload_as_tar-Backed :
    (accepts : Header → Bool) (entries : List Entry) (ends : Bool) (tar : List Member)
    → write_payload_as_tar accepts entries ends ≡ ok tar
    → Backed tar
unfolding write_payload_as_tar
write_payload_as_tar-Backed accepts entries ends tar h =
    let (s, w, r) =
      >>=-eq-ok (walk accepts entries start)
        (λ s. if ends then flush accepts s.pending_links s.pending_order s.tar else err cpio_next)
        h in
    let flushed = if_ok ends (flush accepts s.pending_links s.pending_order s.tar) tar r in
    flush-Backed accepts s.pending_links s.pending_order s.pending_order s.tar tar
      (walk-Tracked accepts entries start s w tt) flushed
      (walk-Backed accepts entries start s w empty)
