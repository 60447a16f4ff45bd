-- ===== src/Extract/Payload/Pending.antt =====
-- The map of pending links and the order in which its sets were first seen.
use distroless.Prelude.{
  any, some_eq, Bool, true, false, Option, none, some, List, [], ◌∷◌, ◌++◌, ◌≡◌, refl, ◌∙◌, arith,
  inl, inr, Bool-cases,
}
use mathlib.Core.Path.{subst}
use distroless.Strings.{Bytes}
use distroless.Extract.Payload.{
  FileId, same_file, Entry, PendingLink, PendingMap, lookup, delete, hold, State, is_cpio_regular,
  is_regular_kind, note_order, hold_back,
}

pub same_file_sound : (a b : FileId) → same_file a b ≡ true → a ≡ b
unfolding same_file
same_file_sound a b h = ground arith

pub same_file_refl : (a : FileId) → same_file a a ≡ true
unfolding same_file
same_file_refl a = ground arith

-- a set that is held back has a first path, and that is a regular file
abbrev pub FirstRegular : List PendingLink → Type 0
FirstRegular [] = ⊥
FirstRegular (link ∷ links) = is_regular_kind link.ent.kind ≡ true

abbrev pub listed : FileId → List FileId → Bool
listed j order = any (λ i. same_file j i) order

-- every set is in the order, its id stands in the map once, and it is a set of regular files
abbrev pub Tracked : List FileId → PendingMap → Type 0
Tracked order [] = Unit
Tracked order ((j, links) ∷ m) =
    (listed j order ≡ true) × (lookup j m ≡ none) × FirstRegular links × Tracked order m

same_file_comm_false : (a b : FileId) → same_file a b ≡ false → same_file b a ≡ false
unfolding same_file
same_file_comm_false a b h = ground arith

-- ids that are the same file are the same to a third
same_file_congr :
    (a b c : FileId) → same_file a b ≡ true → same_file b c ≡ false → same_file a c ≡ false
unfolding same_file
same_file_congr a b c h k = ground arith

lookup-hold_ne :
    (j id : FileId) (link : PendingLink) (m : PendingMap)
    → same_file id j ≡ false
    → lookup j (hold id link m) ≡ lookup j m
unfolding lookup hold
lookup-hold_ne j id link [] h = rw h
lookup-hold_ne j id link ((i, links) ∷ m) h =
    ground (arith, lookup-hold_ne j id link m, same_file_congr i id j)

lookup-delete-none :
    (j id : FileId) (m : PendingMap) → lookup j m ≡ none → lookup j (delete id m) ≡ none
unfolding lookup delete
lookup-delete-none j id [] h = refl
lookup-delete-none j id ((i, links) ∷ m) h = ground (arith, lookup-delete-none j id m)

FirstRegular-append :
    (links : List PendingLink) (link : PendingLink)
    → FirstRegular links
    → FirstRegular (links ++ link ∷ [])
FirstRegular-append [] link h = absurd h
FirstRegular-append (l ∷ links) link h = h

pub Tracked-delete :
    (order : List FileId) (id : FileId) (m : PendingMap)
    → Tracked order m
    → Tracked order (delete id m)
unfolding delete
Tracked-delete order id [] h = tt
Tracked-delete order id ((j, links) ∷ m) h = elim (Bool-cases (same_file j id)) [
  | inl e ↦ rw (e, delete) h.3
  | inr e ↦ rw (e, delete) (h.0, lookup-delete-none j id m h.1, h.2, Tracked-delete order id m h.3)
]

Tracked-hold :
    (order : List FileId) (id : FileId) (link : PendingLink) (m : PendingMap)
    → listed id order ≡ true
    → is_regular_kind link.ent.kind ≡ true
    → Tracked order m
    → Tracked order (hold id link m)
unfolding hold
Tracked-hold order id link [] p r h = (p, unfold lookup in refl, r, tt)
Tracked-hold order id link ((j, links) ∷ m) p r h = elim (Bool-cases (same_file j id)) [
  | inl e ↦ rw (e, hold) (h.0, h.1, FirstRegular-append links link h.2, h.3)
  | inr e ↦
      rw (e, hold)
        (
          h.0,
          lookup-hold_ne j id link m (same_file_comm_false j id e) ∙ h.1,
          h.2,
          Tracked-hold order id link m p r h.3,
        )
]

listed-append :
    (j id : FileId) (order : List FileId)
    → listed j order ≡ true
    → listed j (order ++ id ∷ []) ≡ true
listed-append j id [] h = cc
listed-append j id (i ∷ order) h = ground (arith, listed-append j id order)

listed_last : (id : FileId) (order : List FileId) → listed id (order ++ id ∷ []) ≡ true
listed_last id [] = rw (same_file_refl id)
listed_last id (i ∷ order) = ground (arith, listed_last id order)

Tracked-append :
    (order : List FileId) (id : FileId) (m : PendingMap)
    → Tracked order m
    → Tracked (order ++ id ∷ []) m
Tracked-append order id [] h = tt
Tracked-append order id ((j, links) ∷ m) h =
    (listed-append j id order h.0, h.1, h.2, Tracked-append order id m h.3)

-- what the map holds is in the order
listed-lookup :
    (order : List FileId) (id : FileId) (links : List PendingLink) (m : PendingMap)
    → Tracked order m
    → lookup id m ≡ some links
    → (listed id order ≡ true) × FirstRegular links
unfolding lookup
listed-lookup order id links [] h e = cc
listed-lookup order id links ((j, l) ∷ m) h e = elim (Bool-cases (same_file j id)) [
  | inl same ↦
      let s = some_eq (rw (same, lookup) at e) in
      (rw (← same_file_sound j id same) h.0, subst FirstRegular s h.2)
  | inr other ↦ listed-lookup order id links m h.3 (rw (other, lookup) at e)
]

pub FirstRegular-lookup :
    (order : List FileId) (id : FileId) (links : List PendingLink) (m : PendingMap)
    → Tracked order m
    → lookup id m ≡ some links
    → FirstRegular links
FirstRegular-lookup order id links m h e = (listed-lookup order id links m h e).1

-- Holding a regular file back keeps the map tracked by the order that notes its id.
Tracked-note :
    (order : List FileId) (link : PendingLink) (id : FileId) (m : PendingMap)
    (o : Option (List PendingLink))
    → lookup id m ≡ o
    → is_regular_kind link.ent.kind ≡ true
    → Tracked order m
    → Tracked (note_order id o order) (hold id link m)
unfolding note_order
Tracked-note order link id m none e r h =
    Tracked-hold (order ++ id ∷ []) id link m (listed_last id order) r (Tracked-append order id m h)
Tracked-note order link id m (some links) e r h =
    Tracked-hold order id link m (listed-lookup order id links m h e).0 r h

pub Tracked-hold_back :
    (e : Entry) (name : Bytes) (s : State)
    → is_cpio_regular e ≡ true
    → Tracked s.pending_order s.pending_links
    → Tracked (hold_back e name s).pending_order (hold_back e name s).pending_links
unfolding hold_back is_cpio_regular
Tracked-hold_back e name s r h =
    Tracked-note s.pending_order (record { name = name; ent = e }) e.file_id s.pending_links
      (lookup e.file_id s.pending_links) refl r h
