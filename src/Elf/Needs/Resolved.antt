-- ===== src/Elf/Needs/Resolved.antt =====
-- When an ELF needs nothing that the image lacks.
use mathlib.Core.Logic.{⊎_elim}
use mathlib.Core.Path.{subst}
use mathlib.Core.List.{Memᴰ}
use mathlib.Core.List.Memᴰ
use distroless.Prelude.{
  ℕ, Bool, true, ◌||◌, Option, none, some, List, [], ◌∷◌, ◌++◌, ◌≡◌, ◌≢◌, ◌↔◌, ◌⊎◌, inl, inr, refl,
  sym, ap, ◌∙◌, arith, ==_iff, Bool-cases, some_eq, ok, ok-injective,
}
use distroless.Strings.{Bytes}
use distroless.Strings.Order.{bytes_eq}
use distroless.Elf.Path.{join_path, dir}
use distroless.Elf.Root.{file_in_root}
use distroless.Elf.Needs.{
  ImageRoot, ElfFile, Content, elf, interpreter, run_path, machine_in, loadable, resolves,
  unresolved_of, is_found, missing_interp, elf_needs, needs_in, needs_of,
}

or_left : (a b : Bool) → a ≡ true → a || b ≡ true
or_left a b h = ground arith

or_right : (a b : Bool) → b ≡ true → a || b ≡ true
or_right a b h = ground arith

cons_nil : {x : Bytes} {xs : List Bytes} → ◌≢◌ {A = List Bytes} (x ∷ xs) []
cons_nil h = cc

append_nil_both : (a b : List Bytes) → a ++ b ≡ [] → (a ≡ []) × (b ≡ [])
append_nil_both [] b h = (refl, h)
append_nil_both (x ∷ a) b h = cc

module _ (root : ImageRoot) where
  -- one of the directories has the name, as a regular file of the root for the machine
  pub record Found (dirs : List Bytes) (machine : ℕ) (soname : Bytes) : Type 0 where
    pub place : Bytes
    pub searched : Memᴰ place dirs
    pub file : Bytes
    pub stands : file_in_root root.node (join_path place soname) ≡ some file
    pub fits : machine_in (root.content file) ≡ machine

  loadable-some :
      (machine : ℕ) (o : Option Bytes)
      → loadable root machine o ≡ true
      → (q : Bytes) × (o ≡ some q) × (machine_in (root.content q) ≡ machine)
  unfolding loadable
  loadable-some machine none h = cc
  loadable-some machine (some q) h = (q, refl, (==_iff (machine_in (root.content q)) machine).0 h)

  resolves-Found :
      (soname : Bytes) (dirs : List Bytes) (machine : ℕ)
      → resolves root soname dirs machine ≡ true
      → Found dirs machine soname
  unfolding resolves
  resolves-Found soname [] machine h = cc
  resolves-Found soname (d ∷ dirs) machine h =
      elim (Bool-cases (loadable root machine (file_in_root root.node (join_path d soname)))) [
        | inl here ↦
            let (q, stands, fits) =
              loadable-some machine (file_in_root root.node (join_path d soname)) here in
            record { place = d; searched = Memᴰ.head refl; file = q; stands = stands; fits = fits }
        | inr not_here ↦
            let f = resolves-Found soname dirs machine (rw not_here at h) in
            record {
              place = f.place;
              searched = Memᴰ.tail f.searched;
              file = f.file;
              stands = f.stands;
              fits = f.fits;
            }
      ]

  loadable-Found :
      (machine : ℕ) (o : Option Bytes) (q : Bytes)
      → o ≡ some q
      → machine_in (root.content q) ≡ machine
      → loadable root machine o ≡ true
  unfolding loadable
  loadable-Found machine none q e fits = cc
  loadable-Found machine (some p) q e fits =
      (==_iff (machine_in (root.content p)) machine).1 (rw (some_eq e) fits)

  Found-resolves :
      (soname : Bytes) (dirs : List Bytes) (machine : ℕ) (place : Bytes) (q : Bytes)
      → Memᴰ place dirs
      → file_in_root root.node (join_path place soname) ≡ some q
      → machine_in (root.content q) ≡ machine
      → resolves root soname dirs machine ≡ true
  unfolding resolves
  Found-resolves soname [] machine place q m e fits = absurd (Memᴰ.not-nil m)
  Found-resolves soname (d ∷ dirs) machine place q m e fits =
      ⊎_elim
        (λ same.
          or_left (loadable root machine (file_in_root root.node (join_path d soname)))
            (resolves root soname dirs machine)
            (loadable-Found machine (file_in_root root.node (join_path d soname)) q
              (subst (λ (x : Bytes). file_in_root root.node (join_path x soname) ≡ some q) same e)
              fits))
        (λ n.
          or_right (loadable root machine (file_in_root root.node (join_path d soname)))
            (resolves root soname dirs machine)
            (Found-resolves soname dirs machine place q n e fits))
        (Memᴰ.cases_cons m)

  unresolved_of-nil :
      (dirs needed : List Bytes) (machine : ℕ)
      → unresolved_of root dirs needed machine ≡ []
      → (s : Bytes) → Memᴰ s needed
      → Found dirs machine s
  unfolding unresolved_of
  unresolved_of-nil dirs [] machine h s m = absurd (Memᴰ.not-nil m)
  unresolved_of-nil dirs (n ∷ needed) machine h s m =
      elim (Bool-cases (resolves root n dirs machine)) [
        | inl there ↦
            ⊎_elim (λ e. subst (Found dirs machine) (sym e) (resolves-Found n dirs machine there))
              (λ k. unresolved_of-nil dirs needed machine (rw there at h) s k) (Memᴰ.cases_cons m)
        | inr not_there ↦ absurd (cons_nil (rw not_there at h))
      ]

  Found-unresolved_of :
      (dirs needed : List Bytes) (machine : ℕ)
      → ((s : Bytes) → Memᴰ s needed → Found dirs machine s)
      → unresolved_of root dirs needed machine ≡ []
  unfolding unresolved_of
  Found-unresolved_of dirs [] machine h = refl
  Found-unresolved_of dirs (n ∷ needed) machine h =
      let f = h n (Memᴰ.head refl) in
      rw (Found-resolves n dirs machine f.place f.file f.searched f.stands f.fits)
        (Found-unresolved_of dirs needed machine (λ s m. h s (Memᴰ.tail m)))

  -- the interpreter is there, if the file names one
  abbrev pub InterpFound : Bytes → Type 0
  InterpFound interp = (interp ≡ []) ⊎ (is_found root (file_in_root root.node interp) ≡ true)

  missing_interp-nil : (interp : Bytes) → (missing_interp root interp ≡ []) ↔ InterpFound interp
  unfolding missing_interp
  missing_interp-nil interp = ground (arith, bytes_eq.beq_iff interp [])

  needs_of-elf :
      (path : Bytes) (search_dirs : List Bytes) (f : ElfFile) (needed : List Bytes)
      → root.content path ≡ elf f
      → f.needed ≡ some needed
      → needs_of root path search_dirs
        ≡ ok (
            missing_interp root (interpreter f.progs)
            ++ unresolved_of root (run_path f (dir path) ++ search_dirs) needed f.machine)
  unfolding needs_of needs_in elf_needs
  needs_of-elf path search_dirs f needed content dynamic =
      ap (λ (c : Content). needs_in root c path search_dirs) content
      ∙ ap (λ (n : Option (List Bytes)). elf_needs root f path search_dirs n) dynamic

  -- For an ELF whose dynamic section can be read, needsOf reports nothing exactly if its
  -- interpreter is in the root, where it names one, and each library that it needs stands, for its
  -- machine, in one of the directories of its run path or of the loader.
  pub needs_of-Found :
      (path : Bytes) (search_dirs : List Bytes) (f : ElfFile) (needed : List Bytes)
      → root.content path ≡ elf f
      → f.needed ≡ some needed
      → (needs_of root path search_dirs ≡ ok []) ↔ (
          InterpFound (interpreter f.progs)
          × ((s : Bytes)
              → Memᴰ s needed
              → Found (run_path f (dir path) ++ search_dirs) f.machine s))
  needs_of-Found path search_dirs f needed content dynamic =
      let dirs = run_path f (dir path) ++ search_dirs in
      let a = missing_interp root (interpreter f.progs) in
      let b = unresolved_of root dirs needed f.machine in
      let computed : needs_of root path search_dirs ≡ ok (a ++ b) =
        needs_of-elf path search_dirs f needed content dynamic in
      (
        λ h.
            let (none_a, none_b) = append_nil_both a b (ok-injective (sym computed ∙ h)) in
            (
              (missing_interp-nil (interpreter f.progs)).0 none_a,
              unresolved_of-nil dirs needed f.machine none_b,
            ),
        λ (i, all).
            computed
            ∙ ap (λ (l : List Bytes). ok (l ++ b)) ((missing_interp-nil (interpreter f.progs)).1 i)
            ∙ ap ok (Found-unresolved_of dirs needed f.machine all),
      )
