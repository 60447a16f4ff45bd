-- ===== src/Extract/Payload/Escapes.antt =====
-- Paths in a legacy root that are written to a directory which the strip names.
use mathlib.Core.Path.{subst}
use distroless.Prelude.{
  ◌≤◌, Bool, true, some, List, [], ◌∷◌, ◌++◌, ◌≡◌, ◌⊎◌, inl, inr, refl, sym, ap, ◌∙◌, arith,
  if◌then◌else◌, Bool-cases, ok,
}
use distroless.Strings.{Bytes, codes, str_eq, has_prefix, trim_prefix, cut_prefix}
use distroless.Strings.Laws.{str_eq_refl, str_eq_sound}
use distroless.Strings.Count.{count, count-append}
use distroless.Extract.Paths.{should_strip, is_under, merged_usr, merge_into_usr}
use distroless.Extract.Payload.{Entry, Header, Member, destination, write_payload_as_tar}
use distroless.Extract.Payload.Writes.{is_special_kind}
use distroless.Extract.Payload.Names.{in_tar, kept_name, kept_names}
use distroless.Extract.Payload.Flush.{write_payload_as_tar-names}

-- PAM modules, and the links by build id, in a legacy root
abbrev pub IsEscaping : Bytes → Type 0
IsEscaping dir =
    (dir ≡ codes "lib64/security/")
    ⊎ ((dir ≡ codes "lib/security/") ⊎ (dir ≡ codes "lib/.build-id/"))

-- where the path goes, and that a path spelled so would be dropped
abbrev Lands : Bytes → Bytes → Type 0
Lands rest dir =
    (destination (codes "./" ++ (dir ++ rest)) ≡ some (codes "./usr/" ++ (dir ++ rest)))
    × (should_strip (codes "./usr/" ++ (dir ++ rest)) ≡ true)

Lands-lib64_security : (rest : Bytes) → Lands rest (codes "lib64/security/")
unfolding destination should_strip merged_usr merge_into_usr is_under has_prefix trim_prefix
    cut_prefix str_eq
Lands-lib64_security [] = (refl, refl)
Lands-lib64_security (c ∷ rest) = (refl, refl)

Lands-lib_security : (rest : Bytes) → Lands rest (codes "lib/security/")
unfolding destination should_strip merged_usr merge_into_usr is_under has_prefix trim_prefix
    cut_prefix str_eq
Lands-lib_security [] = (refl, refl)
Lands-lib_security (c ∷ rest) = (refl, refl)

Lands-build_id : (rest : Bytes) → Lands rest (codes "lib/.build-id/")
unfolding destination should_strip merged_usr merge_into_usr is_under has_prefix trim_prefix
    cut_prefix str_eq
Lands-build_id [] = (refl, refl)
Lands-build_id (c ∷ rest) = (refl, refl)

Lands-IsEscaping : (rest dir : Bytes) → IsEscaping dir → Lands rest dir
Lands-IsEscaping rest dir (inl e) = subst (Lands rest) (sym e) (Lands-lib64_security rest)
Lands-IsEscaping rest dir (inr (inl e)) = subst (Lands rest) (sym e) (Lands-lib_security rest)
Lands-IsEscaping rest dir (inr (inr e)) = subst (Lands rest) (sym e) (Lands-build_id rest)

-- the names of the entries that are no devices, pipes or sockets, as the package spells them
abbrev pub payload_names : List Entry → List Bytes
payload_names [] = []
payload_names (e ∷ entries) =
    if is_special_kind e.kind then payload_names entries else e.filename ∷ payload_names entries

count-kept_names :
    (f g : Bytes) (entries : List Entry)
    → destination f ≡ some g
    → count f (payload_names entries) ≤ count g (kept_names entries)
unfolding count
count-kept_names f g [] lands = omega arith
count-kept_names f g (e ∷ entries) lands =
    let ih = count-kept_names f g entries lands in
    let split = count-append g (kept_name e (destination e.filename)) (kept_names entries) in
    elim (Bool-cases (is_special_kind e.kind)) [
      | inl special ↦ rw special (omega (arith, ih, split))
      | inr plain ↦ elim (Bool-cases (str_eq e.filename f)) [
        | inl same ↦
            let there : destination e.filename ≡ some g =
              ap destination (str_eq_sound e.filename f same) ∙ lands in
            rw (there, plain, same, str_eq_refl g) (omega (arith, ih))
        | inr other ↦ rw (plain, other) (omega (arith, ih, split))
      ]
    ]

-- A payload that is extracted keeps what a package ships as a PAM module, or a link by build id, in
-- /lib64/security, /lib/security or /lib/.build-id: each of its paths there is in the tar, at least as
-- often as in the payload, under the path in /usr, which shouldStrip says is dropped.
pub write_payload_as_tar-escapes :
    (accepts : Header → Bool) (entries : List Entry) (ends : Bool) (tar : List Member)
    (dir rest : Bytes)
    → IsEscaping dir
    → write_payload_as_tar accepts entries ends ≡ ok tar
    → (count (codes "./" ++ (dir ++ rest)) (payload_names entries)
        ≤ in_tar (codes "./usr/" ++ (dir ++ rest)) tar)
      × (should_strip (codes "./usr/" ++ (dir ++ rest)) ≡ true)
write_payload_as_tar-escapes accepts entries ends tar dir rest escaping h =
    let (lands, stripped) = Lands-IsEscaping rest dir escaping in
    let kept =
      (write_payload_as_tar-names accepts entries ends tar (codes "./usr/" ++ (dir ++ rest)) h).0 in
    (
      omega (
        arith,
        kept,
        count-kept_names (codes "./" ++ (dir ++ rest)) (codes "./usr/" ++ (dir ++ rest)) entries
            lands,
      ),
      stripped,
    )
