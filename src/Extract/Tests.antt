-- ===== src/Extract/Tests.antt =====
-- Runs of the walk on small payloads.
use distroless.Prelude.{
  ℕ, ◌≤◌, Bool, true, inl, List, [], ◌∷◌, ◌≡◌, refl, String, map, Result, ok, err,
}
use distroless.Strings.{Bytes, codes, trim_prefix}
use distroless.Strings
use distroless.Strings.Count.{count}
use distroless.Extract.Paths
use distroless.Extract.Paths.{should_strip, stripped_prefixes, merged_usr, merged_usr_link, slash}
use distroless.Extract.Payload.Escapes.{payload_names, write_payload_as_tar-escapes}
use distroless.Extract.Payload.Names.{kept_names, in_tar}
use distroless.Extract.Payload.Flush.{write_payload_as_tar-names}
use distroless.Extract.Payload.Backlinks.{Backed, write_payload_as_tar-Backed}
use distroless.Extract.Payload
use distroless.Extract.Payload.{
  Entry, Kind, regular, Header, Member, Error, write_payload_as_tar, symlink, char_device,
}

abbrev pub file : String → ℕ → ℕ → String → Entry
file name links inode body = record {
  filename = codes name;
  kind = regular;
  perm = 420;
  nlink = links;
  file_id = record { devmajor = 8; devminor = 1; ino = inode };
  mtime = 1;
  uid = 0;
  gid = 0;
  body = codes body;
  readable = true;
}

abbrev pub any_header : Header → Bool
any_header h = true

abbrev members : Result Error (List Member) → List Member
members (ok tar) = tar
members (err e) = []

abbrev names : Result Error (List Member) → List Bytes
names (ok tar) = map (λ m. m.header.name) tar
names (err e) = []

abbrev pub zones : List Entry
zones =
    file "./usr/share/zoneinfo/UTC" 2 7 ""
    ∷ file "./lib/x" 1 8 "x"
    ∷ file "./usr/share/zoneinfo/Zulu" 2 7 "TZif"
    ∷ []

-- the walk, open to tests
unfoldable pub run : List Entry → Result Error (List Member)
unfolding write_payload_as_tar Payload.walk Payload.step Payload.step_to Payload.destination
    Paths.should_strip Paths.is_under Strings.str_eq Strings.trim_prefix Strings.has_prefix
    Strings.cut_prefix Paths.merged_usr Paths.merge_into_usr Paths.merge_link Paths.merged_usr_link
    Payload.kept_step Payload.is_cpio_regular Payload.write_through Payload.write_cpio_entry_as_tar
    Payload.write_by_kind Payload.write_file Payload.write_member Payload.after_entry Payload.delete
    Payload.drain Payload.entry_member Payload.flush Payload.flush_set Payload.hand_over
    Payload.hardlink Payload.hold Payload.hold_back Payload.is_carrier Payload.lookup
    Payload.note_order Payload.release_links Payload.same_file Payload.stripped_step
    Payload.write_hardlink_as_tar Payload.write_hardlink_set Payload.write_links
    Payload.write_symlink
run entries = write_payload_as_tar any_header entries true

hardlinks_follow :
    names (run zones)
    ≡ codes "./usr/lib/x"
      ∷ codes "./usr/share/zoneinfo/Zulu"
      ∷ codes "./usr/share/zoneinfo/UTC"
      ∷ []
unfolding run
hardlinks_follow = refl

-- what the run above writes
abbrev zone_tar : List Member
zone_tar = members (run zones)

zones_written : write_payload_as_tar any_header zones true ≡ ok zone_tar
unfolding run
zones_written = refl

names_example :
    (count (codes "./usr/share/zoneinfo/UTC") (kept_names zones)
      ≤ in_tar (codes "./usr/share/zoneinfo/UTC") zone_tar)
    × (count (codes "./usr/share/zoneinfo/UTC") (kept_names zones) ≡ 0
        → in_tar (codes "./usr/share/zoneinfo/UTC") zone_tar ≡ 0)
names_example =
    write_payload_as_tar-names any_header zones true zone_tar (codes "./usr/share/zoneinfo/UTC")
      zones_written

Backed_example : Backed zone_tar
Backed_example = write_payload_as_tar-Backed any_header zones true zone_tar zones_written

abbrev pam_module : List Entry
pam_module = file "./lib64/security/pam_cap.so" 1 9 "x" ∷ []

abbrev pam_tar : List Member
pam_tar = members (run pam_module)

pam_written : write_payload_as_tar any_header pam_module true ≡ ok pam_tar
unfolding run
pam_written = refl

escape_example :
    (count (codes "./lib64/security/pam_cap.so") (payload_names pam_module)
      ≤ in_tar (codes "./usr/lib64/security/pam_cap.so") pam_tar)
    × (should_strip (codes "./usr/lib64/security/pam_cap.so") ≡ true)
escape_example =
    write_payload_as_tar-escapes any_header pam_module true pam_tar (codes "lib64/security/")
      (codes "pam_cap.so") (inl refl) pam_written
