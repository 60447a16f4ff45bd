-- ===== src/Extract/Payload/Writes.antt =====
-- What a successful write appends to the tar.
use distroless.Prelude.{
  ◌≤◌, Bool, true, false, List, [], ◌∷◌, ◌++◌, ◌≡◌, refl, arith, if◌then◌else◌, ◌⊎◌, inl, inr, ok,
  err, >>=-eq-ok, ◌≢◌, length,
}
use distroless.Strings.{Bytes}
use distroless.Extract.Paths.{merged_usr_link}
use distroless.Extract.Payload.{
  Kind, no_bits, regular, directory, symlink, char_device, block_device, fifo, socket, unknown,
  type_reg, type_dir, type_symlink, type_link, copy_payload, ustar_linkname_max, Entry, filesize,
  Header, Member, is_regular_kind, write_by_kind, hardlink, entry_member, write_member, write_file,
  write_symlink, write_cpio_entry_as_tar, write_hardlink_as_tar,
}

-- device nodes, fifos and sockets are passed over
abbrev pub is_special_kind : Kind → Bool
is_special_kind char_device = true
is_special_kind block_device = true
is_special_kind fifo = true
is_special_kind socket = true
is_special_kind _ = false

abbrev pub is_special : Entry → Bool
is_special e = is_special_kind e.kind

-- one member is appended, under the name that is asked for; that of a regular file is a file
pub record Appended (k : Kind) (name : Bytes) (tar tar' : List Member) : Type 0 where
  pub member : Member
  pub appended : tar' ≡ tar ++ member ∷ []
  pub named : member.header.name ≡ name
  pub sized : member.header.size ≡ length member.content
  pub no_link : member.header.typeflag ≢ type_link
  pub is_file : is_regular_kind k ≡ true → member.header.typeflag ≡ type_reg

abbrev pub Written : Kind → Bytes → List Member → List Member → Type 0
Written k name tar tar' =
    ((is_special_kind k ≡ true) × (tar' ≡ tar))
    ⊎ ((is_special_kind k ≡ false) × Appended k name tar tar')

module _ (accepts : Header → Bool) where
  write_member_lem :
      (m : Member) (tar tar' : List Member)
      → write_member accepts m tar ≡ ok tar'
      → tar' ≡ tar ++ m ∷ []
  unfolding write_member
  write_member_lem m tar tar' h = ground arith

  write_file_lem :
      (e : Entry) (name : Bytes) (tar tar' : List Member)
      → write_file accepts e name tar ≡ ok tar'
      → tar' ≡ tar ++ entry_member type_reg name (filesize e) [] e e.body ∷ []
  unfolding write_file
  write_file_lem e name tar tar' h =
      let m = entry_member type_reg name (filesize e) [] e e.body in
      let (t, w, r) =
        >>=-eq-ok (write_member accepts m tar)
          (λ tar'. if e.readable then ok tar' else err copy_payload) h in
      ground (arith, write_member_lem m tar t w)

  write_symlink_lem :
      (e : Entry) (name : Bytes) (tar tar' : List Member)
      → write_symlink accepts e name tar ≡ ok tar'
      → tar' ≡ tar ++ entry_member type_symlink name 0 (merged_usr_link e.body) e [] ∷ []
  unfolding write_symlink
  write_symlink_lem e name tar tar' h = ground (
    arith,
    write_member_lem (entry_member type_symlink name 0 (merged_usr_link e.body) e []) tar tar',
  )

  pub write_hardlink_lem :
      (e : Entry) (name target : Bytes) (tar tar' : List Member)
      → write_hardlink_as_tar accepts e name target tar ≡ ok tar'
      → (length target ≤ ustar_linkname_max) × (tar' ≡ tar ++ hardlink e name target ∷ [])
  unfolding write_hardlink_as_tar
  write_hardlink_lem e name target tar tar' h =
      ground (arith, write_member_lem (hardlink e name target) tar tar')

  write_file-Appended :
      (k : Kind) (e : Entry) (name : Bytes) (tar tar' : List Member)
      → write_file accepts e name tar ≡ ok tar'
      → Appended k name tar tar'
  unfolding entry_member
  write_file-Appended k e name tar tar' h = record {
    member = entry_member type_reg name (filesize e) [] e e.body;
    appended = write_file_lem e name tar tar' h;
    named = refl;
    sized = refl;
    no_link = λ p. cc;
    is_file = λ p. refl;
  }

  write_by_kind_lem :
      (k : Kind) (e : Entry) (name : Bytes) (tar tar' : List Member)
      → write_by_kind accepts k e name tar ≡ ok tar'
      → Written k name tar tar'
  unfolding write_by_kind entry_member
  write_by_kind_lem directory e name tar tar' h = inr (
    refl,
    record {
      member = entry_member type_dir name 0 [] e [];
      appended = write_member_lem (entry_member type_dir name 0 [] e []) tar tar' h;
      named = refl;
      sized = refl;
      no_link = λ p. cc;
      is_file = λ p. cc;
    },
  )
  write_by_kind_lem symlink e name tar tar' h = inr (
    refl,
    record {
      member = entry_member type_symlink name 0 (merged_usr_link e.body) e [];
      appended = write_symlink_lem e name tar tar' h;
      named = refl;
      sized = refl;
      no_link = λ p. cc;
      is_file = λ p. cc;
    },
  )
  write_by_kind_lem char_device e name tar tar' h = inl (refl, ground arith)
  write_by_kind_lem block_device e name tar tar' h = inl (refl, ground arith)
  write_by_kind_lem fifo e name tar tar' h = inl (refl, ground arith)
  write_by_kind_lem socket e name tar tar' h = inl (refl, ground arith)
  write_by_kind_lem no_bits e name tar tar' h =
      inr (refl, write_file-Appended no_bits e name tar tar' h)
  write_by_kind_lem regular e name tar tar' h =
      inr (refl, write_file-Appended regular e name tar tar' h)
  write_by_kind_lem unknown e name tar tar' h =
      inr (refl, write_file-Appended unknown e name tar tar' h)

  pub write_cpio_entry_lem :
      (e : Entry) (name : Bytes) (tar tar' : List Member)
      → write_cpio_entry_as_tar accepts e name tar ≡ ok tar'
      → Written e.kind name tar tar'
  unfolding write_cpio_entry_as_tar
  write_cpio_entry_lem e name tar tar' h = write_by_kind_lem e.kind e name tar tar' h
