-- ===== src/Extract/Payload.antt =====
-- rpm-extract/main.go: `writePayloadAsTar`, the walk over the cpio payload, and what it writes.
-- The payload is the list of its entries, each with the bytes that its reader yields. The third-party
-- cpio reader and the tar writer are not modelled: `readable` says whether an entry's bytes can be
-- read in full, `ends` whether the stream ends with io.EOF, and `accepts` whether
-- `tar.Writer.WriteHeader` takes a header.
pub mod Writes
pub mod Flush
pub mod Kept
pub mod Pending
pub mod Names
pub mod Backlinks
pub mod Escapes
use distroless.Prelude.{
  ℕ, Bool, true, false, ◌&&◌, ◌||◌, not, Option, none, some, List, [], ◌∷◌, ◌++◌, if◌then◌else◌,
  ltb, ◌==◌, length, Result, ok, err, ◌>>=◌,
}
use distroless.Strings.{Bytes}
use distroless.Extract.Paths.{should_strip, merged_usr, merged_usr_link}

-- the type bits of a cpio mode: the constants that the code names, no bits at all, and the rest
pub data Kind : Type 0 where
  no_bits regular directory symlink char_device block_device fifo socket unknown : Kind

pub record FileId : Type 0 where
  pub devmajor : ℕ
  pub devminor : ℕ
  pub ino : ℕ

unfoldable pub same_file : FileId → FileId → Bool
same_file a b = a.devmajor == b.devmajor && (a.devminor == b.devminor && a.ino == b.ino)

-- a cpio header with the entry's bytes; `Filesize()` is their number
pub record Entry : Type 0 where
  pub filename : Bytes
  pub kind : Kind
  pub perm : ℕ
  pub nlink : ℕ
  pub file_id : FileId
  pub mtime : ℕ
  pub uid : ℕ
  pub gid : ℕ
  pub body : Bytes
  pub readable : Bool

abbrev pub filesize : Entry → ℕ
filesize e = length e.body

pub data TypeFlag : Type 0 where
  type_reg type_dir type_symlink type_link : TypeFlag

pub record Header : Type 0 where
  pub name : Bytes
  pub mode : ℕ
  pub size : ℕ
  pub typeflag : TypeFlag
  pub linkname : Bytes
  pub mod_time : ℕ
  pub uid : ℕ
  pub gid : ℕ

-- one member of the tar that is written
pub record Member : Type 0 where
  pub header : Header
  pub content : Bytes

pub data Error : Type 0 where
  cpio_next drain_stripped read_target write_header copy_payload link_too_long out_of_range : Error

pub record PendingLink : Type 0 where
  pub name : Bytes
  pub ent : Entry

-- the map `pendingLinks`
abbrev pub PendingMap : Type 0
PendingMap = List (FileId × List PendingLink)

unfoldable pub lookup : FileId → PendingMap → Option (List PendingLink)
lookup id [] = none
lookup id ((j, links) ∷ m) = let rest = lookup id m in if same_file j id then some links else rest

unfoldable pub delete : FileId → PendingMap → PendingMap
delete id [] = []
delete id ((j, links) ∷ m) =
    let rest = delete id m in if same_file j id then m else (j, links) ∷ rest

-- `pendingLinks[id] = append(pendingLinks[id], link)`
unfoldable pub hold : FileId → PendingLink → PendingMap → PendingMap
hold id link [] = (id, link ∷ []) ∷ []
hold id link ((j, links) ∷ m) =
    let rest = hold id link m in
    if same_file j id then (j, links ++ link ∷ []) ∷ m else (j, links) ∷ rest

-- what the walk has written, in order, and what it holds back
pub record State : Type 0 where
  pub tar : List Member
  pub pending_links : PendingMap
  pub pending_order : List FileId

abbrev pub is_regular_kind : Kind → Bool
is_regular_kind no_bits = true
is_regular_kind regular = true
is_regular_kind _ = false

unfoldable pub is_cpio_regular : Entry → Bool
is_cpio_regular e = is_regular_kind e.kind

abbrev pub ustar_linkname_max : ℕ
ustar_linkname_max = 100

unfoldable pub hardlink : Entry → Bytes → Bytes → Member
hardlink ent name target = record {
  header = record {
    name = name;
    mode = ent.perm;
    size = 0;
    typeflag = type_link;
    linkname = target;
    mod_time = ent.mtime;
    uid = ent.uid;
    gid = ent.gid;
  };
  content = [];
}

unfoldable pub entry_member : TypeFlag → Bytes → ℕ → Bytes → Entry → Bytes → Member
entry_member typeflag name size linkname ent content = record {
  header = record {
    name = name;
    mode = ent.perm;
    size = size;
    typeflag = typeflag;
    linkname = linkname;
    mod_time = ent.mtime;
    uid = ent.uid;
    gid = ent.gid;
  };
  content = content;
}

-- a dropped entry's content is read and thrown away
unfoldable pub drain : Entry → State → Result Error State
drain ent s = if is_cpio_regular ent && not ent.readable then err drain_stripped else ok s

-- the entry may carry a hardlink set's bytes
unfoldable pub is_carrier : Entry → Bool
is_carrier ent = is_cpio_regular ent && (ltb 1 ent.nlink && ltb 0 (filesize ent))

-- the order grows when an id is seen that is not in the map
unfoldable pub note_order : FileId → Option (List PendingLink) → List FileId → List FileId
note_order id none order = order ++ id ∷ []
note_order id (some links) order = order

unfoldable pub hold_back : Entry → Bytes → State → State
hold_back ent name s = record s {
  pending_order = note_order ent.file_id (lookup ent.file_id s.pending_links) s.pending_order;
  pending_links = hold ent.file_id (record { name = name; ent = ent }) s.pending_links;
}

abbrev pub links_of : Option (List PendingLink) → List PendingLink
links_of none = []
links_of (some links) = links

-- where a path goes: nowhere if it is stripped or a legacy root itself
unfoldable pub destination : Bytes → Option Bytes
destination filename = if should_strip filename then none else merged_usr filename

abbrev pub start : State
start = record { tar = []; pending_links = []; pending_order = [] }

module _ (accepts : Header → Bool) where
  -- `tw.WriteHeader` and the copy of the content behind it
  unfoldable pub write_member : Member → List Member → Result Error (List Member)
  write_member m tar = if accepts m.header then ok (tar ++ m ∷ []) else err write_header

  -- a regular file: `io.Copy` reads the entry's bytes behind its header
  unfoldable pub write_file : Entry → Bytes → List Member → Result Error (List Member)
  write_file ent name tar = do
    tar' ← write_member (entry_member type_reg name (filesize ent) [] ent ent.body) tar
    if ent.readable then ok tar' else err copy_payload

  unfoldable pub write_symlink : Entry → Bytes → List Member → Result Error (List Member)
  write_symlink ent name tar =
      if ent.readable
      then write_member (entry_member type_symlink name 0 (merged_usr_link ent.body) ent []) tar
      else err read_target

  -- the switch on the type bits
  unfoldable pub write_by_kind : Kind → Entry → Bytes → List Member → Result Error (List Member)
  write_by_kind directory ent name tar = write_member (entry_member type_dir name 0 [] ent []) tar
  write_by_kind symlink ent name tar = write_symlink ent name tar
  write_by_kind char_device ent name tar = ok tar
  write_by_kind block_device ent name tar = ok tar
  write_by_kind fifo ent name tar = ok tar
  write_by_kind socket ent name tar = ok tar
  write_by_kind _ ent name tar = write_file ent name tar

  unfoldable pub write_cpio_entry_as_tar : Entry → Bytes → List Member → Result Error (List Member)
  write_cpio_entry_as_tar ent name tar = write_by_kind ent.kind ent name tar

  unfoldable pub write_hardlink_as_tar :
      Entry → Bytes → Bytes → List Member → Result Error (List Member)
  write_hardlink_as_tar ent name target tar =
      if ltb ustar_linkname_max (length target)
      then err link_too_long
      else write_member (hardlink ent name target) tar

  -- the loops `for _, link := range …` that write links to one target
  unfoldable pub write_links : List PendingLink → Bytes → List Member → Result Error (List Member)
  write_links [] target tar = ok tar
  write_links (link ∷ links) target tar =
      write_hardlink_as_tar link.ent link.name target tar >>= write_links links target

  -- `links[0]` of no links would be out of range
  unfoldable pub write_hardlink_set :
      Entry → List PendingLink → List Member → Result Error (List Member)
  write_hardlink_set ent [] tar = err out_of_range
  write_hardlink_set ent (first ∷ links) tar =
      write_cpio_entry_as_tar ent first.name tar >>= write_links links first.name

  -- the stripped carrier's bytes go to the members that were held back
  unfoldable pub hand_over : Entry → Option (List PendingLink) → State → Result Error State
  hand_over ent none s = drain ent s
  hand_over ent (some links) s = do
    tar ← write_hardlink_set ent links s.tar
    ok (record s { tar = tar; pending_links = delete ent.file_id s.pending_links })

  unfoldable pub stripped_step : Entry → State → Result Error State
  stripped_step ent s =
      if is_carrier ent then hand_over ent (lookup ent.file_id s.pending_links) s else drain ent s

  -- the links that waited for `ent`, now written under `name`
  unfoldable pub release_links : Entry → Bytes → State → List Member → Result Error State
  release_links ent name s tar = do
    tar' ← write_links (links_of (lookup ent.file_id s.pending_links)) name tar
    ok (record s { tar = tar'; pending_links = delete ent.file_id s.pending_links })

  unfoldable pub after_entry : Entry → Bytes → State → List Member → Result Error State
  after_entry ent name s tar =
      if is_cpio_regular ent && ltb 1 ent.nlink
      then release_links ent name s tar
      else ok (record s { tar = tar })

  -- a kept entry that is written at once
  unfoldable pub write_through : Entry → Bytes → State → Result Error State
  write_through ent name s = write_cpio_entry_as_tar ent name s.tar >>= after_entry ent name s

  unfoldable pub kept_step : Entry → Bytes → State → Result Error State
  kept_step ent name s =
      if is_cpio_regular ent && (ltb 1 ent.nlink && filesize ent == 0)
      then ok (hold_back ent name s)
      else write_through ent name s

  unfoldable pub step_to : Entry → Option Bytes → State → Result Error State
  step_to ent none s = stripped_step ent s
  step_to ent (some rewritten) s = kept_step ent rewritten s

  -- one round of the loop over the payload
  unfoldable pub step : Entry → State → Result Error State
  step ent s = step_to ent (destination ent.filename) s

  unfoldable pub walk : List Entry → State → Result Error State
  walk [] s = ok s
  walk (ent ∷ entries) s = step ent s >>= walk entries

  -- the sets that are left; the payload is at its end, so reading it yields nothing and no error
  unfoldable pub flush_set : Option (List PendingLink) → List Member → Result Error (List Member)
  flush_set none tar = ok tar
  flush_set (some []) tar = err out_of_range
  flush_set (some (first ∷ links)) tar =
      write_hardlink_set (record first.ent { readable = true }) (first ∷ links) tar

  unfoldable pub flush : PendingMap → List FileId → List Member → Result Error (List Member)
  flush m [] tar = ok tar
  flush m (id ∷ order) tar = flush_set (lookup id m) tar >>= flush m order

  unfoldable pub write_payload_as_tar : List Entry → Bool → Result Error (List Member)
  write_payload_as_tar entries ends = do
    s ← walk entries start
    if ends then flush s.pending_links s.pending_order s.tar else err cpio_next
