-- ===== src/Copyright/Parse.antt =====
-- `Parse`, `fields` and `coversWholePackage` of oci/debian/copyright/copyright.go. The table `spdx`
-- is in Spdx.
use distroless.Prelude.{
  ℕ, Bool, ◌||◌, Option, none, some, List, [], ◌∷◌, ◌++◌, if◌then◌else◌, ◌==◌, Result, ok, err, ◌*◌,
  ◌^◌, take,
}
use distroless.Prelude.Dict.{lookup, insert, contains}
use distroless.Strings.{Bytes, codes, str_eq, cut_first, has_prefix}
use distroless.Strings.Split.{split, join}
use distroless.Strings.Space.{trim_space, fields, to_lower}
use distroless.Strings.Order.{bytes_eq}
use distroless.Copyright.Spdx.{spdx}

pub record License : Type 0 where
  pub name : Bytes
  pub spdx_id : Bytes

pub data ParseError : Type 0 where
  not_machine_readable no_overall_license : ParseError

-- `inline` is what follows the key on its line, `continuation` the indented lines beneath
pub record Field : Type 0 where
  pub inline : Bytes
  pub continuation : List Bytes

abbrev pub empty_field : Field
empty_field = record { inline = []; continuation = [] }

-- the zero value where the map has no field
unfoldable pub or_empty_field : Option Field → Field
or_empty_field none = empty_field
or_empty_field (some f) = f

abbrev pub with_inline : Bytes → List Bytes → List Bytes
with_inline [] parts = parts
with_inline (c ∷ s) parts = (c ∷ s) ∷ parts

unfoldable pub value : Field → Bytes
value f = trim_space (join b' ' (with_inline f.inline f.continuation))

-- the first of the lines, "" if there is none
unfoldable pub first_line : Bytes → List Bytes → Bytes
first_line (c ∷ s) continuation = c ∷ s
first_line [] [] = []
first_line [] (line ∷ lines) = line

unfoldable pub name : Field → Bytes
name f = first_line f.inline f.continuation

abbrev pub Fields : Type 0
Fields = List (Bytes × Field)

-- the key that is open, "" for none, and what has been read
pub record Scan : Type 0 where
  pub key : Bytes
  pub read : Fields

unfoldable pub continue_field : Bytes → Scan → Scan
continue_field line s = if str_eq s.key [] then s else record {
  key = s.key;
  read =
      insert s.key
        (let entry = or_empty_field (lookup s.key s.read) in
          record {
            inline = entry.inline;
            continuation = entry.continuation ++ trim_space line ∷ [];
          })
        s.read;
}

-- a line with a colon opens a field, another closes the one that is open
unfoldable pub open_field : Option (Bytes × Bytes) → Scan → Scan
open_field none s = record { key = []; read = s.read }
open_field (some (key, rest)) s = record {
  key = to_lower (trim_space key);
  read =
      insert (to_lower (trim_space key)) (record { inline = trim_space rest; continuation = [] })
        s.read;
}

unfoldable pub scan_line : Bytes → Scan → Scan
scan_line [] s = s
scan_line (c ∷ line) s =
    if c == b' ' || c == 9
    then continue_field (c ∷ line) s
    else open_field (cut_first b':' (c ∷ line)) s

unfoldable pub scan_lines : List Bytes → Scan → Scan
scan_lines [] s = s
scan_lines (line ∷ lines) s = scan_lines lines (scan_line line s)

abbrev pub blank : Scan
blank = record { key = []; read = [] }

unfoldable pub paragraph_fields : Bytes → Fields
paragraph_fields paragraph = (scan_lines (split b'\n' paragraph) blank).read

unfoldable pub covers_whole_package : Bytes → Bool
covers_whole_package files = contains (fields files) (codes "*")

-- `strings.Split` at two newlines; `word` is what has been read of the current paragraph
unfoldable pub paragraphs_from : Bytes → Bytes → List Bytes
paragraphs_from word [] = word ∷ []
paragraphs_from word (c ∷ []) = (word ++ c ∷ []) ∷ []
paragraphs_from word (c ∷ d ∷ s) =
    let next = paragraphs_from [] s in
    let more = paragraphs_from (word ++ c ∷ []) (d ∷ s) in
    if c == b'\n' then (if d == b'\n' then word ∷ next else more) else more

unfoldable pub paragraphs : Bytes → List Bytes
paragraphs document = paragraphs_from [] document

abbrev pub license_of : Bytes → License
license_of name = record { name = name; spdx_id = spdx name }

-- the licence of a paragraph for the whole package, if it names one
unfoldable pub declared : Fields → Option License
declared fs =
    if covers_whole_package (value (or_empty_field (lookup (codes "files") fs)))
    then (if str_eq (name (or_empty_field (lookup (codes "license") fs))) []
        then none
        else some (license_of (name (or_empty_field (lookup (codes "license") fs)))))
    else none

unfoldable pub first_license : List Bytes → Result ParseError License
first_license [] = err no_overall_license
first_license (paragraph ∷ ps) =
    let rest = first_license ps in
    elim (declared (paragraph_fields paragraph)) [ none ↦ rest | some l ↦ ok l ]

abbrev pub max_copyright_bytes : ℕ
max_copyright_bytes = 8 * 2 ^ 20

-- Reading fails only with the reader; `document` is what it gives.
unfoldable pub parse_document : Bytes → Result ParseError License
parse_document document =
    if has_prefix document (codes "Format:")
    then first_license (paragraphs document)
    else err not_machine_readable

unfoldable pub parse : Bytes → Result ParseError License
parse reader = parse_document (take max_copyright_bytes reader)
