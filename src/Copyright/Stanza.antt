-- ===== src/Copyright/Stanza.antt =====
-- What `Parse` reads off a stanza that is written as DEP-5 writes it.
use distroless.Prelude.{
  ℕ, false, none, some, List, [], ◌∷◌, ◌++◌, ◌≡◌, refl, sym, ap, ◌∙◌, arith, if◌then◌else◌, ◌==◌,
  All, All-append, map, append_assoc, append-nil,
}
use distroless.Prelude.Dict.{lookup, insert, contains}
use distroless.Strings.{Bytes, codes, str_eq, cut_first}
use distroless.Strings.Split.{join, Lacks, split-join}
use distroless.Strings.Space.{
  is_space, trim_space, trim_left, trim_right, keep_byte, fields, fields_from, push_word, to_lower,
  lower,
}
use distroless.Strings.Order.{bytes_eq}
use distroless.Copyright.Parse.{
  or_empty_field, value, name, first_line, Fields, Scan, continue_field, open_field, scan_line,
  scan_lines, blank, paragraph_fields, covers_whole_package, declared, license_of,
}

abbrev pub NoSpace : Bytes → Type 0
NoSpace = All (λ c. is_space c ≡ false)

-- a word: a text that is not empty and has no space
pub record IsWord (w : Bytes) : Type 0 where
  pub nonempty : str_eq w [] ≡ false
  pub no_space : NoSpace w

-- the words read back from a text that joins them by spaces
fields_from-word :
    (word s rest : Bytes) → NoSpace s → fields_from word (s ++ rest) ≡ fields_from (word ++ s) rest
unfolding fields_from
fields_from-word word [] rest h = rw append-nil
fields_from-word word (c ∷ s) rest h =
    rw (h.0, fields_from-word (word ++ c ∷ []) s rest h.1, append_assoc word (c ∷ []) s)

push_word-IsWord : (w : Bytes) (ws : List Bytes) → IsWord w → push_word w ws ≡ w ∷ ws
unfolding str_eq
push_word-IsWord [] ws h = cc (h.nonempty)
push_word-IsWord (c ∷ w) ws h = refl

fields-join :
    (w : Bytes) (ws : List Bytes) → All IsWord (w ∷ ws) → fields (join b' ' (w ∷ ws)) ≡ w ∷ ws
unfolding fields join fields_from is_space
fields-join w [] h =
    ap (fields_from []) (sym (append-nil w))
    ∙ fields_from-word [] w [] h.0.no_space
    ∙ push_word-IsWord w [] h.0
fields-join w (v ∷ ws) h =
    fields_from-word [] w (b' ' ∷ join b' ' (v ∷ ws)) h.0.no_space
    ∙ push_word-IsWord w (fields_from [] (join b' ' (v ∷ ws))) h.0
    ∙ ap (λ (l : List Bytes). w ∷ l) (fields-join v ws h.1)

-- a text with no space at its ends
pub record IsTrimmed (s : Bytes) : Type 0 where
  pub at_start : trim_left s ≡ s
  pub at_end : trim_right s ≡ s

trim_space-IsTrimmed : (s : Bytes) → IsTrimmed s → trim_space s ≡ s
unfolding trim_space
trim_space-IsTrimmed s t = rw (t.at_end, t.at_start)

-- what stands behind the colon of a field, with the space that separates it
trim_space-space : (s : Bytes) → IsTrimmed s → trim_space (b' ' ∷ s) ≡ s
unfolding trim_space trim_right trim_left is_space
trim_space-space [] t = refl
trim_space-space (c ∷ s) t = rw t.at_end t.at_start

-- words that are joined by spaces neither begin nor end with one, and are one line
trim_left-word : (w rest : Bytes) → IsWord w → trim_left (w ++ rest) ≡ w ++ rest
unfolding trim_left str_eq
trim_left-word [] rest h = cc (h.nonempty)
trim_left-word (c ∷ w) rest h = rw (h.no_space.0)

trim_right-NoSpace : (w : Bytes) → NoSpace w → trim_right w ≡ w
unfolding trim_right
trim_right-NoSpace [] h = refl
trim_right-NoSpace (c ∷ []) h = rw (h.0)
trim_right-NoSpace (c ∷ d ∷ w) h = ap (keep_byte c) (trim_right-NoSpace (d ∷ w) h.1)

trim_right-append :
    (w : Bytes) (c : ℕ) (s : Bytes)
    → trim_right (c ∷ s) ≡ c ∷ s
    → trim_right (w ++ c ∷ s) ≡ w ++ c ∷ s
unfolding trim_right
trim_right-append [] c s h = h
trim_right-append (b ∷ []) c s h = ap (keep_byte b) h
trim_right-append (b ∷ d ∷ w) c s h = ap (keep_byte b) (trim_right-append (d ∷ w) c s h)

trim_right-space :
    (s : Bytes) → str_eq s [] ≡ false → trim_right s ≡ s → trim_right (b' ' ∷ s) ≡ b' ' ∷ s
unfolding trim_right str_eq
trim_right-space [] h e = cc (h)
trim_right-space (c ∷ s) h e = ap (keep_byte b' ') e

join_nonempty : (w : Bytes) (ws : List Bytes) → IsWord w → str_eq (join b' ' (w ∷ ws)) [] ≡ false
unfolding join str_eq
join_nonempty w [] h = h.nonempty
join_nonempty [] (v ∷ ws) h = cc (h.nonempty)
join_nonempty (c ∷ w) (v ∷ ws) h = refl

trim_right-join :
    (w : Bytes) (ws : List Bytes)
    → All IsWord (w ∷ ws)
    → trim_right (join b' ' (w ∷ ws)) ≡ join b' ' (w ∷ ws)
unfolding join
trim_right-join w [] h = trim_right-NoSpace w h.0.no_space
trim_right-join w (v ∷ ws) h =
    trim_right-append w b' ' (join b' ' (v ∷ ws))
      (trim_right-space (join b' ' (v ∷ ws)) (join_nonempty v ws h.1.0) (trim_right-join v ws h.1))

trim_left-join :
    (w : Bytes) (ws : List Bytes) → IsWord w → trim_left (join b' ' (w ∷ ws)) ≡ join b' ' (w ∷ ws)
unfolding join
trim_left-join w [] h = ap trim_left (sym (append-nil w)) ∙ trim_left-word w [] h ∙ append-nil w
trim_left-join w (v ∷ ws) h = trim_left-word w (b' ' ∷ join b' ' (v ∷ ws)) h

IsTrimmed-join :
    (w : Bytes) (ws : List Bytes) → All IsWord (w ∷ ws) → IsTrimmed (join b' ' (w ∷ ws))
IsTrimmed-join w ws h = record {
  at_start = trim_left-join w ws h.0;
  at_end = trim_right-join w ws h;
}

-- a text without a line break
abbrev pub Line : Bytes → Type 0
Line = Lacks b'\n'

Line-NoSpace : (w : Bytes) → NoSpace w → Line w
unfolding is_space
Line-NoSpace [] h = tt
Line-NoSpace (c ∷ w) h = (ground (arith, h.0), Line-NoSpace w h.1)

Line-join : (w : Bytes) (ws : List Bytes) → All IsWord (w ∷ ws) → Line (join b' ' (w ∷ ws))
unfolding join
Line-join w [] h = Line-NoSpace w h.0.no_space
Line-join w (v ∷ ws) h =
    All-append (λ c. (c == b'\n') ≡ false) w (b' ' ∷ join b' ' (v ∷ ws))
      (Line-NoSpace w h.0.no_space) (refl, Line-join v ws h.1)

pub text_line : Bytes → Bytes
text_line line = b' ' ∷ line

-- the stanza of the patterns `files`, the short name `short` and the lines `text` of the licence
abbrev pub stanza_lines : Bytes → Bytes → List Bytes → List Bytes
stanza_lines files short text =
    (codes "Files: " ++ files) ∷ (codes "License: " ++ short) ∷ map text_line text

abbrev pub stanza : Bytes → Bytes → List Bytes → Bytes
stanza files short text = join b'\n' (stanza_lines files short text)

abbrev licensed : Bytes → Bytes → List Bytes → Fields
licensed files short text =
    (codes "files", record { inline = files; continuation = [] })
    ∷ (codes "license", record { inline = short; continuation = text })
    ∷ []

abbrev at_license : Bytes → Bytes → List Bytes → Scan
at_license files short text = record { key = codes "license"; read = licensed files short text }

-- the indented lines are collected
scan_lines-text :
    (files short : Bytes) (before text : List Bytes)
    → scan_lines (map text_line text) (at_license files short before)
      ≡ at_license files short (before ++ map (λ (l : Bytes). trim_space (b' ' ∷ l)) text)
unfolding scan_lines scan_line continue_field text_line lookup insert str_eq or_empty_field
scan_lines-text files short before [] = rw append-nil
scan_lines-text files short before (line ∷ text) =
    scan_lines-text files short (before ++ trim_space (b' ' ∷ line) ∷ []) text
    ∙ ap (at_license files short) (
        append_assoc before (trim_space (b' ' ∷ line) ∷ [])
          (map (λ (l : Bytes). trim_space (b' ' ∷ l)) text))

files_key : to_lower (trim_space (codes "Files")) ≡ codes "files"
unfolding to_lower trim_space trim_left trim_right is_space lower
files_key = refl

license_key : to_lower (trim_space (codes "License")) ≡ codes "license"
unfolding to_lower trim_space trim_left trim_right is_space lower
license_key = refl

abbrev opened : Bytes → Bytes → Fields → Scan
opened key inline fs = record {
  key = key;
  read = insert key (record { inline = inline; continuation = [] }) fs;
}

files_line :
    (files : Bytes)
    → scan_line (codes "Files: " ++ files) blank
      ≡ opened (codes "files") (trim_space (b' ' ∷ files)) []
unfolding scan_line open_field cut_first
files_line files = ap (λ (k : Bytes). opened k (trim_space (b' ' ∷ files)) []) files_key

license_line :
    (short : Bytes) (s : Scan)
    → scan_line (codes "License: " ++ short) s
      ≡ opened (codes "license") (trim_space (b' ' ∷ short)) s.read
unfolding scan_line open_field cut_first
license_line short s = ap (λ (k : Bytes). opened k (trim_space (b' ' ∷ short)) s.read) license_key

two_opened :
    (files short : Bytes)
    → opened (codes "license") short (opened (codes "files") files []).read
      ≡ at_license files short []
unfolding insert str_eq
two_opened files short = refl

scan_lines-stanza :
    (files short : Bytes) (text : List Bytes)
    → trim_space (b' ' ∷ files) ≡ files
    → trim_space (b' ' ∷ short) ≡ short
    → scan_lines (stanza_lines files short text) blank
      ≡ at_license files short (map (λ (l : Bytes). trim_space (b' ' ∷ l)) text)
unfolding scan_lines
scan_lines-stanza files short text hf hs =
    ap (λ (s : Scan). scan_lines (map text_line text) s)
      (ap (scan_line (codes "License: " ++ short)) (files_line files)
        ∙ license_line short (opened (codes "files") (trim_space (b' ' ∷ files)) [])
        ∙ ap
            (λ (f : Bytes).
              opened (codes "license") (trim_space (b' ' ∷ short))
                (opened (codes "files") f []).read)
            hf
        ∙ ap (λ (n : Bytes). opened (codes "license") n (opened (codes "files") files []).read) hs
        ∙ two_opened files short)
    ∙ scan_lines-text files short [] text

All-text_line : (text : List Bytes) → All Line text → All Line (map text_line text)
unfolding text_line
All-text_line [] h = tt
All-text_line (l ∷ text) h = ((refl, h.0), All-text_line text h.1)

paragraph_fields-stanza :
    (files short : Bytes) (text : List Bytes)
    → Line files
    → Line short
    → All Line text
    → trim_space (b' ' ∷ files) ≡ files
    → trim_space (b' ' ∷ short) ≡ short
    → paragraph_fields (stanza files short text)
      ≡ licensed files short (map (λ (l : Bytes). trim_space (b' ' ∷ l)) text)
unfolding paragraph_fields
paragraph_fields-stanza files short text lf ls lt hf hs =
    ap (λ (lines : List Bytes). (scan_lines lines blank).read)
      (split-join b'\n' (codes "Files: " ++ files)
        ((codes "License: " ++ short) ∷ map text_line text)
        (
          (refl, (refl, (refl, (refl, (refl, (refl, (refl, lf))))))),
          (
            (refl, (refl, (refl, (refl, (refl, (refl, (refl, (refl, (refl, ls))))))))),
            All-text_line text lt,
          ),
        ))
    ∙ ap (λ (s : Scan). s.read) (scan_lines-stanza files short text hf hs)

value_inline : (f : Bytes) → trim_space f ≡ f → value (record { inline = f; continuation = [] }) ≡ f
unfolding value join
value_inline [] h = h
value_inline (c ∷ s) h = h

declared-licensed :
    (files : Bytes) (c : ℕ) (short : Bytes) (text : List Bytes)
    → trim_space files ≡ files
    → declared (licensed files (c ∷ short) text)
      ≡ (if contains (fields files) (codes "*") then some (license_of (c ∷ short)) else none)
unfolding declared lookup str_eq or_empty_field name first_line covers_whole_package
declared-licensed files c short text h =
    ap
      (λ (f : Bytes).
        if contains (fields f) (codes "*") then some (license_of (c ∷ short)) else none)
      (value_inline files h)

-- A stanza that is written for words as its patterns and a trimmed line that is not empty as the
-- short name, with any lines beneath, declares that name for the package exactly if one of the
-- patterns is `*`.
pub declared-stanza :
    (w : Bytes) (ws : List Bytes) (c : ℕ) (short : Bytes) (text : List Bytes)
    → All IsWord (w ∷ ws)
    → IsTrimmed (c ∷ short)
    → Line (c ∷ short)
    → All Line text
    → declared (paragraph_fields (stanza (join b' ' (w ∷ ws)) (c ∷ short) text))
      ≡ (if contains (w ∷ ws) (codes "*") then some (license_of (c ∷ short)) else none)
declared-stanza w ws c short text words ts ls lt =
    let files = join b' ' (w ∷ ws) in
    let tf = IsTrimmed-join w ws words in
    ap declared (
      paragraph_fields-stanza files (c ∷ short) text (Line-join w ws words) ls lt
        (trim_space-space files tf) (trim_space-space (c ∷ short) ts))
    ∙ declared-licensed files c short (map (λ (l : Bytes). trim_space (b' ' ∷ l)) text)
        (trim_space-IsTrimmed files tf)
    ∙ ap
        (λ (fs : List Bytes).
          if contains fs (codes "*") then some (license_of (c ∷ short)) else none)
        (fields-join w ws words)
