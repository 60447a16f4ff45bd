-- ===== src/Copyright/Tests.antt =====
-- A copyright file, and a run of the theorem on its stanza.
use distroless.Prelude.{[], ◌∷◌, ◌≡◌, refl, none, some, if◌then◌else◌, err}
use distroless.Prelude.Dict
use distroless.Prelude.Dict.{contains}
use distroless.Strings
use distroless.Strings.{Bytes, codes}
use distroless.Strings.Split
use distroless.Strings.Split.{join}
use distroless.Strings.Space
use distroless.Strings.Order.{bytes_eq}
use distroless.Copyright.Parse
use distroless.Copyright.Parse.{
  License, parse_document, no_overall_license, declared, paragraph_fields, license_of,
}
use distroless.Copyright.Stanza.{stanza, IsWord, IsTrimmed, declared-stanza}

abbrev star : Bytes
star = codes "*"

star-IsWord : IsWord star
unfolding Strings.str_eq Space.is_space
star-IsWord = record { nonempty = refl; no_space = (refl, tt) }

expat-IsTrimmed : IsTrimmed (codes "Expat")
unfolding Space.trim_left Space.trim_right Space.is_space
expat-IsTrimmed = record { at_start = refl; at_end = refl }

stanza_example :
    declared
      (paragraph_fields (stanza (join b' ' (star ∷ [])) (codes "Expat") (codes "Permission" ∷ [])))
    ≡ (if contains (star ∷ []) (codes "*") then some (license_of (codes "Expat")) else none)
stanza_example =
    declared-stanza star [] b'E' (codes "xpat") (codes "Permission" ∷ []) (star-IsWord, tt)
      expat-IsTrimmed (refl, (refl, (refl, (refl, (refl, tt)))))
      ((refl, (refl, (refl, (refl, (refl, (refl, (refl, (refl, (refl, (refl, tt)))))))))), tt)

-- the licence of one file is not that of the package
only_debian :
    parse_document (codes "Format: x\n\nFiles: debian/*\nLicense: MIT\n") ≡ err no_overall_license
unfolding parse_document Parse.first_license declared paragraph_fields Parse.scan_lines
    Parse.scan_line Parse.open_field Parse.continue_field Parse.or_empty_field Parse.value
    Parse.name Parse.first_line Parse.covers_whole_package Parse.paragraphs Parse.paragraphs_from
    Space.trim_space Space.trim_left Space.trim_right Space.is_space Space.to_lower Space.lower
    Space.fields Space.fields_from Split.split Split.join Strings.cut_first Strings.has_prefix
    Strings.cut_prefix Strings.str_eq Dict.insert Dict.lookup contains
only_debian = refl
