-- ===== src/Copyright/Spdx.antt =====
-- The table `spdx` of oci/debian/copyright/copyright.go.
use distroless.Prelude.{List, [], ◌∷◌, Option, none, some}
use distroless.Prelude.Dict.{lookup}
use distroless.Strings.{Bytes, codes}
use distroless.Strings.Order.{bytes_eq}

unfoldable pub spdx_table : List (Bytes × Bytes)
spdx_table =
    (codes "Apache-2.0", codes "Apache-2.0")
    ∷ (codes "Artistic", codes "Artistic-1.0")
    ∷ (codes "BSD-2-clause", codes "BSD-2-Clause")
    ∷ (codes "BSD-2-Clause", codes "BSD-2-Clause")
    ∷ (codes "BSD-3-clause", codes "BSD-3-Clause")
    ∷ (codes "BSD-3-Clause", codes "BSD-3-Clause")
    ∷ (codes "BSD-4-clause", codes "BSD-4-Clause")
    ∷ (codes "0BSD", codes "0BSD")
    ∷ (codes "CC0-1.0", codes "CC0-1.0")
    ∷ (codes "Expat", codes "MIT")
    ∷ (codes "MIT/X11", codes "MIT")
    ∷ (codes "GFDL-1.3+", codes "GFDL-1.3-or-later")
    ∷ (codes "GPL-2", codes "GPL-2.0-only")
    ∷ (codes "GPL-2.0+", codes "GPL-2.0-or-later")
    ∷ (codes "GPL-3.0+", codes "GPL-3.0-or-later")
    ∷ (codes "LGPL-2.0+", codes "LGPL-2.0-or-later")
    ∷ (codes "LGPL-3.0+", codes "LGPL-3.0-or-later")
    ∷ (codes "GPL-2.0-only", codes "GPL-2.0-only")
    ∷ (codes "GPL-2.0-or-later", codes "GPL-2.0-or-later")
    ∷ (codes "GPL-3.0-only", codes "GPL-3.0-only")
    ∷ (codes "GPL-3.0-or-later", codes "GPL-3.0-or-later")
    ∷ (codes "LGPL-2.1-only", codes "LGPL-2.1-only")
    ∷ (codes "LGPL-2.1-or-later", codes "LGPL-2.1-or-later")
    ∷ (codes "GPL-2+", codes "GPL-2.0-or-later")
    ∷ (codes "GPL-3", codes "GPL-3.0-only")
    ∷ (codes "GPL-3+", codes "GPL-3.0-or-later")
    ∷ (codes "ISC", codes "ISC")
    ∷ (codes "LGPL-2", codes "LGPL-2.0-only")
    ∷ (codes "LGPL-2+", codes "LGPL-2.0-or-later")
    ∷ (codes "LGPL-2.1", codes "LGPL-2.1-only")
    ∷ (codes "LGPL-2.1+", codes "LGPL-2.1-or-later")
    ∷ (codes "LGPL-3", codes "LGPL-3.0-only")
    ∷ (codes "LGPL-3+", codes "LGPL-3.0-or-later")
    ∷ (codes "MIT", codes "MIT")
    ∷ (codes "MPL-2.0", codes "MPL-2.0")
    ∷ (codes "Zlib", codes "Zlib")
    ∷ []

-- "" where the name has no identifier
abbrev pub or_blank : Option Bytes → Bytes
or_blank none = []
or_blank (some id) = id

unfoldable pub spdx : Bytes → Bytes
spdx name = or_blank (lookup name spdx_table)
