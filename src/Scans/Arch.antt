-- ===== src/Scans/Arch.antt =====
-- `belongsTo`, `architectures` and `resolveArch` of web/internal/directory/sbom.go.
use distroless.Prelude.{Bool, ◌||◌, List, [], ◌∷◌, if◌then◌else◌, sort_slice}
use distroless.Prelude.Dict.{contains}
use distroless.Strings.{Bytes, codes, str_eq}
use distroless.Strings.Order.{bytes_eq, text_lt}
use distroless.Tags.Grouping.{compact}

abbrev pub default_arch : Bytes
default_arch = codes "amd64"

-- what is built for no architecture belongs to every one
unfoldable pub is_everywhere : Bytes → Bool
is_everywhere own = str_eq own [] || str_eq own (codes "all")

unfoldable pub belongs_to : Bytes → Bytes → Bool
belongs_to own arch = str_eq own arch || is_everywhere own

module _ {A : Type 0} (arch_of : A → Bytes) where
  unfoldable pub found_architectures : List A → List Bytes
  found_architectures [] = []
  found_architectures (x ∷ xs) =
      let rest = found_architectures xs in
      if is_everywhere (arch_of x) then rest else arch_of x ∷ rest

  unfoldable pub architectures : List A → List Bytes
  architectures items = compact (sort_slice text_lt (found_architectures items))

abbrev pub first_arch : List Bytes → Bytes
first_arch [] = []
first_arch (a ∷ available) = a

unfoldable pub resolve_arch : Bytes → List Bytes → Bytes
resolve_arch requested available =
    if contains available requested
    then requested
    else if contains available default_arch
    then default_arch
    else first_arch available
