-- ===== src/CaBundle/Object.antt =====
-- `parseP11Kit` of bazel/modules/rules_rpm/rpm/tools/ca-bundle/main.go, on lines that fit the
-- scanner's buffer. `pem.Decode` is the argument `pem_decode`.
use distroless.Prelude.{
  ◌==◌, ◌||◌, Option, none, some, List, [], ◌∷◌, ◌++◌, if◌then◌else◌, Result, ok, err, ◌>>=◌,
}
use distroless.Prelude.Dict.{insert}
use distroless.Strings.{Bytes, codes, str_eq, has_prefix, cut_first}
use distroless.Strings.Split.{split, join}
use distroless.Strings.Space.{trim_space}
use distroless.Strings.Order.{bytes_eq}
use distroless.CaBundle.Value.{BundleError, undecodable_pem, early_pem, no_colon, unterminated_pem}

pub record PemBlock : Type 0 where
  pub kind : Bytes
  pub bytes : Bytes

pub record P11Object : Type 0 where
  pub attrs : List (Bytes × Bytes)
  pub pems : List PemBlock

-- `cur` is the last object, which the lines belong to; `pem_lines` is set inside a PEM block
pub record P11State : Type 0 where
  pub objects : List P11Object
  pub cur : Option P11Object
  pub pem_lines : Option (List Bytes)

-- the lines of `bufio.ScanLines`: without their ends, and none behind the last one
unfoldable pub drop_return : Bytes → Bytes
drop_return [] = []
drop_return (c ∷ []) = if c == b'\r' then [] else c ∷ []
drop_return (c ∷ d ∷ s) = c ∷ drop_return (d ∷ s)

abbrev pub last_line : Bytes → List Bytes
last_line [] = []
last_line (c ∷ s) = drop_return (c ∷ s) ∷ []

unfoldable pub ended_lines : List Bytes → List Bytes
ended_lines [] = []
ended_lines (l ∷ []) = last_line l
ended_lines (l ∷ m ∷ ls) = drop_return l ∷ ended_lines (m ∷ ls)

unfoldable pub closed : List P11Object → Option P11Object → List P11Object
closed objects none = objects
closed objects (some o) = objects ++ o ∷ []

abbrev pub no_object : P11Object
no_object = record { attrs = []; pems = [] }

unfoldable pub open_object : P11State → P11State
open_object st = record {
  objects = closed st.objects st.cur;
  cur = some no_object;
  pem_lines = none;
}

unfoldable pub set_attr :
    P11State → P11Object → Option (Bytes × Bytes) → Result BundleError P11State
set_attr st o none = err no_colon
set_attr st o (some (key, value)) = ok (record {
  objects = st.objects;
  cur = some (record { attrs = insert key (trim_space value) o.attrs; pems = o.pems });
  pem_lines = none;
})

-- a line outside of a PEM block, and no header of an object
unfoldable pub plain_line : P11State → Bytes → Option P11Object → Result BundleError P11State
plain_line st line none = if has_prefix line (codes "-----BEGIN ") then err early_pem else ok st
plain_line st line (some o) =
    if has_prefix line (codes "-----BEGIN ")
    then ok (record { objects = st.objects; cur = st.cur; pem_lines = some (line ∷ []) })
    else if str_eq line [] || has_prefix line (codes "#")
    then ok st
    else set_attr st o (cut_first b':' line)

module _ (pem_decode : Bytes → Option PemBlock) where
  unfoldable pub add_pem :
      P11State → Option P11Object → Option PemBlock → Result BundleError P11State
  add_pem st o none = err undecodable_pem
  add_pem st none (some block) = ok st
  add_pem st (some o) (some block) = ok (record {
    objects = st.objects;
    cur = some (record { attrs = o.attrs; pems = o.pems ++ block ∷ [] });
    pem_lines = none;
  })

  unfoldable pub pem_line : P11State → List Bytes → Bytes → Result BundleError P11State
  pem_line st lines line =
      if has_prefix line (codes "-----END ")
      then add_pem st st.cur (pem_decode (join b'\n' (lines ++ line ∷ []) ++ b'\n' ∷ []))
      else ok (record { objects = st.objects; cur = st.cur; pem_lines = some (lines ++ line ∷ []) })

  unfoldable pub read_line : P11State → Bytes → Option (List Bytes) → Result BundleError P11State
  read_line st line (some lines) = pem_line st lines line
  read_line st line none =
      if str_eq line (codes "[p11-kit-object-v1]")
      then ok (open_object st)
      else plain_line st line st.cur

  unfoldable pub read_lines : P11State → List Bytes → Result BundleError P11State
  read_lines st [] = ok st
  read_lines st (line ∷ lines) = do next ← read_line st line st.pem_lines; read_lines next lines

  unfoldable pub finished : P11State → Option (List Bytes) → Result BundleError (List P11Object)
  finished st (some lines) = err unterminated_pem
  finished st none = ok (closed st.objects st.cur)

  unfoldable pub parse_p11_kit : Bytes → Result BundleError (List P11Object)
  parse_p11_kit text = do
    st ←
        read_lines (record { objects = []; cur = none; pem_lines = none })
          (ended_lines (split b'\n' text))
    finished st st.pem_lines
