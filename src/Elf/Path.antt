-- ===== src/Elf/Path.antt =====
-- Go's `path` package as oci/tools/elfneeds/main.go uses it: `Clean`, `Join`, `Dir` and `IsAbs`.
pub mod Inside
use distroless.Prelude.{
  ℕ, Bool, true, false, ◌||◌, ◌&&◌, not, Option, none, some, List, [], ◌∷◌, ◌++◌, if◌then◌else◌,
  ◌==◌,
}
use distroless.Strings.{Bytes, codes, str_eq, cut_last}
use distroless.Strings.Split.{split, join}

abbrev pub slash : ℕ
slash = b'/'

unfoldable pub is_abs : Bytes → Bool
is_abs [] = false
is_abs (c ∷ s) = c == slash

abbrev pub dot_dot : Bytes
dot_dot = codes ".."

-- a segment that means the directory itself
abbrev pub is_here : Bytes → Bool
is_here seg = str_eq seg [] || str_eq seg (codes ".")

-- The kept segments, the last one first. A `..` takes the segment before it off; at the start it
-- stays in a relative path and is dropped in a rooted one.
unfoldable pub go_up : Bool → List Bytes → List Bytes
go_up rooted [] = if rooted then [] else dot_dot ∷ []
go_up rooted (seg ∷ kept) = if str_eq seg dot_dot then dot_dot ∷ seg ∷ kept else kept

unfoldable pub add_segment : Bool → List Bytes → Bytes → List Bytes
add_segment rooted kept seg =
    if is_here seg then kept else if str_eq seg dot_dot then go_up rooted kept else seg ∷ kept

unfoldable pub keep_segments : Bool → List Bytes → List Bytes → List Bytes
keep_segments rooted kept [] = kept
keep_segments rooted kept (seg ∷ segs) = keep_segments rooted (add_segment rooted kept seg) segs

unfoldable pub backwards : List Bytes → List Bytes → List Bytes
backwards [] out = out
backwards (seg ∷ kept) out = backwards kept (seg ∷ out)

unfoldable pub render : Bool → List Bytes → Bytes
render true segs = slash ∷ join slash segs
render false [] = codes "."
render false (seg ∷ segs) = join slash (seg ∷ segs)

unfoldable pub clean : Bytes → Bytes
clean path = render (is_abs path) (backwards (keep_segments (is_abs path) [] (split slash path)) [])

-- of two elements; an empty one is left out
unfoldable pub join_path : Bytes → Bytes → Bytes
join_path [] [] = []
join_path [] (c ∷ t) = clean (c ∷ t)
join_path (c ∷ s) [] = clean (c ∷ s)
join_path (c ∷ s) (d ∷ t) = clean (c ∷ (s ++ slash ∷ d ∷ t))

unfoldable pub dir_of : Option (Bytes × Bytes) → Bytes
dir_of none = clean []
dir_of (some (before, last)) = clean (before ++ slash ∷ [])

unfoldable pub dir : Bytes → Bytes
dir path = dir_of (cut_last slash path)
