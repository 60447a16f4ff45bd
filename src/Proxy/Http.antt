-- ===== src/Proxy/Http.antt =====
-- net/http as oci/proxy/proxy.go uses it: header maps, the response writer and `http.Error`.
-- A header is the list of its fields, with the canonical spelling of the keys.
use distroless.Prelude.{
  ℕ, zero, suc, ◌+◌, ◌/◌, ◌%◌, Option, none, some, List, [], ◌∷◌, ◌++◌, if◌then◌else◌, ltb,
}
use distroless.Strings.{Bytes, codes, str_eq}

abbrev pub Header : Type 0
Header = List (Bytes × Bytes)

-- the first value of a key, "" where there is none
unfoldable pub get : Bytes → Header → Bytes
get key [] = []
get key ((k, v) ∷ h) = let rest = get key h in if str_eq k key then v else rest

unfoldable pub values : Bytes → Header → List Bytes
values key [] = []
values key ((k, v) ∷ h) = let rest = values key h in if str_eq k key then v ∷ rest else rest

unfoldable pub del : Bytes → Header → Header
del key [] = []
del key ((k, v) ∷ h) = let rest = del key h in if str_eq k key then rest else (k, v) ∷ rest

unfoldable pub set : Bytes → Bytes → Header → Header
set key value h = (key, value) ∷ del key h

unfoldable pub add : Bytes → Bytes → Header → Header
add key value h = h ++ (key, value) ∷ []

-- `status` is none until the first `WriteHeader` or `Write`
pub record ResponseWriter : Type 0 where
  pub header : Header
  pub status : Option ℕ
  pub body : Bytes

unfoldable pub fresh : ResponseWriter
fresh = record { header = []; status = none; body = [] }

-- The status that is sent: 200 where a handler returns without one.
unfoldable pub sent_status : Option ℕ → ℕ
sent_status none = 200
sent_status (some code) = code

unfoldable pub set_header : Bytes → Bytes → ResponseWriter → ResponseWriter
set_header key value w = record {
  header = set key value w.header;
  status = w.status;
  body = w.body;
}

unfoldable pub del_header : Bytes → ResponseWriter → ResponseWriter
del_header key w = record { header = del key w.header; status = w.status; body = w.body }

-- A second `WriteHeader` is ignored.
unfoldable pub first_status : Option ℕ → ℕ → Option ℕ
first_status none code = some code
first_status (some old) code = some old

unfoldable pub write_header : ℕ → ResponseWriter → ResponseWriter
write_header code w = record {
  header = w.header;
  status = first_status w.status code;
  body = w.body;
}

unfoldable pub write : Bytes → ResponseWriter → ResponseWriter
write text w = record {
  header = w.header;
  status = first_status w.status 200;
  body = w.body ++ text;
}

unfoldable pub http_error : Bytes → ℕ → ResponseWriter → ResponseWriter
http_error message code w = write (message ++ codes "\n") (
    write_header code (
      set_header (codes "X-Content-Type-Options") (codes "nosniff") (
        set_header (codes "Content-Type") (codes "text/plain; charset=utf-8")
          (del_header (codes "Content-Length") w))))

-- `%d` of a number; a number has no more digits than it counts
unfoldable pub digits : ℕ → ℕ → Bytes
digits zero n = []
digits (suc fuel) n =
    let rest = digits fuel (n / 10) in
    if ltb n 10 then (48 + n) ∷ [] else rest ++ (48 + n % 10) ∷ []

unfoldable pub decimal : ℕ → Bytes
decimal n = digits (suc n) n
