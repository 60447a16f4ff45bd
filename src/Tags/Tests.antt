-- ===== src/Tags/Tests.antt =====
-- Three tags on two builds, and runs of the theorems on them.
use distroless.Prelude.{true, List, [], ◌∷◌, ◌≡◌, refl, any}
use distroless.Strings.{codes, str_eq}
use distroless.Tags.Order.{default_ref}
use distroless.Tags.Grouping.{PublishedVersion, new_versions}
use distroless.Tags.Counts.{listed, published, listed-new_versions}

abbrev nginx : List PublishedVersion
nginx =
    record { tag = codes "1.31"; digest = codes "b"; created = 5; sizes = (codes "amd64", 9) ∷ [] }
    ∷ record { tag = codes "1.30"; digest = codes "a"; created = 4; sizes = [] }
    ∷ record { tag = codes "latest"; digest = codes "b"; created = 5; sizes = [] }
    ∷ []

counts_example :
    listed (codes "b") (codes "1.31") (new_versions (codes "nginx") nginx).releases
    ≡ published (codes "b") (codes "1.31") nginx
counts_example = listed-new_versions (codes "nginx") nginx (codes "b") (codes "1.31")

nginx_has_latest : any (λ (v : PublishedVersion). str_eq v.tag default_ref) nginx ≡ true
unfolding str_eq
nginx_has_latest = refl
