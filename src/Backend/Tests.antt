-- ===== src/Backend/Tests.antt =====
-- Templates of internal/manager/backend/backend.go.
use synergia.Prelude.{◌≡◌, refl, String, none, some, str_append, arith}
use synergia.Backend.{cut, expand_url}
use synergia.Backend.Expansion.{expand_url_ends, expand_url_diverges}

abbrev template : String
template = "v{version}/{platform}-{arch}.{ext}"

expand_url_ends_example :
    (url : String) × (expand_url 0 template "b9" "linux" "amd64" ≡ some url)
    × (cut "{ext}" url ≡ none)
expand_url_ends_example = expand_url_ends 0 template "b9" "linux" "amd64" refl refl refl

expand_url_diverges_example :
    expand_url 4 template (str_append "a" (str_append "{version}" "b")) "linux" "amd64" ≡ none
expand_url_diverges_example =
    expand_url_diverges 4 template "a" "b" "linux" "amd64" (λ e. ground (arith, e))
