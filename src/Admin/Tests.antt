-- ===== src/Admin/Tests.antt =====
-- The theorems about the sessions of the administrators at concrete inputs.
use mathlib.Core.List.{Memᴰ}
use synergia.Prelude.{ℕ, ◌+◌, ◌≤◌, ◌≡◌, refl, String, true, some, [], ◌∷◌}
use synergia.Admin.Auth.{
  Config, Auth, Provider, session_ms, new, oidc_login_handler, oidc_callback_handler, require_auth,
  next, consume_oidc_state,
}
use synergia.Admin.Auth.Granted.{Reach, here, then_, turns_to, comes_back, require_auth_granted}

abbrev config : Config
config = record { admin_user = "admin"; admin_password = "secret"; oidc_enabled = true }

abbrev provider : Provider
provider = record { exchange = λ code. some (some "raw"); verify = λ raw. true }

abbrev asked : Auth
unfolding oidc_login_handler
asked = (oidc_login_handler (λ state. state) "state-1" 1000 (new config)).0

consume_state : (consume_oidc_state "state-1" 2000 asked).1 ≡ true
unfolding consume_oidc_state asked new
consume_state = refl

abbrev back : Auth
back =
    (oidc_callback_handler provider "state-1" "code" "token-1" 2000
      (oidc_login_handler (λ state. state) "state-1" 1000 (new config)).0).0

back_run : Reach provider config back (("token-1", 2000) ∷ [])
back_run =
    then_ (then_ here (turns_to (λ state. state) "state-1" 1000))
      (comes_back "state-1" "code" "raw" "token-1" 2000 refl refl)

passes : require_auth (some "token-1") 90000 back ≡ next
unfolding require_auth oidc_callback_handler oidc_login_handler new
passes = refl

require_auth_granted_example :
    (id : String) × (some "token-1" ≡ some id)
    × ((granted : ℕ) × Memᴰ {A = String × ℕ} (id, granted) (("token-1", 2000) ∷ [])
        × (90000 ≤ granted + session_ms))
require_auth_granted_example =
    require_auth_granted provider config (some "token-1") 90000 back_run passes
