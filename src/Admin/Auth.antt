-- ===== src/Admin/Auth.antt =====
-- internal/manager/admin/auth/auth.go: the sessions of the administrators. A cookie is what the browser
-- sends; times are in milliseconds; a new token is an argument.
use synergia.Prelude.{
  ℕ, ◌+◌, String, Bool, true, false, not, ◌&&◌, ◌||◌, Option, none, some, List, [], ◌∷◌, str_eq,
  str_append, ltb, if◌then◌else◌,
}
use synergia.Gateway.State.{lookup, insert, delete}
use synergia.Api.Http.{Method, get, post, other}
pub mod Granted

pub record Config : Type 0 where
  pub admin_user : String
  pub admin_password : String
  pub oidc_enabled : Bool

pub record Auth : Type 0 where
  pub config : Config
  pub sessions : List (String × ℕ)
  pub oidc_states : List (String × ℕ)

-- What golang.org/x/oauth2 and go-oidc answer: the ID token of a code, none inside where the response
-- has none, and whether it verifies.
pub record Provider : Type 0 where
  pub exchange : String → Option (Option String)
  pub verify : String → Bool

-- What is done with the session cookie.
pub data Cookie : Type 0 where
  keeps clears : Cookie
  sets : String → Cookie

pub data Reply : Type 0 where
  page : Reply
  redirect : String → Cookie → Reply
  error : ℕ → Reply
  next : Reply  -- the wrapped handler runs

unfoldable pub new : Config → Auth
new config = record { config = config; sessions = []; oidc_states = [] }

abbrev pub session_ms : ℕ
session_ms = 86400000

abbrev pub state_ms : ℕ
state_ms = 600000

unfoldable pub set_session : String → ℕ → Auth → Auth
set_session id now a = record a { sessions = insert id (now + session_ms) a.sessions }

-- "" is no session.
unfoldable pub get_session : Option String → ℕ → Auth → String
get_session none now a = ""
get_session (some id) now a = elim (lookup id a.sessions) [
  | none ↦ ""
  | some expiry ↦ if ltb expiry now then "" else id
]

unfoldable pub store_oidc_state : String → ℕ → Auth → Auth
store_oidc_state state now a = record a {
  oidc_states = insert state (now + state_ms) a.oidc_states;
}

unfoldable pub consume_oidc_state : String → ℕ → Auth → Auth × Bool
consume_oidc_state state now a = elim (lookup state a.oidc_states) [
  | none ↦ (a, false)
  | some expiry ↦
      if ltb expiry now
      then (a, false)
      else (record a { oidc_states = delete state a.oidc_states }, true)
]

abbrev pub starts_session : String → ℕ → Auth → Auth × Reply
starts_session token now a = (set_session token now a, redirect "/" (sets token))

unfoldable pub handle_login : String → String → String → ℕ → Auth → Auth × Reply
unfolding set_session
handle_login username password token now a =
    if str_eq username a.config.admin_user && str_eq password a.config.admin_password
    then starts_session token now a
    else (a, error 401)

unfoldable pub login_handler : Method → String → String → String → ℕ → Auth → Auth × Reply
unfolding handle_login
login_handler get username password token now a = (a, page)
login_handler post username password token now a = handle_login username password token now a
login_handler other username password token now a = (a, error 405)

-- The URL of the provider is the path of the redirect.
unfoldable pub oidc_login_handler : (String → String) → String → ℕ → Auth → Auth × Reply
unfolding store_oidc_state
oidc_login_handler auth_code_url token now a =
    if not a.config.oidc_enabled
    then (a, error 404)
    else (store_oidc_state token now a, redirect (auth_code_url token) keeps)

-- After the state was consumed.
abbrev pub exchange_code : Provider → String → String → ℕ → Auth → Auth × Reply
exchange_code p code token now a =
    if str_eq code "" then (a, error 400) else elim (p.exchange code) [
      | none ↦ (a, error 401)
      | some none ↦ (a, error 401)
      | some (some raw) ↦ if p.verify raw then starts_session token now a else (a, error 401)
    ]

unfoldable pub oidc_callback_handler : Provider → String → String → String → ℕ → Auth → Auth × Reply
unfolding consume_oidc_state set_session
oidc_callback_handler p state code token now a =
    if not a.config.oidc_enabled
    then (a, error 404)
    else let (a', consumed) = consume_oidc_state state now a in
      if consumed then exchange_code p code token now a' else (a', error 400)

unfoldable pub logout_handler : Auth → Auth × Reply
logout_handler a = (a, redirect "/login" clears)

unfoldable pub require_auth : Option String → ℕ → Auth → Reply
unfolding get_session
require_auth cookie now a =
    if str_eq (get_session cookie now a) "" then redirect "/login" keeps else next

-- `key` is what keyFn returns.
unfoldable pub require_auth_or_bearer : String → String → Option String → ℕ → Auth → Reply
unfolding get_session
require_auth_or_bearer key authorization cookie now a =
    if not (str_eq (get_session cookie now a) "")
    then next
    else if str_eq authorization (str_append "Bearer " key)
    then next
    else redirect "/login" keeps
