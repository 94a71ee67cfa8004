-- ===== src/Admin/Auth/Granted.antt =====
-- Who has a session.
use mathlib.Core.Path.{subst}
use mathlib.Core.List.{Memᴰ}
use synergia.Prelude.{
  ℕ, ◌+◌, ◌≤◌, ◌≡◌, ◌≢◌, refl, String, str_eq, eq_iff, eq_refl, true, false, ◌&&◌, Option, none,
  some, List, [], ◌∷◌, if◌then◌else◌, arith, ltb, ap, ◌∙◌, ◌⊎◌, sym, inl, inr, Bool-cases,
  Option-cases,
}
use synergia.Gateway.State.{lookup}
use synergia.Gateway.Keys.{lookup-delete, lookup-insert}
use synergia.Api.Http.{Method, get, post, other}
use synergia.Admin.Auth.{
  Config, Auth, exchange_code, error, Provider, session_ms, new, set_session, get_session,
  consume_oidc_state, oidc_login_handler, oidc_callback_handler, logout_handler, login_handler,
  require_auth, next, redirect, keeps,
}

-- The state of an OIDC login is good once: after it was consumed, it is refused at every later time,
-- until a login stores it again.
pub consume_oidc_state_once :
    (state : String) (now later : ℕ) (a : Auth)
    → (consume_oidc_state state now a).1 ≡ true
    → (consume_oidc_state state later (consume_oidc_state state now a).0).1 ≡ false
unfolding consume_oidc_state
consume_oidc_state_once state now later a h =
    ground (arith, lookup-delete state state a.oidc_states, eq_refl state)

-- The tokens that were given for a proof of who asks, each with its time.
abbrev pub Grants : Type 0
Grants = List (String × ℕ)

-- What the browser and the provider can bring about. A token is granted for the administrator's name
-- and password, or for an ID token that verifies, in exchange for a code.
pub data Step (p : Provider) : Auth → Grants → Auth → Grants → Type 0 where
  asks :
      {a : Auth} {g : Grants} (m : Method) (username password token : String) (now : ℕ)
      → username ≢ a.config.admin_user
      → Step p a g (login_handler m username password token now a).0 g
  fails :
      {a : Auth} {g : Grants} (m : Method) (username password token : String) (now : ℕ)
      → password ≢ a.config.admin_password
      → Step p a g (login_handler m username password token now a).0 g
  logs_in :
      {a : Auth} {g : Grants} (m : Method) (token : String) (now : ℕ)
      → Step p a g
          (login_handler m a.config.admin_user a.config.admin_password token now a).0
          ((token, now) ∷ g)
  turns_to :
      {a : Auth} {g : Grants} (auth_code_url : String → String) (token : String) (now : ℕ)
      → Step p a g (oidc_login_handler auth_code_url token now a).0 g
  comes_back :
      {a : Auth} {g : Grants} (state code raw token : String) (now : ℕ)
      → p.exchange code ≡ some (some raw)
      → p.verify raw ≡ true
      → Step p a g (oidc_callback_handler p state code token now a).0 ((token, now) ∷ g)
  is_refused :
      {a : Auth} {g : Grants} (state code token : String) (now : ℕ)
      → ((raw : String) → p.exchange code ≡ some (some raw) → p.verify raw ≡ false)
      → Step p a g (oidc_callback_handler p state code token now a).0 g
  logs_out : {a : Auth} {g : Grants} → Step p a g (logout_handler a).0 g

pub data Reach (p : Provider) (c : Config) : Auth → Grants → Type 0 where
  here : Reach p c (new c) []
  then_ : {a a' : Auth} {g g' : Grants} → Reach p c a g → Step p a g a' g' → Reach p c a' g'

-- That token was granted at such a time that its session ends then.
abbrev pub GrantedUntil : Grants → String → ℕ → Type 0
GrantedUntil g id expiry = (now : ℕ) × Memᴰ (id, now) g × (expiry ≡ now + session_ms)

-- Each session has a grant.
abbrev Sessions : Auth → Grants → Type 0
Sessions a g =
    (id : String) (expiry : ℕ) → lookup id a.sessions ≡ some expiry → GrantedUntil g id expiry

more :
    {g : Grants} {id : String} {expiry : ℕ} (t : String × ℕ)
    → GrantedUntil g id expiry
    → GrantedUntil (t ∷ g) id expiry
more t (now, m, e) = (now, Memᴰ.tail m, e)

module _ (a : Auth) (g : Grants) (h : Sessions a g) where
  more_grants : (t : String × ℕ) → Sessions a (t ∷ g)
  more_grants t id expiry e = more t (h id expiry e)

  set_session-Sessions :
      (token : String) (now : ℕ) → Sessions (set_session token now a) ((token, now) ∷ g)
  unfolding set_session
  set_session-Sessions token now id expiry e = elim (Bool-cases (str_eq token id)) [
    | inl same ↦
        let eq : token ≡ id = (eq_iff token id).0 same in
        (
          now,
          Memᴰ.head (ap (λ k. (k, now)) (sym eq)),
          ground (arith, lookup-insert token id (now + session_ms) a.sessions, same),
        )
    | inr differs ↦
        more (token, now)
          (h id expiry
            (ground (arith, lookup-insert token id (now + session_ms) a.sessions, differs)))
  ]

  login-Sessions :
      (m : Method) (username password token : String) (now : ℕ)
      → Sessions (login_handler m username password token now a).0 ((token, now) ∷ g)
  unfolding login_handler
  login-Sessions get username password token now = more_grants (token, now)
  login-Sessions post username password token now =
      elim (Bool-cases
        (str_eq username a.config.admin_user && str_eq password a.config.admin_password)) [
          | inl e ↦ rw (e, login_handler) (set_session-Sessions token now)
          | inr e ↦ rw (e, login_handler) (more_grants (token, now))
        ]
  login-Sessions other username password token now = more_grants (token, now)

  login-refused :
      (m : Method) (username password token : String) (now : ℕ)
      → str_eq username a.config.admin_user && str_eq password a.config.admin_password ≡ false
      → Sessions (login_handler m username password token now a).0 g
  unfolding login_handler
  login-refused get username password token now e = h
  login-refused post username password token now e = rw (e, login_handler) h
  login-refused other username password token now e = h

  logout-Sessions : Sessions (logout_handler a).0 g
  unfolding logout_handler
  logout-Sessions = h

oidc_login-Sessions :
    (url : String → String) (token : String) (now : ℕ) (a : Auth) (g : Grants)
    → Sessions a g
    → Sessions (oidc_login_handler url token now a).0 g
unfolding oidc_login_handler
oidc_login-Sessions url token now a g h = elim (Bool-cases a.config.oidc_enabled) [
  | inl e ↦ rw (e, oidc_login_handler) h
  | inr e ↦ rw (e, oidc_login_handler) h
]

consume-sessions :
    (state : String) (now : ℕ) (a : Auth) → (consume_oidc_state state now a).0.sessions ≡ a.sessions
unfolding consume_oidc_state
consume-sessions state now a = ground arith

module _ (p : Provider) (code token : String) (now : ℕ) where
  -- A code starts a session or changes nothing.
  exchange-sessions :
      (a : Auth)
      → ((exchange_code p code token now a).0.sessions ≡ a.sessions)
        ⊎ ((exchange_code p code token now a).0 ≡ set_session token now a)
  exchange-sessions a = elim (Bool-cases (str_eq code "")) [
    | inl e ↦ inl (ground (arith, e))
    | inr e ↦ elim (Option-cases (p.exchange code)) [
      | inl x ↦ inl (ground (arith, e, x))
      | inr (none, x) ↦ inl (ground (arith, e, x))
      | inr (some raw, x) ↦ elim (Bool-cases (p.verify raw)) [
        | inl v ↦ inr (rw (e, x, v, exchange_code) refl)
        | inr v ↦ inl (ground (arith, e, x, v))
      ]
    ]
  ]

  exchange-refused :
      (a : Auth)
      → ((raw : String) → p.exchange code ≡ some (some raw) → p.verify raw ≡ false)
      → (exchange_code p code token now a).0.sessions ≡ a.sessions
  exchange-refused a refuses = elim (Bool-cases (str_eq code "")) [
    | inl e ↦ ground (arith, e)
    | inr e ↦ elim (Option-cases (p.exchange code)) [
      | inl x ↦ ground (arith, e, x)
      | inr (none, x) ↦ ground (arith, e, x)
      | inr (some raw, x) ↦ ground (arith, e, x, refuses raw x)
    ]
  ]

  module _ (state : String) (a : Auth) (g : Grants) (h : Sessions a g) where
    consumed : Auth
    consumed = (consume_oidc_state state now a).0

    consumed-Sessions : Sessions consumed g
    unfolding consumed
    consumed-Sessions id expiry e =
        h id expiry (ap (lookup id) (sym (consume-sessions state now a)) ∙ e)

    exchanged-Sessions : Sessions (exchange_code p code token now consumed).0 ((token, now) ∷ g)
    exchanged-Sessions id expiry e = elim (exchange-sessions consumed) [
      | inl same ↦ more (token, now) (consumed-Sessions id expiry (ap (lookup id) (sym same) ∙ e))
      | inr new ↦
          set_session-Sessions consumed g consumed-Sessions token now id expiry
            (ap (λ b. lookup id b.sessions) (sym new) ∙ e)
    ]

    -- The three ways of the callback.
    callback-cases :
        (oidc_callback_handler p state code token now a ≡ (a, error 404))
        ⊎ ((oidc_callback_handler p state code token now a ≡ (consumed, error 400))
            ⊎ (oidc_callback_handler p state code token now a
                ≡ exchange_code p code token now consumed))
    unfolding oidc_callback_handler consumed
    callback-cases = elim (Bool-cases a.config.oidc_enabled) [
      | inr e ↦ inl (ground (arith, e))
      | inl e ↦ elim (Bool-cases (consume_oidc_state state now a).1) [
        | inl c ↦ inr (inr (simp (e, c)))
        | inr c ↦ inr (inl (simp (e, c)))
      ]
    ]

    callback-Sessions :
        Sessions (oidc_callback_handler p state code token now a).0 ((token, now) ∷ g)
    callback-Sessions = elim callback-cases [
      | inl e ↦
          subst (λ r. Sessions r.0 ((token, now) ∷ g)) (sym e) (more_grants a g h (token, now))
      | inr (inl e) ↦
          subst (λ r. Sessions r.0 ((token, now) ∷ g)) (sym e)
            (more_grants consumed g consumed-Sessions (token, now))
      | inr (inr e) ↦ subst (λ r. Sessions r.0 ((token, now) ∷ g)) (sym e) exchanged-Sessions
    ]

    callback-refused :
        ((raw : String) → p.exchange code ≡ some (some raw) → p.verify raw ≡ false)
        → Sessions (oidc_callback_handler p state code token now a).0 g
    callback-refused refuses = elim callback-cases [
      | inl e ↦ subst (λ r. Sessions r.0 g) (sym e) h
      | inr (inl e) ↦ subst (λ r. Sessions r.0 g) (sym e) consumed-Sessions
      | inr (inr e) ↦
          subst (λ r. Sessions r.0 g) (sym e)
            (λ id expiry q.
              consumed-Sessions id expiry
                (ap (lookup id) (sym (exchange-refused consumed refuses)) ∙ q))
    ]

module _ (p : Provider) where
  Step-Sessions : {a a' : Auth} {g g' : Grants} → Step p a g a' g' → Sessions a g → Sessions a' g'
  Step-Sessions {a} {a'} {g} (asks m username password token now n) h =
      login-refused a g h m username password token now
        (ground (arith, eq_iff username a.config.admin_user))
  Step-Sessions {a} {a'} {g} (fails m username password token now n) h =
      login-refused a g h m username password token now
        (ground (arith, eq_iff password a.config.admin_password))
  Step-Sessions {a} {a'} {g} (logs_in m token now) h = login-Sessions a g h m _ _ token now
  Step-Sessions {a} {a'} {g} (turns_to url token now) h = oidc_login-Sessions url token now a g h
  Step-Sessions {a} {a'} {g} (comes_back state code raw token now x v) h =
      callback-Sessions p code token now state a g h
  Step-Sessions {a} {a'} {g} (is_refused state code token now refuses) h =
      callback-refused p code token now state a g h refuses
  Step-Sessions {a} {a'} {g} logs_out h = logout-Sessions a g h

  Reach-Sessions : {c : Config} {a : Auth} {g : Grants} → Reach p c a g → Sessions a g
  unfolding new
  Reach-Sessions here = λ id expiry e. cc
  Reach-Sessions (then_ r s) = Step-Sessions s (Reach-Sessions r)

no_session :
    (cookie : Option String) (now : ℕ) (a : Auth)
    → get_session cookie now a ≡ ""
    → ¬ (require_auth cookie now a ≡ next)
unfolding require_auth
no_session cookie now a e h =
    let r : redirect "/login" keeps ≡ next =
      sym (ap (λ t. if str_eq t "" then redirect "/login" keeps else next) e) ∙ h in
    cc

session_granted :
    (p : Provider) (c : Config) {a : Auth} {g : Grants} (id : String) (now : ℕ)
    → Reach p c a g
    → require_auth (some id) now a ≡ next
    → (granted : ℕ) × Memᴰ (id, granted) g × (now ≤ granted + session_ms)
unfolding require_auth
session_granted p c {a} {g} id now r h = elim (Option-cases (lookup id a.sessions)) [
  | inl e ↦
      let q : get_session (some id) now a ≡ "" = rw (e, get_session) refl in
      absurd (no_session (some id) now a q h)
  | inr (expiry, e) ↦ elim (Bool-cases (ltb expiry now)) [
    | inl late ↦
        let q : get_session (some id) now a ≡ "" = rw (e, late, get_session) refl in
        absurd (no_session (some id) now a q h)
    | inr fresh ↦ let (granted, m, q) = Reach-Sessions p r id expiry e in (granted, m, ground arith)
  ]
]

-- In every run of the manager, a request gets behind RequireAuth only with a cookie whose token was
-- granted within the last 24 hours for the administrator's name and password or for an ID token that
-- verified.
pub require_auth_granted :
    (p : Provider) (c : Config) {a : Auth} {g : Grants} (cookie : Option String) (now : ℕ)
    → Reach p c a g
    → require_auth cookie now a ≡ next
    → (id : String) × (cookie ≡ some id)
      × ((granted : ℕ) × Memᴰ (id, granted) g × (now ≤ granted + session_ms))
unfolding get_session
require_auth_granted p c {a} none now r h = absurd (no_session none now a refl h)
require_auth_granted p c (some id) now r h = (id, refl, session_granted p c id now r h)
