-- ===== src/Admin/Oidc.antt =====
-- internal/manager/admin/api/oidc.go: the settings of the single sign-on, and those that the manager
-- starts with (cmd/synergia-manager/main.go). Times are printed by the reader of the reply.
use synergia.Prelude.{ℕ, String, Bool, true, false, not, Option, none, some, str_eq, if◌then◌else◌}
use synergia.Store.Models.{OidcConfig}
use synergia.Store.State.{Database, Store}
use synergia.Store.Consents.{Lookup, row, error as lookup_error}
use synergia.Store.Settings.{get_oidc_config, set_oidc_config}
use synergia.Api.Http.{Reply, reply, error}
use synergia.Admin.Workers.{Method, get, put, other, masked, unmasked}
pub mod PutBack

pub record OidcConfigPayload : Type 0 where
  pub enabled : Bool
  pub client_id : String
  pub client_secret : String
  pub provider_url : String
  pub redirect_url : String

pub record OidcConfigResponse : Type 0 where
  pub payload : OidcConfigPayload
  pub is_configured : Bool
  pub updated_at : Option ℕ

pub data Body : Type 0 where
  config : OidcConfigResponse → Body
  ok : Body

unfoldable pub response_of : Option OidcConfig → OidcConfigResponse
unfolding masked
response_of none = record {
  payload = record {
    enabled = false;
    client_id = "";
    client_secret = "";
    provider_url = "";
    redirect_url = "";
  };
  is_configured = false;
  updated_at = none;
}
response_of (some cfg) = record {
  payload = record {
    enabled = cfg.enabled;
    client_id = cfg.client_id;
    client_secret = masked cfg.client_secret;
    provider_url = cfg.provider_url;
    redirect_url = cfg.redirect_url;
  };
  is_configured = true;
  updated_at = some cfg.updated_at;
}

abbrev over : String → String → String
over stored env = if str_eq stored "" then env else stored

-- The settings of main.go: the stored ones over those of the environment.
unfoldable pub start_config : OidcConfigPayload → Lookup OidcConfig → OidcConfigPayload
start_config env lookup_error = env
start_config env (row none) = env
start_config env (row (some c)) = record {
  enabled = c.enabled;
  client_id = over c.client_id env.client_id;
  client_secret = over c.client_secret env.client_secret;
  provider_url = over c.provider_url env.provider_url;
  redirect_url = over c.redirect_url env.redirect_url;
}

module _ {D : Database} where
  unfoldable pub get_config : Store D → Reply Body
  unfolding get_oidc_config response_of
  get_config s = elim (get_oidc_config s) [
    | lookup_error ↦ error 500 "internal error"
    | row cfg ↦ reply 200 (config (response_of cfg))
  ]

  unfoldable pub set_config : Option OidcConfigPayload → ℕ → Store D → Store D × Reply Body
  unfolding set_oidc_config unmasked
  set_config none now s = (s, error 400 "invalid JSON")
  set_config (some p) now s =
      let (s', done) =
        set_oidc_config p.enabled p.client_id (unmasked p.client_secret) p.provider_url
          p.redirect_url now s in
      if not done then (s', error 500 "internal error") else (s', reply 200 ok)

  unfoldable pub config_handler :
      Method → Option OidcConfigPayload → ℕ → Store D → Store D × Reply Body
  unfolding get_config set_config
  config_handler get payload now s = (s, get_config s)
  config_handler put payload now s = set_config payload now s
  config_handler other payload now s = (s, error 405 "method not allowed")
