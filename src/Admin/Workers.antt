-- ===== src/Admin/Workers.antt =====
-- internal/manager/admin/api/workers.go: how workers authenticate, and the key that the manager starts
-- with (cmd/synergia-manager/main.go). The gateway is the live one. Times are printed by the reader of
-- the reply.
use synergia.Prelude.{
  ℕ, String, Bool, true, false, not, ◌&&◌, Option, none, some, str_eq, if◌then◌else◌,
}
use synergia.Store.Models.{WorkerAuthConfig}
use synergia.Store.State.{Database, Store}
use synergia.Store.Consents.{Lookup, row, error as lookup_error}
use synergia.Store.Settings.{get_worker_auth_config, set_worker_auth_config}
use synergia.Gateway.State.{Gateway, set_worker_key}
use synergia.Api.Http.{Reply, reply, error}
pub mod Applied

abbrev pub worker_key_mask : String
worker_key_mask = "••••••••"

-- The methods of the settings.
pub data Method : Type 0 where
  get put other : Method

pub record WorkerAuthPayload : Type 0 where
  pub tofu_enabled : Bool
  pub worker_key : String

pub record WorkerAuthResponse : Type 0 where
  pub tofu_enabled : Bool
  pub worker_key : String
  pub is_configured : Bool
  pub updated_at : Option ℕ

pub data Body : Type 0 where
  config : WorkerAuthResponse → Body
  ok : Body

-- What is shown in place of a secret, and what a secret that comes back stands for.
unfoldable pub masked : String → String
masked secret = if str_eq secret "" then "" else worker_key_mask

unfoldable pub unmasked : String → String
unmasked secret = if str_eq secret worker_key_mask then "" else secret

unfoldable pub response_of : Option WorkerAuthConfig → WorkerAuthResponse
unfolding masked
response_of none = record {
  tofu_enabled = false;
  worker_key = "";
  is_configured = false;
  updated_at = none;
}
response_of (some cfg) = record {
  tofu_enabled = cfg.tofu_enabled;
  worker_key = masked cfg.worker_key;
  is_configured = true;
  updated_at = some cfg.updated_at;
}

-- The worker key that main.go starts with: the stored one in key mode, and otherwise none, which is TOFU
-- mode, also where the settings cannot be read. The key of the environment is ignored.
unfoldable pub start_key : Lookup WorkerAuthConfig → String
start_key lookup_error = ""
start_key (row none) = ""
start_key (row (some wac)) =
    if not wac.tofu_enabled && not (str_eq wac.worker_key "") then wac.worker_key else ""

module _ {D : Database} where
  unfoldable pub get_config : Store D → Reply Body
  unfolding get_worker_auth_config response_of
  get_config s = elim (get_worker_auth_config s) [
    | lookup_error ↦ error 500 "internal error"
    | row cfg ↦ reply 200 (config (response_of cfg))
  ]

  -- none is a body that does not decode.
  unfoldable pub set_config :
      Option WorkerAuthPayload → ℕ → Store D → Gateway → (Store D × Gateway) × Reply Body
  unfolding set_worker_auth_config set_worker_key unmasked
  set_config none now s g = ((s, g), error 400 "invalid JSON")
  set_config (some payload) now s g =
      let key : String = unmasked payload.worker_key in
      let (s', done) = set_worker_auth_config payload.tofu_enabled key now s in
      if not done
      then ((s', g), error 500 "internal error")
      else ((s', set_worker_key (if payload.tofu_enabled then "" else key) g), reply 200 ok)

  unfoldable pub config_handler :
      Method → Option WorkerAuthPayload → ℕ → Store D → Gateway → (Store D × Gateway) × Reply Body
  unfolding get_config set_config
  config_handler get payload now s g = ((s, g), get_config s)
  config_handler put payload now s g = set_config payload now s g
  config_handler other payload now s g = ((s, g), error 405 "method not allowed")
