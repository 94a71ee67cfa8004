-- ===== src/Store/Settings.antt =====
-- internal/manager/store/oidc.go and workers_config.go: the settings that the administrators change. An
-- empty secret or key leaves the stored one as it was.
use synergia.Prelude.{ℕ, String, Bool, true, false, some, none, str_eq, if◌then◌else◌}
use synergia.Table.{found, missing, failed}
use synergia.Store.Models.{OidcConfig, WorkerAuthConfig}
use synergia.Store.State.{Database, Store}
use synergia.Store.Consents.{Lookup, row, error}

abbrev pub kept : String → String → String
kept old new = if str_eq new "" then old else new

module _ {D : Database} where
  unfoldable pub get_oidc_config : Store D → Lookup OidcConfig
  get_oidc_config s = elim (D.oidc_configs.first (λ _. true) s.oidc_configs) [
    | found cfg ↦ row (some cfg)
    | missing ↦ row none
    | failed ↦ error
  ]

  unfoldable pub set_oidc_config :
      Bool → String → String → String → String → ℕ → Store D → Store D × Bool
  set_oidc_config enabled client_id client_secret provider_url redirect_url now s =
      let cfg : OidcConfig = record {
        enabled = enabled;
        client_id = client_id;
        client_secret = client_secret;
        provider_url = provider_url;
        redirect_url = redirect_url;
        updated_at = now;
      } in
      elim (D.oidc_configs.first (λ _. true) s.oidc_configs) [
        | missing ↦
            let (t, done) = D.oidc_configs.create cfg s.oidc_configs in
            (record s { oidc_configs = t }, done)
        | failed ↦ (s, false)
        | found _ ↦
            let (t, done) =
              D.oidc_configs.save (λ _. true)
                (λ (c : OidcConfig). record cfg {
                  client_secret = kept c.client_secret client_secret;
                })
                s.oidc_configs in
            (record s { oidc_configs = t }, done)
      ]

  unfoldable pub get_worker_auth_config : Store D → Lookup WorkerAuthConfig
  get_worker_auth_config s = elim (D.worker_auths.first (λ _. true) s.worker_auths) [
    | found cfg ↦ row (some cfg)
    | missing ↦ row none
    | failed ↦ error
  ]

  unfoldable pub set_worker_auth_config : Bool → String → ℕ → Store D → Store D × Bool
  set_worker_auth_config tofu_enabled worker_key now s =
      let cfg : WorkerAuthConfig = record {
        tofu_enabled = tofu_enabled;
        worker_key = worker_key;
        updated_at = now;
      } in
      elim (D.worker_auths.first (λ _. true) s.worker_auths) [
        | missing ↦
            let (t, done) = D.worker_auths.create cfg s.worker_auths in
            (record s { worker_auths = t }, done)
        | failed ↦ (s, false)
        | found _ ↦
            let (t, done) =
              D.worker_auths.save (λ _. true)
                (λ (c : WorkerAuthConfig). record cfg { worker_key = kept c.worker_key worker_key })
                s.worker_auths in
            (record s { worker_auths = t }, done)
      ]
