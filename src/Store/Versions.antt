-- ===== src/Store/Versions.antt =====
-- internal/manager/store/store.go: the target versions of the client and of the backend.
use synergia.Prelude.{ℕ, ℤ, String, Bool, true, false, Option, none, some}
use synergia.Table.{found, missing, failed}
use synergia.Store.Models.{ClientVersionConfig, BackendVersionConfig}
use synergia.Store.State.{Database, Store}

module _ {D : Database} where
  -- none is any error, a missing row included
  unfoldable pub get_client_version_config : Store D → Option ClientVersionConfig
  get_client_version_config s = elim (D.client_versions.first (λ _. true) s.client_versions) [
    | found cfg ↦ some cfg
    | missing ↦ none
    | failed ↦ none
  ]

  unfoldable pub set_client_version_config : String → String → ℤ → ℕ → Store D → Store D × Bool
  set_client_version_config version rollout_mode rollout_percentage now s =
      let cfg : ClientVersionConfig = record {
        target_version = version;
        rollout_mode = rollout_mode;
        rollout_percentage = rollout_percentage;
        updated_at = now;
      } in
      elim (D.client_versions.first (λ _. true) s.client_versions) [
        | missing ↦
            let (t, done) = D.client_versions.create cfg s.client_versions in
            (record s { client_versions = t }, done)
        | failed ↦ (s, false)
        | found _ ↦
            let (t, done) = D.client_versions.save (λ _. true) (λ _. cfg) s.client_versions in
            (record s { client_versions = t }, done)
      ]

  unfoldable pub get_backend_version_config : Store D → Option BackendVersionConfig
  get_backend_version_config s = elim (D.backend_versions.first (λ _. true) s.backend_versions) [
    | found cfg ↦ some cfg
    | missing ↦ none
    | failed ↦ none
  ]

  unfoldable pub set_backend_version_config :
      String → String → String → String → ℕ → Store D → Store D × Bool
  set_backend_version_config name version download_url sha256 now s =
      let cfg : BackendVersionConfig = record {
        name = name;
        version = version;
        download_url = download_url;
        sha256 = sha256;
        updated_at = now;
      } in
      elim (D.backend_versions.first (λ _. true) s.backend_versions) [
        | missing ↦
            let (t, done) = D.backend_versions.create cfg s.backend_versions in
            (record s { backend_versions = t }, done)
        | failed ↦ (s, false)
        | found _ ↦
            let (t, done) = D.backend_versions.save (λ _. true) (λ _. cfg) s.backend_versions in
            (record s { backend_versions = t }, done)
      ]
