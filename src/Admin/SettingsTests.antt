-- ===== src/Admin/SettingsTests.antt =====
-- The theorems about the settings of the administrators at concrete inputs.
use synergia.Prelude.{◌≡◌, refl, pos, true, false, some, [], ◌∷◌}
use synergia.Table.Single.{Reads}
use synergia.Store.Models.{OidcConfig, WorkerAuthConfig}
use synergia.Store.State.{Store, memory, empty_store}
use synergia.Gateway.State.{Gateway}
use synergia.Gateway.State as State
use synergia.Gateway.Tests.{env, ready}
use synergia.Api.Http.{reply}
use synergia.Admin.Workers as Workers
use synergia.Admin.Workers.Applied.{StartsWith, set_config_applies, masked_key_opens}
use synergia.Admin.Oidc as Oidc
use synergia.Admin.Oidc.PutBack.{set_config-response_of}
use synergia.Admin.Versions as Versions
use synergia.Admin.Versions.Rollout.{Stored, set_version-IsRollout}

abbrev old_auth : WorkerAuthConfig
old_auth = record { tofu_enabled = false; worker_key = "stored"; updated_at = 1 }

abbrev oidc : OidcConfig
oidc = record {
  enabled = true;
  client_id = "client";
  client_secret = "secret";
  provider_url = "https://issuer";
  redirect_url = "https://manager/callback";
  updated_at = 1;
}

abbrev configured : Store memory
configured = record empty_store { worker_auths = old_auth ∷ []; oidc_configs = oidc ∷ [] }

abbrev gateway : Gateway
unfolding State.new
gateway = State.new "stored"

abbrev new_key : Workers.WorkerAuthPayload
new_key = record { tofu_enabled = false; worker_key = "fresh" }

abbrev shown_key : Workers.WorkerAuthPayload
shown_key = record { tofu_enabled = false; worker_key = Workers.worker_key_mask }

new_key_ok :
    (Workers.set_config {D = memory} (some new_key) 5 configured gateway).1 ≡ reply 200 Workers.ok
unfolding Workers.set_config
new_key_ok = refl

shown_key_ok :
    (Workers.set_config {D = memory} (some shown_key) 5 configured gateway).1 ≡ reply 200 Workers.ok
unfolding Workers.set_config
shown_key_ok = refl

set_config_applies_example :
    ((Workers.set_config {D = memory} (some new_key) 5 configured gateway).0.1.worker_key ≡ "fresh")
    × StartsWith "fresh" (Workers.set_config {D = memory} (some new_key) 5 configured gateway).0.0
set_config_applies_example =
    set_config_applies new_key 5 configured gateway refl refl refl new_key_ok

masked_key_opens_example :
    ((Workers.set_config {D = memory} (some shown_key) 5 configured gateway).0.1.worker_key ≡ "")
    × StartsWith "stored"
        (Workers.set_config {D = memory} (some shown_key) 5 configured gateway).0.0
masked_key_opens_example =
    masked_key_opens shown_key 5 configured gateway old_auth refl refl refl refl shown_key_ok

put_back_ok :
    (Oidc.set_config {D = memory} (some (Oidc.response_of (some oidc)).payload) 5 configured).1
    ≡ reply 200 Oidc.ok
unfolding Oidc.set_config
put_back_ok = refl

set_config-response_of_example :
    Reads
      (memory.oidc_configs.first
        (λ _. true)
        (Oidc.set_config {D = memory}
          (some (Oidc.response_of (some oidc)).payload)
          5
          configured).0.oidc_configs)
      (record oidc { updated_at = 5 })
set_config-response_of_example = set_config-response_of oidc 5 configured refl put_back_ok

abbrev half : Versions.VersionConfigRequest
half = record {
  target_version = "v2";
  rollout_mode = "percentage";
  rollout_percentage = pos 50;
  sha256 = "";
}

half_ok :
    (Versions.set_version {D = memory} env (some half) 5 configured ready).1 ≡ reply 200 Versions.ok
unfolding Versions.set_version
half_ok = refl

set_version-IsRollout_example :
    Stored half (Versions.set_version {D = memory} env (some half) 5 configured ready).0.0
set_version-IsRollout_example = set_version-IsRollout env half 5 configured ready half_ok
