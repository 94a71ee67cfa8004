-- ===== src/Admin/Oidc/PutBack.antt =====
-- internal/manager/admin/api/oidc.go: settings that are put back as they were shown.
use mathlib.Core.Path.{subst}
use synergia.Prelude.{ℕ, ◌≡◌, inl, inr, refl, sym, String, true, Bool-cases, some, str_eq, arith}
use synergia.Table.{found}
use synergia.Table.Single.{Reads, save-Reads}
use synergia.Store.Models.{OidcConfig}
use synergia.Store.State.{Database, Store}
use synergia.Store.Settings.{set_oidc_config, kept}
use synergia.Api.Http.{reply}
use synergia.Admin.Workers.{masked, unmasked}
use synergia.Admin.Oidc.{response_of, set_config, ok}

-- A secret that comes back as it was shown stands for the stored one.
unmasked-masked : (secret : String) → unmasked (masked secret) ≡ ""
unfolding unmasked masked
unmasked-masked secret = elim (Bool-cases (str_eq secret "")) [
  | inl e ↦ rw e refl
  | inr e ↦ rw e refl
]

module _ {D : Database} (cfg : OidcConfig) (now : ℕ) (s : Store D) where
  -- What SetOIDCConfig leaves where the secret is empty and the rest is as it was stored.
  set_oidc_config-kept :
      D.oidc_configs.first (λ _. true) s.oidc_configs ≡ found cfg
      → (set_oidc_config cfg.enabled cfg.client_id "" cfg.provider_url cfg.redirect_url now s).1
        ≡ true
      → Reads
          (D.oidc_configs.first
            (λ _. true)
            (set_oidc_config cfg.enabled cfg.client_id "" cfg.provider_url cfg.redirect_url now
              s).0.oidc_configs)
          (record cfg { updated_at = now })
  unfolding set_oidc_config
  set_oidc_config-kept e done =
      rw (e, set_oidc_config)
        (save-Reads D.oidc_configs
          (λ (c : OidcConfig). record cfg {
            client_secret = kept c.client_secret "";
            updated_at = now;
          })
          cfg s.oidc_configs e (ground (arith, e, done)))

  set_config-stored :
      (set_config (some (response_of (some cfg)).payload) now s).1 ≡ reply 200 ok
      → ((set_oidc_config cfg.enabled cfg.client_id "" cfg.provider_url cfg.redirect_url now s).1
          ≡ true)
        × ((set_config (some (response_of (some cfg)).payload) now s).0
            ≡ (set_oidc_config cfg.enabled cfg.client_id "" cfg.provider_url cfg.redirect_url now
                s).0)
  unfolding set_config response_of
  set_config-stored answer =
      let shown = unmasked-masked cfg.client_secret in
      elim (Bool-cases (
        (set_oidc_config cfg.enabled cfg.client_id "" cfg.provider_url cfg.redirect_url now s).1)) [
          | inl d ↦ (d, simp (shown, d) refl)
          | inr d ↦ absurd (ground (arith, answer, shown, d))
        ]

  -- The settings as GET shows them, put back by a PUT that is answered "ok", leave the stored settings
  -- as they were, the secret that was not shown included, but for the time of the change, where the
  -- settings can be read afterwards.
  pub set_config-response_of :
      D.oidc_configs.first (λ _. true) s.oidc_configs ≡ found cfg
      → (set_config (some (response_of (some cfg)).payload) now s).1 ≡ reply 200 ok
      → Reads
          (D.oidc_configs.first
            (λ _. true)
            (set_config (some (response_of (some cfg)).payload) now s).0.oidc_configs)
          (record cfg { updated_at = now })
  set_config-response_of e answer =
      let (done, same) = set_config-stored answer in
      subst
        (λ (t : Store D).
          Reads (D.oidc_configs.first (λ _. true) t.oidc_configs) (record cfg { updated_at = now }))
        (sym same) (set_oidc_config-kept e done)
