-- ===== src/Admin/Versions/Rollout.antt =====
-- internal/manager/admin/api/version.go: what the stored rollout may be.
use synergia.Prelude.{
  ℕ, ℤ, pos, ◌≤ℤ◌, ◌≡◌, ◌⊎◌, inl, inr, refl, String, true, Bool-cases, none, some, arith, str_eq,
  eq_iff,
}
use synergia.Table.{Found-cases}
use synergia.Table.Single.{Reads, create-Reads, save-Reads}
use synergia.Store.Models.{ClientVersionConfig}
use synergia.Store.State.{Database, Store}
use synergia.Store.Versions.{get_client_version_config, set_client_version_config}
use synergia.Gateway.State.{Env, Manager}
use synergia.Api.Http.{reply}
use synergia.Admin.Versions.{
  VersionConfigRequest, Checked, rollout, refused, check, mode_of, store_version, set_version, ok,
}

-- All clients, or a share of them in percent.
abbrev pub IsRollout : String → ℤ → Type 0
IsRollout mode percentage =
    ((mode ≡ "all") × (percentage ≡ pos 100))
    ⊎ ((mode ≡ "percentage") × (pos 1 ≤ℤ percentage) × (percentage ≤ℤ pos 100))

check-IsRollout :
    (req : VersionConfigRequest) (mode : String) (percentage : ℤ)
    → check req ≡ rollout mode percentage
    → IsRollout mode percentage
unfolding check
check-IsRollout req mode percentage e =
    elim (Bool-cases (str_eq (mode_of req.rollout_mode) "all")) [
      | inl all ↦ inl (ground (arith, e, all, eq_iff (mode_of req.rollout_mode) "all"))
      | inr some_ ↦ inr (ground (arith, e, some_, eq_iff (mode_of req.rollout_mode) "percentage"))
    ]

module _ {D : Database} (version mode : String) (percentage : ℤ) (now : ℕ) (s : Store D) where
  abbrev pub written_version : ClientVersionConfig
  written_version = record {
    target_version = version;
    rollout_mode = mode;
    rollout_percentage = percentage;
    updated_at = now;
  }

  -- A later read of the configuration, unless it fails, answers what SetClientVersionConfig wrote.
  set_client_version_config-Reads :
      (set_client_version_config version mode percentage now s).1 ≡ true
      → Reads
          (D.client_versions.first
            (λ _. true)
            (set_client_version_config version mode percentage now s).0.client_versions)
          written_version
  unfolding set_client_version_config
  set_client_version_config-Reads done =
      elim (Found-cases (D.client_versions.first (λ _. true) s.client_versions)) [
        | inl (old, e) ↦
            rw (e, set_client_version_config)
              (save-Reads D.client_versions (λ _. written_version) old s.client_versions e
                (ground (arith, e, done)))
        | inr (inl e) ↦
            rw (e, set_client_version_config)
              (create-Reads D.client_versions written_version s.client_versions e
                (ground (arith, e, done)))
        | inr (inr e) ↦ absurd (ground (arith, e, done))
      ]

-- Where the store can be read, it answers the requested version with a rollout to all clients or to a
-- share of them.
abbrev pub Stored : {D : Database} → VersionConfigRequest → Store D → Type 0
Stored req s =
    (get_client_version_config s ≡ none)
    ⊎ ((cfg : ClientVersionConfig) × (get_client_version_config s ≡ some cfg)
        × (cfg.target_version ≡ req.target_version)
        × IsRollout cfg.rollout_mode cfg.rollout_percentage)

written-Stored :
    {D : Database} (req : VersionConfigRequest) (cfg : ClientVersionConfig) (s : Store D)
    → cfg.target_version ≡ req.target_version
    → IsRollout cfg.rollout_mode cfg.rollout_percentage
    → Reads (D.client_versions.first (λ _. true) s.client_versions) cfg
    → Stored req s
unfolding get_client_version_config
written-Stored req cfg s same valid (inl e) = inl (rw (e, get_client_version_config) refl)
written-Stored req cfg s same valid (inr e) =
    inr (cfg, rw (e, get_client_version_config) refl, same, valid)

module _ {D : Database} (env : Env) (req : VersionConfigRequest) (now : ℕ) (s : Store D)
    (m : Manager D) where
  store_version-IsRollout :
      (c : Checked)
      → check req ≡ c
      → (store_version env req now s m c).1 ≡ reply 200 ok
      → Stored req (store_version env req now s m c).0.0
  unfolding store_version
  store_version-IsRollout (refused e) h answer = cc
  store_version-IsRollout (rollout mode percentage) h answer =
      let w = set_client_version_config req.target_version mode percentage now s in
      elim (Bool-cases (w.1)) [
        | inl d ↦ rw d (
            written-Stored req (written_version req.target_version mode percentage now s) (w.0) refl
              (check-IsRollout req mode percentage h)
              (set_client_version_config-Reads req.target_version mode percentage now s d))
        | inr d ↦ absurd (ground (arith, answer, d))
      ]

  -- A POST that is answered "ok" has stored the requested version with a rollout to all clients or to
  -- a share of 1 to 100 percent of them, as the store answers wherever it can be read.
  pub set_version-IsRollout :
      (set_version env (some req) now s m).1 ≡ reply 200 ok
      → Stored req (set_version env (some req) now s m).0.0
  unfolding set_version
  set_version-IsRollout answer = store_version-IsRollout (check req) refl answer
