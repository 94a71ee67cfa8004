-- ===== src/Admin/Workers/Applied.antt =====
-- internal/manager/admin/api/workers.go: the key of the live gateway against the one that the manager
-- starts with again.
use mathlib.Core.Path.{subst}
use synergia.Prelude.{
  ℕ, ◌≡◌, ◌⊎◌, inl, inr, refl, ap, sym, String, Bool, true, false, Bool-cases, some, str_eq, arith,
}
use synergia.Table.{Found-cases, found, missing}
use synergia.Table.Single.{Reads, create-Reads, save-Reads}
use synergia.Store.Models.{WorkerAuthConfig}
use synergia.Store.State.{Database, Store}
use synergia.Store.Consents.{error as lookup_error}
use synergia.Store.Settings.{get_worker_auth_config, set_worker_auth_config, kept}
use synergia.Gateway.State.{Gateway, set_worker_key}
use synergia.Api.Http.{reply}
use synergia.Admin.Workers.{WorkerAuthPayload, worker_key_mask, unmasked, start_key, set_config, ok}

abbrev stored : Bool → String → ℕ → WorkerAuthConfig
stored tofu key now = record { tofu_enabled = tofu; worker_key = key; updated_at = now }

module _ {D : Database} (tofu : Bool) (key : String) (now : ℕ) (s : Store D) where
  -- A later read of the settings, unless it fails, answers the row that SetWorkerAuthConfig changed.
  set-kept :
      (old : WorkerAuthConfig)
      → D.worker_auths.first (λ _. true) s.worker_auths ≡ found old
      → (set_worker_auth_config tofu key now s).1 ≡ true
      → Reads
          (D.worker_auths.first (λ _. true) (set_worker_auth_config tofu key now s).0.worker_auths)
          (stored tofu (kept old.worker_key key) now)
  unfolding set_worker_auth_config
  set-kept old e done =
      rw (e, set_worker_auth_config)
        (save-Reads D.worker_auths
          (λ (c : WorkerAuthConfig). stored tofu (kept c.worker_key key) now) old s.worker_auths e
          (ground (arith, e, done)))

  set-created :
      D.worker_auths.first (λ _. true) s.worker_auths ≡ missing
      → (set_worker_auth_config tofu key now s).1 ≡ true
      → Reads
          (D.worker_auths.first (λ _. true) (set_worker_auth_config tofu key now s).0.worker_auths)
          (stored tofu key now)
  unfolding set_worker_auth_config
  set-created e done =
      rw (e, set_worker_auth_config)
        (create-Reads D.worker_auths (stored tofu key now) s.worker_auths e
          (ground (arith, e, done)))

  -- What a successful SetWorkerAuthConfig with a new key stores.
  set-key :
      str_eq key "" ≡ false
      → (set_worker_auth_config tofu key now s).1 ≡ true
      → Reads
          (D.worker_auths.first (λ _. true) (set_worker_auth_config tofu key now s).0.worker_auths)
          (stored tofu key now)
  unfolding set_worker_auth_config
  set-key new done = elim (Found-cases (D.worker_auths.first (λ _. true) s.worker_auths)) [
    | inl (old, e) ↦ ground (arith, new, set-kept old e done)
    | inr (inl e) ↦ set-created e done
    | inr (inr e) ↦ absurd (ground (arith, e, done))
  ]

-- The manager starts with the key, where it can read its settings.
abbrev pub StartsWith : {D : Database} → String → Store D → Type 0
StartsWith key s =
    (get_worker_auth_config s ≡ lookup_error) ⊎ (start_key (get_worker_auth_config s) ≡ key)

stored-StartsWith :
    {D : Database} (key : String) (now : ℕ) (s : Store D)
    → str_eq key "" ≡ false
    → Reads (D.worker_auths.first (λ _. true) s.worker_auths) (stored false key now)
    → StartsWith key s
unfolding get_worker_auth_config start_key
stored-StartsWith key now s new read = ground (arith, new, read)

module _ {D : Database} (p : WorkerAuthPayload) (now : ℕ) (s : Store D) (g : Gateway) where
  -- A PUT in key mode that is answered "ok" has stored the key that the payload stands for, and gives
  -- it to the gateway.
  set_config-stored :
      (key : String)
      → p.tofu_enabled ≡ false
      → unmasked p.worker_key ≡ key
      → (set_config (some p) now s g).1 ≡ reply 200 ok
      → ((set_worker_auth_config false key now s).1 ≡ true)
        × ((set_config (some p) now s g).0
            ≡ ((set_worker_auth_config false key now s).0, set_worker_key key g))
  unfolding set_config
  set_config-stored key mode means answer =
      elim (Bool-cases ((set_worker_auth_config false key now s).1)) [
        | inl d ↦ (d, simp (mode, means, d) refl)
        | inr d ↦ absurd (ground (arith, answer, mode, means, d))
      ]

  -- A PUT in key mode with a key that is neither empty nor the mask, once it is answered "ok", makes
  -- the key the one of the live gateway, and the manager starts with the same key again, where it can
  -- read its settings.
  pub set_config_applies :
      p.tofu_enabled ≡ false
      → str_eq p.worker_key "" ≡ false
      → str_eq p.worker_key worker_key_mask ≡ false
      → (set_config (some p) now s g).1 ≡ reply 200 ok
      → ((set_config (some p) now s g).0.1.worker_key ≡ p.worker_key)
        × StartsWith p.worker_key (set_config (some p) now s g).0.0
  unfolding set_config unmasked set_worker_key
  set_config_applies mode new shown answer =
      let (done, e) = set_config-stored p.worker_key mode (ground (arith, shown)) answer in
      subst
        (λ (o : Store D × Gateway). (o.1.worker_key ≡ p.worker_key) × StartsWith p.worker_key o.0)
        (sym e)
        (
          refl,
          stored-StartsWith p.worker_key now (set_worker_auth_config false p.worker_key now s).0 new
              (set-key false p.worker_key now s new done),
        )

  -- A PUT in key mode whose key is the mask, where the settings have a key and the PUT is answered
  -- "ok", keeps that key for the next start of the manager, where it can read its settings; the live
  -- gateway gets the empty key, which is TOFU mode.
  pub masked_key_opens :
      (old : WorkerAuthConfig)
      → D.worker_auths.first (λ _. true) s.worker_auths ≡ found old
      → str_eq old.worker_key "" ≡ false
      → p.tofu_enabled ≡ false
      → p.worker_key ≡ worker_key_mask
      → (set_config (some p) now s g).1 ≡ reply 200 ok
      → ((set_config (some p) now s g).0.1.worker_key ≡ "")
        × StartsWith old.worker_key (set_config (some p) now s g).0.0
  unfolding set_config unmasked set_worker_key
  masked_key_opens old e had mode mask answer =
      let (done, o) = set_config-stored "" mode (ap unmasked mask) answer in
      subst (λ (o : Store D × Gateway). (o.1.worker_key ≡ "") × StartsWith old.worker_key o.0)
        (sym o)
        (
          refl,
          stored-StartsWith old.worker_key now (set_worker_auth_config false "" now s).0 had
              (set-kept false "" now s old e done),
        )
