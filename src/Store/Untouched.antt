-- ===== src/Store/Untouched.antt =====
-- Which columns the operations of internal/manager/store/store.go leave alone: the sync columns are
-- written without a change of the status, and no operation on the workers touches a consent.
use mathlib.Core.Option
use mathlib.Core.Path.{subst}
use synergia.Prelude.{
  ◌≡◌, refl, ◌∙◌, inl, inr, Bool, ℤ, Option, none, some, String, Outcome, returns, panics, hangs,
  arith,
}
use synergia.Table.{Found-cases}
use synergia.Store.Models.{Worker}
use synergia.Store.State.{Database, Store}
use synergia.Store.Workers.{
  by_fingerprint, update_workers, save_worker, set_worker_llm_hash, set_worker_gpu_avg,
}
use synergia.Store.Status.{Applied, update_workers-Applied, save_worker-Applied, status_at}
use synergia.Store.Sync.{
  update_worker_sync_status, update_worker_backend_sync_status, set_worker_backend_hash,
  set_worker_backend_version, sync_verdict, record_verdict,
}

-- The statuses of all workers are the same, and so are the consents.
pub record SameStatus {D : Database} (s t : Store D) : Type 0 where
  pub statuses : (k : String) → status_at k t ≡ status_at k s
  pub consents : t.consents ≡ s.consents

Applied-status :
    (p : Worker → Bool) (f : Worker → Worker) (before after : Option Worker) (done : Bool)
    → Applied p f before after done
    → ((w : Worker) → (f w).status ≡ w.status)
    → Option.map (λ w. w.status) after ≡ Option.map (λ w. w.status) before
Applied-status p f none after done a h = ground arith
Applied-status p f (some w) after done a h = ground (arith, h w)

module _ {D : Database} where
  pub SameStatus-refl : (s : Store D) → SameStatus s s
  SameStatus-refl s = record { statuses = λ k. refl; consents = refl }

  pub SameStatus-trans : {s t u : Store D} → SameStatus s t → SameStatus t u → SameStatus s u
  SameStatus-trans a b = record {
    statuses = λ k. b.statuses k ∙ a.statuses k;
    consents = b.consents ∙ a.consents;
  }

  update-SameStatus :
      (p : Worker → Bool) (f : Worker → Worker) (s : Store D)
      → ((w : Worker) → (f w).fingerprint ≡ w.fingerprint)
      → ((w : Worker) → (f w).status ≡ w.status)
      → SameStatus s (update_workers p f s).0
  update-SameStatus p f s hk hs = record {
    statuses = λ k. Applied-status p f _ _ _ (update_workers-Applied k s p f hk) hs;
    consents = refl;
  }

  save-SameStatus :
      (fp : String) (f : Worker → Worker) (s : Store D)
      → ((w : Worker) → (f w).fingerprint ≡ w.fingerprint)
      → ((w : Worker) → (f w).status ≡ w.status)
      → SameStatus s (save_worker (by_fingerprint fp) f s).0
  save-SameStatus fp f s hk hs = record {
    statuses = λ k. Applied-status (by_fingerprint fp) f _ _ _ (save_worker-Applied k s fp f hk) hs;
    consents = refl;
  }

  pub llm_hash-SameStatus :
      (fp hash : String) (s : Store D) → SameStatus s (set_worker_llm_hash fp hash s).0
  unfolding set_worker_llm_hash
  llm_hash-SameStatus fp hash s = update-SameStatus _ _ s (λ w. refl) (λ w. refl)

  pub gpu_avg-SameStatus :
      (fp : String) (avg : ℤ) (s : Store D) → SameStatus s (set_worker_gpu_avg fp avg s).0
  unfolding set_worker_gpu_avg
  gpu_avg-SameStatus fp avg s = update-SameStatus _ _ s (λ w. refl) (λ w. refl)

  pub backend_hash-SameStatus :
      (fp hash : String) (s : Store D) → SameStatus s (set_worker_backend_hash fp hash s).0
  unfolding set_worker_backend_hash
  backend_hash-SameStatus fp hash s = update-SameStatus _ _ s (λ w. refl) (λ w. refl)

  pub backend_version-SameStatus :
      (fp version : String) (s : Store D) → SameStatus s (set_worker_backend_version fp version s).0
  unfolding set_worker_backend_version
  backend_version-SameStatus fp version s = update-SameStatus _ _ s (λ w. refl) (λ w. refl)

  verdict-SameStatus :
      (fp status : String) (s s' : Store D) (v : Outcome String)
      → record_verdict fp s v ≡ returns (s', status)
      → SameStatus s s'
  verdict-SameStatus fp status s s' (returns t) h = subst (SameStatus s) (ground arith) (
      update-SameStatus (by_fingerprint fp) (λ w. record w { sync_status = t }) s (λ w. refl)
        (λ w. refl))
  verdict-SameStatus fp status s s' panics h = cc
  verdict-SameStatus fp status s s' hangs h = cc

  pub sync_status-SameStatus :
      (sha256_hex : String → String) (fp status : String) (s s' : Store D)
      → update_worker_sync_status sha256_hex fp s ≡ returns (s', status)
      → SameStatus s s'
  unfolding update_worker_sync_status
  sync_status-SameStatus sha256_hex fp status s s' h =
      elim (Found-cases (D.workers.first (by_fingerprint fp) s.workers)) [
        | inl (w, e) ↦
            verdict-SameStatus fp status s s' (sync_verdict sha256_hex fp w s)
              (rw (e, update_worker_sync_status) at h)
        | inr (inl e) ↦ subst (SameStatus s) (ground (arith, e)) (SameStatus-refl s)
        | inr (inr e) ↦ subst (SameStatus s) (ground (arith, e)) (SameStatus-refl s)
      ]

  pub backend_sync-SameStatus :
      (fp : String) (s : Store D) → SameStatus s (update_worker_backend_sync_status fp s).0
  unfolding update_worker_backend_sync_status
  backend_sync-SameStatus fp s =
      elim (Found-cases (D.workers.first (by_fingerprint fp) s.workers)) [
        | inl (w, e) ↦
            rw (e, update_worker_backend_sync_status)
              (save-SameStatus fp _ s (λ w. refl) (λ w. refl))
        | inr (inl e) ↦ rw (e, update_worker_backend_sync_status) (SameStatus-refl s)
        | inr (inr e) ↦ rw (e, update_worker_backend_sync_status) (SameStatus-refl s)
      ]
