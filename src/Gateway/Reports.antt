-- ===== src/Gateway/Reports.antt =====
-- What the status reports of a worker can do (readLoop of
-- internal/manager/gateway/websocket.go).
use mathlib.Core.Path.{subst}
use synergia.Prelude.{
  ◌≡◌, refl, ap, ◌∙◌, is_positive, ◌⊎◌, inl, inr, Bool, true, false, ◌&&◌, String, str_eq, eq_iff,
  if◌then◌else◌, Bool-cases, ◌>>=◌, Outcome, returns, panics, hangs, arith,
}
use synergia.Table.{is_found}
use synergia.Protocol.{Status}
use synergia.Store.State.{Database, Store}
use synergia.Store.Consents.{has_consent}
use synergia.Store.Untouched.{
  SameStatus, SameStatus-refl, SameStatus-trans, llm_hash-SameStatus, gpu_avg-SameStatus,
  backend_hash-SameStatus, backend_version-SameStatus, sync_status-SameStatus,
  backend_sync-SameStatus,
}
use synergia.Gateway.State.{WorkerConn, Env}
use synergia.Gateway.Messages.{
  sliced, status_llm_hash, status_backend, status_gpu, status_state, on_status,
}

>>=-eq-returns {ℓ κ} :
    {A : Type ℓ} {B : Type κ} (x : Outcome A) (f : A → Outcome B) {b : B}
    → (x >>= f) ≡ returns b
    → (a : A) × (x ≡ returns a) × (f a ≡ returns b)
>>=-eq-returns (returns a) f h = (a, refl, h)
>>=-eq-returns panics f h = cc
>>=-eq-returns hangs f h = cc

sliced-returns : {A : Type 0} (wc : WorkerConn) (a b : A) → sliced wc a ≡ returns b → a ≡ b
sliced-returns wc a b h = ground arith

if-SameStatus :
    {D : Database} (test : Bool) (s t : Store D)
    → SameStatus s t
    → SameStatus s (if test then s else t)
if-SameStatus true s t h = SameStatus-refl s
if-SameStatus false s t h = h

module _ {D : Database} (env : Env) (wc : WorkerConn) (st : Status) (s : Store D) where
  llm_hash_step : (s' : Store D) → status_llm_hash env wc st s ≡ returns s' → SameStatus s s'
  unfolding status_llm_hash
  llm_hash_step s' h = elim (Bool-cases (str_eq st.llm_hash "")) [
    | inl e ↦ subst (SameStatus s) (ground (arith, e)) (SameStatus-refl s)
    | inr e ↦
        let ((s₁, status), updated, rest) = >>=-eq-returns _ _ (rw e at h) in
        subst (SameStatus s) (sliced-returns wc s₁ s' rest) (
          SameStatus-trans (llm_hash-SameStatus wc.info.fingerprint st.llm_hash s)
            (sync_status-SameStatus env.sha256_hex wc.info.fingerprint status _ s₁ updated))
  ]

  backend_step : (s' : Store D) → status_backend env wc st s ≡ returns s' → SameStatus s s'
  unfolding status_backend
  backend_step s' h =
      elim (Bool-cases (str_eq st.backend_hash "" && str_eq st.backend_version "")) [
        | inl e ↦ subst (SameStatus s) (ground (arith, e)) (SameStatus-refl s)
        | inr e ↦ subst (SameStatus s) (sliced-returns wc _ s' (rw e at h)) (
            SameStatus-trans
              (SameStatus-trans
                (if-SameStatus (str_eq st.backend_hash "") s _
                  (backend_hash-SameStatus wc.info.fingerprint st.backend_hash s))
                (if-SameStatus (str_eq st.backend_version "") _ _
                  (backend_version-SameStatus wc.info.fingerprint st.backend_version _)))
              (backend_sync-SameStatus wc.info.fingerprint _))
      ]

  gpu_step : SameStatus s (status_gpu env wc st s)
  unfolding status_gpu
  gpu_step = elim (Bool-cases (is_positive st.gpu_avg && has_consent wc.info.fingerprint s)) [
    | inl e ↦ rw e (gpu_avg-SameStatus wc.info.fingerprint st.gpu_avg s)
    | inr e ↦ rw e (SameStatus-refl s)
  ]

  -- A report of a ready state is dropped where the worker has no consent.
  state_step :
      has_consent wc.info.fingerprint s ≡ false
      → (st.state ≡ "available") ⊎ (st.state ≡ "online")
      → status_state env wc st s ≡ s
  unfolding status_state
  state_step lacks ready =
      ground (arith, lacks, eq_iff st.state "available", eq_iff st.state "online")

same_consent :
    {D : Database} (fp : String) (s t : Store D)
    → SameStatus s t
    → has_consent fp s ≡ false
    → has_consent fp t ≡ false
unfolding has_consent
same_consent {D} fp s t h lacks =
    ap (λ c. is_found (D.consents.first (λ c. str_eq c.fingerprint fp && c.accepted) c)) h.consents
    ∙ lacks

module _ {D : Database} (env : Env) (wc : WorkerConn) (st : Status) where
  -- A status message by which a worker without an accepted consent reports itself "available" or
  -- "online" changes, where its handler returns, the status of no worker and no consent, whatever
  -- else it reports.
  pub unconsented_report :
      (s s' : Store D)
      → has_consent wc.info.fingerprint s ≡ false
      → (st.state ≡ "available") ⊎ (st.state ≡ "online")
      → on_status env wc st s ≡ returns s'
      → SameStatus s s'
  unfolding on_status
  unconsented_report s s' lacks ready h =
      let (s₁, hash, rest) = >>=-eq-returns (status_llm_hash env wc st s) _ h in
      let (s₂, backend, end) = >>=-eq-returns (status_backend env wc st s₁) _ rest in
      let same : SameStatus s (status_gpu env wc st s₂) =
        SameStatus-trans (llm_hash_step env wc st s s₁ hash)
          (SameStatus-trans (backend_step env wc st s₁ s₂ backend) (gpu_step env wc st s₂)) in
      let dropped : status_state env wc st (status_gpu env wc st s₂) ≡ status_gpu env wc st s₂ =
        state_step env wc st _ (same_consent wc.info.fingerprint s _ same lacks) ready in
      subst (SameStatus s) (ground (arith, dropped, end)) same
