-- ===== src/Api/Consents/Withdrawal.antt =====
-- What a withdrawal over the API does to the dispatch.
use synergia.Prelude.{
  ℕ, ◌≡◌, ◌≢◌, refl, ap, ◌∙◌, String, Bool, true, false, Option, some, str_eq, Bool-cases, inl, inr,
  ◌⊎◌, arith,
}
use synergia.Protocol.{WorkUnit}
use synergia.Store.State.{Database, Store}
use synergia.Store.Consents.{set_consent, has_consent}
use synergia.Store.Models.{HardwareInfo}
use synergia.Store.Workers.{set_worker_status, set_worker_available_if_withdrawn}
use synergia.Store.Withdrawal.{OneEach, set_consent_withdraws}
use synergia.Gateway.State.{WorkerInfo, WorkerConn, Env, Manager}
use synergia.Gateway.Dispatch.{dispatch, dispatch_forced, is_eligible, with_store, consents}
use synergia.Gateway.Selection.{loop-some, sent_to-some}
use synergia.Api.Http.{reply}
use synergia.Api.Consents.{ConsentRequest, ok, write_consent, after_answer}

set_consent-has_consent :
    {D : Database} (fp : String) (accepted hs cp : Bool) (hw : Option HardwareInfo) (now : ℕ)
    (s : Store D)
    → accepted ≡ false
    → OneEach s
    → (set_consent fp accepted hs cp hw now s).1 ≡ true
    → has_consent fp (set_consent fp accepted hs cp hw now s).0 ≡ false
set_consent-has_consent fp true hs cp hw now s e u d = cc
set_consent-has_consent fp false hs cp hw now s e u d = set_consent_withdraws fp hs cp hw now s u d

-- The status of the worker is no part of its consent.
after_answer-has_consent :
    {D : Database} (fp : String) (req : ConsentRequest) (s : Store D)
    → has_consent fp (after_answer req s) ≡ has_consent fp s
unfolding set_worker_status set_worker_available_if_withdrawn has_consent
after_answer-has_consent fp req s = elim (Bool-cases req.accepted) [
  | inl e ↦ rw e refl
  | inr e ↦ rw e refl
]

consents-refused :
    {D : Database} (env : Env) (m : Manager D) (wc : WorkerConn) {fp : String} (t : Store D)
    → m.store ≡ some t
    → has_consent fp t ≡ false
    → wc.info.fingerprint ≡ fp
    → consents env m wc ≡ false
consents-refused env m wc t store refuses same =
    ap (λ o. with_store o (has_consent wc.info.fingerprint)) store
    ∙ ap (λ k. has_consent k t) same
    ∙ refuses

module _ {D : Database} (req : ConsentRequest) (now : ℕ) (s : Store D) where
  -- The consent after a withdrawal that the endpoint confirmed.
  write_consent_withdraws :
      req.accepted ≡ false
      → OneEach s
      → (write_consent (some (some req)) now s).1 ≡ reply 200 ok
      → has_consent req.fingerprint (write_consent (some (some req)) now s).0 ≡ false
  unfolding write_consent
  write_consent_withdraws refused u h = elim (Bool-cases (str_eq req.fingerprint "")) [
    | inl e ↦ absurd (ground (arith, e))
    | inr e ↦ elim (Bool-cases (answered.1)) [
      | inr d ↦ absurd (ground (arith, e, d))
      | inl d ↦
          rw (e, d, write_consent)
            (after_answer-has_consent req.fingerprint req answered.0
              ∙ set_consent-has_consent req.fingerprint req.accepted req.hardware_stats
                  req.config_preferences req.hardware now s refused u d)
    ]
  ]
    where
      answered : Store D × Bool
      answered =
          set_consent req.fingerprint req.accepted req.hardware_stats req.config_preferences
            req.hardware now s

  -- After a withdrawal that the endpoint confirmed, where no worker had two consents, a dispatch, also
  -- a forced one, sends no unit to that worker.
  pub withdrawal_stops_dispatch :
      (env : Env) (unit : WorkUnit) (m m' : Manager D) (info : WorkerInfo)
      → req.accepted ≡ false
      → OneEach s
      → (write_consent (some (some req)) now s).1 ≡ reply 200 ok
      → m.store ≡ some (write_consent (some (some req)) now s).0
      → (dispatch env unit m ≡ (m', some info)) ⊎ (dispatch_forced env unit m ≡ (m', some info))
      → info.fingerprint ≢ req.fingerprint
  unfolding dispatch_forced dispatch
  withdrawal_stops_dispatch env unit m m' info refused u h store (inl sent) same =
      let no_consent = write_consent_withdraws refused u h in
      let (wc, chosen, who, _) = sent_to-some env unit m _ m' info sent in
      let (fp, _, eligible, _) = loop-some (is_eligible env m) _ m.workers wc chosen in
      let refuses =
        consents-refused env m wc _ store no_consent (ap (λ i. i.fingerprint) who ∙ same) in
      absurd (ground (arith, refuses, eligible))
  withdrawal_stops_dispatch env unit m m' info refused u h store (inr sent) same =
      let no_consent = write_consent_withdraws refused u h in
      let (wc, chosen, who, _) = sent_to-some env unit m _ m' info sent in
      let (fp, _, eligible, _) = loop-some (consents env m) _ m.workers wc chosen in
      let refuses =
        consents-refused env m wc _ store no_consent (ap (λ i. i.fingerprint) who ∙ same) in
      absurd (ground (arith, refuses, eligible))
