-- ===== src/Store/Withdrawal.antt =====
-- What SetConsent of internal/manager/store/store.go leaves of a worker's consent.
use mathlib.Core.Path.{subst}
use synergia.Prelude.{
  ℕ, ◌≡◌, refl, sym, ap, inl, inr, Bool, true, false, ◌&&◌, Option, none, some, String, str_eq,
  eq_iff, List, [], ◌∷◌, ◌++◌, find?, modify_first, arith,
}
use synergia.Table.{Found-cases}
use synergia.Table.Lists.{
  Keyed, find?-key, find?-append, find?-holds, find?-modify_first_self, append-Keyed,
  modify_first-Keyed,
}
use synergia.Table.Queries.{first-row, first-none, written}
use synergia.Store.Models.{WorkerConsent, HardwareInfo}
use synergia.Store.State.{Database, Store}
use synergia.Store.Consents.{set_consent, has_consent, consent_row, answer_consent}

abbrev pub consent_rows : {D : Database} → Store D → List WorkerConsent
consent_rows {D} s = D.consents.rows s.consents

abbrev pub consent_at : {D : Database} → String → Store D → Option WorkerConsent
consent_at fp s = find? (λ c. str_eq c.fingerprint fp) (consent_rows s)

-- One row at most for each fingerprint, as the unique index demands.
abbrev pub OneEach : {D : Database} → Store D → Type 0
OneEach s = Keyed (λ (c : WorkerConsent). c.fingerprint) (consent_rows s)

-- One row for the worker, with that answer.
abbrev pub Recorded : String → Bool → List WorkerConsent → Type 0
Recorded fp accepted cs =
    Keyed (λ (c : WorkerConsent). c.fingerprint) cs
    × ((c : WorkerConsent) × (find? (λ c. str_eq c.fingerprint fp) cs ≡ some c)
        × (c.accepted ≡ accepted))

module _ (fp : String) (accepted : Bool) (cs : List WorkerConsent)
    (u : Keyed (λ (c : WorkerConsent). c.fingerprint) cs) where
  append-Recorded :
      (c : WorkerConsent)
      → c.fingerprint ≡ fp
      → c.accepted ≡ accepted
      → find? (λ c. str_eq c.fingerprint fp) cs ≡ none
      → Recorded fp accepted (cs ++ (c ∷ []))
  append-Recorded c same answer new = (
    append-Keyed (λ c. c.fingerprint) cs c u (rw same new),
    (
      c,
      ground (
        arith,
        find?-append (λ c. str_eq c.fingerprint fp) cs c,
        new,
        same,
        eq_iff c.fingerprint fp,
      ),
      answer,
    ),
  )

  modify_first-Recorded :
      (f : WorkerConsent → WorkerConsent) (c : WorkerConsent)
      → ((c : WorkerConsent) → (f c).fingerprint ≡ c.fingerprint)
      → ((c : WorkerConsent) → (f c).accepted ≡ accepted)
      → find? (λ c. str_eq c.fingerprint fp) cs ≡ some c
      → Recorded fp accepted (modify_first (λ c. str_eq c.fingerprint fp) f cs)
  modify_first-Recorded f c same answer row = (
    modify_first-Keyed (λ c. c.fingerprint) (λ c. str_eq c.fingerprint fp) f same cs u,
    (
      f c,
      ground (
        arith,
        find?-modify_first_self (λ c. str_eq c.fingerprint fp) f cs
            (λ c. ap (λ k. str_eq k fp) (same c)),
        find?-holds (λ c. str_eq c.fingerprint fp) cs c row,
        row,
      ),
      answer c,
    ),
  )

module _ {D : Database} (fp : String) (accepted hs cp : Bool) (hw : Option HardwareInfo) (now : ℕ)
    (s : Store D) where
  -- SetConsent, where it succeeds and no worker had two rows, leaves one row for the worker, with the
  -- answer that it was given, and two rows for none.
  pub set_consent-Recorded :
      OneEach s
      → (set_consent fp accepted hs cp hw now s).1 ≡ true
      → Recorded fp accepted (consent_rows (set_consent fp accepted hs cp hw now s).0)
  unfolding set_consent consent_row answer_consent
  set_consent-Recorded u h =
      elim (Found-cases (D.consents.first (λ c. str_eq c.fingerprint fp) s.consents)) [
        | inl (c, e) ↦
            let f : WorkerConsent → WorkerConsent = answer_consent c accepted hs cp hw now in
            let done : (D.consents.save key f s.consents).1 ≡ true = ground (arith, e, h) in
            rw (e, set_consent)
              (subst (Recorded fp accepted)
                (sym (written (D.consents.save_lem key f s.consents) done))
                (modify_first-Recorded fp accepted (consent_rows s) u f c (λ c. refl) (λ c. refl)
                  (first-row D.consents key s.consents c e)))
        | inr (inl e) ↦
            let c : WorkerConsent = consent_row fp accepted hs cp hw now in
            let done : (D.consents.create c s.consents).1 ≡ true = ground (arith, e, h) in
            rw (e, set_consent)
              (subst (Recorded fp accepted)
                (sym (written (D.consents.create_lem c s.consents) done))
                (append-Recorded fp accepted (consent_rows s) u c refl refl
                  (first-none D.consents key s.consents e)))
        | inr (inr e) ↦ absurd (ground (arith, e, h))
      ]
    where
      key : WorkerConsent → Bool
      key c = str_eq c.fingerprint fp

-- After a refusal that SetConsent has stored, where no worker had two rows, HasConsent is false.
pub set_consent_withdraws :
    {D : Database} (fp : String) (hs cp : Bool) (hw : Option HardwareInfo) (now : ℕ) (s : Store D)
    → OneEach s
    → (set_consent fp false hs cp hw now s).1 ≡ true
    → has_consent fp (set_consent fp false hs cp hw now s).0 ≡ false
unfolding has_consent
set_consent_withdraws {D} fp hs cp hw now s u h =
    let (u', (c, row, answer)) = set_consent-Recorded fp false hs cp hw now s u h in
    let t = (set_consent fp false hs cp hw now s).0 in
    ground (
      arith,
      row,
      answer,
      find?-key (λ (c : WorkerConsent). c.fingerprint) fp (λ c. c.accepted) (consent_rows t) u',
      D.consents.first_lem (λ c. str_eq c.fingerprint fp && c.accepted) t.consents,
    )
