-- ===== src/Client/Reporter/Hourly.antt =====
-- internal/client/errorreporter/reporter.go: no error is reported twice within an hour.
use mathlib.Core.List.{Memᴰ}
use synergia.Prelude.{
  ℕ, ◌+◌, ◌≤◌, ◌≡◌, inl, inr, sym, ap, ◌∙◌, String, false, Bool-cases, Option, none, some, List, [],
  ◌∷◌, arith, str_eq, eq_iff,
}
use synergia.Gateway.State.{lookup, insert}
use synergia.Gateway.Keys.{lookup-insert}
use synergia.Client.Reporter.{
  ErrorReport, Reporter, new, hour_ms, is_recent, report_message, report_with_stack, run,
}

module _ (hash_error : String → String) where
  -- The reports of one hash, newest first, are an hour apart or more.
  abbrev pub Spaced : List ErrorReport → Type 0
  Spaced [] = Unit
  Spaced (x ∷ xs) =
      ((y : ErrorReport)
        → Memᴰ y xs
        → hash_error y.message ≡ hash_error x.message
        → y.timestamp + hour_ms ≤ x.timestamp)
      × Spaced xs

  -- `seen` has the time of the last report of each hash.
  abbrev Noted : Reporter → Type 0
  Noted r =
      (y : ErrorReport)
      → Memᴰ y r.reports
      → (t : ℕ) × (lookup (hash_error y.message) r.seen ≡ some t) × (y.timestamp ≤ t)

  -- A report that is not recent leaves an hour to every earlier one of its hash.
  an_hour_later :
      (hash : String) (now t : ℕ) (seen : List (String × ℕ))
      → lookup hash seen ≡ some t
      → is_recent (lookup hash seen) now ≡ false
      → t + hour_ms ≤ now
  an_hour_later hash now t seen look old =
      let since : is_recent (some t) now ≡ false = ap (λ o. is_recent o now) (sym look) ∙ old in
      ground (arith, since)

  -- The time of an earlier report is noted as before, or that of the new one is, where they share a hash.
  still_noted :
      (hash : String) (now t : ℕ) (seen : List (String × ℕ)) (y : ErrorReport)
      → lookup (hash_error y.message) seen ≡ some t
      → y.timestamp ≤ t
      → is_recent (lookup hash seen) now ≡ false
      → (u : ℕ) × (lookup (hash_error y.message) (insert hash now seen) ≡ some u)
        × (y.timestamp ≤ u)
  still_noted hash now t seen y look before old =
      elim (Bool-cases (str_eq hash (hash_error y.message))) [
        | inl e ↦
            let same : lookup hash seen ≡ some t =
              ground (arith, e, look, eq_iff hash (hash_error y.message)) in
            let later = an_hour_later hash now t seen same old in
            (
              now,
              ground (arith, lookup-insert hash (hash_error y.message) now seen, e),
              omega (arith, before, later),
            )
        | inr e ↦
            (t, ground (arith, lookup-insert hash (hash_error y.message) now seen, e, look), before)
      ]

  added-Noted :
      (x : ErrorReport) (r : Reporter)
      → Noted r
      → is_recent (lookup (hash_error x.message) r.seen) x.timestamp ≡ false
      → (y : ErrorReport) → Memᴰ y (x ∷ r.reports)
      → (u : ℕ) × (lookup (hash_error y.message) (insert (hash_error x.message) x.timestamp r.seen)
          ≡ some u)
        × (y.timestamp ≤ u)
  added-Noted x r noted old y (Memᴰ.head same) = (
    x.timestamp,
    ground (
      arith,
      ap (λ (z : ErrorReport). hash_error z.message) same,
      eq_iff (hash_error x.message) (hash_error y.message),
    ),
    ground (arith, ap (λ (z : ErrorReport). z.timestamp) same),
  )
  added-Noted x r noted old y (Memᴰ.tail m) =
      let (t, look, before) = noted y m in
      still_noted (hash_error x.message) x.timestamp t r.seen y look before old

  report_message-Spaced :
      (msg stack : String) (now : ℕ) (r : Reporter)
      → Noted r
      → Spaced r.reports
      → Noted (report_message hash_error msg stack now r)
        × Spaced (report_message hash_error msg stack now r).reports
  unfolding report_message
  report_message-Spaced msg stack now r noted spaced =
      elim (Bool-cases (is_recent (lookup (hash_error msg) r.seen) now)) [
        | inl e ↦ rw e (noted, spaced)
        | inr e ↦
            let x : ErrorReport = record {
              fingerprint = r.fingerprint;
              version = r.version;
              message = msg;
              stack = stack;
              timestamp = now;
            } in
            rw e (
              added-Noted x r noted e,
              (
                λ y m same.
                    let (t, look, before) = noted y m in
                    let later =
                      an_hour_later (hash_error msg) now t r.seen
                        (ap (λ h. lookup h r.seen) (sym same) ∙ look) e in
                    omega (arith, before, later),
                spaced,
              ),
            )
      ]

  run-Spaced :
      (calls : List (Option String × String × ℕ)) (r : Reporter)
      → Noted r
      → Spaced r.reports
      → Spaced (run hash_error calls r).reports
  unfolding run report_with_stack
  run-Spaced [] r noted spaced = spaced
  run-Spaced ((none, stack, now) ∷ calls) r noted spaced = run-Spaced calls r noted spaced
  run-Spaced ((some msg, stack, now) ∷ calls) r noted spaced =
      let (n, s) = report_message-Spaced msg stack now r noted spaced in
      run-Spaced calls (report_message hash_error msg stack now r) n s

  -- Whatever errors are reported to a new reporter and at whatever times, any two of the reports that
  -- it sends for one hash are an hour apart or more.
  pub reports-Spaced :
      (fingerprint version : String) (calls : List (Option String × String × ℕ))
      → Spaced (run hash_error calls (new fingerprint version)).reports
  unfolding new
  reports-Spaced fingerprint version calls =
      run-Spaced calls (new fingerprint version) (λ y m. elim m [ ]) tt
