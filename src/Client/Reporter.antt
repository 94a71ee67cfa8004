-- ===== src/Client/Reporter.antt =====
-- internal/client/errorreporter/reporter.go: errors are told to the manager, each once an hour. Times
-- are in milliseconds; `reports` are those that a goroutine sends, newest first, and their sending, with
-- whatever comes of it, is the outside.
use synergia.Prelude.{
  ℕ, ◌-◌, String, Bool, false, Option, none, some, List, [], ◌∷◌, ltb, if◌then◌else◌,
}
use synergia.Gateway.State.{lookup, insert}
pub mod Hourly

pub record ErrorReport : Type 0 where
  pub fingerprint : String
  pub version : String
  pub message : String
  pub stack : String
  pub timestamp : ℕ

pub record Reporter : Type 0 where
  pub seen : List (String × ℕ)
  pub fingerprint : String
  pub version : String
  pub reports : List ErrorReport

unfoldable pub new : String → String → Reporter
new fingerprint version = record {
  seen = [];
  fingerprint = fingerprint;
  version = version;
  reports = [];
}

abbrev pub hour_ms : ℕ
hour_ms = 3600000

-- time.Since(lastSent) < time.Hour; a time to come is less than an hour ago.
abbrev pub is_recent : Option ℕ → ℕ → Bool
is_recent none now = false
is_recent (some last_sent) now = ltb (now - last_sent) hour_ms

-- hashError is the parameter.
module _ (hash_error : String → String) where
  unfoldable pub report_message : String → String → ℕ → Reporter → Reporter
  report_message msg stack now r =
      if is_recent (lookup (hash_error msg) r.seen) now then r else record r {
        seen = insert (hash_error msg) now r.seen;
        reports =
            record {
              fingerprint = r.fingerprint;
              version = r.version;
              message = msg;
              stack = stack;
              timestamp = now;
            }
            ∷ r.reports;
      }

  -- Report and ReportWithStack of an error, none for nil.
  unfoldable pub report_with_stack : Option String → String → ℕ → Reporter → Reporter
  unfolding report_message
  report_with_stack none stack now r = r
  report_with_stack (some msg) stack now r = report_message msg stack now r

  -- A call: the error, its stack and the time.
  unfoldable pub run : List (Option String × String × ℕ) → Reporter → Reporter
  unfolding report_with_stack
  run [] r = r
  run ((err, stack, now) ∷ calls) r = run calls (report_with_stack err stack now r)
