-- ===== src/Api/Consents.antt =====
-- internal/manager/api/consent.go: the consent and the configuration of a worker. Times are printed by
-- the reader of the reply.
use synergia.Prelude.{ℕ, String, Bool, true, false, not, Option, none, some, str_eq, if◌then◌else◌}
use synergia.Store.Models.{WorkerConsent, WorkerConfig, HardwareInfo}
use synergia.Store.State.{Database, Store}
use synergia.Store.Consents.{
  Lookup, row, error as lookup_error, get_consent, set_consent, has_consent, get_worker_config,
  set_worker_config,
}
use synergia.Store.Workers.{set_worker_status, set_worker_available_if_withdrawn}
use synergia.Api.Http.{Headers, Method, get, post, other, Reply, reply, error, authenticate_worker}
pub mod Withdrawal

pub record ConsentRequest : Type 0 where
  pub fingerprint : String
  pub accepted : Bool
  pub hardware_stats : Bool
  pub config_preferences : Bool
  pub hardware : Option HardwareInfo

pub record ConsentResponse : Type 0 where
  pub fingerprint : String
  pub accepted : Bool
  pub accepted_at : Option ℕ
  pub hardware_stats : Bool
  pub config_preferences : Bool

pub record ConfigRequest : Type 0 where
  pub fingerprint : String
  pub preferred_role : String
  pub nickname : String

-- What the endpoints reply: a consent, a configuration, or "ok".
pub data Body : Type 0 where
  consent : ConsentResponse → Body
  config : ConfigRequest → Body
  ok : Body

-- A request: its fingerprint parameter, and its body, none where it cannot be read; `decoded` is what
-- the body decodes to.
pub record Request (A : Type 0) : Type 0 where
  pub method : Method
  pub headers : Headers
  pub fingerprint : String
  pub body : Option (Option A)

abbrev response_of : String → Option WorkerConsent → ConsentResponse
response_of fp none = record {
  fingerprint = fp;
  accepted = false;
  accepted_at = none;
  hardware_stats = false;
  config_preferences = false;
}
response_of fp (some c) = record {
  fingerprint = fp;
  accepted = c.accepted;
  accepted_at = c.accepted_at;
  hardware_stats = c.hardware_stats;
  config_preferences = c.config_preferences;
}

abbrev config_of : String → Option WorkerConfig → ConfigRequest
config_of fp none = record { fingerprint = fp; preferred_role = ""; nickname = "" }
config_of fp (some c) = record {
  fingerprint = fp;
  preferred_role = c.preferred_role;
  nickname = c.nickname;
}

module _ {D : Database} where
  unfoldable pub read_consent : String → Store D → Reply Body
  unfolding get_consent
  read_consent fp s =
      if str_eq fp ""
      then error 400 "fingerprint query parameter required"
      else elim (get_consent fp s) [
        | lookup_error ↦ error 500 "database error"
        | row c ↦ reply 200 (consent (response_of fp c))
      ]

  -- A withdrawal takes the worker out of service, and a new consent takes it back.
  abbrev pub after_answer : ConsentRequest → Store D → Store D
  after_answer req s =
      if not req.accepted
      then (set_worker_status req.fingerprint "withdrawn" s).0
      else set_worker_available_if_withdrawn req.fingerprint s

  unfoldable pub write_consent : Option (Option ConsentRequest) → ℕ → Store D → Store D × Reply Body
  unfolding set_consent set_worker_status set_worker_available_if_withdrawn
  write_consent none now s = (s, error 400 "failed to read request body")
  write_consent (some none) now s = (s, error 400 "invalid JSON")
  write_consent (some (some req)) now s =
      if str_eq req.fingerprint ""
      then (s, error 400 "fingerprint is required")
      else let (s', done) =
          set_consent req.fingerprint req.accepted req.hardware_stats req.config_preferences
            req.hardware now s in
        if done then (after_answer req s', reply 200 ok) else (s', error 500 "database error")

  abbrev consent_route : Method → Request ConsentRequest → ℕ → Store D → Store D × Reply Body
  consent_route get r now s = (s, read_consent r.fingerprint s)
  consent_route post r now s = write_consent r.body now s
  consent_route other r now s = (s, error 405 "method not allowed")

  -- `key` is the current worker key.
  unfoldable pub consent_handler :
      String → Request ConsentRequest → ℕ → Store D → Store D × Reply Body
  unfolding read_consent write_consent
  consent_handler key r now s =
      if authenticate_worker key r.headers
      then consent_route r.method r now s
      else (s, error 401 "unauthorized")

  unfoldable pub read_config : String → Store D → Reply Body
  unfolding has_consent get_worker_config
  read_config fp s =
      if str_eq fp ""
      then error 400 "fingerprint query parameter required"
      else if not (has_consent fp s)
      then error 403 "worker has not accepted data collection terms"
      else elim (get_worker_config fp s) [
        | lookup_error ↦ error 500 "database error"
        | row c ↦ reply 200 (config (config_of fp c))
      ]

  unfoldable pub write_config : Option (Option ConfigRequest) → Store D → Store D × Reply Body
  unfolding has_consent set_worker_config
  write_config none s = (s, error 400 "failed to read request body")
  write_config (some none) s = (s, error 400 "invalid JSON")
  write_config (some (some req)) s =
      if str_eq req.fingerprint ""
      then (s, error 400 "fingerprint is required")
      else if not (has_consent req.fingerprint s)
      then (s, error 403 "worker has not accepted data collection terms")
      else let (s', done) = set_worker_config req.fingerprint req.preferred_role req.nickname s in
        if done then (s', reply 200 ok) else (s', error 500 "database error")

  abbrev config_route : Method → Request ConfigRequest → Store D → Store D × Reply Body
  config_route get r s = (s, read_config r.fingerprint s)
  config_route post r s = write_config r.body s
  config_route other r s = (s, error 405 "method not allowed")

  unfoldable pub config_handler : String → Request ConfigRequest → Store D → Store D × Reply Body
  unfolding read_config write_config
  config_handler key r s =
      if authenticate_worker key r.headers
      then config_route r.method r s
      else (s, error 401 "unauthorized")
