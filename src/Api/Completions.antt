-- ===== src/Api/Completions.antt =====
-- internal/manager/api/completions.go: ServeHTTP up to the wait for the worker, and after it.
use synergia.Prelude.{
  ℕ, String, Bool, true, false, not, ◌&&◌, Option, none, some, str_eq, str_append, check_prefix,
  if◌then◌else◌, len,
}
use synergia.Protocol.{ChatCompletionRequest, ChatCompletionResponse, WorkUnit}
use synergia.Store.State.{Database, Store}
use synergia.Gateway.State.{Env, Manager, WorkerInfo, has_worker}
use synergia.Gateway.Dispatch.{has_available_worker, dispatch, dispatch_forced}
use synergia.Api.Http.{
  Codec, Headers, Method, get, post, other, Reply, reply, error, authenticate_api_key,
}
use synergia.Api.Units.{
  Dispatched, Answer, answered, errored, timed_out, stopped, contains_pause_trigger, settle_unit,
  release, dispatch_request, build_response,
}

pub record Request : Type 0 where
  pub method : Method
  pub headers : Headers
  pub body : Option String  -- none if it cannot be read

-- ServeHTTP answers at once, or waits for the dispatched unit.
pub data Served : Type 0 where
  done : Reply ChatCompletionResponse → Served
  waits : Dispatched → Served

abbrev refused : ℕ → String → Served
refused status message = done (error status message)

abbrev is_post : Method → Bool
is_post post = true
is_post get = false
is_post other = false

module _ {D : Database} (env : Env) (codec : Codec) (format : ℕ → ℕ → String)
    (api_key : String) where
  -- A PAUSE trigger must reach a worker whatever its status is.
  abbrev pub send : ChatCompletionRequest → WorkUnit → Manager D → Manager D × Option WorkerInfo
  send req = if contains_pause_trigger req.messages then dispatch_forced env else dispatch env

  abbrev dispatched : Manager D × Option Dispatched → Manager D × Served
  dispatched (m, none) = (m, refused 503 "failed to dispatch: no available worker")
  dispatched (m, some d) = (m, waits d)

  unfoldable pub complete : ℕ → String → ChatCompletionRequest → Manager D → Manager D × Served
  unfolding dispatch_request
  complete now body req m =
      if not (has_available_worker env m) && not (contains_pause_trigger req.messages)
      then (
        m,
        refused 429
            "no worker available — all workers are busy, paused, idle, updating, or withdrawn",
      )
      else dispatched (dispatch_request (send req) format now (len body) req m)

  unfoldable pub serve_http : ℕ → Request → Manager D → Manager D × Served
  unfolding complete
  serve_http now r m =
      if not (is_post r.method)
      then (m, refused 405 "method not allowed")
      else if not (authenticate_api_key api_key r.headers)
      then (m, refused 401 "unauthorized")
      else if not (has_worker m.gateway)
      then (m, refused 503 "no worker connected")
      else elim r.body [
        | none ↦ (m, refused 400 "failed to read request body")
        | some body ↦ elim (codec.decode_request body) [
          | none ↦ (m, refused 400 (str_append "invalid JSON: " (codec.request_error body)))
          | some req ↦ complete now body req m
        ]
      ]

abbrev on_store : {D : Database} → (Store D → Store D) → Manager D → Manager D
on_store f m = record m { store = elim m.store [ none ↦ none | some s ↦ some (f s) ] }

-- The log line of a recorded latency slices the fingerprint, `workerFingerprint[:12]`.
abbrev slices_short : Bool → Dispatched → Bool
slices_short monitored d =
    monitored && not (str_eq d.fingerprint "") && not (check_prefix d.fingerprint 12)

-- The reply after the wait. There is none if the handler panics: net/http then drops the connection.
-- Nothing stops this handler, so `stopped` is never met.
unfoldable pub reply_of :
    Codec → Bool → Dispatched → Answer → ℕ → Option (Reply ChatCompletionResponse)
reply_of codec monitored d (answered r) now =
    if slices_short monitored d then none else some (reply 200 (build_response codec r d.model now))
reply_of codec monitored d (errored e) now = some (error 500 (str_append "worker error: " e.error))
reply_of codec monitored d timed_out now = some (error 504 "worker did not respond in time")
reply_of codec monitored d stopped now = some (error 504 "worker did not respond in time")

module _ {D : Database} (codec : Codec) (monitored : Bool) where
  unfoldable pub finish :
      Dispatched → Answer → ℕ → Manager D → Manager D × Option (Reply ChatCompletionResponse)
  unfolding settle_unit reply_of
  finish d a now m = (
    record (on_store (settle_unit monitored d a now) m) { queue = release d a m.queue },
    reply_of codec monitored d a now,
  )
