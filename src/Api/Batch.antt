-- ===== src/Api/Batch.antt =====
-- internal/manager/api/batch.go: the batch requests, and one round of their processing in two parts,
-- up to the wait for the worker and after it.
pub mod Outcomes
use mathlib.Core.Option
use synergia.Prelude.{
  ℕ, String, Bool, true, false, not, ◌&&◌, Option, none, some, List, [], ◌∷◌, map, str_eq,
  str_append, len, strip_prefix, trim_prefix, has_suffix, trim_suffix, if◌then◌else◌, Outcome,
  returns, panics,
}
use synergia.Protocol.{ChatCompletionRequest}
use synergia.Store.Models.{BatchRequest}
use synergia.Store.State.{Database, Store}
use synergia.Store.Consents.{row, error as lookup_error}
use synergia.Store.Batches.{
  create_batch_request, get_batch_request, list_batch_requests, get_pending_batch_requests,
  set_batch_request_processing, complete_batch_request, fail_batch_request,
}
use synergia.Gateway.State.{Env, Manager}
use synergia.Gateway.Dispatch.{has_available_worker, dispatch}
use synergia.Api.Http.{
  Codec, Headers, Method, get, post, other, Reply, reply, error, authenticate_api_key,
}
use synergia.Api.Units.{
  Dispatched, Answer, answered, errored, timed_out, stopped, settle_unit, release, dispatch_request,
  build_response,
}

-- The object that the endpoints return. Its object and endpoint are fixed, and its total is 1.
pub record BatchObject : Type 0 where
  pub id : String
  pub status : String
  pub model : String
  pub created_at : ℕ
  pub in_progress_at : Option ℕ
  pub completed_at : Option ℕ
  pub failed_at : Option ℕ
  pub cancelled_at : Option ℕ
  pub completed : ℕ
  pub failed : ℕ
  pub output : Option String
  pub err : Option String

abbrev non_empty : String → Option String
non_empty s = if str_eq s "" then none else some s

abbrev blank : String → String → ℕ → BatchObject
blank id model created_at = record {
  id = id;
  status = "";
  model = model;
  created_at = created_at;
  in_progress_at = none;
  completed_at = none;
  failed_at = none;
  cancelled_at = none;
  completed = 0;
  failed = 0;
  output = none;
  err = none;
}

unfoldable pub to_batch_object : BatchRequest → BatchObject
to_batch_object br =
    let obj = blank br.request_id br.llm_model br.created_at in
    if str_eq br.status "pending"
    then record obj { status = "pending" }
    else if str_eq br.status "processing"
    then record obj { status = "in_progress"; in_progress_at = some br.updated_at }
    else if str_eq br.status "completed"
    then record obj {
      status = "completed";
      completed_at = some br.updated_at;
      completed = 1;
      output = non_empty br.result;
    }
    else if str_eq br.status "failed"
    then record obj {
      status = "failed";
      failed_at = some br.updated_at;
      failed = 1;
      err = non_empty br.err_message;
    }
    else obj

-- What an endpoint replies: one object, or the list of them.
pub data Body : Type 0 where
  object : BatchObject → Body
  list : List BatchObject → Body

pub record Request : Type 0 where
  pub method : Method
  pub headers : Headers
  pub path : String
  pub body : Option String  -- none if it cannot be read

module _ {D : Database} where
  unfoldable pub list_batches : Store D → Reply Body
  unfolding to_batch_object list_batch_requests
  list_batches s = elim (list_batch_requests 100 s) [
    | none ↦ error 500 "failed to list batch requests"
    | some brs ↦ reply 200 (list (map to_batch_object brs))
  ]

  unfoldable pub retrieve_batch : String → Store D → Reply Body
  unfolding to_batch_object get_batch_request
  retrieve_batch id s = elim (get_batch_request id s) [
    | lookup_error ↦ error 500 "failed to query batch request"
    | row none ↦ error 404 "batch not found"
    | row (some br) ↦ reply 200 (object (to_batch_object br))
  ]

  -- The reply of a cancellation that was stored: the row is read again.
  abbrev cancelled_reply : String → ℕ → Store D → Reply Body
  cancelled_reply id now s = elim (get_batch_request id s) [
    | lookup_error ↦ error 500 "failed to retrieve cancelled batch"
    | row none ↦ error 500 "failed to retrieve cancelled batch"
    | row (some br) ↦
        reply 200
          (object (record (to_batch_object br) { status = "cancelled"; cancelled_at = some now }))
  ]

  unfoldable pub cancel_batch : String → ℕ → Store D → Store D × Reply Body
  unfolding to_batch_object get_batch_request fail_batch_request
  cancel_batch id now s = elim (get_batch_request id s) [
    | lookup_error ↦ (s, error 500 "failed to query batch request")
    | row none ↦ (s, error 404 "batch not found")
    | row (some br) ↦
        if not (str_eq br.status "pending")
        then (s, error 409 (str_append "cannot cancel batch in status " br.status))
        else let (s', done) = fail_batch_request id "cancelled by user" now s in
          if done then (s', cancelled_reply id now s') else (s', error 500 "failed to cancel batch")
  ]

module _ {D : Database} (codec : Codec) where
  -- `id` is the id that the clock gives, batch_<millis>_<nanos % 10000>.
  unfoldable pub create_batch : String → ℕ → Option String → Store D → Store D × Reply Body
  unfolding create_batch_request
  create_batch id now none s = (s, error 400 "failed to read request body")
  create_batch id now (some body) s = elim (codec.decode_request body) [
    | none ↦ (s, error 400 (str_append "invalid JSON: " (codec.request_error body)))
    | some req ↦
        let (s', done) = create_batch_request id req.model body now s in
        if done
        then (s', reply 202 (object (record (blank id req.model now) { status = "pending" })))
        else (s', error 500 "failed to enqueue request")
  ]

  -- The path behind /v1/batches.
  abbrev route : String → Method → String → ℕ → Option String → Store D → Store D × Reply Body
  route path post id now body s =
      if str_eq path ""
      then create_batch id now body s
      else if has_suffix "/cancel" path
      then cancel_batch (trim_suffix "/cancel" path) now s
      else (s, error 405 "method not allowed")
  route path get id now body s =
      if str_eq path "" then (s, list_batches s) else (s, retrieve_batch path s)
  route path other id now body s = (s, error 405 "method not allowed")

  unfoldable pub serve_http : String → String → ℕ → Request → Store D → Store D × Reply Body
  unfolding create_batch cancel_batch list_batches retrieve_batch
  serve_http api_key id now r s =
      if not (authenticate_api_key api_key r.headers)
      then (s, error 401 "unauthorized")
      else route (trim_prefix "/" (trim_prefix "/v1/batches" r.path)) r.method id now r.body s

module _ {D : Database} (env : Env) (codec : Codec) (format : ℕ → ℕ → String) where
  -- The start of processNext: a worker, and the oldest pending request. In development mode a delay
  -- follows.
  unfoldable pub next_pending : Manager D → Store D → Option BatchRequest
  next_pending m s =
      if not (has_available_worker env m) then none else elim (get_pending_batch_requests 1 s) [
        | none ↦ none
        | some [] ↦ none
        | some (br ∷ brs) ↦ some br
      ]

  abbrev fail_in : String → String → ℕ → Manager D → Manager D
  fail_in id message now m = record m {
    store = elim m.store [ none ↦ none | some s ↦ some (fail_batch_request id message now s).0 ];
  }

  abbrev dispatched :
      BatchRequest → ℕ → Manager D × Option Dispatched → Manager D × Option Dispatched
  dispatched br now (m, none) =
      (fail_in br.request_id "dispatch failed: no available worker" now m, none)
  dispatched br now (m, some d) = (m, some d)

  -- From the request that was picked to the wait for its answer.
  unfoldable pub start_batch :
      BatchRequest → ℕ → Manager D → Store D → Manager D × Option Dispatched
  unfolding dispatch_request
  start_batch br now m s =
      let (s', done) = set_batch_request_processing br.request_id now s in
      let m' : Manager D = record m { store = some s' } in
      if not done then (m', none) else elim (codec.decode_request br.payload) [
        | none ↦ (
          fail_in br.request_id
              (str_append "invalid stored payload: " (codec.request_error br.payload)) now m',
          none,
        )
        | some req ↦
            dispatched br now (dispatch_request (dispatch env) format now (len br.payload) req m')
      ]

-- What is stored of the request after the wait.
unfoldable pub settle_batch :
    {D : Database} → Codec → String → Dispatched → Answer → ℕ → Store D → Store D × Bool
unfolding build_response complete_batch_request fail_batch_request
settle_batch codec id d (answered r) now s =
    complete_batch_request id (codec.encode_response (build_response codec r d.model now)) now s
settle_batch codec id d (errored e) now s = fail_batch_request id e.error now s
settle_batch codec id d timed_out now s =
    fail_batch_request id "worker did not respond in time" now s
settle_batch codec id d stopped now s = (s, true)

-- The end of processNext.
unfoldable pub finish_batch :
    {D : Database} → Codec → Bool → String → Dispatched → Answer → ℕ → Manager D → Manager D
unfolding settle_batch settle_unit
finish_batch codec monitored id d a now m = record m {
  queue = release d a m.queue;
  store = elim m.store [
    | none ↦ none
    | some s ↦ some (settle_batch codec id d a now (settle_unit monitored d a now s)).0
  ];
}
