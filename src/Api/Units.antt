-- ===== src/Api/Units.antt =====
-- What internal/manager/api/completions.go and batch.go do alike: a work unit for a request, its
-- dispatch, the wait for its answer, and the response.
use synergia.Prelude.{
  ℕ, pos, String, Bool, true, false, Option, none, some, List, [], ◌∷◌, str_eq, contains, get_elem?,
  if◌then◌else◌, ◌≡◌,
}
use synergia.Protocol.{
  ChatMessage, WorkUnit, Result, Error, ChatCompletionRequest, ChatCompletionResponse,
}
use synergia.Queue
use synergia.Queue.{PendingUnit}
use synergia.Store.Models.{WorkerConfig}
use synergia.Store.State.{Database, Store}
use synergia.Store.Consents.{Lookup, row, error, get_worker_config}
use synergia.Store.Units.{record_work_unit, complete_work_unit, fail_work_unit, timeout_work_unit}
use synergia.Gateway.State.{Manager, WorkerInfo}
use synergia.Latency.Monitor.{record_sample}
use synergia.Api.Http.{Codec}

abbrev pub pause_trigger : String
pause_trigger = "##############PAUSE##############"

unfoldable pub contains_pause_trigger : List ChatMessage → Bool
contains_pause_trigger [] = false
contains_pause_trigger (m ∷ ms) =
    let rest = contains_pause_trigger ms in if contains pause_trigger m.content then true else rest

unfoldable pub build_work_unit : String → ChatCompletionRequest → WorkUnit
build_work_unit id req = record {
  id = id;
  model = req.model;
  params = record {
    temperature = req.temperature;
    max_tokens = req.max_tokens;
    response_format = req.response_format;
  };
  messages = req.messages;
}

-- The configured role, or the default one.
abbrev pub role_of_config : Lookup WorkerConfig → String
role_of_config (row none) = "inference"
role_of_config (row (some c)) = if str_eq c.preferred_role "" then "inference" else c.preferred_role
role_of_config error = "inference"

-- What a handler knows of its dispatched unit while it waits: the id, the handle of its channels, and
-- what the latency monitor is told of it.
pub record Dispatched : Type 0 where
  pub unit_id : String
  pub handle : ℕ
  pub fingerprint : String
  pub role : String
  pub model : String
  pub payload_bytes : ℕ

-- How the wait ends. Only the batch handler can be stopped.
pub data Answer : Type 0 where
  answered : Result → Answer
  errored : Error → Answer
  timed_out : Answer
  stopped : Answer

-- The select over the two channels, the timer and the stop channel.
pub data Receives (handle : ℕ) (q : Queue.Queue) : Answer → Type 0 where
  from_result :
      {u : PendingUnit} {r : Result} {rs : List Result}
      → get_elem? q.units handle ≡ some u
      → u.result_ch ≡ r ∷ rs
      → Receives handle q (answered r)
  from_error :
      {u : PendingUnit} {e : Error} {es : List Error}
      → get_elem? q.units handle ≡ some u
      → u.error_ch ≡ e ∷ es
      → Receives handle q (errored e)
  from_timer : Receives handle q timed_out
  from_stop : Receives handle q stopped

abbrev choices_of : ChatCompletionResponse → Bool
choices_of r = elim r.choices [ [] ↦ false | _ ∷ _ ↦ true ]

-- The worker's output, as it stands inside a response.
unfoldable pub wrap_output : Result → String → ℕ → ChatCompletionResponse
wrap_output r model now = record {
  id = r.id;
  object = "chat.completion";
  created = now;
  model = model;
  choices =
      record {
        index = pos 0;
        message = record { role = "assistant"; content = r.output };
        finish_reason = "stop";
      }
      ∷ [];
  usage = "";
}

-- A full response of the worker is passed through, with its id, time and model set.
unfoldable pub build_response : Codec → Result → String → ℕ → ChatCompletionResponse
unfolding wrap_output
build_response codec r model now = elim (codec.decode_response r.output) [
  | none ↦ wrap_output r model now
  | some resp ↦
      if choices_of resp
      then record resp { id = r.id; object = "chat.completion"; created = now; model = model }
      else wrap_output r model now
]

-- A handler that gives up waiting takes its unit off the queue.
abbrev pub release : Dispatched → Answer → Queue.Queue → Queue.Queue
release d (answered r) q = q
release d (errored e) q = q
release d timed_out q = Queue.cancel d.unit_id q
release d stopped q = Queue.cancel d.unit_id q

module _ {D : Database} where
  -- The unit's row, and the latency sample, where a monitor is attached.
  unfoldable pub settle_unit : Bool → Dispatched → Answer → ℕ → Store D → Store D
  unfolding record_sample
  settle_unit monitored d (answered r) now s =
      let s' = (complete_work_unit d.unit_id r.processing_time_ms now s).0 in
      if monitored
      then if str_eq d.fingerprint ""
        then s'
        else record_sample d.fingerprint d.role d.payload_bytes r.processing_time_ms now s'
      else s'
  settle_unit monitored d (errored e) now s = (fail_work_unit d.unit_id e.error now s).0
  settle_unit monitored d timed_out now s = (timeout_work_unit d.unit_id now s).0
  settle_unit monitored d stopped now s = s

  -- Registration, dispatch by `send`, and on success the record of the unit; on failure the
  -- registration is cancelled. `body_bytes` is the length of the request's body.
  unfoldable pub dispatch_request :
      (WorkUnit → Manager D → Manager D × Option WorkerInfo)
      → (ℕ → ℕ → String)
      → ℕ
      → ℕ
      → ChatCompletionRequest
      → Manager D
      → Manager D × Option Dispatched
  unfolding build_work_unit
  dispatch_request send format now body_bytes req m =
      let (q, unit_id) = Queue.next_id format now m.queue in
      let (q', handle) = Queue.register unit_id q in
      let (m', to) = send (build_work_unit unit_id req) (record m { queue = q' }) in
      elim to [
        | none ↦ (record m' { queue = Queue.cancel unit_id m'.queue }, none)
        | some info ↦ (
          record m' {
            store = elim m'.store [
              | none ↦ none
              | some s ↦ some (record_work_unit unit_id info.fingerprint req.model s).0
            ];
          },
          some (record {
            unit_id = unit_id;
            handle = handle;
            fingerprint = info.fingerprint;
            role = elim m'.store [
              | none ↦ "inference"
              | some s ↦ role_of_config (get_worker_config info.fingerprint s)
            ];
            model = req.model;
            payload_bytes = body_bytes;
          }),
        )
      ]
