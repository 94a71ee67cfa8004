-- ===== src/Api/Tests.antt =====
-- The theorems about the HTTP API at concrete inputs, over the database in memory.
use mathlib.Core.Option
use synergia.Store.Status.{status_at}
use synergia.Prelude.{ap, ◌≡◌, ◌≢◌, refl, pos, true, false, none, some, [], ◌∷◌, inr, ne_of_str_eq}
use synergia.Protocol.{Result, WorkUnit, work_unit}
use synergia.Store.Models.{BatchRequest}
use synergia.Store.State.{Store, memory, empty_store}
use synergia.Store.Batches.{set_batch_request_processing}
use synergia.Store.Tests.{worker, store_with}
use synergia.Store.Withdrawal.{OneEach}
use synergia.Store.Consents.{set_consent, has_consent}
use synergia.Gateway.State.{WorkerConn, Manager}
use synergia.Gateway.Dispatch.{dispatch_forced}
use synergia.Gateway.Tests.{env, conn, manager, ready_store}
use synergia.Api.Http.{Codec, reply, post}
use synergia.Api.Units.{Dispatched, answered, timed_out}
use synergia.Api.Batch.{Body, object, to_batch_object, cancel_batch, settle_batch}
use synergia.Api.Batch.Outcomes.{row_at, status_after, settle_batch_ends, cancelled_batch_completes}
use synergia.Api.Goodbye.{GoodbyeRequest, Parsers, goodbye_handler}
use synergia.Api.Goodbye.Signed.{IsSigned, goodbye_handler-IsSigned}
use synergia.Api.Consents.{ConsentRequest, write_consent, ok}
use synergia.Api.Consents.Withdrawal.{withdrawal_stops_dispatch}

abbrev codec : Codec
codec = record {
  decode_request = λ body. none;
  decode_response = λ body. none;
  encode_response = λ r. "response";
  request_error = λ body. "error";
}

abbrev pending_request : BatchRequest
pending_request = record {
  request_id = "batch_1";
  llm_model = "mistral";
  payload = "{}";
  status = "pending";
  result = "";
  err_message = "";
  created_at = 5;
  updated_at = 5;
}

abbrev batch_store : Store memory
batch_store = record empty_store { batches = pending_request ∷ [] }

abbrev dispatched : Dispatched
dispatched = record {
  unit_id = "wu-1";
  handle = 0;
  fingerprint = "aabbccddeeff";
  role = "inference";
  model = "mistral";
  payload_bytes = 2;
}

abbrev answer : Result
answer = record {
  id = "wu-1";
  fingerprint = "aabbccddeeff";
  output = "out";
  processing_time_ms = pos 12;
  signature = "";
}

times_out : (settle_batch codec "batch_1" dispatched timed_out 9 batch_store).1 ≡ true
unfolding settle_batch
times_out = refl

settle_batch_ends_example :
    (b' : BatchRequest) × (row_at "batch_1"
        (settle_batch codec "batch_1" dispatched timed_out 9 batch_store).0
      ≡ some b')
    × (b'.status ≡ status_after timed_out "pending")
settle_batch_ends_example =
    settle_batch_ends codec "batch_1" dispatched timed_out 9 batch_store pending_request refl
      times_out

abbrev cancelled : Body
unfolding to_batch_object
cancelled =
    object
      (record (to_batch_object (record pending_request {
        status = "failed";
        err_message = "cancelled by user";
        updated_at = 6;
      })) { status = "cancelled"; cancelled_at = some 6 })

confirmed : (cancel_batch "batch_1" 6 batch_store).1 ≡ reply 200 cancelled
unfolding cancel_batch cancelled
confirmed = refl

sets : (set_batch_request_processing "batch_1" 7 (cancel_batch "batch_1" 6 batch_store).0).1 ≡ true
unfolding cancel_batch set_batch_request_processing
sets = refl

settles :
    (settle_batch codec "batch_1" dispatched
      (answered answer)
      8
      (set_batch_request_processing "batch_1" 7 (cancel_batch "batch_1" 6 batch_store).0).0).1
    ≡ true
unfolding settle_batch
settles = refl

cancelled_batch_completes_example :
    ((c : BatchRequest) × (row_at "batch_1"
          (set_batch_request_processing "batch_1" 7 (cancel_batch "batch_1" 6 batch_store).0).0
        ≡ some c)
      × (c.status ≡ "failed"))
    × ((c : BatchRequest) × (row_at "batch_1"
            (settle_batch codec "batch_1" dispatched
              (answered answer)
              8
              (set_batch_request_processing "batch_1" 7
                (cancel_batch "batch_1" 6 batch_store).0).0).0
          ≡ some c)
        × (c.status ≡ "completed"))
cancelled_batch_completes_example =
    cancelled_batch_completes codec "batch_1" dispatched answer 6 7 8 batch_store pending_request
      cancelled refl confirmed sets settles

abbrev farewell : GoodbyeRequest
farewell = record {
  fingerprint = "aabbccddeeff";
  payload = "goodbye:aabbccddeeff:2026-01-01T00:00:00Z";
  signature = "00";
}

abbrev parsers : Parsers
parsers = record { parse_time = λ t. some 1000; hex_decode = λ t. some (0 ∷ []); bytes = λ t. [] }

-- A farewell that is one second old.
deletes :
    goodbye_handler env parsers post (some farewell) 2000 (store_with worker) ≢ store_with worker
unfolding goodbye_handler
deletes e =
    ne_of_str_eq "deleted" "available" refl
      (Option.some-injective _ _ (ap (λ s. status_at "aabbccddeeff" s) e))

goodbye_handler-IsSigned_example : IsSigned env parsers farewell 2000 (store_with worker)
goodbye_handler-IsSigned_example =
    goodbye_handler-IsSigned env parsers farewell post 2000 (store_with worker) deletes

abbrev withdrawal : ConsentRequest
withdrawal = record {
  fingerprint = "aabbccddeeff";
  accepted = false;
  hardware_stats = false;
  config_preferences = false;
  hardware = none;
}

-- Two workers that have consented.
abbrev both : Store memory
unfolding set_consent
both = (set_consent "112233445566" true false false none 8 ready_store).0

both-OneEach : OneEach both
unfolding both
both-OneEach = (refl, (refl, tt))

abbrev second : WorkerConn
second = record { conn = 2; info = record (conn 1).info { fingerprint = "112233445566" } }

abbrev withdrawn_manager : Manager memory
withdrawn_manager =
    manager (write_consent (some (some withdrawal)) 9 both).0
      (("aabbccddeeff", conn 1) ∷ ("112233445566", second) ∷ [])

abbrev unit : WorkUnit
unit = record {
  id = "wu-2";
  model = "mistral";
  params = record { temperature = ""; max_tokens = pos 9; response_format = "" };
  messages = [];
}

withdraws : (write_consent (some (some withdrawal)) 9 both).1 ≡ reply 200 ok
unfolding write_consent both
withdraws = refl

forces :
    dispatch_forced env unit withdrawn_manager
    ≡ (record withdrawn_manager { sent = (2, work_unit unit) ∷ [] }, some second.info)
unfolding dispatch_forced write_consent both has_consent
forces = refl

withdrawal_stops_dispatch_example : second.info.fingerprint ≢ "aabbccddeeff"
withdrawal_stops_dispatch_example =
    withdrawal_stops_dispatch withdrawal 9 both env unit withdrawn_manager
      (record withdrawn_manager { sent = (2, work_unit unit) ∷ [] }) second.info refl both-OneEach
      withdraws refl (inr forces)
