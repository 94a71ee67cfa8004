-- ===== src/Protocol.antt =====
-- internal/protocol/messages.go and handshake.go: what the manager and its workers exchange. The
-- `type` field of a message is its constructor. Temperatures and raw JSON are texts.
use synergia.Prelude.{ℕ, ℤ, String, Bool, List}

pub record ChatMessage : Type 0 where
  pub role : String
  pub content : String

pub record WorkUnitParams : Type 0 where
  pub temperature : String
  pub max_tokens : ℤ
  pub response_format : String

pub record WorkUnit : Type 0 where
  pub id : String
  pub model : String
  pub params : WorkUnitParams
  pub messages : List ChatMessage

pub record Result : Type 0 where
  pub id : String
  pub fingerprint : String
  pub output : String
  pub processing_time_ms : ℤ
  pub signature : String

pub record Error : Type 0 where
  pub id : String
  pub error : String

pub record Status : Type 0 where
  pub state : String
  pub llm_hash : String
  pub backend_hash : String
  pub backend_version : String
  pub gpu_avg : ℤ

pub record ModelUpdate : Type 0 where
  pub role : String
  pub model : String
  pub quantisation : String
  pub filename : String
  pub model_file_hash : String
  pub llm_hash : String
  pub context_size : ℤ
  pub endpoint_type : String
  pub parallel_slots : ℤ
  pub gpu_layers : ℤ
  pub flash_attention : Bool

-- BinaryUpdate and BackendUpdate have the same fields.
pub record Update : Type 0 where
  pub version : String
  pub download_url : String
  pub fallback_url : String
  pub sha256 : String

pub record InitialSync : Type 0 where
  pub has_binary : Bool
  pub has_model : Bool
  pub role : String

pub record SignedResponse : Type 0 where
  pub nonce : String
  pub signature : String

-- What the manager writes to a worker.
pub data Outgoing : Type 0 where
  work_unit : WorkUnit → Outgoing
  heartbeat_ack : Outgoing
  model_update : ModelUpdate → Outgoing
  binary_update : Update → Outgoing
  backend_update : Update → Outgoing
  challenge : String → Outgoing

-- What a message from a worker decodes to. A body that does not decode is `bad_envelope` where its
-- type cannot be read, and `bad_body` where the type is known.
pub data Incoming : Type 0 where
  bad_envelope : Incoming
  bad_body : Incoming
  result : Result → Incoming
  error : Error → Incoming
  heartbeat : Incoming
  status : Status → Incoming
  llm_hash_report : String → Incoming
  initial_sync : InitialSync → Incoming
  unknown_type : String → Incoming

-- The chat completion messages of the HTTP API. A response's usage is a text.
pub record ChatCompletionRequest : Type 0 where
  pub model : String
  pub messages : List ChatMessage
  pub temperature : String
  pub max_tokens : ℤ
  pub response_format : String

pub record ChatCompletionChoice : Type 0 where
  pub index : ℤ
  pub message : ChatMessage
  pub finish_reason : String

pub record ChatCompletionResponse : Type 0 where
  pub id : String
  pub object : String
  pub created : ℕ
  pub model : String
  pub choices : List ChatCompletionChoice
  pub usage : String
