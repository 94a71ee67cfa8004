-- ===== src/Client/Connection.antt =====
-- internal/client/connection: the worker's side of the WebSocket connection (websocket.go and
-- handshake.go). Decoding is part of what is received.
use synergia.Prelude.{
  ℕ, ◌*◌, ℤ, pos, String, Bool, true, false, Option, none, some, List, [], ◌∷◌, ◌++◌, length, ltb,
  str_eq, str_append, if◌then◌else◌,
}
use synergia.Protocol.{
  WorkUnit, Result, Error, Status, InitialSync, SignedResponse, ModelUpdate, Update, Outgoing,
  work_unit, heartbeat_ack, model_update, binary_update, backend_update, challenge,
}
use synergia.Gateway.State.{Bytes, Env}
pub mod Challenges

-- What a worker writes to the manager.
pub data ToManager : Type 0 where
  result : Result → ToManager
  error : Error → ToManager
  heartbeat : ToManager
  status : Status → ToManager
  llm_hash_report : String → ToManager
  initial_sync : InitialSync → ToManager
  signed_response : SignedResponse → ToManager

pub record Identity : Type 0 where
  pub fingerprint : String
  pub public_key : Bytes
  pub private_key : Bytes

-- `opened` is conn != nil, and `sent` logs what was written, oldest first.
pub record Connection : Type 0 where
  pub worker_key : String
  pub identity : Identity
  pub model : String
  pub quantisation : String
  pub llm_hash : String
  pub backend_hash : String
  pub backend_version : String
  pub gpu_avg : ℤ
  pub opened : Bool
  pub work_unit_ch : List WorkUnit
  pub model_update_ch : List ModelUpdate
  pub binary_update_ch : List Update
  pub backend_update_ch : List Update
  pub sent : List ToManager

unfoldable pub new : String → Identity → String → String → Connection
new worker_key identity model quantisation = record {
  worker_key = worker_key;
  identity = identity;
  model = model;
  quantisation = quantisation;
  llm_hash = "";
  backend_hash = "";
  backend_version = "";
  gpu_avg = pos 0;
  opened = false;
  work_unit_ch = [];
  model_update_ch = [];
  binary_update_ch = [];
  backend_update_ch = [];
  sent = [];
}

-- The headers of the dial, an absent one being empty.
pub record DialHeaders : Type 0 where
  pub authorization : String
  pub fingerprint : String
  pub public_key : String
  pub model : String
  pub quantisation : String
  pub llm_hash : String
  pub backend_hash : String

unfoldable pub dial_headers : Env → Connection → DialHeaders
dial_headers env c = record {
  authorization = if str_eq c.worker_key "" then "" else str_append "Bearer " c.worker_key;
  fingerprint = c.identity.fingerprint;
  public_key = env.base64_encode c.identity.public_key;
  model = c.model;
  quantisation = c.quantisation;
  llm_hash = c.llm_hash;
  backend_hash = c.backend_hash;
}

-- The delay of Run before the next attempt, in seconds.
abbrev pub next_backoff : ℕ → ℕ
next_backoff backoff = if ltb 60 (backoff * 2) then 60 else backoff * 2

-- `writes m` is conn.WriteJSON(m) == nil; the result is err == nil.
unfoldable pub send : (ToManager → Bool) → ToManager → Connection → Connection × Bool
send writes m c =
    if c.opened
    then if writes m then (record c { sent = c.sent ++ (m ∷ []) }, true) else (c, false)
    else (c, false)

-- The message of SendStatus.
abbrev pub status_of : String → Connection → Status
status_of state c = record {
  state = state;
  llm_hash = c.llm_hash;
  backend_hash = c.backend_hash;
  backend_version = c.backend_version;
  gpu_avg = c.gpu_avg;
}

unfoldable pub send_status : (ToManager → Bool) → String → Connection → Connection × Bool
unfolding send
send_status writes state c = send writes (status (status_of state c)) c

unfoldable pub send_initial_sync :
    (ToManager → Bool) → Bool → Bool → String → Connection → Connection × Bool
unfolding send
send_initial_sync writes has_binary has_model role =
    send writes
      (initial_sync (record { has_binary = has_binary; has_model = has_model; role = role }))

unfoldable pub send_llm_hash_report : (ToManager → Bool) → String → Connection → Connection × Bool
unfolding send
send_llm_hash_report writes hash = send writes (llm_hash_report hash)

unfoldable pub set_gpu_avg : ℤ → Connection → Connection
set_gpu_avg avg c = record c { gpu_avg = avg }

unfoldable pub set_llm_hash : String → Connection → Connection
set_llm_hash hash c = record c { llm_hash = hash }

unfoldable pub set_backend_hash : String → Connection → Connection
set_backend_hash hash c = record c { backend_hash = hash }

unfoldable pub set_backend_version : String → Connection → Connection
set_backend_version version c = record c { backend_version = version }

-- buildChallengeResponse, for a challenge that decodes. `sign` is ed25519.Sign.
unfoldable pub build_challenge_response :
    Env → (Bytes → Bytes → Bytes) → String → Bytes → Option SignedResponse
build_challenge_response env sign nonce priv_key = elim (env.base64_decode nonce) [
  | none ↦ none
  | some bytes ↦
      some (record { nonce = nonce; signature = env.base64_encode (sign priv_key bytes) })
]

-- What a message of the manager decodes to.
pub data FromManager : Type 0 where
  bad_envelope : FromManager
  bad_body : FromManager
  bad_challenge : FromManager
  message : Outgoing → FromManager
  unknown_type : String → FromManager

-- One round of readLoop: it goes on, it waits for room in a channel, or it ends with an error.
pub data Received : Type 0 where
  goes_on : Connection → Received
  waits : Received
  ends : Connection → Received

abbrev room : {A : Type 0} → ℕ → List A → Received → Received
room cap ch r = if ltb (length ch) cap then r else waits

module _ (env : Env) (sign : Bytes → Bytes → Bytes) (writes : ToManager → Bool) where
  -- The reply to a challenge goes through Send.
  abbrev reply_challenge : Option SignedResponse → Connection → Received
  reply_challenge none c = ends c
  reply_challenge (some resp) c =
      let (c', done) = send writes (signed_response resp) c in if done then goes_on c' else ends c'

  unfoldable pub receive : FromManager → Connection → Received
  unfolding send build_challenge_response
  receive bad_envelope c = goes_on c
  receive bad_body c = goes_on c
  receive bad_challenge c = ends c
  receive (unknown_type t) c = goes_on c
  receive (message (work_unit wu)) c =
      room 10 c.work_unit_ch (goes_on (record c { work_unit_ch = c.work_unit_ch ++ (wu ∷ []) }))
  receive (message (model_update mu)) c =
      room 5 c.model_update_ch
        (goes_on (record c { model_update_ch = c.model_update_ch ++ (mu ∷ []) }))
  receive (message (binary_update bu)) c =
      room 1 c.binary_update_ch
        (goes_on (record c { binary_update_ch = c.binary_update_ch ++ (bu ∷ []) }))
  receive (message (backend_update bu)) c =
      room 1 c.backend_update_ch
        (goes_on (record c { backend_update_ch = c.backend_update_ch ++ (bu ∷ []) }))
  receive (message (challenge nonce)) c =
      reply_challenge (build_challenge_response env sign nonce c.identity.private_key) c
  receive (message heartbeat_ack) c = goes_on c
