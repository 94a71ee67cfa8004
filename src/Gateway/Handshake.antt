-- ===== src/Gateway/Handshake.antt =====
-- internal/manager/gateway: the connection of a worker (ServeHTTP of websocket.go, doChallenge of
-- handshake.go). The upgrade, the random nonce and the worker's reply are part of the request.
use synergia.Prelude.{
  ℕ, String, Bool, false, not, ◌&&◌, ◌||◌, Option, none, some, [], ◌∷◌, ◌++◌, str_eq, str_append,
  if◌then◌else◌, ◌==◌, length, Outcome, returns, ◌>>=◌,
}
use synergia.Protocol.{SignedResponse, challenge}
use synergia.Store.State.{Database, Store}
use synergia.Store.Workers.{upsert_worker, set_worker_llm_hash, set_worker_online_if_allowed}
use synergia.Store.Sync.{
  update_worker_sync_status, update_worker_backend_sync_status, update_worker_binary_sync_status,
  set_worker_backend_hash,
}
use synergia.Store.Versions.{get_client_version_config}
use synergia.Gateway.State.{Bytes, WorkerConn, Env, Manager, lookup, insert, verify_or_register_key}
use synergia.Gateway.Dispatch.{write}

-- What the manager reads after the challenge: nothing in time, an undecodable or other message, or
-- a signed response.
pub data Reply : Type 0 where
  no_reply : Reply
  invalid : Reply
  signed : SignedResponse → Reply

-- The headers, and what the outside answers: the connection after the upgrade, the nonce that
-- crypto/rand gives, the reply to the challenge, and the time.
pub record Request : Type 0 where
  pub authorization : String
  pub fingerprint : String
  pub public_key : String
  pub model : String
  pub quantisation : String
  pub version : String
  pub llm_hash : String
  pub backend_hash : String
  pub os : String
  pub arch : String
  pub upgraded : Option ℕ
  pub nonce : Option Bytes
  pub reply : Reply
  pub now : ℕ

-- How ServeHTTP ends: an HTTP error with its status, a failed upgrade, a failed challenge, or a
-- worker whose read loop is started.
pub data Served : Type 0 where
  refused : ℕ → Served
  not_upgraded : Served
  challenge_failed : Served
  connected : WorkerConn → Served

-- The workerConn of an upgraded request.
abbrev pub worker_conn : Request → ℕ → Bytes → WorkerConn
worker_conn r conn pub_key = record {
  conn = conn;
  info = record {
    fingerprint = r.fingerprint;
    public_key = pub_key;
    model = r.model;
    quantisation = r.quantisation;
    version = r.version;
    os = r.os;
    arch = r.arch;
    llm_hash = r.llm_hash;
    connected_at = r.now;
  };
}

abbrev pub public_key_size : ℕ
public_key_size = 32

-- The checks of the signed response; the write of the challenge is in `do_challenge`.
abbrev pub signature_ok : Env → Bytes → Bytes → Reply → Bool
signature_ok env pub_key nonce no_reply = false
signature_ok env pub_key nonce invalid = false
signature_ok env pub_key nonce (signed resp) =
    if not (str_eq resp.nonce (env.base64_encode nonce))
    then false
    else elim (env.base64_decode resp.signature) [
      | none ↦ false
      | some sig ↦ env.verify pub_key nonce sig
    ]

module _ {D : Database} where
  -- The new entry replaces that of an older connection, which is closed.
  unfoldable pub register_worker : WorkerConn → Manager D → Manager D
  register_worker wc m = record m {
    gateway = record m.gateway { workers = insert wc.info.fingerprint wc m.workers };
    closed = elim (lookup wc.info.fingerprint m.workers) [
      | none ↦ m.closed
      | some old ↦ m.closed ++ (old.conn ∷ [])
    ];
  }

module _ {D : Database} (env : Env) where
  unfoldable pub do_challenge : ℕ → Bytes → Option Bytes → Reply → Manager D → Manager D × Bool
  do_challenge conn pub_key none reply m = (m, false)
  do_challenge conn pub_key (some nonce) reply m =
      let (m', sent) = write env conn (challenge (env.base64_encode nonce)) m in
      if sent then (m', signature_ok env pub_key nonce reply) else (m', false)

  -- "Persist worker in DB"
  unfoldable pub persist_worker : Request → Store D → Outcome (Store D)
  persist_worker r s = do
    let s₁ =
        (upsert_worker r.fingerprint r.public_key r.model r.quantisation r.version r.os r.arch r.now
          s).0
    s₂ ←
        (if str_eq r.llm_hash "" then returns s₁ else do
          (s', _) ←
              update_worker_sync_status env.sha256_hex r.fingerprint
                (set_worker_llm_hash r.fingerprint r.llm_hash s₁).0
          returns s')
    let s₃ =
        if str_eq r.backend_hash ""
        then s₂
        else (set_worker_backend_hash r.fingerprint r.backend_hash s₂).0
    let s₄ = (update_worker_backend_sync_status r.fingerprint s₃).0
    let s₅ : Store D = elim (get_client_version_config s₄) [
      | none ↦ s₄
      | some cfg ↦ (update_worker_binary_sync_status r.fingerprint cfg.target_version s₄).0
    ]
    returns (set_worker_online_if_allowed r.fingerprint s₅)

  -- Registration in memory and in the database.
  unfoldable pub admit : Request → WorkerConn → Manager D → Outcome (Manager D × Served)
  unfolding register_worker persist_worker
  admit r wc m =
      let m' = register_worker wc m in
      elim m'.store [
        | none ↦ returns (m', connected wc)
        | some s ↦ do s' ← persist_worker r s; returns (record m' { store = some s' }, connected wc)
      ]

  -- After the checks of the headers: the upgrade, and in TOFU mode the challenge.
  unfoldable pub upgrade : Request → Bytes → String → Manager D → Outcome (Manager D × Served)
  unfolding do_challenge admit
  upgrade r pub_key worker_key m = elim r.upgraded [
    | none ↦ returns (m, not_upgraded)
    | some conn ↦
        let wc = worker_conn r conn pub_key in
        let (m', proved) = do_challenge conn pub_key r.nonce r.reply m in
        if str_eq worker_key ""
        then if proved
          then admit r wc m'
          else returns (record m' { closed = m'.closed ++ (conn ∷ []) }, challenge_failed)
        else admit r wc m
  ]

  unfoldable pub serve_http : Request → Manager D → Outcome (Manager D × Served)
  unfolding upgrade verify_or_register_key
  serve_http r m =
      if not (str_eq m.worker_key "")
        && not (str_eq r.authorization (str_append "Bearer " m.worker_key))
      then returns (m, refused 401)
      else if str_eq r.fingerprint "" || str_eq r.public_key ""
      then returns (m, refused 400)
      else elim (env.base64_decode r.public_key) [
        | none ↦ returns (m, refused 400)
        | some pub_key ↦
            if not (length pub_key == public_key_size)
            then returns (m, refused 400)
            else if not (str_eq r.fingerprint (env.sha256_bytes_hex pub_key))
            then returns (m, refused 400)
            else let (g, known) = verify_or_register_key r.fingerprint pub_key m.gateway in
              if known
              then upgrade r pub_key m.worker_key (record m { gateway = g })
              else returns (record m { gateway = g }, refused 403)
      ]
