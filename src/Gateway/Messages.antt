-- ===== src/Gateway/Messages.antt =====
-- internal/manager/gateway/websocket.go: readLoop, one handler for each message type.
use synergia.Prelude.{
  String, Bool, false, not, ◌&&◌, ◌||◌, Option, none, some, List, [], ◌∷◌, ◌++◌, str_eq, str_append,
  if◌then◌else◌, ◌==◌, is_positive, check_prefix, Outcome, returns, panics, hangs, ◌>>=◌,
}
use synergia.Protocol.{
  Result, Error, Status, InitialSync, Incoming, heartbeat_ack, backend_update, model_update,
}
use synergia.Backend.{expand_url}
use synergia.Queue
use synergia.Store.Models.{Worker}
use synergia.Store.State.{Database, Store}
use synergia.Store.Workers.{
  get_worker, set_worker_offline, set_worker_available_if_processing, set_worker_llm_hash,
  set_worker_gpu_avg, set_worker_status_if_not_withdrawn,
}
use synergia.Store.Consents.{has_consent}
use synergia.Store.Roles.{get_role_model}
use synergia.Store.Sync.{
  compute_llm_hash, update_worker_sync_status, update_worker_backend_sync_status,
  set_worker_backend_hash, set_worker_backend_version,
}
use synergia.Store.Versions.{get_backend_version_config}
use synergia.Gateway.State.{WorkerConn, Env, Manager, lookup, delete}
use synergia.Gateway.Dispatch.{write}

-- The log lines slice the fingerprint, `Fingerprint[:8]`.
abbrev pub sliced : {A : Type 0} → WorkerConn → A → Outcome A
sliced wc a = if check_prefix wc.info.fingerprint 8 then returns a else panics

unfoldable pub fallback_url : String → String → String → String
fallback_url version os arch =
    str_append "/v1/backend/download?version="
      (str_append version (str_append "&os=" (str_append os (str_append "&arch=" arch))))

-- The worker's stored hash, read only where the role's hash is known.
abbrev reported_hash : Option Worker → String
reported_hash none = ""
reported_hash (some w) = w.llm_hash

module _ {D : Database} (env : Env) where
  abbrev on_store : (Store D → Store D) → Manager D → Manager D
  on_store f m = elim m.store [ none ↦ m | some s ↦ record m { store = some (f s) } ]

  -- The worker is made available before the result is delivered.
  unfoldable pub on_result : WorkerConn → Result → Manager D → Outcome (Manager D)
  on_result wc r m = do
    let m' = on_store (set_worker_available_if_processing wc.info.fingerprint) m
    (q, _) ← Queue.resolve r.id r m'.queue
    returns (record m' { queue = q })

  unfoldable pub on_error : WorkerConn → Error → Manager D → Outcome (Manager D)
  on_error wc e m = do
    (q, _) ← Queue.reject e.id e m.queue
    returns
        (on_store (set_worker_available_if_processing wc.info.fingerprint) (record m { queue = q }))

  -- The three reports that a status message may carry.
  unfoldable pub status_llm_hash : WorkerConn → Status → Store D → Outcome (Store D)
  status_llm_hash wc st s = if str_eq st.llm_hash "" then returns s else do
    (s', _) ←
        update_worker_sync_status env.sha256_hex wc.info.fingerprint
          (set_worker_llm_hash wc.info.fingerprint st.llm_hash s).0
    sliced wc s'

  unfoldable pub status_backend : WorkerConn → Status → Store D → Outcome (Store D)
  status_backend wc st s =
      if str_eq st.backend_hash "" && str_eq st.backend_version "" then returns s else do
        let s₁ : Store D =
            if str_eq st.backend_hash ""
            then s
            else (set_worker_backend_hash wc.info.fingerprint st.backend_hash s).0
        let s₂ : Store D =
            if str_eq st.backend_version ""
            then s₁
            else (set_worker_backend_version wc.info.fingerprint st.backend_version s₁).0
        sliced wc (update_worker_backend_sync_status wc.info.fingerprint s₂).0

  unfoldable pub status_gpu : WorkerConn → Status → Store D → Store D
  status_gpu wc st s =
      if is_positive st.gpu_avg && has_consent wc.info.fingerprint s
      then (set_worker_gpu_avg wc.info.fingerprint st.gpu_avg s).0
      else s

  -- A worker that has withdrawn its consent cannot report itself ready.
  unfoldable pub status_state : WorkerConn → Status → Store D → Store D
  status_state wc st s =
      if (str_eq st.state "available" || str_eq st.state "online")
        && not (has_consent wc.info.fingerprint s)
      then s
      else set_worker_status_if_not_withdrawn wc.info.fingerprint st.state s

  unfoldable pub on_status : WorkerConn → Status → Store D → Outcome (Store D)
  unfolding status_llm_hash status_backend status_gpu status_state
  on_status wc st s = do
    s₁ ← status_llm_hash wc st s
    s₂ ← status_backend wc st s₁
    returns (status_state wc st (status_gpu wc st s₂))

  -- The log line slices the reported hash, `LLMHash[:16]`, whatever its length.
  unfoldable pub on_llm_hash_report : WorkerConn → String → Store D → Outcome (Store D)
  on_llm_hash_report wc hash s = do
    (s', _) ←
        update_worker_sync_status env.sha256_hex wc.info.fingerprint
          (set_worker_llm_hash wc.info.fingerprint hash s).0
    if check_prefix hash 16 then sliced wc s' else panics

  -- Push the backend binary, if the worker lacks it and a version is configured.
  unfoldable pub push_binary : WorkerConn → InitialSync → Store D → Manager D → Outcome (Manager D)
  unfolding fallback_url get_backend_version_config
  push_binary wc req s m =
      if req.has_binary then returns m else elim (get_backend_version_config s) [
        | none ↦ sliced wc m
        | some cfg ↦
            if str_eq cfg.download_url ""
            then sliced wc m
            else elim (expand_url env.rounds cfg.download_url cfg.version wc.info.os wc.info.arch) [
              | none ↦ hangs
              | some url ↦
                  sliced wc
                    (write env wc.conn
                      (backend_update (record {
                        version = cfg.version;
                        download_url = url;
                        fallback_url = fallback_url cfg.version wc.info.os wc.info.arch;
                        sha256 = cfg.sha256;
                      }))
                      m).0
            ]
      ]

  unfoldable pub push_model : WorkerConn → InitialSync → Store D → Manager D → Outcome (Manager D)
  unfolding get_role_model compute_llm_hash
  push_model wc req s m =
      if str_eq req.role "" then returns m else elim (get_role_model req.role s) [
        | none ↦ sliced wc m
        | some rm ↦
            let known : Bool = not (str_eq rm.model_file_hash "") in
            let llm_hash : String =
              if known then compute_llm_hash env.sha256_hex req.role rm.model_file_hash else "" in
            let worker_hash : String =
              if known then reported_hash (get_worker wc.info.fingerprint s) else "" in
            if not req.has_binary
              || not req.has_model
              || (not (str_eq llm_hash "") && not (str_eq worker_hash llm_hash))
            then sliced wc
                (write env wc.conn
                  (model_update (record {
                    role = req.role;
                    model = rm.llm_model;
                    quantisation = rm.quantisation;
                    filename = rm.model_filename;
                    model_file_hash = rm.model_file_hash;
                    llm_hash = llm_hash;
                    context_size = rm.context_size;
                    endpoint_type = rm.endpoint_type;
                    parallel_slots = rm.parallel_slots;
                    gpu_layers = rm.gpu_layers;
                    flash_attention = rm.flash_attention;
                  }))
                  m).0
            else sliced wc m
      ]

  unfoldable pub on_initial_sync : WorkerConn → InitialSync → Manager D → Outcome (Manager D)
  unfolding push_binary push_model
  on_initial_sync wc req m = elim m.store [
    | none ↦ returns m
    | some s ↦ do m' ← push_binary wc req s m; push_model wc req s m'
  ]

  abbrev with_store_outcome : (Store D → Outcome (Store D)) → Manager D → Outcome (Manager D)
  with_store_outcome f m = elim m.store [
    | none ↦ returns m
    | some s ↦ do s' ← f s; returns (record m { store = some s' })
  ]

  -- One round of the loop. What does not decode and what has no known type is skipped.
  unfoldable pub handle_message : WorkerConn → Incoming → Manager D → Outcome (Manager D)
  unfolding on_result on_error on_status on_llm_hash_report on_initial_sync
  handle_message wc Incoming.bad_envelope m = returns m
  handle_message wc Incoming.bad_body m = returns m
  handle_message wc (Incoming.result r) m = on_result wc r m
  handle_message wc (Incoming.error e) m = on_error wc e m
  handle_message wc Incoming.heartbeat m = returns (write env wc.conn heartbeat_ack m).0
  handle_message wc (Incoming.status st) m = with_store_outcome (on_status wc st) m
  handle_message wc (Incoming.llm_hash_report hash) m =
      with_store_outcome (on_llm_hash_report wc hash) m
  handle_message wc (Incoming.initial_sync req) m = on_initial_sync wc req m
  handle_message wc (Incoming.unknown_type t) m = returns m

-- Does the registry still hold this very connection?
abbrev registered : WorkerConn → List (String × WorkerConn) → Bool
registered wc ws = elim (lookup wc.info.fingerprint ws) [
  | none ↦ false
  | some other ↦ other.conn == wc.conn
]

module _ {D : Database} where
  -- The deferred function of readLoop, run when a read fails.
  unfoldable pub disconnect : WorkerConn → Manager D → Manager D
  disconnect wc m =
      let m' : Manager D =
        if registered wc m.workers
        then record m {
          gateway = record m.gateway { workers = delete wc.info.fingerprint m.workers };
        }
        else m in
      record m' {
        closed = m'.closed ++ (wc.conn ∷ []);
        store = elim m'.store [
          | none ↦ none
          | some s ↦ some (set_worker_offline wc.info.fingerprint s).0
        ];
      }
