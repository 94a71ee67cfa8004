-- ===== src/Client/Updates.antt =====
-- internal/client/worker/worker.go: what the worker does with the updates that the manager pushes. Each
-- handler is one step, except that handleModelUpdate starts applyModelUpdate, a step of its own.
use synergia.Prelude.{
  ℕ, ◌*◌, String, Bool, true, false, not, ◌&&◌, ◌||◌, Option, none, some, List, [], ◌∷◌, str_eq,
  ltb, is_some, check_prefix, if◌then◌else◌, Outcome, returns, panics,
}
use synergia.Protocol.{ModelUpdate, Update}
use synergia.Store.Sync.{compute_llm_hash}
use synergia.Client.Connection as Conn
use synergia.Client.Connection.{Connection}
use synergia.Client.Persisted as Persisted
use synergia.Client.Persisted.{LlamaParams}
use synergia.Client.Backend as Backend
use synergia.Client.Backend.{Applied, skipped, updated, failed}
use synergia.Client.Worker.{Worker, Outside, report, send_status}
pub mod Verified

-- One round of retryWithBackoff: whether the context is done before the attempt, what the attempt
-- gives, and whether the context is done after a failure or in the wait that follows.
pub record Round (A : Type 0) : Type 0 where
  pub done_before : Bool
  pub attempt : Option A
  pub done_after : Bool

-- How the loop ends; it goes on for ever where the rounds do.
pub data Retried (A : Type 0) : Type 0 where
  succeeded : A → Retried A
  cancelled : Retried A
  unfinished : Retried A

unfoldable pub retry_with_backoff : {A : Type 0} → List (Round A) → Retried A
retry_with_backoff [] = unfinished
retry_with_backoff (r ∷ rs) =
    let rest = retry_with_backoff rs in
    if r.done_before
    then cancelled
    else elim r.attempt [ some a ↦ succeeded a | none ↦ if r.done_after then cancelled else rest ]

-- The delay of the next round, in the unit of `max_delay`.
abbrev pub next_delay : ℕ → ℕ → ℕ
next_delay max_delay delay =
    if ltb delay max_delay
    then if ltb max_delay (delay * 2) then max_delay else delay * 2
    else delay

-- The worker with what its update handlers use: a nil updater, backend manager, state store or
-- callback is none or false.
pub record Client : Type 0 where
  pub worker : Worker
  pub open worker use {conn}
  pub models_dir : String
  pub manager_http_url : String
  pub state_store : Option Persisted.Store
  pub has_updater : Bool
  pub has_restart : Bool
  pub restarted : Bool
  pub backend : Option Backend.Backend
  pub has_restart_llm : Bool
  pub last_model_path : String
  pub last_llama_params : LlamaParams

-- What the handlers use of the outside: the texts of errors, whether the state file is written, the
-- hash of a file, and the end of the updater's Apply, which is none for an error.
pub record System : Type 0 where
  pub outside : Outside
  pub backend : Backend.Outside
  pub error_text : String
  pub saves : Bool
  pub hash_file : String → Option String
  pub apply_binary : Update → Option Bool
  pub port : String

abbrev pub on_worker : (Worker → Worker) → Client → Client
on_worker f c = record c { worker = f c.worker }

abbrev pub on_conn : (Connection → Connection) → Client → Client
on_conn f = on_worker (λ w. record w { conn = f w.conn })

abbrev pub on_store : (Persisted.Store → Persisted.Store) → Client → Client
on_store f c = record c { state_store = elim c.state_store [ none ↦ none | some s ↦ some (f s) ] }

abbrev pub params_of : ModelUpdate → LlamaParams
params_of mu = record {
  context_size = mu.context_size;
  parallel_slots = mu.parallel_slots;
  gpu_layers = mu.gpu_layers;
  endpoint_type = mu.endpoint_type;
  flash_attention = mu.flash_attention;
}

module _ (sys : System) where
  abbrev pub tells : String → Client → Client
  tells s = on_worker (send_status sys.outside s)

  abbrev pub reports : Client → Client
  reports = on_worker (report sys.error_text)

  -- w.restartLLM(modelPath, p): the backend's Start on the local port.
  abbrev pub restart_llm : String → LlamaParams → Client → Client
  restart_llm path p c =
      if c.has_restart_llm
      then record c {
        backend = elim c.backend [
          | none ↦ none
          | some b ↦ some (Backend.start sys.backend sys.port path p b).0
        ];
      }
      else c

  unfoldable pub handle_model_update : Client → Client
  unfolding Conn.send_status
  handle_model_update = tells "updating"

  -- The new hash is set and reported, and the model is noted and saved.
  unfoldable pub adopt_model : ModelUpdate → String → String → Client → Client
  unfolding Conn.set_llm_hash Conn.send_llm_hash_report Persisted.set_model
  adopt_model mu path new_hash c =
      let c₁ =
        on_conn
          (λ n.
            (Conn.send_llm_hash_report sys.outside.writes new_hash
              (Conn.set_llm_hash new_hash n)).0)
          c in
      let c₂ : Client = record c₁ { last_model_path = path; last_llama_params = params_of mu } in
      on_store (Persisted.set_model path (params_of mu) mu.role sys.saves) c₂

  -- From the hash of the file on, once it is the expected one.
  unfoldable pub install_model : ModelUpdate → String → String → Client → Client
  unfolding adopt_model Conn.send_status Backend.start
  install_model mu path file_hash c =
      let new_hash = compute_llm_hash sys.backend.sha256_hex mu.role file_hash in
      tells "available" (restart_llm path (params_of mu) (adopt_model mu path new_hash c))

  -- The file is hashed and compared. The log lines slice both hashes.
  abbrev pub check_model : ModelUpdate → String → Client → Outcome Client
  check_model mu path c = elim (sys.hash_file path) [
    | none ↦ returns (tells "available" (reports c))
    | some file_hash ↦
        if not (str_eq mu.model_file_hash "") && not (str_eq file_hash mu.model_file_hash)
        then if check_prefix mu.model_file_hash 16
          then returns (tells "available" (reports c))
          else panics
        else returns (install_model mu path file_hash c)
  ]

  -- Where the context is done, a newer update goes on.
  abbrev pub after_download : ModelUpdate → Retried String → Client → Outcome Client
  after_download mu unfinished c = returns c
  after_download mu cancelled c = returns c
  after_download mu (succeeded path) c = check_model mu path c

  -- `rounds` are the attempts of the download, each with the path of the file.
  unfoldable pub apply_model_update : ModelUpdate → List (Round String) → Client → Outcome Client
  unfolding install_model retry_with_backoff
  apply_model_update mu rounds c =
      if str_eq mu.filename "" || str_eq c.manager_http_url "" || str_eq c.models_dir ""
      then returns (
          tells "available" (
            on_conn
              (λ n.
                (Conn.send_llm_hash_report sys.outside.writes mu.llm_hash
                  (Conn.set_llm_hash mu.llm_hash n)).0)
              c))
      else after_download mu (retry_with_backoff rounds) c

  unfoldable pub handle_binary_update : Update → Client → Client
  unfolding Conn.send_status
  handle_binary_update bu c =
      if not c.has_updater
      then c
      else let c' = tells "updating" c in
        elim (sys.apply_binary bu) [
          | none ↦ tells "available" (reports c')
          | some replaced ↦
              if replaced && c.has_restart
              then record c' { restarted = true }
              else tells "available" c'
        ]

  -- backendRestart, and where it fails the start of the last model.
  abbrev pub restart_backend : Backend.Backend → Client → Client
  restart_backend b c =
      let (b', done) = Backend.restart sys.backend b in
      let c' : Client = record c { backend = some b' } in
      if done
      then c'
      else if str_eq c.last_model_path ""
      then c'
      else restart_llm c.last_model_path c.last_llama_params c'

  -- After Apply has updated the binary. The log line slices the installed hash.
  abbrev pub backend_installed : Update → Backend.Backend → Client → Outcome Client
  backend_installed bu b c =
      let c₁ =
        on_conn (λ n. Conn.set_backend_version bu.version (Conn.set_backend_hash b.current_hash n))
          c in
      let c₂ = on_store (Persisted.set_backend_version bu.version sys.saves) c₁ in
      if check_prefix b.current_hash 16
      then returns (tells "available" (restart_backend b c₂))
      else panics

  unfoldable pub handle_backend_update : Update → Client → Outcome Client
  unfolding Conn.send_status Conn.set_backend_version Conn.set_backend_hash
      Persisted.set_backend_version Backend.apply Backend.restart Backend.start
  handle_backend_update bu c = elim c.backend [
    | none ↦ returns c
    | some m ↦
        let c' = tells "updating" c in
        let (b, applied) = Backend.apply sys.backend bu m in
        let c'' : Client = record c' { backend = some b } in
        elim applied [
          | failed ↦ returns (tells "available" (reports c''))
          | skipped ↦ returns (tells "available" c'')
          | updated ↦ backend_installed bu b c''
        ]
  ]
