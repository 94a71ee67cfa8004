-- ===== src/Client/WorkerTests.antt =====
-- The theorems about a worker's units and updates at concrete inputs.
use synergia.Prelude.{
  pos, ◌≡◌, ◌≢◌, refl, ◌++◌, String, true, false, none, some, List, [], ◌∷◌, Outcome, returns,
  panics, hangs, str_append, ne_of_str_eq,
}
use synergia.Protocol.{WorkUnit, ModelUpdate, Update}
use synergia.Client.Gpu.Monitor as Gpu
use synergia.Client.State as State
use synergia.Client.Connection as Conn
use synergia.Client.Connection.{Connection}
use synergia.Client.Persisted.{LlamaParams}
use synergia.Client.Persisted as Persisted
use synergia.Client.Worker.{Worker, Outside, completed, process, finish, refusal, detect_trigger}
use synergia.Client.Worker.Answers.{IsIdle, answers, answers-process}
use synergia.Client.Worker.Statuses.{
  last_status, status_word, process_tells_pause, finish_tells_available,
}
use synergia.Client.Backend as Backend
use synergia.Client.Backend.{
  Backend, Archive, apply, updated, failed, start, read_file, extract_binary, download_any,
  binary_name,
}
use synergia.Client.Backend.Install.{IsVerified, apply-IsVerified, apply_mismatch}
use synergia.Client.Updates.{Client, System, Round, apply_model_update}
use synergia.Client.Updates.Verified.{TellsOnly, OldOrVerified, apply_model_update-TellsOnly}

abbrev outside : Outside
outside = record {
  writes = λ m. true;
  write_error = "not connected to cluster manager";
  sign = λ key text. text;
  show = λ n. "12";
  acknowledge = λ s. s;
}

abbrev conn : Connection
unfolding Conn.new
conn =
    record (Conn.new "key"
      (record { fingerprint = "w1"; public_key = 1 ∷ []; private_key = 2 ∷ [] }) "m" "q4") {
        opened = true;
      }

abbrev worker : Worker
unfolding State.new Gpu.new conn
worker = record {
  conn = conn;
  state = State.new "w1" "m" "q4" 0;
  monitor = Gpu.new 10 60000;
  has_reporter = true;
  reports = [];
  consent = some true;
}

abbrev unit_of : String → WorkUnit
unit_of content = record {
  id = "u1";
  model = "m";
  params = record { temperature = "0"; max_tokens = pos 10; response_format = "" };
  messages = record { role = "user"; content = content } ∷ [];
}

worker-IsIdle : IsIdle worker
unfolding worker
worker-IsIdle = record { tracked = refl; monitored = refl }

worker-opened : worker.conn.opened ≡ true
unfolding worker
worker-opened = refl

answers-process_example :
    answers
      (process outside
        (unit_of "hi")
        (completed "out" (pos 12))
        ((some 3, false) ∷ [])
        worker).conn.sent
    ≡ answers worker.conn.sent ++ ("u1" ∷ [])
answers-process_example =
    answers-process outside (unit_of "hi") (completed "out" (pos 12)) ((some 3, false) ∷ []) worker
      (λ m. refl) worker-opened

abbrev pause_unit : WorkUnit
pause_unit = unit_of "##############PAUSE##############"

accepts_pause : refusal (detect_trigger pause_unit.messages) worker ≡ none
unfolding detect_trigger worker
accepts_pause = refl

process_tells_pause_example :
    last_status (process outside pause_unit (completed "" (pos 0)) [] worker).conn.sent
    ≡ some (status_word (process outside pause_unit (completed "" (pos 0)) [] worker).state.paused)
process_tells_pause_example =
    process_tells_pause outside pause_unit (completed "" (pos 0)) [] worker (λ m. refl)
      worker-opened accepts_pause

abbrev paused_worker : Worker
unfolding worker
paused_worker = record worker { state = record worker.state { paused = true } }

paused_worker-paused : (paused_worker.conn.opened ≡ true) × (paused_worker.state.paused ≡ true)
unfolding paused_worker
paused_worker-paused = (refl, refl)

finish_tells_available_example :
    (last_status
        (finish outside (unit_of "hi") (completed "out" (pos 12)) [] paused_worker).conn.sent
      ≡ some "available")
    × ((finish outside (unit_of "hi") (completed "out" (pos 12)) [] paused_worker).state.paused
        ≡ true)
finish_tells_available_example =
    finish_tells_available outside (unit_of "hi") (completed "out" (pos 12)) [] paused_worker
      (λ m. refl) paused_worker-paused.0 paused_worker-paused.1

-- A release with a shared library, and a binary that a link stands for.
abbrev archive : Archive
archive = record {
  opens = true;
  complete = true;
  entries =
      record { base = "libggml.so.1"; kind = Backend.regular "ggml" }
      ∷ record { base = "libggml.so"; kind = Backend.symlink true "libggml.so.1" }
      ∷ record { base = "llama-server"; kind = Backend.regular "new" }
      ∷ [];
}

abbrev system : Backend.Outside
system = record {
  windows = false;
  os = "linux";
  arch = "amd64";
  sha256_hex = λ content. str_append "sha256-of-" content;
  download = λ url. some archive;
  chmod = true;
  spawns = λ content. true;
}

abbrev no_params : LlamaParams
no_params = Persisted.no_params

abbrev backend : Backend
unfolding Backend.new
backend = Backend.new system "https://manager" (("llama-server", Backend.file "old") ∷ []) no_params

abbrev update_to : String → Update
update_to sha256 = record {
  version = "b2";
  download_url = "https://x/a.tar.gz";
  fallback_url = "";
  sha256 = sha256;
}

updates : (apply system (update_to "sha256-of-new") backend).1 ≡ updated
unfolding apply backend
updates = refl

apply-IsVerified_example :
    IsVerified system "sha256-of-new" (apply system (update_to "sha256-of-new") backend).0
apply-IsVerified_example =
    apply-IsVerified system (update_to "sha256-of-new") backend
      (ne_of_str_eq "sha256-of-new" "" refl) updates

other_hash : "sha256-of-other" ≢ backend.current_hash
unfolding backend
other_hash = ne_of_str_eq "sha256-of-other" "sha256-of-old" refl

extracts :
    ((extract_binary "https://x/a.tar.gz" (binary_name system) archive backend.dir).1 ≡ true)
    × (read_file
          (binary_name system)
          (extract_binary "https://x/a.tar.gz" (binary_name system) archive backend.dir).0
        ≡ some "new")
unfolding extract_binary read_file backend
extracts = (refl, refl)

apply_mismatch_example :
    ((apply system (update_to "sha256-of-other") backend).1 ≡ failed)
    × ((apply system (update_to "sha256-of-other") backend).0.current_hash ≡ backend.current_hash)
    × ((start system "8080" "m.gguf" no_params
          (apply system (update_to "sha256-of-other") backend).0).0.proc
        ≡ some (record { binary = "new"; port = "8080"; model = "m.gguf"; params = no_params }))
apply_mismatch_example =
    apply_mismatch system (update_to "sha256-of-other") backend archive "new" "8080" "m.gguf"
      no_params (ne_of_str_eq "sha256-of-other" "" refl) other_hash refl extracts.0 extracts.1
      (ne_of_str_eq "sha256-of-new" "sha256-of-other" refl) refl

abbrev client : Client
unfolding worker backend
client = record {
  worker = worker;
  models_dir = "/models";
  manager_http_url = "https://manager";
  state_store = some (record { file = none; current = Persisted.empty });
  has_updater = true;
  has_restart = true;
  restarted = false;
  backend = some backend;
  has_restart_llm = true;
  last_model_path = "";
  last_llama_params = no_params;
}

abbrev sys : System
sys = record {
  outside = outside;
  backend = system;
  error_text = "error";
  saves = true;
  hash_file = λ path. some "0123456789abcdef0123";
  apply_binary = λ bu. some true;
  port = "8080";
}

abbrev model_to : String → ModelUpdate
model_to hash = record {
  role = "inference";
  model = "m";
  quantisation = "q4";
  filename = "m.gguf";
  model_file_hash = hash;
  llm_hash = "h";
  context_size = pos 4096;
  endpoint_type = "chat";
  parallel_slots = pos 1;
  gpu_layers = pos 99;
  flash_attention = false;
}

abbrev rounds : List (Round String)
rounds =
    record { done_before = false; attempt = none; done_after = false }
    ∷ record { done_before = false; attempt = some "/models/m.gguf"; done_after = false }
    ∷ []

abbrev client_of : Outcome Client → Client
client_of (returns c) = c
client_of panics = client
client_of hangs = client

abbrev updated_client : Client
updated_client = client_of (apply_model_update sys (model_to "0123456789abcdef0123") rounds client)

applies_model :
    apply_model_update sys (model_to "0123456789abcdef0123") rounds client ≡ returns updated_client
unfolding apply_model_update client
applies_model = refl

client_downloads : (client.manager_http_url ≢ "") × (client.models_dir ≢ "")
unfolding client
client_downloads = (ne_of_str_eq "https://manager" "" refl, ne_of_str_eq "/models" "" refl)

apply_model_update-TellsOnly_example :
    TellsOnly
      (OldOrVerified sys (model_to "0123456789abcdef0123") rounds client.worker.conn.llm_hash)
      client.worker.conn
      updated_client.worker.conn
apply_model_update-TellsOnly_example =
    apply_model_update-TellsOnly sys (model_to "0123456789abcdef0123") rounds client updated_client
      (ne_of_str_eq "m.gguf" "" refl) client_downloads.0 client_downloads.1
      (ne_of_str_eq "0123456789abcdef0123" "" refl) applies_model
