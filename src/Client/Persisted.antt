-- ===== src/Client/Persisted.antt =====
-- internal/client/workerstate/state.go: the state that survives a restart. The file holds what its
-- last complete write stored, since a write goes to a temporary file that is renamed; `saved` is
-- whether it succeeded. A file that does not decode is an empty one.
use synergia.Prelude.{ℤ, pos, String, Bool, false, Option, none, some, if◌then◌else◌}

pub record LlamaParams : Type 0 where
  pub context_size : ℤ
  pub parallel_slots : ℤ
  pub gpu_layers : ℤ
  pub endpoint_type : String
  pub flash_attention : Bool

pub record Persisted : Type 0 where
  pub manager_url : String
  pub role : String
  pub model_path : String
  pub llama_params : LlamaParams
  pub backend_version : String
  pub log_level : String

abbrev pub no_params : LlamaParams
no_params = record {
  context_size = pos 0;
  parallel_slots = pos 0;
  gpu_layers = pos 0;
  endpoint_type = "";
  flash_attention = false;
}

abbrev pub empty : Persisted
empty = record {
  manager_url = "";
  role = "";
  model_path = "";
  llama_params = no_params;
  backend_version = "";
  log_level = "";
}

-- The file on disk, which the store was loaded from.
pub record Store : Type 0 where
  pub file : Option Persisted
  pub current : Persisted

-- What reading the file gives.
pub data File : Type 0 where
  not_exist : File
  unreadable : File
  content : Option Persisted → File

unfoldable pub load : File → Option Store
load not_exist = some (record { file = none; current = empty })
load unreadable = none
load (content none) = some (record { file = none; current = empty })
load (content (some p)) = some (record { file = some p; current = p })

unfoldable pub save : Bool → Store → Store
save saved s = record s { file = if saved then some s.current else s.file }

unfoldable pub set_manager_url : String → Bool → Store → Store
unfolding save
set_manager_url url saved s =
    save saved (record s { current = record s.current { manager_url = url } })

unfoldable pub set_model : String → LlamaParams → String → Bool → Store → Store
unfolding save
set_model path params role saved s = save saved (record s {
  current = record s.current { model_path = path; llama_params = params; role = role };
})

unfoldable pub set_backend_version : String → Bool → Store → Store
unfolding save
set_backend_version version saved s =
    save saved (record s { current = record s.current { backend_version = version } })

unfoldable pub set_log_level : String → Bool → Store → Store
unfolding save
set_log_level level saved s =
    save saved (record s { current = record s.current { log_level = level } })
