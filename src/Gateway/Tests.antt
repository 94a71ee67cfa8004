-- ===== src/Gateway/Tests.antt =====
-- Dispatches of internal/manager/gateway over the database in memory.
use mathlib.Core.List.{Memᴰ}
use synergia.Prelude.{
  ℕ, zero, suc, ◌≡◌, refl, true, false, String, List, [], ◌∷◌, some, none, pos, inl, inr, find?,
  Option-cases,
}
use synergia.Protocol.{WorkUnit, work_unit}
use synergia.Table.{in_memory}
use synergia.Store.Models.{WorkerConsent}
use synergia.Store.State.{Store, memory}
use synergia.Store.Workers.{is_worker_available, worker_llm_hash_matches}
use synergia.Store.Consents.{has_consent}
use synergia.Store.Tests.{digest, worker, store_with}
use synergia.Gateway.State.{Bytes, WorkerInfo, WorkerConn, Env, Manager}
use synergia.Gateway.Dispatch.{dispatch, dispatch_with_hash_check}
use synergia.Gateway.Selection.{Consented, Ready, Reads, SentTo, dispatch_sound, dispatch_complete}

abbrev zeros : ℕ → Bytes
zeros zero = []
zeros (suc n) = 0 ∷ zeros n

abbrev pub key : Bytes
key = zeros 32

-- Stand-ins for the cryptography and a network on which every write succeeds.
abbrev pub env : Env
env = record {
  sha256_hex = digest;
  sha256_bytes_hex = λ _. "aabbccddeeff";
  base64_decode = λ _. some key;
  base64_encode = λ _. "nonce";
  verify = λ _ _ _. true;
  rounds = 0;
  write_json = λ _ _. true;
}

abbrev pub conn : ℕ → WorkerConn
conn n = record {
  conn = n;
  info = record {
    fingerprint = "aabbccddeeff";
    public_key = key;
    model = "mistral";
    quantisation = "Q4_K_M";
    version = "1.0";
    os = "linux";
    arch = "amd64";
    llm_hash = "";
    connected_at = 7;
  };
}

abbrev consent : WorkerConsent
consent = record {
  fingerprint = "aabbccddeeff";
  accepted = true;
  accepted_at = some 7;
  hardware_stats = false;
  config_preferences = false;
  hardware = record {
    hw_os = "";
    hw_os_ver = "";
    hw_gpu = "";
    hw_gpu_driver = "";
    hw_gpu_driver_ver = "";
    hw_v_ram_mb = pos 0;
    hw_cpu = "";
    hw_cpu_cores = pos 0;
    hw_ram_mb = pos 0;
  };
}

abbrev pub ready_store : Store memory
ready_store = record (store_with worker) { consents = consent ∷ [] }

abbrev pub manager : Store memory → List (String × WorkerConn) → Manager memory
manager s workers = record {
  gateway = record { worker_key = ""; workers = workers; known_keys = [] };
  store = some s;
  queue = record { pending = []; counter = 0; units = [] };
  sent = [];
  closed = [];
}

abbrev pub ready : Manager memory
ready = manager ready_store (("aabbccddeeff", conn 1) ∷ [])

-- The same without a consent.
abbrev pub idle : Manager memory
idle = manager (store_with worker) (("aabbccddeeff", conn 1) ∷ [])

abbrev unit : WorkUnit
unit = record {
  id = "wu-1";
  model = "mistral";
  params = record { temperature = ""; max_tokens = pos 9; response_format = "" };
  messages = [];
}

abbrev sent : Manager memory
sent = record ready { sent = (1, work_unit unit) ∷ [] }

ready-dispatch : dispatch env unit ready ≡ (sent, some (conn 1).info)
unfolding dispatch has_consent is_worker_available
ready-dispatch = refl

dispatch_sound_example :
    (wc : WorkerConn) × (wc.info ≡ (conn 1).info)
    × SentTo env unit ready sent wc
    × Consented "aabbccddeeff" ready_store
    × Ready "aabbccddeeff" ready_store
dispatch_sound_example =
    dispatch_sound env unit ready ready_store (conn 1).info sent refl ready-dispatch

idle-dispatch : (dispatch env unit idle).1 ≡ none
unfolding dispatch has_consent is_worker_available
idle-dispatch = refl

memory-Reads : {R : Type 0} (rows : List R) → Reads (in_memory R) rows
memory-Reads rows p = elim (Option-cases (find? p rows)) [
  | inl e ↦ rw e (λ h. cc)
  | inr (r, e) ↦ rw e (λ h. cc)
]

dispatch_complete_example : (info : WorkerInfo) × ((dispatch env unit ready).1 ≡ some info)
dispatch_complete_example =
    dispatch_complete env unit ready ready_store "aabbccddeeff" (conn 1) refl
      (memory-Reads ready_store.consents) (memory-Reads ready_store.workers) (Memᴰ.head refl) refl
      (consent, Memᴰ.head refl, refl, refl) (worker, Memᴰ.head refl, refl, inl refl, refl)

ready-dispatch_with_hash_check :
    dispatch_with_hash_check env unit worker.llm_hash ready ≡ (sent, some (conn 1).info)
unfolding dispatch_with_hash_check has_consent worker_llm_hash_matches
ready-dispatch_with_hash_check = refl
