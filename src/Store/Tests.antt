-- ===== src/Store/Tests.antt =====
-- Runs of internal/manager/store/store.go over the database in memory.
use mathlib.Core.List.{Memᴰ}
use synergia.Prelude.{
  ◌≡◌, refl, ◌≢◌, ◌⊎◌, pos, false, String, str_append, List, [], ◌∷◌, some, ne_of_str_eq, returns,
  arith,
}
use synergia.Store.Models.{Worker, RoleModel}
use synergia.Store.State.{Store, memory, empty_store}
use synergia.Store.Workers.{with_status, worker_at}
use synergia.Store.Sync.{sync_verdict, update_worker_sync_status, compute_llm_hash}
use synergia.Store.Verdict.{Vouched, sync_verdict_sound}
use synergia.Store.Status.{StatusWrite, online, offline, report, apply, withdrawn_lost}

-- A stand-in for the hash.
abbrev pub digest : String → String
digest t = str_append "sha256-of:" t

abbrev pub worker : Worker
worker = record {
  fingerprint = "aabbccddeeff";
  public_key = "key";
  llm_model = "mistral";
  quantisation = "Q4_K_M";
  client_version = "1.0";
  os = "linux";
  arch = "amd64";
  llm_hash = "sha256-of:inference:file";
  sync_status = "synced";
  backend_hash = "";
  backend_version = "";
  binary_sync_status = "out-of-sync";
  backend_sync_status = "out-of-sync";
  trust_score = pos 0;
  total_requests = pos 0;
  total_latency_ms = pos 0;
  gpu_avg = pos 0;
  last_seen_at = 7;
  status = "available";
}

abbrev pub inference : RoleModel
inference = record {
  role = "inference";
  llm_model = "mistral";
  quantisation = "Q4_K_M";
  model_filename = "mistral.gguf";
  model_file_hash = "file";
  download_url = "";
  min_vram_mb = pos 0;
  description = "";
  context_size = pos 0;
  endpoint_type = "chat";
  parallel_slots = pos 1;
  gpu_layers = pos 0;
  flash_attention = false;
}

abbrev pub store_with : Worker → Store memory
store_with w = record empty_store { workers = w ∷ []; roles = inference ∷ [] }

abbrev short : Worker
short = record worker { llm_hash = "stale" }

abbrev withdrawn : Worker
withdrawn = record worker { status = "withdrawn" }

verdict_known : sync_verdict digest "aabbccddeeff" worker (store_with worker) ≡ returns "synced"
unfolding sync_verdict
verdict_known = refl

sync_verdict_sound_example :
    ((rm : RoleModel) × Memᴰ rm (inference ∷ [])
      × (rm.role ≡ "inference")
      × (rm.model_file_hash ≡ ""))
    ⊎ Vouched digest "sha256-of:inference:file" (inference ∷ [])
sync_verdict_sound_example =
    sync_verdict_sound digest "aabbccddeeff" worker (store_with worker) verdict_known

vouched : Vouched digest worker.llm_hash (inference ∷ [])
unfolding compute_llm_hash
vouched = (inference, Memᴰ.head refl, ne_of_str_eq "file" "" refl, refl)

verdict_stale : sync_verdict digest "aabbccddeeff" short (store_with short) ≢ returns "synced"
unfolding sync_verdict
verdict_stale e = ground (arith, e)

update_done :
    update_worker_sync_status digest "aabbccddeeff" (store_with worker)
    ≡ returns (store_with worker, "synced")
unfolding update_worker_sync_status sync_verdict
update_done = refl

abbrev writes : List StatusWrite
writes = online "aabbccddeeff" ∷ report "aabbccddeeff" "available" ∷ offline "other" ∷ []

withdrawn_lost_example :
    worker_at "aabbccddeeff"
      (apply (online "aabbccddeeff") (apply (offline "aabbccddeeff") (store_with withdrawn)))
    ≡ some (with_status "online" withdrawn)
unfolding apply
withdrawn_lost_example =
    withdrawn_lost "aabbccddeeff" (store_with withdrawn) withdrawn refl refl refl refl
