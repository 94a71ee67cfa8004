-- ===== src/Store/Workers.antt =====
-- internal/manager/store/store.go: the worker records and their status column.
use synergia.Prelude.{
  ℕ, ℤ, pos, String, Bool, false, not, ◌&&◌, ◌||◌, Option, none, some, str_eq, find?,
}
use synergia.Table.{found, missing, failed, is_found}
use synergia.Store.Models.{Worker}
use synergia.Store.State.{Database, Store}

-- WHERE fingerprint = ?
abbrev pub by_fingerprint : String → Worker → Bool
by_fingerprint fp w = str_eq w.fingerprint fp

-- WHERE fingerprint = ? AND status != ?
abbrev pub unless_status : String → String → Worker → Bool
unless_status fp status w = str_eq w.fingerprint fp && not (str_eq w.status status)

-- WHERE fingerprint = ? AND status = ?
abbrev pub if_status : String → String → Worker → Bool
if_status fp status w = str_eq w.fingerprint fp && str_eq w.status status

-- UPDATE … SET status = ?
abbrev pub with_status : String → Worker → Worker
with_status status w = record w { status = status }

-- The row that Create stores for a worker seen for the first time: the struct's fields, and the
-- column defaults of models.go where the struct has none.
unfoldable pub new_worker :
    String → String → String → String → String → String → String → ℕ → Worker
new_worker fingerprint public_key model quantisation client_version os arch now = record {
  fingerprint = fingerprint;
  public_key = public_key;
  llm_model = model;
  quantisation = quantisation;
  client_version = client_version;
  os = os;
  arch = arch;
  llm_hash = "";
  sync_status = "out-of-sync";
  backend_hash = "";
  backend_version = "";
  binary_sync_status = "out-of-sync";
  backend_sync_status = "out-of-sync";
  trust_score = pos 0;
  total_requests = pos 0;
  total_latency_ms = pos 0;
  gpu_avg = pos 0;
  last_seen_at = now;
  status = "online";
}

-- The columns that a reconnect refreshes.
unfoldable pub refresh_worker : String → String → String → String → String → ℕ → Worker → Worker
refresh_worker model quantisation client_version os arch now w = record w {
  llm_model = model;
  quantisation = quantisation;
  client_version = client_version;
  os = os;
  arch = arch;
  last_seen_at = now;
}

module _ {D : Database} where
  -- An UPDATE on the workers; the Bool says whether it succeeded.
  abbrev pub update_workers : (Worker → Bool) → (Worker → Worker) → Store D → Store D × Bool
  update_workers p f s =
      let (ws, done) = D.workers.update p f s.workers in (record s { workers = ws }, done)

  -- The same, for the worker that First with `p` has read.
  abbrev pub save_worker : (Worker → Bool) → (Worker → Worker) → Store D → Store D × Bool
  save_worker p f s =
      let (ws, done) = D.workers.save p f s.workers in (record s { workers = ws }, done)

  abbrev pub create_worker : Worker → Store D → Store D × Bool
  create_worker w s =
      let (ws, done) = D.workers.create w s.workers in (record s { workers = ws }, done)

  unfoldable pub upsert_worker :
      String → String → String → String → String → String → String → ℕ → Store D → Store D × Bool
  upsert_worker fingerprint public_key model quantisation client_version os arch now s =
      elim (D.workers.first (by_fingerprint fingerprint) s.workers) [
        | missing ↦
            create_worker
              (new_worker fingerprint public_key model quantisation client_version os arch now) s
        | failed ↦ (s, false)
        | found _ ↦
            save_worker (by_fingerprint fingerprint)
              (refresh_worker model quantisation client_version os arch now) s
      ]

  unfoldable pub set_worker_online_if_allowed : String → Store D → Store D
  set_worker_online_if_allowed fp s =
      (update_workers (unless_status fp "withdrawn") (with_status "online") s).0

  unfoldable pub set_worker_offline : String → Store D → Store D × Bool
  set_worker_offline fp = update_workers (unless_status fp "deleted") (with_status "offline")

  unfoldable pub set_worker_deleted : String → Store D → Store D × Bool
  set_worker_deleted fp = update_workers (by_fingerprint fp) (with_status "deleted")

  unfoldable pub set_worker_status : String → String → Store D → Store D × Bool
  set_worker_status fp status = update_workers (by_fingerprint fp) (with_status status)

  unfoldable pub set_worker_available_if_processing : String → Store D → Store D
  set_worker_available_if_processing fp s =
      (update_workers (if_status fp "processing") (with_status "available") s).0

  unfoldable pub set_worker_available_if_withdrawn : String → Store D → Store D
  set_worker_available_if_withdrawn fp s =
      (update_workers (if_status fp "withdrawn") (with_status "available") s).0

  unfoldable pub set_worker_status_if_not_withdrawn : String → String → Store D → Store D
  set_worker_status_if_not_withdrawn fp status s =
      (update_workers (unless_status fp "withdrawn") (with_status status) s).0

  unfoldable pub get_worker : String → Store D → Option Worker
  get_worker fp s = elim (D.workers.first (by_fingerprint fp) s.workers) [
    | found w ↦ some w
    | missing ↦ none
    | failed ↦ none
  ]

  -- Availability for dispatch: one query over status and sync_status.
  unfoldable pub is_worker_available : String → Store D → Bool
  is_worker_available fp s = is_found (
      D.workers.first
        (λ w.
          str_eq w.fingerprint fp
          && (str_eq w.status "available" || str_eq w.status "online")
          && str_eq w.sync_status "synced")
        s.workers)

  unfoldable pub set_worker_llm_hash : String → String → Store D → Store D × Bool
  set_worker_llm_hash fp hash =
      update_workers (by_fingerprint fp) (λ w. record w { llm_hash = hash })

  unfoldable pub set_worker_gpu_avg : String → ℤ → Store D → Store D × Bool
  set_worker_gpu_avg fp avg = update_workers (by_fingerprint fp) (λ w. record w { gpu_avg = avg })

  unfoldable pub worker_llm_hash_matches : String → String → Store D → Bool
  worker_llm_hash_matches fp expected s =
      is_found
        (D.workers.first (λ w. str_eq w.fingerprint fp && str_eq w.llm_hash expected) s.workers)

  -- The row of a worker, as the table holds it: what every specification below speaks of.
  abbrev pub worker_at : String → Store D → Option Worker
  worker_at fp s = find? (by_fingerprint fp) (D.workers.rows s.workers)
