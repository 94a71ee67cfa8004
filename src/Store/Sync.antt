-- ===== src/Store/Sync.antt =====
-- internal/manager/store/store.go: the three sync columns of a worker, which the manager derives.
-- `sha256_hex` stands for hex(crypto/sha256.Sum256(s)) of internal/protocol/hash.go.
use synergia.Prelude.{
  String, Bool, true, false, not, ◌&&◌, Option, none, some, List, [], ◌∷◌, str_eq, str_append,
  if◌then◌else◌, Outcome, returns, panics, hangs, check_prefix,
}
use synergia.Table.{Found, found, missing, failed}
use synergia.Store.Models.{Worker, WorkerConfig, RoleModel}
use synergia.Store.State.{Database, Store}
use synergia.Store.Workers.{by_fingerprint, update_workers, save_worker}
use synergia.Store.Versions.{get_client_version_config, get_backend_version_config}

unfoldable pub aggregated_status : String → String → String
aggregated_status client_status sync_status =
    if str_eq client_status "updating"
    then "updating"
    else if str_eq client_status "offline"
    then "offline"
    else if str_eq client_status "available" && str_eq sync_status "synced"
    then "available"
    else if str_eq client_status "processing" && str_eq sync_status "synced"
    then "processing"
    else "unavailable"

unfoldable pub compute_overall_sync_status : String → String → String → String
compute_overall_sync_status model_sync binary_sync backend_sync =
    if str_eq model_sync "synced" && str_eq binary_sync "synced" && str_eq backend_sync "synced"
    then "synced"
    else "out-of-sync"

-- A column that is empty reads as `d`.
abbrev or_default : String → String → String
or_default d status = if str_eq status "" then d else status

-- The zero value that First leaves in `rm` on any error has no hash.
abbrev pub found_hash : Found RoleModel → String
found_hash (found rm) = rm.model_file_hash
found_hash missing = ""
found_hash failed = ""

abbrev pub found_role : Found RoleModel → Bool
found_role (found rm) = true
found_role missing = false
found_role failed = false

abbrev pub configured_role : Found WorkerConfig → String
configured_role (found wc) = if str_eq wc.preferred_role "" then "inference" else wc.preferred_role
configured_role missing = "inference"
configured_role failed = "inference"

-- A failed Find leaves the slice empty.
abbrev pub all_rows : {A : Type 0} → Option (List A) → List A
all_rows none = []
all_rows (some rs) = rs

module _ (sha256_hex : String → String) where
  unfoldable pub compute_llm_hash : String → String → String
  compute_llm_hash role model_file_hash =
      sha256_hex (str_append role (str_append ":" model_file_hash))

  -- The fallback loop over all roles.
  unfoldable pub any_role_matches : String → List RoleModel → Bool
  any_role_matches llm_hash [] = false
  any_role_matches llm_hash (r ∷ rs) =
      let rest = any_role_matches llm_hash rs in
      if str_eq r.model_file_hash ""
      then rest
      else if str_eq llm_hash (compute_llm_hash r.role r.model_file_hash)
      then true
      else rest

-- The comparison of UpdateWorkerSyncStatus, for the worker, its role, that role's model and all
-- roles as they were read: the status that is written, or a panic of the debug log's slices.
unfoldable pub decide_sync :
    (String → String) → String → Found RoleModel → List RoleModel → String → Worker → Outcome String
unfolding any_role_matches compute_llm_hash
decide_sync sha256_hex role rm all_roles fp worker =
    if found_role rm && str_eq (found_hash rm) ""
    then returns "synced"
    else if str_eq worker.llm_hash ""
    then returns "out-of-sync"
    else if not (str_eq (found_hash rm) "")
        && str_eq worker.llm_hash (compute_llm_hash sha256_hex role (found_hash rm))
    then returns "synced"
    else if any_role_matches sha256_hex worker.llm_hash all_roles
    then returns "synced"
    else if check_prefix fp 8 && check_prefix worker.llm_hash 16
    then returns "out-of-sync"
    else panics

module _ {D : Database} where
  abbrev pub set_sync_status : String → String → Store D → Store D
  set_sync_status fp status s =
      (update_workers (by_fingerprint fp) (λ w. record w { sync_status = status }) s).0

  -- The comparison with what the configurations and the roles say of the worker.
  unfoldable pub sync_verdict : (String → String) → String → Worker → Store D → Outcome String
  unfolding decide_sync
  sync_verdict sha256_hex fp worker s =
      let role = configured_role (D.configs.first (λ c. str_eq c.fingerprint fp) s.configs) in
      decide_sync sha256_hex role (D.roles.first (λ r. str_eq r.role role) s.roles)
        (all_rows (D.roles.find (λ _. true) s.roles)) fp worker

  abbrev pub record_verdict : String → Store D → Outcome String → Outcome (Store D × String)
  record_verdict fp s (returns status) = returns (set_sync_status fp status s, status)
  record_verdict fp s panics = panics
  record_verdict fp s hangs = hangs

  unfoldable pub update_worker_sync_status :
      (String → String) → String → Store D → Outcome (Store D × String)
  update_worker_sync_status sha256_hex fp s = elim (D.workers.first (by_fingerprint fp) s.workers) [
    | found worker ↦ record_verdict fp s (sync_verdict sha256_hex fp worker s)
    | missing ↦ returns (s, "out-of-sync")
    | failed ↦ returns (s, "out-of-sync")
  ]

  unfoldable pub get_worker_overall_sync_status : String → Store D → String
  unfolding get_client_version_config get_backend_version_config
  get_worker_overall_sync_status fp s = elim (D.workers.first (by_fingerprint fp) s.workers) [
    | missing ↦ "out-of-sync"
    | failed ↦ "out-of-sync"
    | found worker ↦
        compute_overall_sync_status (or_default "out-of-sync" worker.sync_status)
          (elim (get_client_version_config s) [
            | none ↦ "synced"
            | some _ ↦ or_default "out-of-sync" worker.binary_sync_status
          ])
          (elim (get_backend_version_config s) [
            | none ↦ "synced"
            | some _ ↦ or_default "synced" worker.backend_sync_status
          ])
  ]

  abbrev pub get_worker_sync_status : String → Store D → String
  get_worker_sync_status = get_worker_overall_sync_status

  unfoldable pub update_worker_binary_sync_status : String → String → Store D → Store D × String
  update_worker_binary_sync_status fp target_version s =
      elim (D.workers.first (by_fingerprint fp) s.workers) [
        | missing ↦ (s, "out-of-sync")
        | failed ↦ (s, "out-of-sync")
        | found worker ↦
            let status : String =
              if str_eq worker.client_version target_version then "synced" else "out-of-sync" in
            (
              (save_worker (by_fingerprint fp) (λ w. record w { binary_sync_status = status }) s).0,
              status,
            )
      ]

  unfoldable pub set_worker_backend_hash : String → String → Store D → Store D × Bool
  set_worker_backend_hash fp hash =
      update_workers (by_fingerprint fp) (λ w. record w { backend_hash = hash })

  unfoldable pub set_worker_backend_version : String → String → Store D → Store D × Bool
  set_worker_backend_version fp version =
      update_workers (by_fingerprint fp) (λ w. record w { backend_version = version })

  unfoldable pub mark_all_workers_backend_out_of_sync : Store D → Store D
  mark_all_workers_backend_out_of_sync s =
      (update_workers (λ w. not (str_eq w.status "offline"))
        (λ w. record w { backend_sync_status = "out-of-sync" }) s).0

  unfoldable pub update_worker_backend_sync_status : String → Store D → Store D × String
  unfolding get_backend_version_config
  update_worker_backend_sync_status fp s = elim (D.workers.first (by_fingerprint fp) s.workers) [
    | missing ↦ (s, "out-of-sync")
    | failed ↦ (s, "out-of-sync")
    | found worker ↦
        let status : String = elim (get_backend_version_config s) [
          | none ↦ "synced"
          | some cfg ↦
              if not (str_eq cfg.sha256 "")
              then if str_eq worker.backend_hash cfg.sha256 then "synced" else "out-of-sync"
              else if not (str_eq worker.backend_version "")
                  && str_eq worker.backend_version cfg.version
              then "synced"
              else "out-of-sync"
        ] in
        (
          (save_worker (by_fingerprint fp) (λ w. record w { backend_sync_status = status }) s).0,
          status,
        )
  ]
