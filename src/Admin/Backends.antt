-- ===== src/Admin/Backends.antt =====
-- internal/manager/admin/api/backend.go: the version of the backend. The prewarmer downloads in the
-- background, and is the caller's.
use synergia.Prelude.{
  ℕ, String, not, Option, none, some, str_eq, str_append, if◌then◌else◌, Outcome, returns, hangs,
}
use synergia.Store.State.{Database, Store}
use synergia.Store.Versions.{get_backend_version_config, set_backend_version_config}
use synergia.Store.Sync.{mark_all_workers_backend_out_of_sync}
use synergia.Backend.{is_valid, expand_url}
use synergia.Gateway.State.{Env, Manager, WorkerInfo, worker_status}
use synergia.Gateway.Dispatch.{push_backend_update}
use synergia.Api.Http.{Method, get, post, other, Reply, reply, error}

pub record BackendConfigRequest : Type 0 where
  pub name : String
  pub version : String
  pub download_url : String
  pub sha256 : String

pub data Body : Type 0 where
  config : BackendConfigRequest → Body
  ok : Body

abbrev pub llama_cpp : String
llama_cpp = "llama.cpp"

-- DownloadURLTemplates has one backend.
abbrev pub download_url_template : String → Option String
download_url_template name =
    if str_eq name llama_cpp
    then some
        "https://github.com/ggml-org/llama.cpp/releases/download/{version}/llama-{version}-bin-{platform}-{arch}.{ext}"
    else none

abbrev filled : BackendConfigRequest → BackendConfigRequest
filled req = record req { name = if str_eq req.name "" then llama_cpp else req.name }

-- The request with its defaults, or the error that it is answered with.
pub data Checked : Type 0 where
  accepted : BackendConfigRequest → Checked
  refused : String → Checked

unfoldable pub check : BackendConfigRequest → Checked
unfolding is_valid
check req =
    if str_eq req.version ""
    then refused "version is required"
    else if not (is_valid (filled req).name)
    then refused (str_append "unknown backend name: " (filled req).name)
    else if not (str_eq req.download_url "")
    then accepted (filled req)
    else elim (download_url_template (filled req).name) [
      | none ↦ refused (str_append "no download URL template for backend: " (filled req).name)
      | some tpl ↦ accepted (record (filled req) { download_url = tpl })
    ]

abbrev fallback_url : BackendConfigRequest → WorkerInfo → String
fallback_url req info = str_append "/v1/backend/download?version=" (
    str_append req.version (str_append "&os=" (str_append info.os (str_append "&arch=" info.arch))))

module _ {D : Database} where
  unfoldable pub get_backend : Store D → Reply Body
  unfolding get_backend_version_config
  get_backend s = elim (get_backend_version_config s) [
    | none ↦ error 404 "no backend config set"
    | some cfg ↦ reply 200 (
        config (record {
          name = cfg.name;
          version = cfg.version;
          download_url = cfg.download_url;
          sha256 = cfg.sha256;
        }))
  ]

  module _ (env : Env) where
    -- The push to the connected workers, with the URL for the platform of the first of them.
    unfoldable pub push_backend : BackendConfigRequest → Manager D → Outcome (Manager D)
    unfolding worker_status expand_url push_backend_update
    push_backend req m = elim (worker_status m.gateway) [
      | none ↦ returns m
      | some info ↦ elim (expand_url env.rounds req.download_url req.version info.os info.arch) [
        | none ↦ hangs
        | some url ↦
            returns
              (push_backend_update env
                (record {
                  version = req.version;
                  download_url = url;
                  fallback_url = fallback_url req info;
                  sha256 = req.sha256;
                })
                m).0
      ]
    ]

    -- The store is the handler's own, not that of `m`.
    unfoldable pub store_backend :
        ℕ → Store D → Manager D → Checked → Outcome ((Store D × Manager D) × Reply Body)
    unfolding set_backend_version_config mark_all_workers_backend_out_of_sync push_backend
    store_backend now s m (refused e) = returns ((s, m), error 400 e)
    store_backend now s m (accepted req) =
        let (s', done) =
          set_backend_version_config req.name req.version req.download_url req.sha256 now s in
        if not done
        then returns ((s', m), error 500 "internal error")
        else elim (push_backend req m) [
          | returns m' ↦ returns ((mark_all_workers_backend_out_of_sync s', m'), reply 200 ok)
          | Outcome.panics ↦ Outcome.panics
          | hangs ↦ hangs
        ]

    -- none is a body that does not decode.
    unfoldable pub set_backend :
        Option BackendConfigRequest
        → ℕ
        → Store D
        → Manager D
        → Outcome ((Store D × Manager D) × Reply Body)
    unfolding check store_backend
    set_backend none now s m = returns ((s, m), error 400 "invalid JSON body")
    set_backend (some req) now s m = store_backend now s m (check req)

    unfoldable pub admin_backend_handler :
        Method
        → Option BackendConfigRequest
        → ℕ
        → Store D
        → Manager D
        → Outcome ((Store D × Manager D) × Reply Body)
    unfolding get_backend set_backend
    admin_backend_handler get req now s m = returns ((s, m), get_backend s)
    admin_backend_handler post req now s m = set_backend req now s m
    admin_backend_handler other req now s m = returns ((s, m), error 405 "method not allowed")
