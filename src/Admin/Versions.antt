-- ===== src/Admin/Versions.antt =====
-- internal/manager/admin/api/version.go: the version that the clients are to run, and its rollout.
use synergia.Prelude.{
  ℕ, ℤ, pos, le_ℤ, String, Bool, true, false, not, ◌&&◌, ◌||◌, Option, none, some, str_eq,
  str_append, if◌then◌else◌,
}
use synergia.Protocol.{Update}
use synergia.Store.Models.{ClientVersionConfig}
use synergia.Store.State.{Database, Store}
use synergia.Store.Versions.{get_client_version_config, set_client_version_config}
use synergia.Gateway.State.{Env, Manager, worker_status}
use synergia.Gateway.Dispatch.{push_binary_update}
use synergia.Api.Http.{Method, get, post, other, Reply, reply, error}
pub mod Rollout

pub record VersionConfigRequest : Type 0 where
  pub target_version : String
  pub rollout_mode : String
  pub rollout_percentage : ℤ
  pub sha256 : String

pub record VersionConfigResponse : Type 0 where
  pub target_version : String
  pub rollout_mode : String
  pub rollout_percentage : ℤ

pub data Body : Type 0 where
  config : VersionConfigResponse → Body
  ok : Body

unfoldable pub build_download_url : String → String → String → String
build_download_url version os arch =
    str_append "https://github.com/ylallemant/synergia/releases/download/" (
      str_append version (
        str_append "/synergia-client-" (
          str_append os
            (str_append "-" (str_append arch (if str_eq os "windows" then ".exe" else ""))))))

-- The rollout after its defaults, or the error of the request.
pub data Checked : Type 0 where
  rollout : String → ℤ → Checked
  refused : String → Checked

abbrev pub mode_of : String → String
mode_of mode = if str_eq mode "" then "all" else mode

abbrev in_percent : ℤ → Bool
in_percent n = le_ℤ (pos 1) n && le_ℤ n (pos 100)

unfoldable pub check : VersionConfigRequest → Checked
check req =
    let mode : String = mode_of req.rollout_mode in
    if str_eq req.target_version ""
    then refused "target_version is required"
    else if not (str_eq mode "all") && not (str_eq mode "percentage")
    then refused "rollout_mode must be 'all' or 'percentage'"
    else if str_eq mode "percentage" && not (in_percent req.rollout_percentage)
    then refused "rollout_percentage must be 1-100"
    else rollout mode (if str_eq mode "all" then pos 100 else req.rollout_percentage)

module _ {D : Database} where
  unfoldable pub get_version : Store D → Reply Body
  unfolding get_client_version_config
  get_version s = elim (get_client_version_config s) [
    | none ↦ error 404 "no version config set"
    | some cfg ↦ reply 200 (
        config (record {
          target_version = cfg.target_version;
          rollout_mode = cfg.rollout_mode;
          rollout_percentage = cfg.rollout_percentage;
        }))
  ]

  module _ (env : Env) where
    -- The push to the connected workers, where the first of them runs another version.
    unfoldable pub push_version : VersionConfigRequest → Manager D → Manager D
    unfolding worker_status push_binary_update build_download_url
    push_version req m = elim (worker_status m.gateway) [
      | none ↦ m
      | some info ↦
          if str_eq info.version req.target_version
          then m
          else (push_binary_update env
              (record {
                version = req.target_version;
                download_url = build_download_url req.target_version info.os info.arch;
                fallback_url = "/v1/binary/download";
                sha256 = req.sha256;
              })
              m).0
    ]

    unfoldable pub store_version :
        VersionConfigRequest
        → ℕ
        → Store D
        → Manager D
        → Checked
        → (Store D × Manager D) × Reply Body
    unfolding set_client_version_config push_version
    store_version req now s m (refused e) = ((s, m), error 400 e)
    store_version req now s m (rollout mode percentage) =
        let (s', done) = set_client_version_config req.target_version mode percentage now s in
        if not done
        then ((s', m), error 500 "internal error")
        else ((s', push_version req m), reply 200 ok)

    -- none is a body that does not decode. The store is the handler's own, not that of `m`.
    unfoldable pub set_version :
        Option VersionConfigRequest → ℕ → Store D → Manager D → (Store D × Manager D) × Reply Body
    unfolding check store_version
    set_version none now s m = ((s, m), error 400 "invalid JSON body")
    set_version (some req) now s m = store_version req now s m (check req)

    unfoldable pub admin_version_handler :
        Method
        → Option VersionConfigRequest
        → ℕ
        → Store D
        → Manager D
        → (Store D × Manager D) × Reply Body
    unfolding get_version set_version
    admin_version_handler get req now s m = ((s, m), get_version s)
    admin_version_handler post req now s m = set_version req now s m
    admin_version_handler other req now s m = ((s, m), error 405 "method not allowed")
