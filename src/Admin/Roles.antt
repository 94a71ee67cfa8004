-- ===== src/Admin/Roles.antt =====
-- internal/manager/admin/api/roles.go: the models of the roles. The gateway and the model store are set.
use synergia.Prelude.{
  ℕ, ℤ, pos, negsuc, is_positive, String, Bool, true, false, not, ◌&&◌, ◌||◌, Option, none, some,
  List, str_eq, ◌==◌, if◌then◌else◌,
}
use synergia.Store.Models.{RoleModel}
use synergia.Store.State.{Database, Store}
use synergia.Store.Roles.{
  RoleSpec, get_role_models, upsert_role_model, set_role_llama_config, set_role_download_url,
  set_role_model_file_hash, delete_role_model,
}
use synergia.Store.Sync.{compute_llm_hash}
use synergia.Gateway.State.{Env, Manager}
use synergia.Gateway.Dispatch.{push_model_update}
use synergia.Api.Http.{Reply, reply, error}

pub record RoleRequest : Type 0 where
  pub role : String
  pub model : String
  pub quantisation : String
  pub filename : String
  pub model_file_hash : String
  pub download_url : String
  pub min_vram_mb : ℤ
  pub description : String
  pub context_size : ℤ
  pub endpoint_type : String
  pub parallel_slots : ℤ
  pub gpu_layers : ℤ
  pub flash_attention : Bool

pub data Method : Type 0 where
  get post put delete other : Method

pub data Body : Type 0 where
  roles : List RoleModel → Body
  ok : Body

abbrev is_zero : ℤ → Bool
is_zero (pos n) = n == 0
is_zero (negsuc n) = false

abbrev default_ℤ : ℤ → ℤ → ℤ
default_ℤ d n = if is_zero n then d else n

-- The parameters of llama-server that the request leaves out.
unfoldable pub with_defaults : RoleRequest → RoleRequest
with_defaults req = record req {
  context_size = default_ℤ (pos 4096) req.context_size;
  endpoint_type = if str_eq req.endpoint_type "" then "chat" else req.endpoint_type;
  parallel_slots = default_ℤ (pos 1) req.parallel_slots;
  gpu_layers = default_ℤ (negsuc 0) req.gpu_layers;
}

unfoldable pub is_complete : RoleRequest → Bool
is_complete req =
    not (str_eq req.role "") && not (str_eq req.model "") && is_positive req.min_vram_mb

abbrev spec_of : String → RoleRequest → RoleSpec
spec_of hash req = record {
  role = req.role;
  llm_model = req.model;
  quantisation = req.quantisation;
  model_filename = req.filename;
  model_file_hash = hash;
  min_vram_mb = req.min_vram_mb;
  description = req.description;
}

-- What the download of a model gives: the status of the response, and the hash of the saved file; none
-- is an error.
abbrev pub Fetched : Type 0
Fetched = Option (ℕ × Option String)

module _ {D : Database} where
  -- The goroutine of downloadModelInBackground.
  unfoldable pub download_model_in_background : String → Fetched → Store D → Store D
  unfolding set_role_model_file_hash
  download_model_in_background role none s = s
  download_model_in_background role (some (status, none)) s = s
  download_model_in_background role (some (status, some hash)) s =
      if status == 200 then (set_role_model_file_hash role hash s).0 else s

  -- The writes that precede the hash; only the first may fail the request.
  unfoldable pub store_role : RoleRequest → Store D → Store D × Bool
  unfolding upsert_role_model set_role_llama_config set_role_download_url
  store_role req s =
      let (s', done) = upsert_role_model (spec_of req.model_file_hash req) s in
      let configured : Store D =
        (set_role_llama_config req.role req.context_size req.parallel_slots req.gpu_layers
          req.endpoint_type req.flash_attention s').0 in
      if not done then (s', false) else (
        if str_eq req.download_url ""
            then configured
            else (set_role_download_url req.role req.download_url configured).0,
        true,
      )

  -- The hash that is known at the end, and whether a download is started; `file_hash` is
  -- modelStore.FileHash.
  unfoldable pub resolve_hash :
      (String → Option String) → RoleRequest → Store D → (Store D × String) × Bool
  unfolding upsert_role_model
  resolve_hash file_hash req s =
      if not (str_eq req.model_file_hash "") || str_eq req.filename ""
      then ((s, req.model_file_hash), false)
      else elim (file_hash req.filename) [
        | some hash ↦ (((upsert_role_model (spec_of hash req) s).0, hash), false)
        | none ↦ ((s, ""), not (str_eq req.download_url ""))
      ]

  module _ (env : Env) where
    unfoldable pub push_role : RoleRequest → String → Manager D → Manager D
    unfolding push_model_update compute_llm_hash
    push_role req hash m =
        if str_eq hash ""
        then m
        else (push_model_update env
            (record {
              role = req.role;
              model = req.model;
              quantisation = req.quantisation;
              filename = req.filename;
              model_file_hash = hash;
              llm_hash = compute_llm_hash env.sha256_hex req.role hash;
              context_size = req.context_size;
              endpoint_type = req.endpoint_type;
              parallel_slots = req.parallel_slots;
              gpu_layers = req.gpu_layers;
              flash_attention = req.flash_attention;
            })
            m).0

    -- POST and PUT; none is a body that does not decode. The last Bool is a download that starts. The
    -- store is the handler's own, not that of `m`.
    unfoldable pub set_role :
        (String → Option String)
        → Option RoleRequest
        → Store D
        → Manager D
        → (Store D × Manager D) × Reply Body × Bool
    unfolding is_complete with_defaults store_role resolve_hash push_role
    set_role file_hash none s m = ((s, m), error 400 "invalid JSON", false)
    set_role file_hash (some req) s m =
        if not (is_complete req)
        then ((s, m), error 400 "role, model, and min_vram_mb (>0) are required", false)
        else let (s', done) = store_role (with_defaults req) s in
          if not done
          then ((s', m), error 500 "database error", false)
          else let ((s'', hash), starts) = resolve_hash file_hash (with_defaults req) s' in
            ((s'', push_role (with_defaults req) hash m), reply 200 ok, starts)

  unfoldable pub list_roles : Store D → Reply Body
  unfolding get_role_models
  list_roles s = elim (get_role_models s) [
    | none ↦ error 500 "database error"
    | some rms ↦ reply 200 (roles rms)
  ]

  unfoldable pub delete_role : String → Store D → Store D × Reply Body
  unfolding delete_role_model
  delete_role role s =
      if str_eq role ""
      then (s, error 400 "role query parameter is required")
      else let (s', done) = delete_role_model role s in
        if done then (s', reply 200 ok) else (s', error 500 "database error")

  -- `role` is the query parameter, and `req` the decoded body.
  unfoldable pub admin_roles_handler :
      Env
      → (String → Option String)
      → Method
      → String
      → Option RoleRequest
      → Store D
      → Manager D
      → (Store D × Manager D) × Reply Body × Bool
  unfolding list_roles set_role delete_role
  admin_roles_handler env file_hash get role req s m = ((s, m), list_roles s, false)
  admin_roles_handler env file_hash post role req s m = set_role env file_hash req s m
  admin_roles_handler env file_hash put role req s m = set_role env file_hash req s m
  admin_roles_handler env file_hash delete role req s m =
      let (s', answer) = delete_role role s in ((s', m), answer, false)
  admin_roles_handler env file_hash other role req s m =
      ((s, m), error 405 "method not allowed", false)
