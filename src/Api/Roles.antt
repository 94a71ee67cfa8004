-- ===== src/Api/Roles.antt =====
-- internal/manager/api/roles.go: the roles that a worker may take.
use synergia.Prelude.{
  ℤ, pos, le_ℤ, String, Bool, true, false, not, ◌||◌, none, some, List, map, str_eq, if◌then◌else◌,
}
use synergia.Store.Models.{RoleModel, WorkerConsent}
use synergia.Store.State.{Database, Store}
use synergia.Store.Consents.{Lookup, row, error as lookup_error, get_consent}
use synergia.Store.Roles.{get_role_models}
use synergia.Api.Http.{Headers, Method, get, post, other, Reply, reply, error, authenticate_roles}

pub record RoleInfo : Type 0 where
  pub role : String
  pub model : String
  pub quantisation : String
  pub min_vram_mb : ℤ
  pub description : String
  pub eligible : Bool

abbrev role_info : ℤ → RoleModel → RoleInfo
role_info worker_vram rm = record {
  role = rm.role;
  model = rm.llm_model;
  quantisation = rm.quantisation;
  min_vram_mb = rm.min_vram_mb;
  description = rm.description;
  eligible = str_eq rm.role "tester" || le_ℤ rm.min_vram_mb worker_vram;
}

abbrev is_get : Method → Bool
is_get get = true
is_get post = false
is_get other = false

abbrev vram_of : Lookup WorkerConsent → ℤ
vram_of lookup_error = pos 0
vram_of (row none) = pos 0
vram_of (row (some c)) = c.hardware.hw_v_ram_mb

module _ {D : Database} where
  unfoldable pub roles_handler :
      String → String → Method → Headers → String → Store D → Reply (List RoleInfo)
  unfolding get_role_models get_consent
  roles_handler api_key key method headers fingerprint s =
      if not (authenticate_roles api_key key headers)
      then error 401 "unauthorized"
      else if is_get method
      then elim (get_role_models s) [
        | none ↦ error 500 "database error"
        | some roles ↦ reply 200 (
            map
              (role_info
                (if str_eq fingerprint "" then pos 0 else vram_of (get_consent fingerprint s)))
              roles)
      ]
      else error 405 "method not allowed"
