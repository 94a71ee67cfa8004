-- ===== src/Store/Roles.antt =====
-- internal/manager/store/store.go: the mapping from roles to models, and its seeds.
use synergia.Prelude.{
  ℤ, pos, negsuc, String, Bool, true, false, not, ◌||◌, Option, none, some, List, [], ◌∷◌, str_eq,
  if◌then◌else◌,
}
use synergia.Table.{found, missing, failed}
use synergia.Store.Models.{RoleModel}
use synergia.Store.State.{Database, Store}

abbrev by_role : String → RoleModel → Bool
by_role role r = str_eq r.role role

abbrev pub known_model_urls : List (String × String)
known_model_urls =
    (
      "SmolLM2-135M-Instruct-Q4_K_M.gguf",
      "https://huggingface.co/bartowski/SmolLM2-135M-Instruct-GGUF/resolve/main/SmolLM2-135M-Instruct-Q4_K_M.gguf",
    )
    ∷ (
      "bge-m3-Q4_K_M.gguf",
      "https://huggingface.co/gpustack/bge-m3-GGUF/resolve/main/bge-m3-Q4_K_M.gguf",
    )
    ∷ (
      "mistral-nemo-12b-instruct-Q4_K_M.gguf",
      "https://huggingface.co/bartowski/Mistral-Nemo-Instruct-2407-GGUF/resolve/main/Mistral-Nemo-Instruct-2407-Q4_K_M.gguf",
    )
    ∷ (
      "mistral-small-3.1-24b-instruct-Q4_K_M.gguf",
      "https://huggingface.co/bartowski/Mistral-Small-3.1-24B-Instruct-2503-GGUF/resolve/main/Mistral-Small-3.1-24B-Instruct-2503-Q4_K_M.gguf",
    )
    ∷ []

abbrev pub lookup : String → List (String × String) → Option String
lookup k [] = none
lookup k ((j, v) ∷ m) = if str_eq j k then some v else lookup k m

-- The arguments of UpsertRoleModel; the seeds leave the hash empty.
pub record RoleSpec : Type 0 where
  pub role : String
  pub llm_model : String
  pub quantisation : String
  pub model_filename : String
  pub model_file_hash : String
  pub min_vram_mb : ℤ
  pub description : String

-- The row that Create stores: the struct's fields and the column defaults of models.go.
unfoldable pub new_role : RoleSpec → RoleModel
new_role r = record {
  role = r.role;
  llm_model = r.llm_model;
  quantisation = r.quantisation;
  model_filename = r.model_filename;
  model_file_hash = r.model_file_hash;
  download_url = "";
  min_vram_mb = r.min_vram_mb;
  description = r.description;
  context_size = pos 4096;
  endpoint_type = "chat";
  parallel_slots = pos 1;
  gpu_layers = negsuc 0;
  flash_attention = false;
}

unfoldable pub refresh_role : RoleSpec → RoleModel → RoleModel
refresh_role r rm = record rm {
  llm_model = r.llm_model;
  quantisation = r.quantisation;
  model_filename = r.model_filename;
  model_file_hash = r.model_file_hash;
  min_vram_mb = r.min_vram_mb;
  description = r.description;
}

abbrev tiny_role : String → String → RoleSpec
tiny_role role description = record {
  role = role;
  llm_model = "SmolLM2-135M-Instruct";
  quantisation = "Q4_K_M";
  model_filename = "SmolLM2-135M-Instruct-Q4_K_M.gguf";
  model_file_hash = "";
  min_vram_mb = pos 512;
  description = description;
}

abbrev tester_role : RoleSpec
tester_role = tiny_role "tester" "Connectivity testing — minimal model for any hardware"

abbrev pub test_roles : List RoleSpec
test_roles =
    tiny_role "embedding" "Vector embeddings (test mode — minimal model)"
    ∷ tiny_role "inference" "Query inference (test mode — minimal model)"
    ∷ tiny_role "ingestion" "Document ingestion (test mode — minimal model)"
    ∷ tester_role
    ∷ []

abbrev pub production_roles : List RoleSpec
production_roles =
    record {
      role = "embedding";
      llm_model = "bge-m3";
      quantisation = "Q4_K_M";
      model_filename = "bge-m3-Q4_K_M.gguf";
      model_file_hash = "";
      min_vram_mb = pos 4096;
      description = "Vector embeddings (bge-m3, ~2 GB model + KV cache)";
    }
    ∷ record {
      role = "inference";
      llm_model = "mistral-nemo-12b-instruct";
      quantisation = "Q4_K_M";
      model_filename = "mistral-nemo-12b-instruct-Q4_K_M.gguf";
      model_file_hash = "";
      min_vram_mb = pos 10240;
      description = "Query inference (Mistral Nemo 12B, ~7 GB model + KV cache)";
    }
    ∷ record {
      role = "ingestion";
      llm_model = "mistral-small-3.1-24b-instruct";
      quantisation = "Q4_K_M";
      model_filename = "mistral-small-3.1-24b-instruct-Q4_K_M.gguf";
      model_file_hash = "";
      min_vram_mb = pos 20480;
      description = "Document ingestion (Mistral Small 3.1 24B, ~14 GB model + KV cache)";
    }
    ∷ tester_role
    ∷ []

module _ {D : Database} where
  abbrev update_roles : (RoleModel → Bool) → (RoleModel → RoleModel) → Store D → Store D × Bool
  update_roles p f s = let (t, done) = D.roles.update p f s.roles in (record s { roles = t }, done)

  -- GetRoleModels; its order by min_vram_mb is for display.
  unfoldable pub get_role_models : Store D → Option (List RoleModel)
  get_role_models s = D.roles.find (λ _. true) s.roles

  unfoldable pub get_role_model : String → Store D → Option RoleModel
  get_role_model role s = elim (D.roles.first (by_role role) s.roles) [
    | found rm ↦ some rm
    | missing ↦ none
    | failed ↦ none
  ]

  unfoldable pub upsert_role_model : RoleSpec → Store D → Store D × Bool
  upsert_role_model r s = elim (D.roles.first (by_role r.role) s.roles) [
    | missing ↦
        let (t, done) = D.roles.create (new_role r) s.roles in (record s { roles = t }, done)
    | failed ↦ (s, false)
    | found _ ↦
        let (t, done) = D.roles.save (by_role r.role) (refresh_role r) s.roles in
        (record s { roles = t }, done)
  ]

  unfoldable pub set_role_download_url : String → String → Store D → Store D × Bool
  set_role_download_url role url =
      update_roles (by_role role) (λ r. record r { download_url = url })

  unfoldable pub fill_missing : List RoleModel → Store D → Store D
  unfolding set_role_download_url
  fill_missing [] s = s
  fill_missing (rm ∷ rms) s = fill_missing rms (
      if not (str_eq rm.download_url "") || str_eq rm.model_filename ""
      then s
      else elim (lookup rm.model_filename known_model_urls) [
        | none ↦ s
        | some url ↦ (set_role_download_url rm.role url s).0
      ])

  unfoldable pub fill_missing_download_urls : Store D → Store D
  unfolding get_role_models fill_missing
  fill_missing_download_urls s = elim (get_role_models s) [
    | none ↦ s
    | some rms ↦ fill_missing rms s
  ]

  unfoldable pub set_role_model_file_hash : String → String → Store D → Store D × Bool
  set_role_model_file_hash role hash =
      update_roles (by_role role) (λ r. record r { model_file_hash = hash })

  unfoldable pub set_role_llama_config :
      String → ℤ → ℤ → ℤ → String → Bool → Store D → Store D × Bool
  set_role_llama_config role context_size parallel_slots gpu_layers endpoint_type flash_attention =
      update_roles (by_role role) (λ r. record r {
        context_size = context_size;
        parallel_slots = parallel_slots;
        gpu_layers = gpu_layers;
        endpoint_type = endpoint_type;
        flash_attention = flash_attention;
      })

  unfoldable pub delete_role_model : String → Store D → Store D × Bool
  delete_role_model role s =
      let (t, done) = D.roles.delete (by_role role) s.roles in (record s { roles = t }, done)

  -- The loop of the seeds: it ends at the first error.
  unfoldable pub seed_roles : List RoleSpec → Store D → Store D × Bool
  unfolding upsert_role_model
  seed_roles [] s = (s, true)
  seed_roles (r ∷ rs) s =
      let rest = seed_roles rs (upsert_role_model r s).0 in
      if (upsert_role_model r s).1 then rest else ((upsert_role_model r s).0, false)

  unfoldable pub seed_test_roles : Store D → Store D × Bool
  unfolding seed_roles
  seed_test_roles = seed_roles test_roles

  unfoldable pub seed_production_roles : Store D → Store D × Bool
  unfolding seed_roles
  seed_production_roles = seed_roles production_roles

  unfoldable pub seed_tester_role : Store D → Store D × Bool
  unfolding upsert_role_model
  seed_tester_role = upsert_role_model tester_role
