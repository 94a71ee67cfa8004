-- ===== src/Store/Models.antt =====
-- internal/manager/store/models.go. The fields of `gorm.Model` that no operation reads are left
-- out; a time is a number.
use synergia.Prelude.{ℕ, ℤ, String, Bool, Option}

pub record Worker : Type 0 where
  pub fingerprint : String
  pub public_key : String
  pub llm_model : String
  pub quantisation : String
  pub client_version : String
  pub os : String
  pub arch : String
  pub llm_hash : String
  pub sync_status : String
  pub backend_hash : String
  pub backend_version : String
  pub binary_sync_status : String
  pub backend_sync_status : String
  pub trust_score : ℤ
  pub total_requests : ℤ
  pub total_latency_ms : ℤ
  pub gpu_avg : ℤ
  pub last_seen_at : ℕ
  pub status : String

pub record WorkUnit : Type 0 where
  pub unit_id : String
  pub worker_fingerprint : String
  pub llm_model : String
  pub status : String
  pub processing_time_ms : ℤ
  pub error_message : String
  pub completed_at : Option ℕ

-- The hardware columns, which are written together.
pub record Hardware : Type 0 where
  pub hw_os : String
  pub hw_os_ver : String
  pub hw_gpu : String
  pub hw_gpu_driver : String
  pub hw_gpu_driver_ver : String
  pub hw_v_ram_mb : ℤ
  pub hw_cpu : String
  pub hw_cpu_cores : ℤ
  pub hw_ram_mb : ℤ

pub record WorkerConsent : Type 0 where
  pub fingerprint : String
  pub accepted : Bool
  pub accepted_at : Option ℕ
  pub hardware_stats : Bool
  pub config_preferences : Bool
  pub hardware : Hardware

pub record WorkerConfig : Type 0 where
  pub fingerprint : String
  pub preferred_role : String
  pub nickname : String

pub record HardwareInfo : Type 0 where
  pub os : String
  pub os_ver : String
  pub gpu : String
  pub gpu_driver : String
  pub gpu_driver_version : String
  pub vram_mb : ℤ
  pub cpu : String
  pub cpu_cores : ℤ
  pub ram_mb : ℤ

pub record RoleModel : Type 0 where
  pub role : String
  pub llm_model : String
  pub quantisation : String
  pub model_filename : String
  pub model_file_hash : String
  pub download_url : String
  pub min_vram_mb : ℤ
  pub description : String
  pub context_size : ℤ
  pub endpoint_type : String
  pub parallel_slots : ℤ
  pub gpu_layers : ℤ
  pub flash_attention : Bool

pub record BatchRequest : Type 0 where
  pub request_id : String
  pub llm_model : String
  pub payload : String
  pub status : String
  pub result : String
  pub err_message : String
  pub created_at : ℕ
  pub updated_at : ℕ

pub record LatencySample : Type 0 where
  pub fingerprint : String
  pub role : String
  pub payload_bytes : ℕ
  pub latency_ms : ℤ
  pub created_at : ℕ

pub record LatencyHourlyStat : Type 0 where
  pub role : String
  pub hour : ℕ
  pub count : ℕ
  pub min_payload_bytes : ℕ
  pub max_payload_bytes : ℕ
  pub mean_payload_bytes : ℕ

pub record ClientVersionConfig : Type 0 where
  pub target_version : String
  pub rollout_mode : String
  pub rollout_percentage : ℤ
  pub updated_at : ℕ

pub record BackendVersionConfig : Type 0 where
  pub name : String
  pub version : String
  pub download_url : String
  pub sha256 : String
  pub updated_at : ℕ

-- oidc.go and workers_config.go, one row each
pub record OidcConfig : Type 0 where
  pub enabled : Bool
  pub client_id : String
  pub client_secret : String
  pub provider_url : String
  pub redirect_url : String
  pub updated_at : ℕ

pub record WorkerAuthConfig : Type 0 where
  pub tofu_enabled : Bool
  pub worker_key : String
  pub updated_at : ℕ
