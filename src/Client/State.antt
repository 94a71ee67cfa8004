-- ===== src/Client/State.antt =====
-- internal/client/state/state.go: what the probes and the worker's loop know of the worker. The
-- getters are the fields; times are in milliseconds.
use synergia.Prelude.{ℕ, ◌+◌, ◌-◌, String, Bool, false}
use synergia.Client.Gpu.Window.{GpuStats}
use synergia.Client.Gpu.Monitor as Gpu

pub record State : Type 0 where
  pub connected : Bool
  pub gpu_sent_avg : ℕ
  pub llm_reachable : Bool
  pub llm_error : String
  pub gpu_state : Gpu.State
  pub gpu_util : ℕ
  pub gpu_stats : GpuStats
  pub gpu_supported : Bool
  pub gpu_support_reason : String
  pub gpu_driver : String
  pub gpu_driver_version : String
  pub processing : Bool
  pub paused : Bool
  pub units : ℕ
  pub started_at : ℕ
  pub fingerprint : String
  pub model : String
  pub quantisation : String

unfoldable pub new : String → String → String → ℕ → State
new fingerprint model quantisation now = record {
  connected = false;
  gpu_sent_avg = 0;
  llm_reachable = false;
  llm_error = "not yet probed";
  gpu_state = Gpu.available;
  gpu_util = 0;
  gpu_stats = record { mean = 0; baseline_mean = 0; min = 0; max = 0; sample_count = 0 };
  gpu_supported = false;
  gpu_support_reason = "";
  gpu_driver = "";
  gpu_driver_version = "";
  processing = false;
  paused = false;
  units = 0;
  started_at = now;
  fingerprint = fingerprint;
  model = model;
  quantisation = quantisation;
}

unfoldable pub set_connected : Bool → ℕ → State → State
set_connected v gpu_sent_avg s = record s { connected = v; gpu_sent_avg = gpu_sent_avg }

unfoldable pub set_llm : Bool → String → State → State
set_llm reachable err s = record s { llm_reachable = reachable; llm_error = err }

unfoldable pub set_gpu : Gpu.State → ℕ → GpuStats → Bool → String → String → String → State → State
set_gpu st util stats supported reason driver driver_version s = record s {
  gpu_state = st;
  gpu_util = util;
  gpu_stats = stats;
  gpu_supported = supported;
  gpu_support_reason = reason;
  gpu_driver = driver;
  gpu_driver_version = driver_version;
}

unfoldable pub set_processing : Bool → State → State
set_processing v s = record s { processing = v }

unfoldable pub set_paused : Bool → State → State
set_paused v s = record s { paused = v }

unfoldable pub increment_units : State → State
increment_units s = record s { units = s.units + 1 }

unfoldable pub uptime : ℕ → State → ℕ
uptime now s = now - s.started_at
