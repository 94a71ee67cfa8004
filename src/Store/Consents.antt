-- ===== src/Store/Consents.antt =====
-- internal/manager/store/store.go: the consent and the configuration of a worker.
use synergia.Prelude.{ℕ, pos, String, Bool, false, ◌&&◌, Option, none, some, str_eq, if◌then◌else◌}
use synergia.Table.{Found, found, missing, failed, is_found}
use synergia.Store.Models.{Hardware, HardwareInfo, WorkerConsent, WorkerConfig}
use synergia.Store.State.{Database, Store}

abbrev no_hardware : Hardware
no_hardware = record {
  hw_os = "";
  hw_os_ver = "";
  hw_gpu = "";
  hw_gpu_driver = "";
  hw_gpu_driver_ver = "";
  hw_v_ram_mb = pos 0;
  hw_cpu = "";
  hw_cpu_cores = pos 0;
  hw_ram_mb = pos 0;
}

-- The hardware columns after a consent: `old` where no hardware was sent.
unfoldable pub hardware_columns : Hardware → Option HardwareInfo → Hardware
hardware_columns old none = old
hardware_columns old (some hw) = record {
  hw_os = hw.os;
  hw_os_ver = hw.os_ver;
  hw_gpu = hw.gpu;
  hw_gpu_driver = hw.gpu_driver;
  hw_gpu_driver_ver = hw.gpu_driver_version;
  hw_v_ram_mb = hw.vram_mb;
  hw_cpu = hw.cpu;
  hw_cpu_cores = hw.cpu_cores;
  hw_ram_mb = hw.ram_mb;
}

-- A missing record is no error.
pub data Lookup (R : Type 0) : Type 0 where
  row : Option R → Lookup R
  error : Lookup R

abbrev pub to_lookup : {R : Type 0} → Found R → Lookup R
to_lookup (found r) = row (some r)
to_lookup missing = row none
to_lookup failed = error

-- The row of a first answer.
unfoldable pub consent_row : String → Bool → Bool → Bool → Option HardwareInfo → ℕ → WorkerConsent
unfolding hardware_columns
consent_row fp accepted hardware_stats config_preferences hw now = record {
  fingerprint = fp;
  accepted = accepted;
  accepted_at = if accepted then some now else none;
  hardware_stats = hardware_stats;
  config_preferences = config_preferences;
  hardware = hardware_columns no_hardware hw;
}

-- A further answer, for the row `consent` that was read: the time of the first acceptance stays.
unfoldable pub answer_consent :
    WorkerConsent → Bool → Bool → Bool → Option HardwareInfo → ℕ → WorkerConsent → WorkerConsent
unfolding hardware_columns
answer_consent consent accepted hardware_stats config_preferences hw now c = record c {
  accepted = accepted;
  accepted_at = elim consent.accepted_at [
    | none ↦ if accepted then some now else c.accepted_at
    | some _ ↦ c.accepted_at
  ];
  hardware_stats = hardware_stats;
  config_preferences = config_preferences;
  hardware = hardware_columns c.hardware hw;
}

module _ {D : Database} where
  unfoldable pub get_consent : String → Store D → Lookup WorkerConsent
  get_consent fp s = to_lookup (D.consents.first (λ c. str_eq c.fingerprint fp) s.consents)

  unfoldable pub set_consent :
      String → Bool → Bool → Bool → Option HardwareInfo → ℕ → Store D → Store D × Bool
  unfolding consent_row answer_consent
  set_consent fp accepted hardware_stats config_preferences hw now s =
      elim (D.consents.first (λ c. str_eq c.fingerprint fp) s.consents) [
        | missing ↦
            let (t, done) =
              D.consents.create (consent_row fp accepted hardware_stats config_preferences hw now)
                s.consents in
            (record s { consents = t }, done)
        | failed ↦ (s, false)
        | found consent ↦
            let (t, done) =
              D.consents.save (λ c. str_eq c.fingerprint fp)
                (answer_consent consent accepted hardware_stats config_preferences hw now)
                s.consents in
            (record s { consents = t }, done)
      ]

  unfoldable pub has_consent : String → Store D → Bool
  has_consent fp s =
      is_found (D.consents.first (λ c. str_eq c.fingerprint fp && c.accepted) s.consents)

  unfoldable pub get_worker_config : String → Store D → Lookup WorkerConfig
  get_worker_config fp s = to_lookup (D.configs.first (λ c. str_eq c.fingerprint fp) s.configs)

  unfoldable pub set_worker_config : String → String → String → Store D → Store D × Bool
  set_worker_config fp preferred_role nickname s =
      elim (D.configs.first (λ c. str_eq c.fingerprint fp) s.configs) [
        | missing ↦
            let (t, done) =
              D.configs.create
                (record { fingerprint = fp; preferred_role = preferred_role; nickname = nickname })
                s.configs in
            (record s { configs = t }, done)
        | failed ↦ (s, false)
        | found _ ↦
            let (t, done) =
              D.configs.save (λ c. str_eq c.fingerprint fp)
                (λ c. record c { preferred_role = preferred_role; nickname = nickname })
                s.configs in
            (record s { configs = t }, done)
      ]
