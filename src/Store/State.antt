-- ===== src/Store/State.antt =====
-- internal/manager/store/store.go, Store and migrate: one table for each migrated model that the
-- modelled operations use. The branding, settings and client error tables are left out.
use synergia.Table.{Table, in_memory}
use synergia.Prelude.{[]}
use synergia.Store.Models.{
  Worker, WorkUnit, WorkerConsent, WorkerConfig, RoleModel, BatchRequest, LatencySample,
  LatencyHourlyStat, ClientVersionConfig, BackendVersionConfig, OidcConfig, WorkerAuthConfig,
}

-- The tables, as the database offers them.
pub record Database : Type 1 where
  pub workers : Table Worker
  pub units : Table WorkUnit
  pub consents : Table WorkerConsent
  pub configs : Table WorkerConfig
  pub roles : Table RoleModel
  pub batches : Table BatchRequest
  pub samples : Table LatencySample
  pub hourly : Table LatencyHourlyStat
  pub client_versions : Table ClientVersionConfig
  pub backend_versions : Table BackendVersionConfig
  pub oidc_configs : Table OidcConfig
  pub worker_auths : Table WorkerAuthConfig

pub record Store (D : Database) : Type 0 where
  pub workers : D.workers.State
  pub units : D.units.State
  pub consents : D.consents.State
  pub configs : D.configs.State
  pub roles : D.roles.State
  pub batches : D.batches.State
  pub samples : D.samples.State
  pub hourly : D.hourly.State
  pub client_versions : D.client_versions.State
  pub backend_versions : D.backend_versions.State
  pub oidc_configs : D.oidc_configs.State
  pub worker_auths : D.worker_auths.State

-- A database in memory, and an empty store over it.
abbrev pub memory : Database
memory = record {
  workers = in_memory Worker;
  units = in_memory WorkUnit;
  consents = in_memory WorkerConsent;
  configs = in_memory WorkerConfig;
  roles = in_memory RoleModel;
  batches = in_memory BatchRequest;
  samples = in_memory LatencySample;
  hourly = in_memory LatencyHourlyStat;
  client_versions = in_memory ClientVersionConfig;
  backend_versions = in_memory BackendVersionConfig;
  oidc_configs = in_memory OidcConfig;
  worker_auths = in_memory WorkerAuthConfig;
}

abbrev pub empty_store : Store memory
empty_store = record {
  workers = [];
  units = [];
  consents = [];
  configs = [];
  roles = [];
  batches = [];
  samples = [];
  hourly = [];
  client_versions = [];
  backend_versions = [];
  oidc_configs = [];
  worker_auths = [];
}
