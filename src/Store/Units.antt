-- ===== src/Store/Units.antt =====
-- internal/manager/store/store.go: the records of dispatched work units.
use synergia.Prelude.{ℕ, ℤ, pos, String, Bool, none, some, str_eq}
use synergia.Store.Models.{WorkUnit}
use synergia.Store.State.{Database, Store}

abbrev by_unit : String → WorkUnit → Bool
by_unit id u = str_eq u.unit_id id

module _ {D : Database} where
  abbrev update_units : (WorkUnit → Bool) → (WorkUnit → WorkUnit) → Store D → Store D × Bool
  update_units p f s = let (t, done) = D.units.update p f s.units in (record s { units = t }, done)

  unfoldable pub record_work_unit : String → String → String → Store D → Store D × Bool
  record_work_unit id worker_fingerprint model s =
      let (t, done) =
        D.units.create
          (record {
            unit_id = id;
            worker_fingerprint = worker_fingerprint;
            llm_model = model;
            status = "dispatched";
            processing_time_ms = pos 0;
            error_message = "";
            completed_at = none;
          })
          s.units in
      (record s { units = t }, done)

  unfoldable pub complete_work_unit : String → ℤ → ℕ → Store D → Store D × Bool
  complete_work_unit id processing_time_ms now = update_units (by_unit id) (λ u. record u {
    status = "completed";
    processing_time_ms = processing_time_ms;
    completed_at = some now;
  })

  unfoldable pub fail_work_unit : String → String → ℕ → Store D → Store D × Bool
  fail_work_unit id error_message now =
      update_units (by_unit id) (λ u. record u {
        status = "failed";
        error_message = error_message;
        completed_at = some now;
      })

  unfoldable pub timeout_work_unit : String → ℕ → Store D → Store D × Bool
  timeout_work_unit id now =
      update_units (by_unit id) (λ u. record u { status = "timeout"; completed_at = some now })
