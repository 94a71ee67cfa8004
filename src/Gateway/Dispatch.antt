-- ===== src/Gateway/Dispatch.antt =====
-- internal/manager/gateway/websocket.go: the choice of a worker for a work unit, and the broadcasts.
use synergia.Prelude.{
  ℕ, String, Bool, true, false, not, ◌&&◌, ◌||◌, Option, none, some, List, [], ◌∷◌, ◌++◌, str_eq,
  if◌then◌else◌,
}
use synergia.Protocol.{
  WorkUnit, ModelUpdate, Update, Outgoing, work_unit, model_update, binary_update, backend_update,
}
use synergia.Store.State.{Database, Store}
use synergia.Store.Workers.{is_worker_available, worker_llm_hash_matches}
use synergia.Store.Consents.{has_consent}
use synergia.Gateway.State.{WorkerInfo, WorkerConn, Env, Manager}

-- The body of the dispatch loops: skip the workers that a guard refuses and the connections that
-- cannot be written to. `none` is "no available worker".
unfoldable pub dispatch_loop :
    (WorkerConn → Bool) → (WorkerConn → Bool) → List (String × WorkerConn) → Option WorkerConn
dispatch_loop eligible writes [] = none
dispatch_loop eligible writes ((_, wc) ∷ rest) =
    let later = dispatch_loop eligible writes rest in
    if not (eligible wc) then later else if writes wc then some wc else later

abbrev pub with_store : {D : Database} → Option (Store D) → (Store D → Bool) → Bool
with_store none test = true
with_store (some s) test = test s

module _ {D : Database} (env : Env) where
  -- What the caller of a dispatch sees: the worker's info, and the unit in the log of its connection.
  abbrev pub sent_to : WorkUnit → Option WorkerConn → Manager D → Manager D × Option WorkerInfo
  sent_to unit none m = (m, none)
  sent_to unit (some wc) m =
      (record m { sent = m.sent ++ ((wc.conn, work_unit unit) ∷ []) }, some wc.info)

  abbrev pub consents : Manager D → WorkerConn → Bool
  consents m wc = with_store m.store (has_consent wc.info.fingerprint)

  abbrev pub is_eligible : Manager D → WorkerConn → Bool
  is_eligible m wc = consents m wc && with_store m.store (is_worker_available wc.info.fingerprint)

  abbrev pub matches_hash : String → Manager D → WorkerConn → Bool
  matches_hash expected m wc =
      consents m wc
      && (str_eq expected ""
          || with_store m.store (worker_llm_hash_matches wc.info.fingerprint expected))

  unfoldable pub dispatch : WorkUnit → Manager D → Manager D × Option WorkerInfo
  unfolding dispatch_loop
  dispatch unit m =
      sent_to unit
        (dispatch_loop (is_eligible m) (λ wc. env.write_json wc.conn (work_unit unit)) m.workers) m

  unfoldable pub dispatch_forced : WorkUnit → Manager D → Manager D × Option WorkerInfo
  unfolding dispatch_loop
  dispatch_forced unit m =
      sent_to unit
        (dispatch_loop (consents m) (λ wc. env.write_json wc.conn (work_unit unit)) m.workers) m

  unfoldable pub dispatch_with_hash_check :
      WorkUnit → String → Manager D → Manager D × Option WorkerInfo
  unfolding dispatch_loop
  dispatch_with_hash_check unit expected m =
      sent_to unit
        (dispatch_loop (matches_hash expected m) (λ wc. env.write_json wc.conn (work_unit unit))
          m.workers)
        m

  -- The loop of HasAvailableWorker, which asks for the status and not for the consent.
  abbrev any_available : Store D → List (String × WorkerConn) → Bool
  any_available s [] = false
  any_available s ((_, wc) ∷ rest) =
      let later = any_available s rest in
      if is_worker_available wc.info.fingerprint s then true else later

  unfoldable pub has_available_worker : Manager D → Bool
  has_available_worker m = elim m.store [
    | none ↦ elim m.workers [ [] ↦ false | _ ∷ _ ↦ true ]
    | some s ↦ any_available s m.workers
  ]

  -- One write; the log grows if it succeeds.
  abbrev pub write : ℕ → Outgoing → Manager D → Manager D × Bool
  write conn msg m =
      if env.write_json conn msg
      then (record m { sent = m.sent ++ ((conn, msg) ∷ []) }, true)
      else (m, false)

  -- The loop of the broadcasts; the Bool is lastErr == nil.
  unfoldable pub broadcast_loop :
      Outgoing → List (String × WorkerConn) → Bool → Manager D → Manager D × Bool
  broadcast_loop msg [] ok m = (m, ok)
  broadcast_loop msg ((_, wc) ∷ rest) ok m =
      broadcast_loop msg rest ((write wc.conn msg m).1 && ok) (write wc.conn msg m).0

  abbrev broadcast : Outgoing → Manager D → Manager D × Bool
  broadcast msg m = elim m.workers [ [] ↦ (m, false) | w ∷ ws ↦ broadcast_loop msg (w ∷ ws) true m ]

  unfoldable pub push_model_update : ModelUpdate → Manager D → Manager D × Bool
  unfolding broadcast_loop
  push_model_update update = broadcast (model_update update)

  unfoldable pub push_binary_update : Update → Manager D → Manager D × Bool
  unfolding broadcast_loop
  push_binary_update update = broadcast (binary_update update)

  unfoldable pub push_backend_update : Update → Manager D → Manager D × Bool
  unfolding broadcast_loop
  push_backend_update update = broadcast (backend_update update)
