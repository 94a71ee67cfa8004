-- ===== src/Gateway/Reconnect.antt =====
-- A worker that connects again while its old connection is still registered: register_worker against
-- the deferred function of readLoop (internal/manager/gateway/websocket.go).
use synergia.Prelude.{
  ◌≡◌, inl, inr, ◌≢◌, true, false, none, some, String, str_eq, eq_iff, ◌==◌, if◌then◌else◌,
  Bool-cases, arith,
}
use synergia.Store.Models.{Worker}
use synergia.Store.State.{Database, Store}
use synergia.Table.Lists.{find?-holds}
use synergia.Store.Workers.{
  by_fingerprint, unless_status, with_status, worker_at, set_worker_offline,
}
use synergia.Store.Status.{write_selected}
use synergia.Gateway.State.{WorkerConn, Manager, lookup}
use synergia.Gateway.Keys.{lookup-delete, lookup-insert}
use synergia.Gateway.Handshake.{register_worker}
use synergia.Gateway.Messages.{disconnect}

module _ {D : Database} (m : Manager D) where
  -- The end of a connection unregisters it exactly if it is still the registered one: the entry of a
  -- newer connection, and those of the other workers, stay.
  pub disconnect_unregisters :
      (wc : WorkerConn) (k : String)
      → lookup k (disconnect wc m).workers ≡ (elim (lookup k m.workers) [
        | none ↦ none
        | some other ↦
            if str_eq wc.info.fingerprint k
            then if other.conn == wc.conn then none else some other
            else some other
      ])
  unfolding disconnect
  disconnect_unregisters wc k = elim (Bool-cases (str_eq wc.info.fingerprint k)) [
    | inl e ↦
        let same : wc.info.fingerprint ≡ k = (eq_iff wc.info.fingerprint k).0 e in
        ground (arith, same, lookup-delete wc.info.fingerprint k m.workers)
    | inr e ↦ ground (arith, lookup-delete wc.info.fingerprint k m.workers)
  ]

-- A worker whose record does not say "deleted" reconnects on connection `new`, and then the read
-- loop of another connection of it, `old`, ends: the worker stays registered on `new`, and where
-- the write of its status succeeds its record says "offline".
pub reconnect_marked_offline :
    {D : Database} (m : Manager D) (s : Store D) (old new : WorkerConn) (w : Worker)
    → m.store ≡ some s
    → old.info.fingerprint ≡ new.info.fingerprint
    → old.conn ≢ new.conn
    → worker_at old.info.fingerprint s ≡ some w
    → str_eq w.status "deleted" ≡ false
    → (set_worker_offline old.info.fingerprint s).1 ≡ true
    → (lookup new.info.fingerprint (disconnect old (register_worker new m)).workers ≡ some new)
      × ((s' : Store D) × ((disconnect old (register_worker new m)).store ≡ some s')
          × (worker_at old.info.fingerprint s' ≡ some (with_status "offline" w)))
unfolding register_worker disconnect set_worker_offline
reconnect_marked_offline m s old new w hs same differ row live done = (
  still_registered,
  (
    (set_worker_offline old.info.fingerprint s).0,
    ground arith,
    write_selected old.info.fingerprint s (unless_status old.info.fingerprint "deleted") "offline" w
        row done (ground (arith, live, find?-holds (by_fingerprint old.info.fingerprint) _ w row)),
  ),
)
  where
    registered_new : lookup new.info.fingerprint (register_worker new m).workers ≡ some new
    registered_new = ground (
      arith,
      lookup-insert new.info.fingerprint new.info.fingerprint new m.workers,
      eq_iff new.info.fingerprint new.info.fingerprint,
    )

    still_registered :
        lookup new.info.fingerprint (disconnect old (register_worker new m)).workers ≡ some new
    still_registered = ground (
      arith,
      differ,
      registered_new,
      disconnect_unregisters (register_worker new m) old new.info.fingerprint,
    )
