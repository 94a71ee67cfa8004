-- ===== src/Client/Worker/Answers.antt =====
-- What the manager gets of a work unit, and what is left of it.
use mathlib.Core.List.{append-nil}
use mathlib.Core.Path.{subst}
use synergia.Prelude.{
  not, ℕ, ◌≡◌, refl, String, Bool, true, false, Option, Option-cases, Bool-cases, inl, inr, ap, ◌∙◌,
  sym, if◌then◌else◌, none, some, List, [], ◌∷◌, ◌++◌, arith,
}
use synergia.Protocol.{WorkUnit}
use synergia.Client.Connection as Conn
use synergia.Client.Connection.{
  Connection, ToManager, result, error, heartbeat, status, llm_hash_report, initial_sync,
  signed_response,
}
use synergia.Client.Gpu.Monitor as Gpu
use synergia.Client.State as State
use synergia.Client.Worker.{
  Worker, Outside, Completion, completed, failed, panicked, result_of, begin, finish, process,
  recover, on_trigger, refusal, detect_trigger, Trigger, pause, panic, err,
}

-- The flags of a worker that is not processing.
pub record IsIdle (w : Worker) : Type 0 where
  pub tracked : w.state.processing ≡ false
  pub monitored : w.monitor.processing ≡ false

wait_for_baseline-processing :
    (ts : List (Option ℕ × Bool)) (m : Gpu.Monitor)
    → (Gpu.wait_for_baseline ts m).0.processing ≡ m.processing
unfolding Gpu.wait_for_baseline
wait_for_baseline-processing [] m = refl
wait_for_baseline-processing ((reading, late) ∷ ts) m =
    ground (arith, wait_for_baseline-processing ts (Gpu.wait_tick reading late m).0)

module _ (o : Outside) (wu : WorkUnit) where
  recover-IsIdle : (v : String) (w : Worker) → IsIdle (recover o wu v w)
  unfolding recover State.set_processing Gpu.set_processing
  recover-IsIdle v w = record { tracked = refl; monitored = refl }

  finish-IsIdle :
      (c : Completion) (ticks : List (Option ℕ × Bool)) (w : Worker)
      → IsIdle (finish o wu c ticks w)
  unfolding finish State.set_processing Gpu.set_processing
  finish-IsIdle (completed output ms) ticks w = record {
    tracked = ground arith;
    monitored = ground arith;
  }
  finish-IsIdle (failed message) ticks w = record { tracked = refl; monitored = refl }
  finish-IsIdle (panicked v) ticks w = recover-IsIdle v w

  on_trigger-IsIdle :
      (t : Option Trigger) (w : Worker)
      → (on_trigger o wu t w).1 ≡ false
      → IsIdle (on_trigger o wu t w).0
  unfolding State.set_processing Gpu.set_processing
  on_trigger-IsIdle none w h = cc
  on_trigger-IsIdle (some pause) w h = record { tracked = refl; monitored = refl }
  on_trigger-IsIdle (some panic) w h = recover-IsIdle _ _
  on_trigger-IsIdle (some err) w h = record { tracked = refl; monitored = refl }

  begin-IsIdle : (w : Worker) → IsIdle w → (begin o wu w).1 ≡ false → IsIdle (begin o wu w).0
  unfolding begin
  begin-IsIdle w i h = elim (Option-cases (refusal (detect_trigger wu.messages) w)) [
    | inl e ↦ rw (e, begin) (on_trigger-IsIdle (detect_trigger wu.messages) _ (rw (e, begin) at h))
    | inr (message, e) ↦ rw (e, begin) (record { tracked = i.tracked; monitored = i.monitored })
  ]

-- However a unit ends, by an answer, a refusal, an error, a panic, or a failed write, a worker that
-- was not processing is not processing after it.
pub process-IsIdle :
    (o : Outside) (wu : WorkUnit) (c : Completion) (ticks : List (Option ℕ × Bool)) (w : Worker)
    → IsIdle w
    → IsIdle (process o wu c ticks w)
process-IsIdle o wu c ticks w h = elim (Bool-cases (begin o wu w).1) [
  | inl e ↦ rw e (finish-IsIdle o wu c ticks (begin o wu w).0)
  | inr e ↦ rw e (begin-IsIdle o wu w h e)
]

-- The ids of the units that the log answers.
abbrev pub answers : List ToManager → List String
answers [] = []
answers (result r ∷ ms) = r.id ∷ answers ms
answers (error e ∷ ms) = e.id ∷ answers ms
answers (heartbeat ∷ ms) = answers ms
answers (status s ∷ ms) = answers ms
answers (llm_hash_report h ∷ ms) = answers ms
answers (initial_sync s ∷ ms) = answers ms
answers (signed_response r ∷ ms) = answers ms

answers-append : (xs ys : List ToManager) → answers (xs ++ ys) ≡ answers xs ++ answers ys
answers-append [] ys = refl
answers-append (result r ∷ xs) ys = ap (λ t. r.id ∷ t) (answers-append xs ys)
answers-append (error e ∷ xs) ys = ap (λ t. e.id ∷ t) (answers-append xs ys)
answers-append (heartbeat ∷ xs) ys = answers-append xs ys
answers-append (status s ∷ xs) ys = answers-append xs ys
answers-append (llm_hash_report h ∷ xs) ys = answers-append xs ys
answers-append (initial_sync s ∷ xs) ys = answers-append xs ys
answers-append (signed_response r ∷ xs) ys = answers-append xs ys

-- From one connection to the next, both open, these units are answered.
record Adds (c c' : Connection) (ids : List String) : Type 0 where
  opened : c'.opened ≡ true
  adds : answers c'.sent ≡ answers c.sent ++ ids

still : (c : Connection) → c.opened ≡ true → Adds c c []
still c h = record { opened = h; adds = sym (append-nil (answers c.sent)) }

Adds-trans : {c c' d : Connection} {ids : List String} → Adds c c' [] → Adds c' d ids → Adds c d ids
Adds-trans {c} {c'} {d} {ids} a b = record {
  opened = b.opened;
  adds = b.adds ∙ ap (λ t. t ++ ids) (a.adds ∙ append-nil (answers c.sent));
}

module _ (writes : ToManager → Bool) (all : (m : ToManager) → writes m ≡ true) where
  Adds-send :
      (m : ToManager) (c : Connection)
      → c.opened ≡ true
      → Adds c (Conn.send writes m c).0 (answers (m ∷ []))
  unfolding Conn.send
  Adds-send m c h = record {
    opened = ground (arith, all m);
    adds = ground (arith, all m, answers-append c.sent (m ∷ []));
  }

  Adds-send_status :
      (s : String) (c c' : Connection) (ids : List String)
      → Adds c c' ids
      → Adds c (Conn.send_status writes s c').0 ids
  unfolding Conn.send_status
  Adds-send_status s c c' ids a =
      let b = Adds-send (status (Conn.status_of s c')) c' a.opened in
      record { opened = b.opened; adds = b.adds ∙ append-nil (answers c'.sent) ∙ a.adds }

module _ (o : Outside) (all : (m : ToManager) → o.writes m ≡ true) (wu : WorkUnit) where
  abbrev Answered : Connection → Worker → Type 0
  Answered c w = Adds c w.conn (wu.id ∷ [])

  recover-Adds :
      (v : String) (w : Worker) → w.conn.opened ≡ true → Answered w.conn (recover o wu v w)
  unfolding recover
  recover-Adds v w h =
      Adds-send_status o.writes all "available" w.conn _ _ (Adds-send o.writes all _ w.conn h)

  finish-Adds :
      (c : Completion) (ticks : List (Option ℕ × Bool)) (w : Worker)
      → w.conn.opened ≡ true
      → Answered w.conn (finish o wu c ticks w)
  unfolding finish
  finish-Adds (completed output ms) ticks w h =
      let m = result (result_of o wu output ms w) in
      let a = Adds-send o.writes all m w.conn h in
      elim (Bool-cases (Conn.send o.writes m w.conn).1) [
        | inl e ↦ rw e (Adds-send_status o.writes all "available" w.conn _ _ a)
        | inr e ↦ rw e (Adds-send_status o.writes all "available" w.conn _ _ a)
      ]
  finish-Adds (failed message) ticks w h =
      Adds-send_status o.writes all "available" w.conn _ _ (Adds-send o.writes all _ w.conn h)
  finish-Adds (panicked v) ticks w h = recover-Adds v w h

  -- What is answered where the unit goes on or not.
  abbrev answered_unless : Bool → List String
  answered_unless runs = if runs then [] else wu.id ∷ []

  on_trigger-Adds :
      (t : Option Trigger) (w : Worker)
      → w.conn.opened ≡ true
      → Adds w.conn (on_trigger o wu t w).0.conn (answered_unless (on_trigger o wu t w).1)
  on_trigger-Adds none w h = still w.conn h
  on_trigger-Adds (some pause) w h =
      let told =
        Adds-send_status o.writes all (if not w.state.paused then "paused" else "available") w.conn
          w.conn [] (still w.conn h) in
      Adds-trans told (Adds-send o.writes all _ _ told.opened)
  on_trigger-Adds (some panic) w h = recover-Adds _ w h
  on_trigger-Adds (some err) w h =
      Adds-send_status o.writes all "available" w.conn _ _ (Adds-send o.writes all _ w.conn h)

  begin-Adds :
      (w : Worker)
      → w.conn.opened ≡ true
      → Adds w.conn (begin o wu w).0.conn (answered_unless (begin o wu w).1)
  unfolding begin
  begin-Adds w h = elim (Option-cases (refusal (detect_trigger wu.messages) w)) [
    | inl e ↦
        let told = Adds-send_status o.writes all "processing" w.conn w.conn [] (still w.conn h) in
        rw (e, begin) (Adds-trans told (on_trigger-Adds (detect_trigger wu.messages) _ told.opened))
    | inr (message, e) ↦ rw (e, begin) (Adds-send o.writes all _ w.conn h)
  ]

-- Over an open connection whose writes succeed, each unit is answered exactly once, by a result or an
-- error with its id, whatever becomes of it; the rest of what is sent answers none.
pub answers-process :
    (o : Outside) (wu : WorkUnit) (c : Completion) (ticks : List (Option ℕ × Bool)) (w : Worker)
    → ((m : ToManager) → o.writes m ≡ true)
    → w.conn.opened ≡ true
    → answers (process o wu c ticks w).conn.sent ≡ answers w.conn.sent ++ (wu.id ∷ [])
answers-process o wu c ticks w all h =
    let a = begin-Adds o all wu w h in
    elim (Bool-cases (begin o wu w).1) [
      | inl e ↦
          rw e
            (Adds-trans
              (subst (λ b. Adds w.conn (begin o wu w).0.conn (answered_unless o all wu b)) e a)
              (finish-Adds o all wu c ticks (begin o wu w).0 a.opened)).adds
      | inr e ↦
          rw e
            (subst (λ b. Adds w.conn (begin o wu w).0.conn (answered_unless o all wu b)) e a).adds
    ]
