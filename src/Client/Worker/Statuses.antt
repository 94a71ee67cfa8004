-- ===== src/Client/Worker/Statuses.antt =====
-- What the manager is told of the worker's status around a unit.
use mathlib.Core.Path.{subst}
use synergia.Prelude.{
  ℕ, ◌≡◌, refl, ◌∙◌, String, Bool, true, false, not, ◌&&◌, Option, Bool-cases, inl, inr, none, some,
  List, [], ◌∷◌, ◌++◌, if◌then◌else◌, arith,
}
use synergia.Protocol.{WorkUnit}
use synergia.Client.Connection as Conn
use synergia.Client.Connection.{Connection, ToManager, status}
use synergia.Client.State as State
use synergia.Client.Worker.{
  Worker, Outside, Completion, completed, failed, panicked, begin, finish, process, recover,
  on_trigger, refusal, detect_trigger, Trigger, pause, panic, err, result_of, is_pause,
}

abbrev status_in : ToManager → Option String → Option String
status_in (Conn.result r) s = s
status_in (Conn.error e) s = s
status_in Conn.heartbeat s = s
status_in (status t) s = some t.state
status_in (Conn.llm_hash_report h) s = s
status_in (Conn.initial_sync t) s = s
status_in (Conn.signed_response r) s = s

abbrev status_from : Option String → List ToManager → Option String
status_from s [] = s
status_from s (m ∷ ms) = status_from (status_in m s) ms

-- The status that was sent last.
abbrev pub last_status : List ToManager → Option String
last_status = status_from none

status_from-append :
    (ms : List ToManager) (s : Option String) (m : ToManager)
    → status_from s (ms ++ (m ∷ [])) ≡ status_in m (status_from s ms)
status_from-append [] s m = refl
status_from-append (x ∷ ms) s m = status_from-append ms (status_in x s) m

module _ (writes : ToManager → Bool) (all : (m : ToManager) → writes m ≡ true) where
  opened-send : (m : ToManager) (c : Connection) → (Conn.send writes m c).0.opened ≡ c.opened
  unfolding Conn.send
  opened-send m c = ground arith

  last_status-send :
      (m : ToManager) (c : Connection)
      → c.opened ≡ true
      → last_status (Conn.send writes m c).0.sent ≡ status_in m (last_status c.sent)
  unfolding Conn.send
  last_status-send m c h = ground (arith, all m, status_from-append c.sent none m)

  last_status-send_status :
      (s : String) (c : Connection)
      → c.opened ≡ true
      → last_status (Conn.send_status writes s c).0.sent ≡ some s
  unfolding Conn.send_status
  last_status-send_status s c h = last_status-send (status (Conn.status_of s c)) c h

module _ (o : Outside) (all : (m : ToManager) → o.writes m ≡ true) (wu : WorkUnit) where
  abbrev Told : Worker → String → Type 0
  Told w s = last_status w.conn.sent ≡ some s

  recover-Told :
      (v : String) (w : Worker) → w.conn.opened ≡ true → Told (recover o wu v w) "available"
  unfolding recover
  recover-Told v w h =
      last_status-send_status o.writes all "available" _ (opened-send o.writes all _ w.conn ∙ h)

  finish-Told :
      (c : Completion) (ticks : List (Option ℕ × Bool)) (w : Worker)
      → w.conn.opened ≡ true
      → Told (finish o wu c ticks w) "available"
  unfolding finish
  finish-Told (completed output ms) ticks w h =
      let m = Conn.result (result_of o wu output ms w) in
      let told =
        last_status-send_status o.writes all "available" _
          (opened-send o.writes all m w.conn ∙ h) in
      elim (Bool-cases (Conn.send o.writes m w.conn).1) [ inl e ↦ rw e told | inr e ↦ rw e told ]
  finish-Told (failed message) ticks w h =
      last_status-send_status o.writes all "available" _ (opened-send o.writes all _ w.conn ∙ h)
  finish-Told (panicked v) ticks w h = recover-Told v w h

  finish-paused :
      (c : Completion) (ticks : List (Option ℕ × Bool)) (w : Worker)
      → (finish o wu c ticks w).state.paused ≡ w.state.paused
  unfolding finish recover State.set_processing State.increment_units
  finish-paused (completed output ms) ticks w = ground arith
  finish-paused (failed message) ticks w = refl
  finish-paused (panicked v) ticks w = refl

-- If the user pauses the worker while the local model works on a unit, then, over an open connection
-- whose writes succeed, the status that is sent last is "available", and the worker is still paused.
pub finish_tells_available :
    (o : Outside) (wu : WorkUnit) (c : Completion) (ticks : List (Option ℕ × Bool)) (w : Worker)
    → ((m : ToManager) → o.writes m ≡ true)
    → w.conn.opened ≡ true
    → w.state.paused ≡ true
    → (last_status (finish o wu c ticks w).conn.sent ≡ some "available")
      × ((finish o wu c ticks w).state.paused ≡ true)
finish_tells_available o wu c ticks w all h p =
    (finish-Told o all wu c ticks w h, finish-paused o all wu c ticks w ∙ p)

abbrev pub status_word : Bool → String
status_word paused = if paused then "paused" else "available"

module _ (o : Outside) (all : (m : ToManager) → o.writes m ≡ true) (wu : WorkUnit) where
  abbrev Tells : Worker → Type 0
  Tells w = last_status w.conn.sent ≡ some (status_word w.state.paused)

  -- Before the local model works, the worker is not paused; otherwise the pause was told.
  abbrev TellsUnless : Bool → Worker → Type 0
  TellsUnless true w = (w.conn.opened ≡ true) × (w.state.paused ≡ false)
  TellsUnless false w = Tells w

  toggle-Tells : (w : Worker) → w.conn.opened ≡ true → Tells (on_trigger o wu (some pause) w).0
  unfolding State.set_paused State.set_processing Conn.send_status
  toggle-Tells w h =
      last_status-send o.writes all _ _ (opened-send o.writes all _ w.conn ∙ h)
      ∙ last_status-send o.writes all _ w.conn h

  on_trigger-Tells :
      (t : Option Trigger) (w : Worker)
      → w.conn.opened ≡ true
      → w.state.paused && not (is_pause t) ≡ false
      → TellsUnless (on_trigger o wu t w).1 (on_trigger o wu t w).0
  unfolding State.set_processing recover
  on_trigger-Tells none w h p = (h, ground arith)
  on_trigger-Tells (some pause) w h p = toggle-Tells w h
  on_trigger-Tells (some panic) w h p =
      let q : w.state.paused ≡ false = ground arith in
      rw q (recover-Told o all wu "intentional panic triggered by test payload" w h)
  on_trigger-Tells (some err) w h p =
      let q : w.state.paused ≡ false = ground arith in
      rw q
        (last_status-send_status o.writes all "available" _ (opened-send o.writes all _ w.conn ∙ h))

  begin-Tells :
      (w : Worker)
      → w.conn.opened ≡ true
      → refusal (detect_trigger wu.messages) w ≡ none
      → TellsUnless (begin o wu w).1 (begin o wu w).0
  unfolding begin State.set_processing Conn.send_status
  begin-Tells w h e =
      rw (e, begin)
        (on_trigger-Tells (detect_trigger wu.messages) _ (opened-send o.writes all _ w.conn ∙ h)
          (ground arith))

-- Over an open connection whose writes succeed, and where nothing happens while the local model works,
-- the status that is sent last for a unit that was not refused is "paused" if the worker is paused
-- after it, and "available" if it is not: also where the unit toggles the pause.
pub process_tells_pause :
    (o : Outside) (wu : WorkUnit) (c : Completion) (ticks : List (Option ℕ × Bool)) (w : Worker)
    → ((m : ToManager) → o.writes m ≡ true)
    → w.conn.opened ≡ true
    → refusal (detect_trigger wu.messages) w ≡ none
    → last_status (process o wu c ticks w).conn.sent
      ≡ some (status_word (process o wu c ticks w).state.paused)
process_tells_pause o wu c ticks w all h r =
    let t = begin-Tells o all wu w h r in
    elim (Bool-cases (begin o wu w).1) [
      | inl e ↦
          let (opened, p) = subst (λ b. TellsUnless o all wu b (begin o wu w).0) e t in
          rw (e, finish-paused o all wu c ticks (begin o wu w).0, p)
            (finish-Told o all wu c ticks (begin o wu w).0 opened)
      | inr e ↦ rw e (subst (λ b. TellsUnless o all wu b (begin o wu w).0) e t)
    ]
