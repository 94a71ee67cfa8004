-- ===== src/Client/Worker.antt =====
-- internal/client/worker/worker.go: the worker's state and the processing of a work unit. In
-- cmd/synergia-client/main.go the counter, the processing tracker and the pause checker are one State.
-- What other goroutines do while the local model works stands between `begin` and `finish`.
use synergia.Prelude.{
  ℕ, ℤ, pos, String, Bool, true, false, not, ◌&&◌, Option, none, some, List, [], ◌∷◌, ◌++◌,
  str_append, contains, if◌then◌else◌,
}
use synergia.Protocol.{ChatMessage, WorkUnit, Result, Error}
use synergia.Gateway.State.{Bytes}
use synergia.Client.Gpu.Monitor as Gpu
use synergia.Client.State as State
use synergia.Client.Connection as Conn
use synergia.Client.Connection.{Connection, ToManager, result, error}
pub mod Answers
pub mod Statuses

-- A nil reporter or consent checker is none. `reports` logs what was reported.
pub record Worker : Type 0 where
  pub conn : Connection
  pub state : State.State
  pub monitor : Gpu.Monitor
  pub has_reporter : Bool
  pub reports : List String
  pub consent : Option Bool

-- What the worker uses of the outside: whether a write succeeds, the text of its error, Ed25519 in hex
-- over the bytes of a text, the printing of a number, and the JSON of a toggle's acknowledgement.
pub record Outside : Type 0 where
  pub writes : ToManager → Bool
  pub write_error : String
  pub sign : Bytes → String → String
  pub show : ℤ → String
  pub acknowledge : String → String

pub data Trigger : Type 0 where
  pause panic err : Trigger

abbrev pub trigger_in : String → Option Trigger
trigger_in content =
    if contains "##############PAUSE##############" content
    then some pause
    else if contains "##############PANIC##############" content
    then some panic
    else if contains "##############ERROR##############" content
    then some err
    else none

unfoldable pub detect_trigger : List ChatMessage → Option Trigger
detect_trigger [] = none
detect_trigger (m ∷ ms) = elim (trigger_in m.content) [ none ↦ detect_trigger ms | some t ↦ some t ]

-- How llm.Complete ends: with an output after some milliseconds, with an error, or with a panic.
pub data Completion : Type 0 where
  completed : String → ℤ → Completion
  failed : String → Completion
  panicked : String → Completion

abbrev pub is_pause : Option Trigger → Bool
is_pause (some pause) = true
is_pause (some panic) = false
is_pause (some err) = false
is_pause none = false

abbrev pub is_revoked : Option Bool → Bool
is_revoked none = false
is_revoked (some accepted) = not accepted

abbrev pub is_busy : Gpu.State → Bool
is_busy Gpu.busy = true
is_busy Gpu.available = false

-- The three guards of process, which answer with an error.
abbrev pub refusal : Option Trigger → Worker → Option String
refusal trigger w =
    if w.state.paused && not (is_pause trigger)
    then some "worker paused by user"
    else if is_revoked w.consent
    then some "worker consent revoked"
    else if is_busy w.monitor.state
    then some "worker idle: GPU contention detected"
    else none

abbrev pub report : String → Worker → Worker
report message w = record w {
  reports = if w.has_reporter then w.reports ++ (message ∷ []) else w.reports;
}

abbrev pub set_processing : Bool → Worker → Worker
set_processing v w = record w {
  state = State.set_processing v w.state;
  monitor = Gpu.set_processing v w.monitor;
}

unfoldable pub canonical_signature_payload : (ℤ → String) → String → String → ℤ → String
canonical_signature_payload show id output ms =
    str_append id (str_append ":" (str_append output (str_append ":" (show ms))))

module _ (o : Outside) where
  abbrev pub send : ToManager → Worker → Worker
  send m w = record w { conn = (Conn.send o.writes m w.conn).0 }

  abbrev pub send_status : String → Worker → Worker
  send_status s w = record w { conn = (Conn.send_status o.writes s w.conn).0 }

  abbrev pub send_error : String → String → Worker → Worker
  send_error id message = send (error (record { id = id; error = message }))

  abbrev pub release : Worker → Worker
  release w = send_status "available" (set_processing false w)

  -- The deferred function, for the panic `v`.
  unfoldable pub recover : WorkUnit → String → Worker → Worker
  recover wu v w =
      let message : String = str_append "panic in worker: " v in
      release (send_error wu.id message (report message w))

  abbrev pub result_of : WorkUnit → String → ℤ → Worker → Result
  result_of wu output ms w = record {
    id = wu.id;
    fingerprint = w.conn.identity.fingerprint;
    output = output;
    processing_time_ms = ms;
    signature =
        o.sign w.conn.identity.private_key (canonical_signature_payload o.show wu.id output ms);
  }

  -- The switch over the trigger, and whether the unit goes to the local model.
  abbrev pub on_trigger : WorkUnit → Option Trigger → Worker → Worker × Bool
  on_trigger wu none w = (w, true)
  on_trigger wu (some pause) w =
      let paused = not w.state.paused in
      let state_str : String = if paused then "paused" else "available" in
      let w' = send_status state_str (record w { state = State.set_paused paused w.state }) in
      (
        set_processing false (send (result (result_of wu (o.acknowledge state_str) (pos 0) w')) w'),
        false,
      )
  on_trigger wu (some panic) w = (recover wu "intentional panic triggered by test payload" w, false)
  on_trigger wu (some err) w =
      let message : String = "intentional error triggered by test payload" in
      (release (send_error wu.id message (report message w)), false)

  -- process, up to the call of the local model.
  unfoldable pub begin : WorkUnit → Worker → Worker × Bool
  unfolding recover detect_trigger canonical_signature_payload
  begin wu w = elim (refusal (detect_trigger wu.messages) w) [
    | some message ↦ (send_error wu.id message w, false)
    | none ↦
        on_trigger wu (detect_trigger wu.messages)
          (send_status "processing" (set_processing true w))
  ]

  -- After a result was sent: the GPU cools down.
  abbrev pub cool_down : List (Option ℕ × Bool) → Worker → Worker
  cool_down ticks w = release (record w {
    state = State.increment_units w.state;
    monitor = (Gpu.wait_for_baseline ticks w.monitor).0;
  })

  -- process, from the return of the local model.
  unfoldable pub finish : WorkUnit → Completion → List (Option ℕ × Bool) → Worker → Worker
  unfolding recover canonical_signature_payload
  finish wu (completed output ms) ticks w =
      let (conn, sent) = Conn.send o.writes (result (result_of wu output ms w)) w.conn in
      let w' : Worker = record w { conn = conn } in
      if sent then cool_down ticks w' else release (report o.write_error w')
  finish wu (failed message) ticks w = release (send_error wu.id message (report message w))
  finish wu (panicked v) ticks w = recover wu v w

  -- process, where nothing else happens while the local model works.
  abbrev pub process : WorkUnit → Completion → List (Option ℕ × Bool) → Worker → Worker
  process wu c ticks w = let (w', runs) = begin wu w in if runs then finish wu c ticks w' else w'

  unfoldable pub handle_state_change : Gpu.StateChange → Worker → Worker
  unfolding Conn.send_status
  handle_state_change change = send_status (Gpu.state_string change.to)
