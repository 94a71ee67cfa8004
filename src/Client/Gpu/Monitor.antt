-- ===== src/Client/Gpu/Monitor.antt =====
-- internal/client/gpu/monitor.go: the monitor's state, its readings and its transitions. Times are in
-- milliseconds. A reading of the prober is none where it fails. The atomic flag `processing` and the
-- mutex make each call one step, except for a send on a full channel, which never returns: it waits
-- with the mutex held.
use synergia.Prelude.{
  ℕ, ◌+◌, ◌-◌, String, Bool, true, false, Option, none, some, List, [], ◌∷◌, ◌++◌, length, leb, ltb,
  if◌then◌else◌, Outcome, returns, hangs,
}
use synergia.Client.Gpu.Window.{Window, empty_window, push}

pub data State : Type 0 where
  available busy : State

abbrev pub state_string : State → String
state_string available = "available"
state_string busy = "busy"

pub record StateChange : Type 0 where
  pub from : State
  pub to : State

pub record Monitor : Type 0 where
  pub contention_thresh : ℕ
  pub resume_delay : ℕ
  pub state : State
  pub last_utilization : ℕ
  pub contention_since : ℕ
  pub baseline : ℕ
  pub processing : Bool
  pub window : Window
  pub state_change_ch : List StateChange

abbrev pub state_change_cap : ℕ
state_change_cap = 5

unfoldable pub new : ℕ → ℕ → Monitor
unfolding empty_window
new contention_thresh resume_delay = record {
  contention_thresh = contention_thresh;
  resume_delay = resume_delay;
  state = available;
  last_utilization = 0;
  contention_since = 0;
  baseline = 0;
  processing = false;
  window = empty_window;
  state_change_ch = [];
}

-- The loop of CalibrateBaseline, over what its samples read.
unfoldable pub max_util : ℕ → List (Option ℕ) → ℕ
max_util m [] = m
max_util m (none ∷ rs) = max_util m rs
max_util m (some util ∷ rs) = max_util (if ltb m util then util else m) rs

unfoldable pub calibrate_baseline : List (Option ℕ) → ℕ → Monitor → Monitor
unfolding max_util
calibrate_baseline readings headroom m =
    let level = max_util 0 readings + headroom in
    record m { baseline = if ltb level 100 then level else 100 }

unfoldable pub set_baseline : ℕ → Monitor → Monitor
set_baseline pct m = record m { baseline = pct }

unfoldable pub set_processing : Bool → Monitor → Monitor
set_processing v m = record m { processing = v }

-- m.StateChangeCh <- change
abbrev pub send_change : StateChange → Monitor → Outcome Monitor
send_change change m =
    if ltb (length m.state_change_ch) state_change_cap
    then returns (record m { state_change_ch = m.state_change_ch ++ (change ∷ []) })
    else hangs

abbrev pub contends : ℕ → Monitor → Bool
contends utilization m = ltb m.contention_thresh (utilization - m.baseline)

-- The switch of check, on the state.
abbrev pub transition : State → Bool → ℕ → Monitor → Outcome Monitor
transition available contention now m =
    if contention
    then send_change (record { from = available; to = busy })
        (record m { state = busy; contention_since = now })
    else returns m
transition busy contention now m =
    if contention
    then returns (record m { contention_since = now })
    else if leb m.resume_delay (now - m.contention_since)
    then send_change (record { from = busy; to = available }) (record m { state = available })
    else returns m

unfoldable pub check : Option ℕ → ℕ → Monitor → Outcome Monitor
unfolding push
check none now m = returns m
check (some utilization) now m =
    let m' : Monitor = record m { last_utilization = utilization } in
    if m.processing
    then returns m'
    else transition m.state (contends utilization m) now
        (record m' { window = push utilization m.window })

-- One tick of WaitForBaseline: none if the loop goes on.
abbrev pub wait_tick : Option ℕ → Bool → Monitor → Monitor × Option Bool
wait_tick reading late m =
    let util : ℕ = elim reading [ none ↦ m.last_utilization | some u ↦ u ] in
    let m' : Monitor = record m { last_utilization = util } in
    if leb (util - m.baseline) m.contention_thresh
    then (m', some true)
    else if late
    then (m', some false)
    else (m', none)

-- Over the ticks, each with its reading and whether the deadline has passed. The context is done where
-- the list ends.
unfoldable pub wait_for_baseline : List (Option ℕ × Bool) → Monitor → Monitor × Bool
wait_for_baseline [] m = (m, false)
wait_for_baseline ((reading, late) ∷ ticks) m =
    let rest = wait_for_baseline ticks (wait_tick reading late m).0 in
    elim (wait_tick reading late m).1 [
      | none ↦ rest
      | some reached ↦ ((wait_tick reading late m).0, reached)
    ]
