-- ===== src/Client/Status.antt =====
-- internal/client/status/status.go: the status that the tray and the dashboard show.
use synergia.Prelude.{
  Bool, true, false, not, ◌&&◌, List, [], ◌∷◌, ◌++◌, String, str_eq, if◌then◌else◌,
}
use synergia.Client.Gpu.Monitor as Gpu
use synergia.Client.State.{State}
pub mod Changes

abbrev is_busy : Gpu.State → Bool
is_busy Gpu.busy = true
is_busy Gpu.available = false

unfoldable pub compute : State → String
compute s =
    if not s.connected
    then "disconnected"
    else if not s.gpu_supported
    then "gpu_unsupported"
    else if not s.llm_reachable
    then "llm_unreachable"
    else if s.paused
    then "paused"
    else if s.processing
    then "processing"
    else if is_busy s.gpu_state
    then "gpu_busy"
    else "ready"

unfoldable pub is_available : State → Bool
is_available s =
    s.connected && s.llm_reachable && not (is_busy s.gpu_state) && not s.paused && not s.processing

-- What a handler is called with: the old status and the new one.
pub record Change : Type 0 where
  pub old : String
  pub current : String

-- The ticks of Run, over the states that they see, from the status `current`.
unfoldable pub run_ticks : String → List State → List Change
unfolding compute
run_ticks current [] = []
run_ticks current (s ∷ ss) =
    let same = run_ticks current ss in
    let changed : List Change =
      record { old = current; current = compute s } ∷ run_ticks (compute s) ss in
    if str_eq (compute s) current then same else changed

-- The calls that each handler gets from Run: the first at once.
unfoldable pub run : State → List State → List Change
unfolding run_ticks
run s ss = record { old = ""; current = compute s } ∷ run_ticks (compute s) ss
