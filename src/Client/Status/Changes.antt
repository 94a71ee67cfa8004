-- ===== src/Client/Status/Changes.antt =====
-- What the status tells, and what the handlers are told of it.
use synergia.Prelude.{
  ◌≡◌, ◌≢◌, refl, sym, true, List, [], ◌∷◌, String, str_eq, eq_iff, inl, inr, Bool-cases,
  ne_of_str_eq, arith, ◌&&◌, ◌↔◌,
}
use synergia.Client.State.{State}
use synergia.Client.Status.{compute, is_available, Change, run_ticks, run}

-- The status is "ready" exactly when the worker is available and its GPU is supported.
pub compute-ready : (s : State) → (compute s ≡ "ready") ↔ (is_available s && s.gpu_supported ≡ true)
unfolding compute is_available
compute-ready s = (
  λ h. ground (
    arith,
    ne_of_str_eq "disconnected" "ready" refl,
    ne_of_str_eq "gpu_unsupported" "ready" refl,
    ne_of_str_eq "llm_unreachable" "ready" refl,
    ne_of_str_eq "paused" "ready" refl,
    ne_of_str_eq "processing" "ready" refl,
    ne_of_str_eq "gpu_busy" "ready" refl,
  ),
  λ h. ground arith,
)

compute-ne-blank : (s : State) → compute s ≢ ""
unfolding compute
compute-ne-blank s h = ground (
  arith,
  ne_of_str_eq "disconnected" "" refl,
  ne_of_str_eq "gpu_unsupported" "" refl,
  ne_of_str_eq "llm_unreachable" "" refl,
  ne_of_str_eq "paused" "" refl,
  ne_of_str_eq "processing" "" refl,
  ne_of_str_eq "gpu_busy" "" refl,
  ne_of_str_eq "ready" "" refl,
)

-- Each call starts from the status that the call before it told, and tells another.
abbrev pub Chain : String → List Change → Type 0
Chain current [] = Unit
Chain current (c ∷ cs) = (c.old ≡ current) × (c.current ≢ current) × Chain c.current cs

-- The status that was told last, from `current`.
abbrev pub told : String → List Change → String
told current [] = current
told current (c ∷ cs) = told c.current cs

-- The last state, from `s`.
abbrev pub last_state : State → List State → State
last_state s [] = s
last_state s (t ∷ ts) = last_state t ts

run_ticks-Chain :
    (current : String) (s : State) (ss : List State)
    → compute s ≡ current
    → Chain current (run_ticks current ss)
      × (told current (run_ticks current ss) ≡ compute (last_state s ss))
unfolding run_ticks
run_ticks-Chain current s [] e = (tt, sym e)
run_ticks-Chain current s (t ∷ ts) e = elim (Bool-cases (str_eq (compute t) current)) [
  | inl same ↦ rw same (run_ticks-Chain current t ts ((eq_iff (compute t) current).0 same))
  | inr new ↦
      let (c, l) = run_ticks-Chain (compute t) t ts refl in
      rw new ((refl, ne_of_str_eq (compute t) current new, c), l)
]

-- A handler that is called by Run is told each change of the status once, from "" on: each call starts
-- from the status that the call before it told, and tells another; the last call tells the status of
-- the last state that a tick saw.
pub run-Chain :
    (s : State) (ss : List State)
    → Chain "" (run s ss) × (told "" (run s ss) ≡ compute (last_state s ss))
unfolding run
run-Chain s ss =
    let (c, l) = run_ticks-Chain (compute s) s ss refl in ((refl, compute-ne-blank s, c), l)
