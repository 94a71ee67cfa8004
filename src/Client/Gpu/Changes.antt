-- ===== src/Client/Gpu/Changes.antt =====
-- What the monitor reports of its state, and when it stops.
use mathlib.Core.Path.{subst}
use synergia.Prelude.{
  sym, ◌∙◌, if◌then◌else◌, ℕ, ◌≤◌, ◌<◌, ◌≡◌, ◌≢◌, refl, ap, Bool, true, false, Option, none, some,
  List, [], ◌∷◌, ◌++◌, length, returns, arith, ◌-◌, inl, inr, Bool-cases, leb, length-append,
}
use synergia.Client.Gpu.Window.{push}
use synergia.Client.Gpu.Monitor.{
  State, available, busy, StateChange, Monitor, new, check, set_processing, set_baseline,
  calibrate_baseline, wait_for_baseline, wait_tick, send_change, contends, transition,
  state_change_cap,
}

-- The changes lead from a state to another, each from where the one before it led.
abbrev pub Leads : State → List StateChange → State → Type 0
Leads s [] t = s ≡ t
Leads s (c ∷ cs) t = (c.from ≡ s) × (c.from ≢ c.to) × Leads c.to cs t

Leads-append :
    (s : State) (cs : List StateChange) (c : StateChange)
    → c.from ≢ c.to
    → Leads s cs c.from
    → Leads s (cs ++ (c ∷ [])) c.to
Leads-append s [] c d h = (ground arith, d, refl)
Leads-append s (b ∷ cs) c d h = (h.0, h.1, Leads-append b.to cs c d h.2)

-- What happens to the monitor: its ticks, the worker's calls, and the worker loop, which takes a
-- change off the channel. The second index is the state that the loop was told of last.
pub data Step : Monitor → State → Monitor → State → Type 0 where
  ticks :
      {m m' : Monitor} {told : State} (reading : Option ℕ) (now : ℕ)
      → check reading now m ≡ returns m'
      → Step m told m' told
  processes : {m : Monitor} {told : State} (v : Bool) → Step m told (set_processing v m) told
  sets : {m : Monitor} {told : State} (pct : ℕ) → Step m told (set_baseline pct m) told
  calibrates :
      {m : Monitor} {told : State} (rs : List (Option ℕ)) (headroom : ℕ)
      → Step m told (calibrate_baseline rs headroom m) told
  waits :
      {m : Monitor} {told : State} (ts : List (Option ℕ × Bool))
      → Step m told (wait_for_baseline ts m).0 told
  takes :
      {m : Monitor} {told : State} (c : StateChange) (cs : List StateChange)
      → m.state_change_ch ≡ c ∷ cs
      → Step m told (record m { state_change_ch = cs }) c.to

pub data Reach (m : Monitor) (told : State) : Monitor → State → Type 0 where
  here : Reach m told m told
  next :
      {m' m'' : Monitor} {told' told'' : State}
      → Reach m told m' told'
      → Step m' told' m'' told''
      → Reach m told m'' told''

-- The changes that wait lead from what the loop was told to the monitor's state, and fit the channel.
pub record Reports (m : Monitor) (told : State) : Type 0 where
  pub leads : Leads told m.state_change_ch m.state
  pub fits : length m.state_change_ch ≤ state_change_cap

send_change_lem :
    (c : StateChange) (m m' : Monitor)
    → send_change c m ≡ returns m'
    → (m'.state ≡ m.state)
      × (m'.state_change_ch ≡ m.state_change_ch ++ (c ∷ []))
      × (length m.state_change_ch < state_change_cap)
send_change_lem c m m' e = (ground arith, ground arith, ground arith)

sent-Reports :
    (c : StateChange) (m m' : Monitor) (told : State)
    → c.from ≢ c.to
    → Leads told m.state_change_ch c.from
    → m.state ≡ c.to
    → send_change c m ≡ returns m'
    → Reports m' told
sent-Reports c m m' told d r s e =
    let (kept, sent, room) = send_change_lem c m m' e in
    record {
      leads = rw (kept, sent, s) (Leads-append told m.state_change_ch c d r);
      fits = rw sent (omega (arith, length-append m.state_change_ch (c ∷ [])));
    }

transition-Reports :
    (s : State) (contention : Bool) (now : ℕ) (m m' : Monitor) (told : State)
    → m.state ≡ s
    → transition s contention now m ≡ returns m'
    → Reports m told
    → Reports m' told
transition-Reports available true now m m' told s e r =
    sent-Reports (record { from = available; to = busy })
      (record m { state = busy; contention_since = now }) m' told (λ d. cc)
      (subst (Leads told m.state_change_ch) s r.leads) refl e
transition-Reports available false now m m' told s e r =
    subst (λ n. Reports n told) (ground arith) r
transition-Reports busy true now m m' told s e r =
    subst (λ n. Reports n told)
      (let p : record m { contention_since = now } ≡ m' = ground arith in p)
      (record { leads = r.leads; fits = r.fits })
transition-Reports busy false now m m' told s e r =
    elim (Bool-cases (leb m.resume_delay (now - m.contention_since))) [
      | inl q ↦
          sent-Reports (record { from = busy; to = available }) (record m { state = available }) m'
            told (λ d. cc) (subst (Leads told m.state_change_ch) s r.leads) refl (rw q at e)
      | inr q ↦ subst (λ n. Reports n told) (ground arith) r
    ]

if_false {ℓ} : {A : Type ℓ} {b : Bool} (x y : A) → b ≡ false → (if b then x else y) ≡ y
if_false x y e = rw e

check-Reports :
    (reading : Option ℕ) (now : ℕ) (m m' : Monitor) (told : State)
    → check reading now m ≡ returns m'
    → Reports m told
    → Reports m' told
unfolding check
check-Reports none now m m' told e r = subst (λ n. Reports n told) (ground arith) r
check-Reports (some u) now m m' told e r = elim (Bool-cases m.processing) [
  | inl p ↦
      subst (λ n. Reports n told)
        (let q : record m { last_utilization = u } ≡ m' = ground arith in q)
        (record { leads = r.leads; fits = r.fits })
  | inr p ↦
      transition-Reports m.state (contends u m) now
        (record m { last_utilization = u; window = push u m.window }) m' told refl
        (sym (if_false _ _ p) ∙ e) (record { leads = r.leads; fits = r.fits })
]

wait-keeps :
    (ts : List (Option ℕ × Bool)) (m : Monitor)
    → ((wait_for_baseline ts m).0.state ≡ m.state)
      × ((wait_for_baseline ts m).0.state_change_ch ≡ m.state_change_ch)
unfolding wait_for_baseline
wait-keeps [] m = (refl, refl)
wait-keeps ((reading, late) ∷ ts) m = ground (arith, wait-keeps ts (wait_tick reading late m).0)

taken-Reports :
    (m : Monitor) (told : State) (c : StateChange) (cs : List StateChange)
    → m.state_change_ch ≡ c ∷ cs
    → Reports m told
    → Reports (record m { state_change_ch = cs }) c.to
taken-Reports m told c cs e r =
    let l : Leads told (c ∷ cs) m.state = subst (λ ch. Leads told ch m.state) e r.leads in
    record { leads = l.2; fits = omega (arith, ap length e) }

Step-Reports :
    {m m' : Monitor} {told told' : State} → Step m told m' told' → Reports m told → Reports m' told'
unfolding set_processing set_baseline calibrate_baseline
Step-Reports {m} {m'} {told} (ticks reading now e) r = check-Reports reading now m m' told e r
Step-Reports (processes v) r = record { leads = r.leads; fits = r.fits }
Step-Reports (sets pct) r = record { leads = r.leads; fits = r.fits }
Step-Reports (calibrates rs headroom) r = record { leads = r.leads; fits = r.fits }
Step-Reports {m} {m'} {told} (waits ts) r =
    let (kept, same) = wait-keeps ts m in
    record { leads = rw (kept, same) r.leads; fits = rw same r.fits }
Step-Reports {m} {m'} {told} (takes c cs e) r = taken-Reports m told c cs e r

-- After any run of a new monitor, the changes in its channel lead, each to another state, from the
-- state that the worker loop was told of last to the monitor's own, and are five at most.
pub Reach-Reports :
    (contention_thresh resume_delay : ℕ) {m : Monitor} {told : State}
    → Reach (new contention_thresh resume_delay) available m told
    → Reports m told
unfolding new
Reach-Reports t d here = record { leads = refl; fits = omega arith }
Reach-Reports t d (next r s) = Step-Reports s (Reach-Reports t d r)
