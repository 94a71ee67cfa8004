-- ===== src/Client/Consent.antt =====
-- internal/client/consent/consent.go and internal/client/workerconfig/config.go: what the user agrees to
-- and prefers, kept in a file and told to the manager. A file holds what its last successful write
-- stored; the hardware that is told along is left out.
use synergia.Prelude.{
  ℕ, String, Bool, true, false, not, ◌&&◌, Option, none, some, List, [], ◌∷◌, ◌++◌, ◌==◌,
  if◌then◌else◌,
}

pub record State : Type 0 where
  pub accepted : Bool
  pub hardware_stats : Bool
  pub config_preferences : Bool

pub record Preferences : Type 0 where
  pub preferred_role : String
  pub nickname : String

-- A manager of a setting: its value, its file, and the values that were posted, oldest first.
pub record Kept (A : Type 0) : Type 0 where
  pub state : A
  pub file : Option A
  pub posted : List A

-- What becomes of a post: no request or no response, or the status of the response.
pub data Posted : Type 0 where
  unsent : Posted
  status : ℕ → Posted

module _ {A : Type 0} where
  -- A file that cannot be read or decoded leaves the value of `first`.
  unfoldable pub load : A → Option A → Kept A
  load first none = record { state = first; file = none; posted = [] }
  load first (some a) = record { state = a; file = some a; posted = [] }

  unfoldable pub save : Bool → Kept A → Kept A
  save saved m = record m { file = if saved then some m.state else m.file }

  -- The Bool is a nil error.
  unfoldable pub sync_with_manager : Posted → Kept A → Kept A × Bool
  sync_with_manager unsent m = (m, false)
  sync_with_manager (status n) m = (record m { posted = m.posted ++ (m.state ∷ []) }, n == 200)

  -- Accept, Revoke and Update set the value, save it, and tell it.
  unfoldable pub update : A → Bool → Posted → Kept A → Kept A × Bool
  unfolding save sync_with_manager
  update a saved p m = sync_with_manager p (save saved (record m { state = a }))

abbrev pub refused : State
refused = record { accepted = false; hardware_stats = false; config_preferences = false }

abbrev pub approved : State
approved = record { accepted = true; hardware_stats = true; config_preferences = true }

unfoldable pub new : Option State → Bool → Bool → Kept State
unfolding load save
new file auto_approve saved =
    let m = load refused file in
    if auto_approve && not m.state.accepted then save saved (record m { state = approved }) else m

unfoldable pub accept : Bool → Bool → Bool → Posted → Kept State → Kept State × Bool
unfolding update
accept hardware_stats config_preferences = update (record {
  accepted = true;
  hardware_stats = hardware_stats;
  config_preferences = config_preferences;
})

unfoldable pub revoke : Bool → Posted → Kept State → Kept State × Bool
unfolding update
revoke = update refused

abbrev pub no_preferences : Preferences
no_preferences = record { preferred_role = ""; nickname = "" }

unfoldable pub new_preferences : Option Preferences → Kept Preferences
unfolding load
new_preferences = load no_preferences
