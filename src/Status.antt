-- ===== src/Status.antt =====
-- smartsim/status.py: the statuses of a job and which of them are final.
use smart_sim.Common.{
  Bool, true, false, List, [], ◌∷◌, Option, none, some, ◌≡◌, refl, Text, codes, text_eq,
  if◌then◌else◌,
}

pub data SmartSimStatus : Type 0 where
  running completed cancelled failed new paused never_started queued : SmartSimStatus

-- The enumeration's values, in declaration order.
abbrev pub status_value : SmartSimStatus → Text
status_value running = codes "Running"
status_value completed = codes "Completed"
status_value cancelled = codes "Cancelled"
status_value failed = codes "Failed"
status_value new = codes "New"
status_value paused = codes "Paused"
status_value never_started = codes "NeverStarted"
status_value queued = codes "Queued"

abbrev pub all_statuses : List SmartSimStatus
all_statuses = running ∷ completed ∷ cancelled ∷ failed ∷ new ∷ paused ∷ never_started ∷ queued ∷ []

-- `status in TERMINAL_STATUSES`
unfoldable pub is_terminal : SmartSimStatus → Bool
is_terminal cancelled = true
is_terminal completed = true
is_terminal failed = true
is_terminal _ = false

-- SmartSimStatus(text), `none` where Python raises ValueError.
status_in : Text → List SmartSimStatus → Option SmartSimStatus
status_in t [] = none
status_in t (s ∷ ss) = if text_eq (status_value s) t then some s else status_in t ss

unfoldable pub status_of_value : Text → Option SmartSimStatus
unfolding status_in
status_of_value t = status_in t all_statuses

pub status_of_value-status_value : (s : SmartSimStatus) → status_of_value (status_value s) ≡ some s
unfolding status_of_value text_eq
status_of_value-status_value running = refl
status_of_value-status_value completed = refl
status_of_value-status_value cancelled = refl
status_of_value-status_value failed = refl
status_of_value-status_value new = refl
status_of_value-status_value paused = refl
status_of_value-status_value never_started = refl
status_of_value-status_value queued = refl
