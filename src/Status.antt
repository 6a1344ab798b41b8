-- ===== src/Status.antt =====
-- The states of a ride and the table of allowed transitions (api-server/internal/ride/statemachine.go).
pub mod Paths
mod Tests
use rides_api.Base.{Bool, true, false, Option, none, some, if◌then◌else◌}
use rides_api.Base.Errors.{AppError, invalid_transition}

pub data Status : Type 0 where
  searching matched negotiating confirmed driver_en_route driver_arrived in_progress : Status
  completed cancelled : Status

-- `CanTransition`, over the map `allowedTransitions`
unfoldable pub can_transition : Status → Status → Bool
can_transition searching matched = true
can_transition searching cancelled = true
can_transition matched negotiating = true
can_transition matched searching = true
can_transition negotiating confirmed = true
can_transition negotiating searching = true
can_transition negotiating cancelled = true
can_transition confirmed driver_en_route = true
can_transition confirmed cancelled = true
can_transition driver_en_route driver_arrived = true
can_transition driver_en_route cancelled = true
can_transition driver_arrived in_progress = true
can_transition driver_arrived cancelled = true
can_transition in_progress completed = true
can_transition _ _ = false

-- `ValidateTransition`
abbrev pub validate_transition : Status → Status → Option AppError
validate_transition from to = if can_transition from to then none else some invalid_transition

-- `CancellableStatuses`: the states in which a customer may cancel
abbrev pub is_cancellable : Status → Bool
is_cancellable searching = true
is_cancellable matched = true
is_cancellable negotiating = true
is_cancellable driver_en_route = true
is_cancellable driver_arrived = true
is_cancellable _ = false

-- `IsTerminal`
abbrev pub is_terminal : Status → Bool
is_terminal completed = true
is_terminal cancelled = true
is_terminal _ = false

-- Equality of two states.
abbrev pub status_eq : Status → Status → Bool
status_eq searching searching = true
status_eq matched matched = true
status_eq negotiating negotiating = true
status_eq confirmed confirmed = true
status_eq driver_en_route driver_en_route = true
status_eq driver_arrived driver_arrived = true
status_eq in_progress in_progress = true
status_eq completed completed = true
status_eq cancelled cancelled = true
status_eq _ _ = false
