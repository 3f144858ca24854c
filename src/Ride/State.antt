-- ===== src/Ride/State.antt =====
-- The ride state machine of internal/ride/service.go.
pub mod Walks
use nexus_dispatch.Prelude.{Bool, true, false, ◌||◌, List, [], ◌∷◌, String, ◌==◌, if◌then◌else◌}
use nexus_dispatch.Driver.State.{is_in}

abbrev pub state_requested : String
state_requested = "REQUESTED"

abbrev pub state_matched : String
state_matched = "MATCHED"

abbrev pub state_driver_en_route : String
state_driver_en_route = "DRIVER_EN_ROUTE"

abbrev pub state_arrived : String
state_arrived = "ARRIVED"

abbrev pub state_in_progress : String
state_in_progress = "IN_PROGRESS"

abbrev pub state_completed : String
state_completed = "COMPLETED"

abbrev pub state_cancelled : String
state_cancelled = "CANCELLED"

abbrev pub state_expired : String
state_expired = "EXPIRED"

-- The row of `validRideTransitions` for a state.
unfoldable pub valid_ride_transitions : String → List String
valid_ride_transitions from =
    if from == state_requested
    then state_matched ∷ state_cancelled ∷ state_expired ∷ []
    else if from == state_matched
    then state_driver_en_route ∷ state_cancelled ∷ state_expired ∷ []
    else if from == state_driver_en_route
    then state_arrived ∷ state_cancelled ∷ []
    else if from == state_arrived
    then state_in_progress ∷ state_cancelled ∷ []
    else if from == state_in_progress
    then state_completed ∷ []
    else []

-- `CanTransition`
unfoldable pub can_transition : String → String → Bool
unfolding valid_ride_transitions
can_transition from to = if from == to then true else is_in to (valid_ride_transitions from)

-- nexusv1.RideState
pub data RideState : Type 0 where
  unspecified requested matched driver_en_route arrived in_progress completed cancelled expired :
      RideState

-- `stateToProto`
unfoldable pub state_to_proto : String → RideState
state_to_proto s =
    if s == state_requested
    then requested
    else if s == state_matched
    then matched
    else if s == state_driver_en_route
    then driver_en_route
    else if s == state_arrived
    then arrived
    else if s == state_in_progress
    then in_progress
    else if s == state_completed
    then completed
    else if s == state_cancelled
    then cancelled
    else if s == state_expired
    then expired
    else unspecified
