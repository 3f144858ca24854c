-- ===== src/Driver/State.antt =====
-- internal/driver/state.go. A state is a text: what the store holds need not be one of the five.
pub mod Edges
use nexus_dispatch.Prelude.{Bool, true, false, ◌||◌, List, [], ◌∷◌, String, ◌==◌, if◌then◌else◌}

abbrev pub state_offline : String
state_offline = "OFFLINE"

abbrev pub state_available : String
state_available = "AVAILABLE"

abbrev pub state_reserved : String
state_reserved = "RESERVED"

abbrev pub state_on_trip : String
state_on_trip = "ON_TRIP"

abbrev pub state_paused : String
state_paused = "PAUSED"

abbrev pub all_states : List String
all_states = state_offline ∷ state_available ∷ state_reserved ∷ state_on_trip ∷ state_paused ∷ []

-- `m[k]` of a map to true, and the loop of `ValidateState`
abbrev pub is_in : String → List String → Bool
is_in s [] = false
is_in s (x ∷ xs) = s == x || is_in s xs

-- The row of `validTransitions` for a state; a state with no row has no edge.
unfoldable pub valid_transitions : String → List String
valid_transitions from =
    if from == state_offline
    then state_available ∷ state_paused ∷ []
    else if from == state_available
    then state_reserved ∷ state_offline ∷ state_paused ∷ []
    else if from == state_reserved
    then state_on_trip ∷ state_available ∷ state_offline ∷ state_paused ∷ []
    else if from == state_on_trip
    then state_available ∷ state_offline ∷ []
    else if from == state_paused
    then state_available ∷ state_offline ∷ []
    else []

-- `CanTransition`
unfoldable pub can_transition : String → String → Bool
unfolding valid_transitions
can_transition from to = if from == to then true else is_in to (valid_transitions from)

-- `ValidateState`; true where it returns nil
unfoldable pub validate_state : String → Bool
validate_state s = is_in s all_states

-- `AssertTransition`; true where it returns nil
unfoldable pub assert_transition : String → String → Bool
unfolding validate_state can_transition
assert_transition from to = if validate_state to then can_transition from to else false
