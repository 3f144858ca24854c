-- ===== src/Tests/Services.antt =====
-- Transitions, the two services and the consumer on small inputs.
use nexus_dispatch.Prelude.{
  ℕ, suc, ◌+◌, ◌≡◌, ◌≢◌, ◌≤◌, ◌⊎◌, refl, Option, none, some, [], String, string_dec, true, false,
  if◌then◌else◌, ltb,
}
use nexus_dispatch.Prelude.Int.{pos}
use nexus_dispatch.Redis.{micro, text, hash, Fields, update}
use nexus_dispatch.Redis.Memory.{memory, memory-IsRedis, fresh}
use nexus_dispatch.Outcome.{Outcome, ok, up, call, ask}
use nexus_dispatch.Grpc.{reply, status, failed_precondition}
use nexus_dispatch.Geospatial.{validate_lat_lng}
use nexus_dispatch.Hot.Keys.{driver_key, ride_key}
use nexus_dispatch.Hot.Store.{get_state, set_state}
use nexus_dispatch.Driver.State.{can_transition, validate_state, assert_transition}
use nexus_dispatch.Driver.Service as DriverService
use nexus_dispatch.Driver.Service.{
  DriverState, state_to_proto, proto_to_state, update_driver_status, change_state,
}
use nexus_dispatch.Ride.State.{can_transition as ride_can_transition}
use nexus_dispatch.Ride.State.Walks.{Walk, stay, then_to, rank, steps, steps_le}
use nexus_dispatch.Ride.Service.{
  Service, Clocks, CreateRideRequest, RideRow, create_ride, cancel_ride, is_invalid, cancelled_ride,
  requested_event,
}
use nexus_dispatch.Ride.Service.Laws.{
  Cancellable, ride_state, by_id, cancel_ride-cases, create_ride-dispatch_by_ride_id,
}
use nexus_dispatch.Dispatch.{default_config, dispatch_for_ride, dispatch_by_ride_id}
use nexus_dispatch.Kafka.{Message, Consumer}
use nexus_dispatch.Tests.Slots.{free, differ}
use nexus_dispatch.Tests.Dispatches.{flat, world, manager, stamp}

-- A driver that is AVAILABLE goes OFFLINE, and fails to be ON_TRIP.
abbrev drivers : DriverService.Service memory
drivers = record {
  hot = free;
  drivers = λ _. none;
  has_db = false;
  has_producer = false;
  sent = [];
}

abbrev after_offline : DriverService.Service memory
after_offline = (update_driver_status memory up up 0 "a" DriverState.offline drivers).0

abbrev answer : DriverState × DriverState
answer = (DriverState.available, DriverState.offline)

goes_offline :
    update_driver_status memory up up 0 "a" DriverState.offline drivers
    ≡ (after_offline, reply answer)
unfolding update_driver_status get_state set_state call ask string_dec driver_key change_state
    state_to_proto proto_to_state can_transition validate_state assert_transition
goes_offline = refl

no_trip :
    update_driver_status memory up up 0 "a" DriverState.on_trip drivers
    ≡ (drivers, status failed_precondition)
unfolding update_driver_status get_state set_state call ask string_dec driver_key change_state
    state_to_proto proto_to_state can_transition validate_state assert_transition
no_trip = refl

-- A ride is matched and then cancelled.
matched : ◌≢◌ {A = String} "REQUESTED" "MATCHED"
unfolding string_dec
matched = differ _ _ refl

cancelled : ◌≢◌ {A = String} "MATCHED" "CANCELLED"
unfolding string_dec
cancelled = differ _ _ refl

can_match : ride_can_transition "REQUESTED" "MATCHED" ≡ true
unfolding ride_can_transition string_dec
can_match = refl

can_cancel : ride_can_transition "MATCHED" "CANCELLED" ≡ true
unfolding ride_can_transition string_dec
can_cancel = refl

abbrev walk : Walk "REQUESTED" "CANCELLED"
walk = then_to (then_to stay matched can_match) cancelled can_cancel

steps_le_example : rank "REQUESTED" + steps walk ≤ rank "CANCELLED"
steps_le_example = steps_le walk

abbrev request : CreateRideRequest
request = record {
  user_id = "u";
  pickup_lat = micro (pos 48000000);
  pickup_lng = micro (pos 11000000);
  dropoff_lat = micro (pos 0);
  dropoff_lng = micro (pos 0);
  radius = pos 0;
}

request-valid : is_invalid request ≡ false
unfolding is_invalid string_dec validate_lat_lng
request-valid = refl

abbrev rides : Service memory
rides = record { hot = fresh; has_db = true; has_producer = true; sent = [] }

abbrev clocks : Clocks
clocks = record { created = 7; published = 8; answered = 8 }

abbrev one_ride : Service memory
one_ride = (create_ride memory up clocks "r0" request rides).0

no_row : String → Outcome (Option RideRow)
no_row id = ok none

create_ride-dispatch_by_ride_id_example :
    dispatch_by_ride_id memory world flat default_config up 9 "r0" stamp manager one_ride.hot
    ≡ by_id memory memory-IsRedis (
        dispatch_for_ride memory world flat default_config 9
          (record (requested_event memory "r0" request 8) { timestamp = 7 })
          stamp
          manager
          one_ride.hot)
create_ride-dispatch_by_ride_id_example =
    create_ride-dispatch_by_ride_id memory memory-IsRedis world flat default_config clocks 9 "r0"
      stamp request rides manager request-valid refl

abbrev trip : Service memory
trip = record rides { hot = memory.hset (ride_key "r0") "state" (text "IN_PROGRESS") fresh }

abbrev trip_fields : Fields
trip_fields = update "state" (some (text "IN_PROGRESS")) (λ f. none)

trip_hash : memory.read trip.hot (ride_key "r0") ≡ hash trip_fields
unfolding string_dec ride_key
trip_hash = refl

cancel_ride-cases_example :
    let from = ride_state memory memory-IsRedis "r0" trip.hot in
    let r = cancel_ride memory up up "r0" "late" trip in
    ((Cancellable from
        × (ride_state memory memory-IsRedis "r0" r.0.hot ≡ "CANCELLED")
        × (r.1 ≡ reply (cancelled_ride memory "r0")))
      ⊎ (¬ Cancellable from × (r ≡ (trip, status failed_precondition))))
cancel_ride-cases_example =
    cancel_ride-cases memory memory-IsRedis "r0" "late" trip trip_fields trip_hash

-- A handler that fails at its first two calls, with the number of calls as its state.
abbrev flaky : Consumer ℕ String
flaky = record {
  handler = λ m n. (suc n, if ltb n 2 then some "busy" else none);
  has_dlq = true;
  max_retries = 3;
}

abbrev message : Message
message = record { key = "k"; value = "v"; offset = 5 }
