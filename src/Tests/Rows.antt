-- ===== src/Tests/Rows.antt =====
-- The theorems on the tables of Postgres, the event processor, the configuration and the start of a
-- service.
use nexus_dispatch.Prelude.{
  ℕ, ◌≡◌, ◌⊎◌, refl, Bool, true, false, not, none, some, List, [], ◌∷◌, String, string_dec, ◌==◌,
  if◌then◌else◌,
}
use nexus_dispatch.Prelude.Int.{pos}
use nexus_dispatch.Redis.{micro}
use nexus_dispatch.Outcome.{Link, up, down, cut, script_failed, call}
use nexus_dispatch.Kafka.{Message, dead_letter, exhausted, process}
use nexus_dispatch.Postgres.{DriverRow, RideRow, Tables}
use nexus_dispatch.Postgres.Statements.{update_ride_row, insert_ride_event_row}
use nexus_dispatch.Postgres.Repo.{update_ride_state, insert_ride_event}
use nexus_dispatch.Postgres.Writes.{Write, new_dispatch, set_dispatch}
use nexus_dispatch.Processor.{
  DispatchCreated, RideStatus, LocationUpdate, Decoder, Processor, persist_ride_status,
}
use nexus_dispatch.Processor.History.{times, Spaced, persist_locations, persist_locations-Spaced}
use nexus_dispatch.Processor.Again.{touched, persist_ride_status-again}
use nexus_dispatch.Processor.Backstop.{
  Handling, ride_message, location_message, dispatch_message, handle_all, dispatch_consumer,
  handle_all-refuses,
}
use nexus_dispatch.Processor.Refused.{ride_status_consumer, handle_ride_status-dead}
use nexus_dispatch.Config.{Environment, default_port, load}
use nexus_dispatch.Bootstrap.{Deps, grpc_failed, admin_failed, run}
use nexus_dispatch.Bootstrap.Starts.{run-default}
use nexus_dispatch.Tests.Slots.{differ}

abbrev is_uuid : String → Bool
is_uuid s = not (s == "")

abbrev driver : DriverRow
driver = record {
  name = "Ann";
  email = "ann@x";
  state = "AVAILABLE";
  rating = micro (pos 5000000);
  trips_completed = 0;
}

abbrev ride : RideRow
ride = record {
  user_id = "u";
  driver_id = none;
  state = "REQUESTED";
  cancel_reason = none;
  matched_at = none;
  completed_at = none;
  updated_at = none;
}

abbrev tables : Tables
tables = record {
  users = λ u. true;
  drivers = λ d. some driver;
  emails = [];
  vehicles = [];
  rides = λ r. some ride;
  ride_events = [];
  dispatches = [];
  driver_history = [];
}

abbrev processor : Processor
processor = record { db = tables; last_history_ts = λ d. none }

abbrev writes : List Write
writes =
    new_dispatch up "x" "r" "d" (micro (pos 1)) (micro (pos 1))
    ∷ new_dispatch cut "y" "q" "d" (micro (pos 1)) (micro (pos 1))
    ∷ set_dispatch up "x" "COMPLETED"
    ∷ []

abbrev point : LocationUpdate
point = record {
  driver_id = "d";
  latitude = micro (pos 0);
  longitude = micro (pos 0);
  sequence = pos 1;
}

abbrev matched : RideStatus
matched = record { event_id = ""; ride_id = "r"; state = "MATCHED"; driver_id = "d"; reason = "" }

abbrev lone : RideStatus
lone = record { event_id = ""; ride_id = "r"; state = "REQUESTED"; driver_id = ""; reason = "" }

abbrev decoder : Decoder
decoder = record {
  dispatch_created = λ s. none;
  ride_status = λ s. some lone;
  driver_status = λ s. none;
  location_update = λ s. some point;
}

abbrev points : List (Link × ℕ × String)
points = (up, 0, "m") ∷ (up, 3000, "m") ∷ (down, 6000, "m") ∷ (up, 12000, "m") ∷ []

persist_locations-Spaced_example :
    let p = persist_locations is_uuid decoder points processor in
    Spaced (times "d" p.db.driver_history)
persist_locations-Spaced_example =
    persist_locations-Spaced is_uuid decoder points processor "d" refl

abbrev message : Message
message = record { key = "r"; value = "v"; offset = 7 }

handle_ride_status-dead_example :
    process (ride_status_consumer is_uuid decoder 0 true) (λ i. false) message processor
    ≡ (processor, exhausted script_failed, dead_letter "r" "v" ∷ [])
unfolding string_dec
handle_ride_status-dead_example =
    handle_ride_status-dead is_uuid decoder 0 message lone processor refl refl refl

unfoldable persisted : Processor
unfolding persist_ride_status
persisted = (persist_ride_status is_uuid decoder up up 10 matched processor).0

persist_ride_status-again_example :
    persist_ride_status is_uuid decoder up up 500 matched persisted ≡ (
      record persisted { db = record persisted.db { rides = touched 500 "r" persisted.db.rides } },
      none,
    )
unfolding persisted persist_ride_status update_ride_state insert_ride_event call update_ride_row
    insert_ride_event_row string_dec
persist_ride_status-again_example =
    persist_ride_status-again is_uuid decoder 10 500 matched processor persisted refl
      (differ _ _ refl)

abbrev created : DispatchCreated
created = record {
  dispatch_id = "y";
  ride_id = "q";
  driver_id = "d";
  distance_m = micro (pos 1);
  score = micro (pos 1);
}

abbrev second_decoder : Decoder
second_decoder = record decoder { dispatch_created = λ s. some created }

-- The driver d has been dispatched to the ride r.
abbrev dispatched : Processor
dispatched = record {
  db = record tables {
    dispatches =
        record {
          id = "x";
          ride_id = "r";
          driver_id = "d";
          state = "RESERVED";
          distance_m = micro (pos 1);
          score = micro (pos 1);
        }
        ∷ [];
  };
  last_history_ts = λ d. none;
}

abbrev between : List Handling
between = ride_message up up 5 "m" ∷ location_message up 10 "m" ∷ dispatch_message cut "m" ∷ []

handle_all-refuses_example :
    let p = handle_all is_uuid second_decoder between dispatched in
    process (dispatch_consumer is_uuid second_decoder true) (λ i. false) message p
    ≡ (p, exhausted script_failed, dead_letter "r" "v" ∷ [])
unfolding string_dec
handle_all-refuses_example =
    handle_all-refuses is_uuid second_decoder between message created dispatched refl refl refl

abbrev env : Environment
env = record {
  getenv = λ k. "";
  atoi = λ s. none;
  parse_float = λ s. none;
  parse_duration = λ s. none;
}

abbrev deps : Deps
deps = record {
  config = load env "ride-service";
  tracer = false;
  register_grpc = true;
  extra_http = false;
  on_shutdown = true;
}

abbrev free_once : List String → String → Bool
free_once [] a = true
free_once (b ∷ bs) a = if b == a then false else free_once bs a

run-default_example :
    ((run free_once deps).1 ≡ grpc_failed (default_port "ride-service" "9000"))
    ⊎ ((run free_once deps).1 ≡ admin_failed (default_port "ride-service" "9000"))
unfolding string_dec default_port
run-default_example = run-default free_once env "ride-service" deps refl refl refl refl refl
