-- ===== src/Tests/Bookings.antt =====
-- A dispatch in the database in memory, and the row of its event.
use Prim.Native.String.{len}
use nexus_dispatch.Prelude.{refl, Bool, true, none, some, [], String, eqb, string_dec}
use nexus_dispatch.Prelude.Int.{pos, ◌*ℤ◌}
use nexus_dispatch.Redis.{micro}
use nexus_dispatch.Redis.Memory.{memory, memory-IsRedis}
use nexus_dispatch.Kafka
use nexus_dispatch.Hot.LeaseValue.{decimal}
use nexus_dispatch.Postgres.{Tables}
use nexus_dispatch.Processor.{Decoder, Processor}
use nexus_dispatch.Dispatch.{
  Message, dispatch_created, driver_reserved, default_config, ranked, score, score_one, new_id,
  dispatch_for_ride,
}
use nexus_dispatch.Dispatch.Choice.{choose}
use nexus_dispatch.Dispatch.Booking.{event_of, LeasedOnly, dispatch_for_ride-unstored}
use nexus_dispatch.Tests.Dispatches.{
  stamp, world, flat, town, town_search, found, slots, manager, request, candidate, ranked-Ready,
}

-- The length of a uuid in its usual form.
abbrev is_uuid : String → Bool
is_uuid s = eqb (len s) 36

abbrev tables : Tables
tables = record {
  users = λ u. true;
  drivers = λ d. some (record {
    name = "Ann";
    email = "ann@x";
    state = "AVAILABLE";
    rating = micro (pos 5000000);
    trips_completed = 0;
  });
  emails = [];
  vehicles = [];
  rides = λ r. some (record {
    user_id = "u";
    driver_id = none;
    state = "REQUESTED";
    cancel_reason = none;
    matched_at = none;
    completed_at = none;
    updated_at = none;
  });
  ride_events = [];
  dispatches = [];
  driver_history = [];
}

abbrev processor : Processor
processor = record { db = tables; last_history_ts = λ d. none }

abbrev wrap : Message → Kafka.Message
wrap (dispatch_created key id ride driver distance score) = record {
  key = key;
  value = id;
  offset = 3;
}
wrap (driver_reserved key id driver ride ttl) = record { key = key; value = id; offset = 4 }

abbrev decoder : Decoder
decoder = record {
  dispatch_created = λ s. some (event_of s "r0" candidate);
  ride_status = λ s. none;
  driver_status = λ s. none;
  location_update = λ s. none;
}

dispatch_for_ride-unstored_example :
    LeasedOnly is_uuid decoder memory world wrap 15 candidate processor
      (dispatch_for_ride memory world flat default_config 0 request stamp manager town)
unfolding ◌*ℤ◌ string_dec choose ranked score score_one new_id decimal
dispatch_for_ride-unstored_example =
    dispatch_for_ride-unstored is_uuid decoder memory world wrap flat default_config memory-IsRedis
      slots 0 request stamp found [] 1 14 manager town candidate processor refl town_search
      ranked-Ready refl refl refl refl
