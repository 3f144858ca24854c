-- ===== src/Tests/Handlers.antt =====
-- Ride requests that are handled, in the database in memory.
use nexus_dispatch.Prelude.{◌≡◌, refl, Option, some, String}
use nexus_dispatch.Redis.Memory.{memory}
use nexus_dispatch.Outcome.{err, down, unreachable, ask}
use nexus_dispatch.Geospatial.{plan_search}
use nexus_dispatch.Hot.Store.Search.{search_nearby}
use nexus_dispatch.Dispatch.{
  RideRequested, Surroundings, default_config, dispatch_for_ride, search_radius,
}
use nexus_dispatch.Dispatch.Handler.{handle_ride_requested}
use nexus_dispatch.Dispatch.Handler.Retry.{Retries, handle_ride_requested-Retries}
use nexus_dispatch.Tests.Dispatches.{stamp, flat, town, world, manager, request}

decode : String → Option RideRequested
decode s = some request

handle_ride_requested-Retries_example :
    Retries
      (dispatch_for_ride memory world flat default_config 0 request stamp manager town).1
      (handle_ride_requested memory world flat default_config decode 0 stamp "{}" manager town).1
unfolding decode
handle_ride_requested-Retries_example =
    handle_ride_requested-Retries memory world flat default_config decode 0 stamp "{}" request
      manager town refl

-- Redis does not answer.
abbrev cut_off : Surroundings
cut_off = record world {
  search = record {
    cells = λ c. down;
    positions = λ d. down;
    states = λ d. down;
    ratings = λ d. down;
  };
}

search_fails :
    search_nearby memory flat cut_off.search request.pickup_lat request.pickup_lng
      (search_radius memory cut_off flat default_config request)
      town
    ≡ err unreachable
unfolding search_nearby ask plan_search
search_fails = refl
