-- ===== src/Tests/Dispatches.antt =====
-- Searches, dispatches, location updates and the rate limit, in the database in memory.
use nexus_dispatch.Prelude.{
  ℕ, ◌≡◌, ◌≤◌, refl, none, some, List, [], ◌∷◌, All, String, string_dec, arith, true,
}
use nexus_dispatch.Prelude.Int.{ℤ, pos, ◌*ℤ◌}
use nexus_dispatch.Redis.{Float, micro, text, int, real, listed}
use nexus_dispatch.Redis.Memory.{memory, memory-IsRedis}
use nexus_dispatch.Outcome.{call, ok, panic, up, ask}
use nexus_dispatch.Geospatial.{Geodesy, SearchPlan, plan_search}
use nexus_dispatch.Hot.Keys.{driver_key, driver_lease_key, driver_loc_key, driver_seq_key, cell_key}
use nexus_dispatch.Hot.Guard.{
  Update, Event, arrives, passes, Lasts, Arriving, deliver, deliver_all, Latest, From,
  deliver_all-Latest,
}
use nexus_dispatch.Hot.Store.Search.{DriverPos, SearchLinks, search_nearby, sort_by_distance}
use nexus_dispatch.Hot.Store.Search.Nearby.{InReach, search_nearby-panic}
use nexus_dispatch.Hot.Slot.{Represents, Slot}
use nexus_dispatch.Hot.Slot.Exclusive.{slot}
use nexus_dispatch.Reservation.{Manager, reserve}
use nexus_dispatch.Dispatch.{
  won, default_config, Candidate, RideRequested, Surroundings, score_one, score, ranked,
  try_candidates, dispatch_for_ride, search_radius, request_age, Stamp,
}
use nexus_dispatch.Dispatch.Choice.{choose, Ready}
use nexus_dispatch.Dispatch.Best.{NoBetter, try_candidates-NoBetter}
use nexus_dispatch.Reservation.Renewal.{reservation}
use nexus_dispatch.Hot.LeaseValue.{lease_string, decimal}
use nexus_dispatch.Hot.Scripts.{apply_location_script, write_location, reserve_script}
use nexus_dispatch.Hot.Store.{reserve_result}
use nexus_dispatch.Hot.Store
use nexus_dispatch.Dispatch.Whole.{
  Serves, Dispatched, dispatch_for_ride-ServesInReach, dispatch_for_ride-choose,
}
use nexus_dispatch.Tests.Slots.{free}

-- One cell, where every two points are 100 m apart.
abbrev pub flat : Geodesy
flat = record {
  Cell = Unit {0};
  lat_lng_to_cell = λ lat lng res. some tt;
  to_string = λ c. "c";
  parse_cell = λ s. some tt;
  grid_disk = λ c k. some (tt ∷ []);
  haversine_meters = λ a b c d. pos 100000000;
}

abbrev pub links : SearchLinks
links = record { cells = λ c. up; positions = λ d. up; states = λ d. up; ratings = λ d. up }

abbrev pub origin : Float
origin = micro (pos 0)

-- Driver a is free and in cell c, first without and then with a position.
abbrev lost_driver : memory.Db
lost_driver = memory.sadd (cell_key "c") "a" free

abbrev pub town : memory.Db
town = memory.hset (driver_loc_key "a") "cell" (text "c") (
    memory.hset (driver_loc_key "a") "lng" (real origin)
      (memory.hset (driver_loc_key "a") "lat" (real origin) lost_driver))

abbrev pub found : DriverPos
found = record {
  id = "a";
  lat = origin;
  lng = origin;
  cell = "c";
  seq = 0;
  ts = 0;
  state = "AVAILABLE";
  rating = pos 0;
  dist_m = pos 100000000;
}

abbrev pub kilometre : ℤ
kilometre = pos 1000000000

pub town_search : search_nearby memory flat links origin origin kilometre town ≡ ok (found ∷ [], 1)
unfolding search_nearby string_dec ask listed sort_by_distance driver_key driver_loc_key cell_key
    plan_search
town_search = refl

abbrev pub plan : SearchPlan
plan = record { origin_cell = "c"; cells = "c" ∷ []; ring_k = 3; radius = kilometre }

pub plan_found : plan_search flat origin origin kilometre 7 ≡ ok plan
unfolding plan_search
plan_found = refl

search_nearby-panic_example :
    search_nearby memory flat links origin origin kilometre lost_driver ≡ panic
unfolding string_dec driver_key driver_loc_key cell_key
search_nearby-panic_example =
    search_nearby-panic memory flat links origin origin kilometre lost_driver plan "c" [] "a" []
      plan_found refl refl refl refl (refl, refl, refl)

town-Represents : Represents memory town "a" (slot none (some "AVAILABLE"))
unfolding string_dec driver_key driver_lease_key driver_loc_key cell_key
town-Represents = record { lease_key = refl; driver_hash = refl; state_field = refl }

town-forever : memory.deadline town (driver_key "a") ≡ none
unfolding string_dec driver_key driver_lease_key
town-forever = refl

abbrev pub world : Surroundings
world = record {
  sort = λ cs. cs;
  search = links;
  net = λ d. up;
  token = λ d. some "t0";
  producer = true;
}

abbrev pub slots : String → Slot
slots id = slot none (some "AVAILABLE")

abbrev pub manager : Manager
manager = record { ttl = 15; renew = 5; version = 0 }

abbrev pub stamp : Stamp
stamp = record { nanos = 17; count = 1 }

abbrev pub request : RideRequested
request = record {
  timestamp = 0;
  ride_id = "r0";
  user_id = "u";
  pickup_lat = origin;
  pickup_lng = origin;
  radius = pos 1000;
}

abbrev pub candidate : Candidate
candidate = score_one default_config (pos 0) found

candidate-Ready : Ready memory world slots "r0" town candidate
unfolding score_one
candidate-Ready = record {
  link = refl;
  token = "t0";
  drawn = refl;
  here = town-Represents;
  forever = town-forever;
  foreign = λ v e. cc;
}

attempts_won :
    (try_candidates memory world "r0" (candidate ∷ []) none manager town).1
    ≡ won candidate (reservation memory memory-IsRedis "t0" "a" "r0" manager)
unfolding try_candidates reserve Store.reserve call reserve_script string_dec driver_key
    driver_lease_key driver_loc_key cell_key score_one reserve_result lease_string decimal
attempts_won = refl

try_candidates-NoBetter_example : All (NoBetter slots candidate) (candidate ∷ [])
try_candidates-NoBetter_example =
    try_candidates-NoBetter memory memory-IsRedis world "r0" slots (candidate ∷ []) manager 14 town
      candidate (reservation memory memory-IsRedis "t0" "a" "r0" manager) refl (candidate-Ready, tt)
      (tt, tt) attempts_won

pub ranked-Ready : All (Ready memory world slots "r0" town) (
    ranked default_config world.sort
      (found ∷ [])
      (request_age memory world flat default_config 0 request))
unfolding ranked score
ranked-Ready = (candidate-Ready, tt)

dispatch_for_ride-choose_example :
    Dispatched memory world flat default_config "r0" 15 town
      (choose slots (
        ranked default_config world.sort
          (found ∷ [])
          (request_age memory world flat default_config 0 request)))
      (dispatch_for_ride memory world flat default_config 0 request stamp manager town)
unfolding ◌*ℤ◌
dispatch_for_ride-choose_example =
    dispatch_for_ride-choose memory world flat default_config memory-IsRedis slots 0 request stamp
      found [] 1 14 manager town refl town_search ranked-Ready

dispatch_for_ride-ServesInReach_example :
    Serves
      (InReach memory flat origin origin
        (search_radius memory world flat default_config request)
        town)
      (dispatch_for_ride memory world flat default_config 0 request stamp manager town).1
dispatch_for_ride-ServesInReach_example =
    dispatch_for_ride-ServesInReach memory world flat default_config 0 request stamp manager town
      (λ P xs h. h)

far : DriverPos
far = record found { dist_m = pos 900000000 }

-- An update that is stored, a later one, and the first one again.
update_at : ℕ → Update
update_at n = record { seq = n; lat = origin; lng = origin; old_cell = "c"; new_cell = "c"; ts = n }

abbrev tracked : memory.Db
tracked =
    memory.set_ex (driver_seq_key "a") (int 1) 3600
      (memory.hset (driver_loc_key "a") "seq" (int 1) town)

tracked-Latest : Latest memory memory-IsRedis "a" (update_at 1) tracked
unfolding update_at string_dec driver_seq_key driver_loc_key cell_key driver_key
tracked-Latest = record {
  guard = refl;
  loc_table = tt;
  seq_field = refl;
  lat_field = refl;
  lng_field = refl;
}

abbrev late : List Event
late = passes 60000 ∷ arrives (update_at 3) ∷ passes 90000 ∷ arrives (update_at 2) ∷ []

deliver_all-Latest_example :
    (w : Update) × Latest memory memory-IsRedis "a" w
      (deliver_all memory memory-IsRedis "a" late tracked)
    × ((update_at 1).seq ≤ w.seq)
    × Arriving memory memory-IsRedis "a" (λ u. u.seq ≤ w.seq) late
    × From memory memory-IsRedis "a" w (update_at 1) late
unfolding update_at Lasts deliver apply_location_script write_location string_dec driver_seq_key
    driver_loc_key cell_key driver_key
deliver_all-Latest_example =
    deliver_all-Latest memory memory-IsRedis "a" late (update_at 1) tracked tracked-Latest
      (omega arith) (omega arith, (omega arith, tt)) (refl, refl, (refl, refl, tt))
