-- ===== src/Dispatch.antt =====
-- internal/dispatch/engine.go: search, score, rank, reserve. Scores are exact millionths here, where
-- the code rounds doubles, and weights are whole numbers. `sort.Slice` is a parameter. Clock
-- readings (milliseconds), tokens and what an id is drawn from are arguments. What is published is returned
-- as a list: the engine ignores what the producer answers.
pub mod Choice
pub mod Ranking
pub mod Whole
pub mod Booking
pub mod Match
pub mod Handler
pub mod Best
use nexus_dispatch.Prelude.{
  ℕ, zero, suc, ◌-◌, ◌*◌, ◌/◌, Bool, true, false, Option, none, some, List, [], ◌∷◌, map, take,
  length, String, ◌<>◌, ltb, if◌then◌else◌,
}
use nexus_dispatch.Prelude.Int.{ℤ, pos, negsuc, pos_part, ◌+ℤ◌, ◌-ℤ◌, ◌*ℤ◌, ltb_ℤ}
use nexus_dispatch.Redis.{Float, nan, micro, Redis}
use nexus_dispatch.Outcome.{Error, Outcome, ok, err, panic, Link, conflict, unreachable}
use nexus_dispatch.Geospatial.{Geodesy}
use nexus_dispatch.Hot.LeaseValue.{decimal}
use nexus_dispatch.Hot.Store
use nexus_dispatch.Hot.Store.Search.{
  DriverPos, SearchLinks, search_nearby, as_float, as_number, as_seq,
}
use nexus_dispatch.Reservation.{Manager, Reservation}
use nexus_dispatch.Reservation

-- `Config`: metres in millionths.
pub record Config : Type 0 where
  pub default_radius : ℤ
  pub max_candidates : ℤ
  pub w_distance : ℤ
  pub w_request_age : ℤ
  pub w_rating : ℤ

-- `DefaultConfig`
abbrev pub default_config : Config
default_config = record {
  default_radius = pos (1000 * 1000000);
  max_candidates = pos 10;
  w_distance = pos 1;
  w_request_age = pos 5;
  w_rating = pos 50;
}

-- The configuration that `NewEngine` keeps.
unfoldable pub new_engine : Config → Config
new_engine cfg = if ltb_ℤ (pos 0) cfg.max_candidates then cfg else default_config

-- `Candidate`
pub record Candidate : Type 0 where
  pub driver_id : String
  pub lat : Float
  pub lng : Float
  pub distance : ℤ
  pub score : ℤ
  pub rating : ℤ
  pub cell : String

-- `events.RideRequested`, as far as the engine reads it: the radius in whole metres, the timestamp in
-- milliseconds.
pub record RideRequested : Type 0 where
  pub timestamp : ℕ
  pub ride_id : String
  pub user_id : String
  pub pickup_lat : Float
  pub pickup_lng : Float
  pub radius : ℤ

-- What is published, with its topic's key first.
pub data Message : Type 0 where
  dispatch_created : String → String → String → String → ℤ → ℤ → Message
  driver_reserved : String → String → String → String → ℕ → Message

pub data ResultCode : Type 0 where
  done no_candidates all_conflicts redis_unavailable : ResultCode

-- `Result`, with the error that is returned beside it and the messages that are sent. The duration is
-- left out.
pub record Result : Type 0 where
  pub success : Bool
  pub driver_id : String
  pub dispatch_id : String
  pub reservation : Option Reservation
  pub result_code : ResultCode
  pub cells_searched : ℕ
  pub candidates_total : ℕ
  pub failure : Option Error
  pub sent : List Message

module _ (cfg : Config) where
  -- `rating <= 0` stands for an unknown rating.
  abbrev pub known_rating : ℤ → ℤ
  known_rating r = if ltb_ℤ (pos 0) r then r else pos 5000000

  -- One round of `score`; the age is in millionths of a second.
  unfoldable pub score_one : ℤ → DriverPos → Candidate
  score_one age c =
      let rating = known_rating c.rating in
      record {
        driver_id = c.id;
        lat = c.lat;
        lng = c.lng;
        distance = c.dist_m;
        score =
            cfg.w_distance *ℤ c.dist_m
            +ℤ cfg.w_request_age *ℤ age
            +ℤ cfg.w_rating *ℤ (pos 5000000 -ℤ rating);
        rating = rating;
        cell = c.cell;
      }

  -- `score`
  unfoldable pub score : List DriverPos → ℤ → List Candidate
  score cands age = map (score_one age) cands

  -- The candidates in the order in which they are tried: `MaxCandidates` of them at most.
  unfoldable pub ranked : (List Candidate → List Candidate) → List DriverPos → ℤ → List Candidate
  ranked sort cands age = take (pos_part cfg.max_candidates) (sort (score cands age))

-- What `newID` puts behind its prefix: the nanoseconds of the clock, and how many ids were drawn before.
pub record Stamp : Type 0 where
  pub nanos : ℕ
  pub count : ℕ

-- `newID`
unfoldable pub new_id : String → Stamp → String
new_id prefix t = prefix <> "-" <> decimal t.nanos <> "-" <> decimal t.count

-- `publishDispatchCreated`; without a producer it sends nothing.
unfoldable pub publish_dispatch_created : Bool → RideRequested → Candidate → String → List Message
publish_dispatch_created false ev c id = []
publish_dispatch_created true ev c id =
    dispatch_created ev.ride_id id ev.ride_id c.driver_id c.distance c.score
    ∷ driver_reserved c.driver_id (id <> "-res") c.driver_id ev.ride_id 0
    ∷ []

-- What becomes of the attempts: one candidate is reserved, or the last error is left.
pub data Attempts : Type 0 where
  won : Candidate → Reservation → Attempts
  lost : Option Error → Attempts
  crashed : Attempts

-- `sort`, the links to Redis, the token that is drawn for a driver, whether there is a producer.
pub record Surroundings : Type 0 where
  pub sort : List Candidate → List Candidate
  pub search : SearchLinks
  pub net : String → Link
  pub token : String → Option String
  pub producer : Bool

module _ (R : Redis) (world : Surroundings) where
  -- The loop over the ranked candidates. Any error but a conflict ends it.
  unfoldable pub try_candidates :
      String → List Candidate → Option Error → Manager → R.Db → (Manager × R.Db) × Attempts
  try_candidates ride [] last m db = ((m, db), lost last)
  try_candidates ride (c ∷ cs) last m db =
      let (after, res) =
        Reservation.reserve R (world.net c.driver_id) (world.token c.driver_id) c.driver_id ride m
          db in
      let rest = try_candidates ride cs (some conflict) after.0 after.1 in
      elim res [
        | ok r ↦ (after, won c r)
        | err conflict ↦ rest
        | err e ↦ (after, lost (some e))
        | panic ↦ (after, crashed)
      ]

  -- A result that dispatches nobody.
  abbrev pub failed : ResultCode → ℕ → ℕ → Option Error → Result
  failed code cells total e = record {
    success = false;
    driver_id = "";
    dispatch_id = "";
    reservation = none;
    result_code = code;
    cells_searched = cells;
    candidates_total = total;
    failure = e;
    sent = [];
  }

  -- The end of `DispatchForRide`. The error wraps the last one.
  unfoldable pub conclude : RideRequested → String → ℕ → ℕ → Attempts → Outcome Result
  unfolding publish_dispatch_created
  conclude ev id cells total (won c r) = ok (record {
    success = true;
    driver_id = c.driver_id;
    dispatch_id = id;
    reservation = some r;
    result_code = done;
    cells_searched = cells;
    candidates_total = total;
    failure = none;
    sent = publish_dispatch_created world.producer ev c id;
  })
  conclude ev id cells total (lost (some e)) = ok (failed all_conflicts cells total (some e))
  conclude ev id cells total (lost none) = ok (failed all_conflicts cells total (some conflict))
  conclude ev id cells total crashed = panic

  module _ (G : Geodesy) (cfg : Config) where
    -- The radius of the search, in millionths.
    abbrev pub search_radius : RideRequested → ℤ
    search_radius ev =
        if ltb_ℤ (pos 0) ev.radius then ev.radius *ℤ pos 1000000 else cfg.default_radius

    -- `time.Since(ev.Timestamp)` in millionths of a second, and 0 for a time to come
    abbrev pub request_age : ℕ → RideRequested → ℤ
    request_age now ev = pos ((now - ev.timestamp) * 1000)

    -- The part of `DispatchForRide` behind the search.
    unfoldable pub assign :
        ℕ
        → RideRequested
        → String
        → Outcome (List DriverPos × ℕ)
        → Manager
        → R.Db
        → (Manager × R.Db) × Outcome Result
    assign now ev id (err e) m db = ((m, db), ok (failed redis_unavailable 0 0 none))
    assign now ev id panic m db = ((m, db), panic)
    assign now ev id (ok ([], cells)) m db = ((m, db), ok (failed no_candidates cells 0 none))
    assign now ev id (ok (c ∷ cs, cells)) m db =
        let order = ranked cfg world.sort (c ∷ cs) (request_age now ev) in
        let (after, tried) = try_candidates ev.ride_id order none m db in
        (after, conclude ev id cells (length (c ∷ cs)) tried)

    -- `DispatchForRide`, with what the id of the dispatch is drawn from
    unfoldable pub dispatch_for_ride :
        ℕ → RideRequested → Stamp → Manager → R.Db → (Manager × R.Db) × Outcome Result
    dispatch_for_ride now ev id m db =
        assign now ev (new_id "disp" id)
          (search_nearby R G world.search ev.pickup_lat ev.pickup_lng (search_radius ev) db) m db

    -- `FindCandidates`
    unfoldable pub find_candidates : Float → Float → ℤ → ℤ → R.Db → Outcome (List Candidate × ℕ)
    find_candidates lat lng radius max db =
        elim (search_nearby R G world.search lat lng radius db) [
          | err e ↦ err e
          | panic ↦ panic
          | ok found ↦
              let scored = world.sort (score cfg found.0 (pos 0)) in
              ok (if ltb_ℤ (pos 0) max then take (pos_part max) scored else scored, found.1)
        ]

    -- The metres of a positive number of millionths, the fraction dropped: `int32(radius)`, below 2 ^ 31.
    abbrev pub whole_metres : ℤ → ℤ
    whole_metres r = pos (pos_part r / 1000000)

    -- `DispatchByRideID`; none for a ride that is not in the hot state.
    unfoldable pub dispatch_by_ride_id :
        Link → ℕ → String → Stamp → Manager → R.Db → (Manager × R.Db) × Outcome (Option Result)
    dispatch_by_ride_id l now ride id m db = elim (Store.get_ride R l ride db) [
      | err e ↦ ((m, db), err e)
      | panic ↦ ((m, db), panic)
      | ok none ↦ ((m, db), ok none)
      | ok (some f) ↦
          let given = as_number (f "radius_m") in
          let radius = if ltb_ℤ (pos 0) given then given else cfg.default_radius in
          let ev : RideRequested = record {
            timestamp = as_seq (f "created_at");
            ride_id = ride;
            user_id = Store.as_text (f "user_id");
            pickup_lat = as_float (f "pickup_lat");
            pickup_lng = as_float (f "pickup_lng");
            radius = whole_metres radius;
          } in
          let (after, res) = dispatch_for_ride now ev id m db in
          (after, elim res [ ok r ↦ ok (some r) | err e ↦ err e | panic ↦ panic ])
    ]

  -- `ReleaseDriver`
  unfoldable pub release_driver : Link → Reservation → R.Db → R.Db × Outcome (Unit {0})
  release_driver = Reservation.release R
