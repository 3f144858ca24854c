-- ===== src/Ride/Service.antt =====
-- internal/ride/service.go. A method returns the service as it leaves it. What Postgres answers is a
-- parameter; the calls of it whose outcome is dropped, and the events for Kafka, are kept in a list.
-- The id is made of a clock reading, and is an argument.
pub mod Laws
use nexus_dispatch.Prelude.{
  ℕ, zero, suc, ◌*◌, Bool, true, false, not, ◌&&◌, ◌||◌, Option, none, some, List, [], ◌∷◌, String,
  ◌<>◌, ◌==◌, ltb, eqb, length, if◌then◌else◌,
}
use nexus_dispatch.Prelude.Int.{ℤ, pos, pos_part, ltb_ℤ}
use nexus_dispatch.Redis.{Float, micro, Datum, text, int, real, Fields, Redis}
use nexus_dispatch.Outcome.{Outcome, ok, err, panic, Link, call}
use nexus_dispatch.Geospatial.{validate_lat_lng}
use nexus_dispatch.Grpc.{
  Code, Reply, reply, status, crash, invalid_argument, not_found, failed_precondition, internal,
}
use nexus_dispatch.Hot.Keys.{ride_key}
use nexus_dispatch.Hot.Store.{as_text, set_ride}
use nexus_dispatch.Hot.Store
use nexus_dispatch.Hot.Store.Search.{as_float, as_seq}
use nexus_dispatch.Driver.Service.{is_zero}
use nexus_dispatch.Dispatch.{RideRequested}
use nexus_dispatch.Ride.State.{
  state_requested, state_cancelled, can_transition, RideState, requested, state_to_proto,
}

-- nexusv1.Ride
pub record Ride : Type 0 where
  pub id : String
  pub user_id : String
  pub driver_id : String
  pub state : RideState
  pub pickup_lat : Float
  pub pickup_lng : Float
  pub dropoff_lat : Float
  pub dropoff_lng : Float
  pub created_at : ℕ

pub record CreateRideRequest : Type 0 where
  pub user_id : String
  pub pickup_lat : Float
  pub pickup_lng : Float
  pub dropoff_lat : Float
  pub dropoff_lng : Float
  pub radius : ℤ

-- A row of the rides table, as `db.GetRide` reads it.
pub record RideRow : Type 0 where
  pub id : String
  pub user_id : String
  pub driver_id : String
  pub state : String
  pub pickup_lat : Float
  pub pickup_lng : Float
  pub drop_lat : Float
  pub drop_lng : Float

-- What leaves the service. A cancellation sends the new state and an event with its own id.
pub data Effect : Type 0 where
  insert_ride : String → CreateRideRequest → ℕ → Effect
  update_ride_state : String → String → String → Effect
  insert_ride_event : String → String → String → String → Effect
  ride_requested : String → RideRequested → Effect

pub record Service (R : Redis) : Type 0 where
  pub hot : R.Db
  pub has_db : Bool
  pub has_producer : Bool
  pub sent : List Effect  -- the latest first

-- `radius <= 0` stands for the default of 1000 metres.
abbrev pub radius_or_default : ℤ → ℕ
radius_or_default r = if ltb_ℤ (pos 0) r then pos_part r else 1000

-- Whether `CreateRide` refuses the request. Both coordinates of a missing drop-off are 0.
unfoldable pub is_invalid : CreateRideRequest → Bool
is_invalid req =
    if req.user_id == ""
    then true
    else if not (validate_lat_lng req.pickup_lat req.pickup_lng)
    then true
    else if not (is_zero req.dropoff_lat) || not (is_zero req.dropoff_lng)
    then not (validate_lat_lng req.dropoff_lat req.dropoff_lng)
    else false

-- The hash of a new ride.
abbrev pub ride_fields : String → CreateRideRequest → ℕ → List (String × Datum)
ride_fields id req now =
    ("id", text id)
    ∷ ("user_id", text req.user_id)
    ∷ ("state", text state_requested)
    ∷ ("pickup_lat", real req.pickup_lat)
    ∷ ("pickup_lng", real req.pickup_lng)
    ∷ ("dropoff_lat", real req.dropoff_lat)
    ∷ ("dropoff_lng", real req.dropoff_lng)
    ∷ ("radius_m", int (radius_or_default req.radius))
    ∷ ("created_at", int now)
    ∷ []

-- The zero of a coordinate, for a field that is not there.
abbrev pub no_float : Float
no_float = micro (pos 0)

-- `rideFromHot`
unfoldable pub ride_from_hot : Fields → Ride
ride_from_hot m = record {
  id = as_text (m "id");
  user_id = as_text (m "user_id");
  driver_id = as_text (m "driver_id");
  state = state_to_proto (as_text (m "state"));
  pickup_lat = as_float (m "pickup_lat");
  pickup_lng = as_float (m "pickup_lng");
  dropoff_lat = no_float;
  dropoff_lng = no_float;
  created_at = as_seq (m "created_at");
}

ride_from_row : RideRow → Ride
ride_from_row row = record {
  id = row.id;
  user_id = row.user_id;
  driver_id = row.driver_id;
  state = state_to_proto row.state;
  pickup_lat = row.pickup_lat;
  pickup_lng = row.pickup_lng;
  dropoff_lat = row.drop_lat;
  dropoff_lng = row.drop_lng;
  created_at = 0;
}

-- The answer from Postgres: a row, none, or an error.
from_row : Outcome (Option RideRow) → Reply Ride
unfolding ride_from_row
from_row (ok (some row)) = reply (ride_from_row row)
from_row (ok none) = status not_found
from_row (err e) = status internal
from_row panic = crash

-- The clock as `CreateRide` reads it, in milliseconds: for the hash, for the event, and for the answer.
pub record Clocks : Type 0 where
  pub created : ℕ
  pub published : ℕ
  pub answered : ℕ

module _ (R : Redis) where
  abbrev send_if : Bool → Effect → Service R → Service R
  send_if b e s = if b then record s { sent = e ∷ s.sent } else s

  abbrev pub new_ride : String → CreateRideRequest → ℕ → Ride
  new_ride id req now = record {
    id = id;
    user_id = req.user_id;
    driver_id = "";
    state = requested;
    pickup_lat = req.pickup_lat;
    pickup_lng = req.pickup_lng;
    dropoff_lat = req.dropoff_lat;
    dropoff_lng = req.dropoff_lng;
    created_at = now;
  }

  abbrev pub requested_event : String → CreateRideRequest → ℕ → RideRequested
  requested_event id req now = record {
    timestamp = now;
    ride_id = id;
    user_id = req.user_id;
    pickup_lat = req.pickup_lat;
    pickup_lng = req.pickup_lng;
    radius = pos (radius_or_default req.radius);
  }

  -- `CreateRide`
  unfoldable pub create_ride :
      Link → Clocks → String → CreateRideRequest → Service R → Service R × Reply Ride
  create_ride l t id req s =
      if is_invalid req
      then (s, status invalid_argument)
      else let s₁ = send_if s.has_db (insert_ride id req (radius_or_default req.radius)) s in
        let (hot', res) = set_ride R l id (ride_fields id req t.created) (30 * 60 * 1000) s₁.hot in
        let s₂ : Service R = record s₁ { hot = hot' } in
        (
          send_if s.has_producer
              (ride_requested ("req-" <> id) (requested_event id req t.published)) s₂,
          reply (new_ride id req t.answered),
        )

  -- `GetRide`; `row` is what `db.GetRide` answers.
  unfoldable pub get_ride :
      Link → (String → Outcome (Option RideRow)) → String → Service R → Reply Ride
  unfolding from_row
  get_ride l row id s =
      let fallback = if s.has_db then from_row (row id) else status not_found in
      elim (Store.get_ride R l id s.hot) [
        | ok (some m) ↦ reply (ride_from_hot m)
        | ok none ↦ fallback
        | err e ↦ fallback
        | panic ↦ crash
      ]

  abbrev pub cancelled_ride : String → Ride
  cancelled_ride id = record {
    id = id;
    user_id = "";
    driver_id = "";
    state = state_to_proto state_cancelled;
    pickup_lat = no_float;
    pickup_lng = no_float;
    dropoff_lat = no_float;
    dropoff_lng = no_float;
    created_at = 0;
  }

  -- The writes of `CancelRide`. The error of the first is dropped.
  unfoldable pub write_cancel : Link → String → String → Service R → Service R
  write_cancel l id reason s =
      let hot' =
        (call {A = Unit {0}} l
          (λ d. (
            R.hset (ride_key id) "cancel_reason" (text reason)
                (R.hset (ride_key id) "state" (text state_cancelled) d),
            some tt,
          ))
          s.hot).0 in
      let s₁ : Service R = record s { hot = hot' } in
      send_if s.has_db (insert_ride_event id state_cancelled reason ("cancel-" <> id))
        (send_if s.has_db (update_ride_state id state_cancelled reason) s₁)

  -- `CancelRide`
  unfoldable pub cancel_ride : Link → Link → String → String → Service R → Service R × Reply Ride
  cancel_ride l₁ l₂ id reason s = elim (Store.get_ride R l₁ id s.hot) [
    | ok (some m) ↦
        if can_transition (as_text (m "state")) state_cancelled
        then (write_cancel l₂ id reason s, reply (cancelled_ride id))
        else (s, status failed_precondition)
    | ok none ↦ (s, status not_found)
    | err e ↦ (s, status not_found)
    | panic ↦ (s, crash)
  ]

-- nexusv1.ListRidesResponse
pub record Page : Type 0 where
  pub rides : List Ride
  pub next_cursor : ℕ
  pub has_more : Bool

abbrev pub page_limit : ℤ → ℕ
page_limit n = if ltb_ℤ (pos 0) n && not (ltb_ℤ (pos 100) n) then pos_part n else 20

-- The creation time of the last ride of a page, 0 where it has none.
unfoldable pub last_created : List Ride → ℕ
last_created [] = 0
last_created (r ∷ []) = r.created_at
last_created (r ∷ s ∷ rs) = last_created (s ∷ rs)

-- `ListRides`; `query` answers the rows for a user, a cursor and a limit.
unfoldable pub list_rides :
    Bool → (String → ℕ → ℕ → Outcome (List Ride)) → String → ℕ → ℤ → Reply Page
list_rides false query user cursor n =
    reply (record { rides = []; next_cursor = 0; has_more = false })
list_rides true query user cursor n = elim (query user cursor (page_limit n)) [
  | ok rides ↦ reply (record {
    rides = rides;
    next_cursor = last_created rides;
    has_more = eqb (length rides) (page_limit n);
  })
  | err e ↦ status internal
  | panic ↦ crash
]
