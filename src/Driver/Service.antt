-- ===== src/Driver/Service.antt =====
-- internal/driver/service.go. A method returns the service as it leaves it: the hot state, the
-- registry in memory, and what was sent to Postgres and Kafka. Two durable calls are parameters: the
-- row that `db.GetDriver` finds, and whether there is a pool and a producer at all.
pub mod Laws
use nexus_dispatch.Prelude.{
  ℕ, zero, suc, Bool, true, false, not, ◌&&◌, ◌||◌, Option, none, some, List, [], ◌∷◌, String, ◌<>◌,
  ◌==◌, if◌then◌else◌,
}
use nexus_dispatch.Prelude.Int.{ℤ, pos}
use nexus_dispatch.Redis.{Float, micro, nan, text, update, Redis}
use nexus_dispatch.Outcome.{Outcome, ok, err, panic, Link, call}
use nexus_dispatch.Geospatial.{Geodesy}
use nexus_dispatch.Grpc.{
  Code, Reply, reply, status, crash, invalid_argument, not_found, failed_precondition, internal,
}
use nexus_dispatch.Hot.Keys.{driver_key}
use nexus_dispatch.Hot.Store.{get_state, set_state, init_driver, or_zero}
use nexus_dispatch.Driver.State.{
  state_offline, state_available, state_reserved, state_on_trip, state_paused, validate_state,
  assert_transition,
}

-- nexusv1.DriverState
pub data DriverState : Type 0 where
  unspecified offline available reserved on_trip paused : DriverState

unfoldable pub state_to_proto : String → DriverState
state_to_proto s =
    if s == state_available
    then available
    else if s == state_reserved
    then reserved
    else if s == state_on_trip
    then on_trip
    else if s == state_paused
    then paused
    else offline

unfoldable pub proto_to_state : DriverState → String
proto_to_state available = state_available
proto_to_state reserved = state_reserved
proto_to_state on_trip = state_on_trip
proto_to_state paused = state_paused
proto_to_state _ = state_offline

pub record Vehicle : Type 0 where
  pub make : String
  pub model : String
  pub plate : String
  pub seats : ℕ

-- nexusv1.Driver
pub record Driver : Type 0 where
  pub id : String
  pub name : String
  pub email : String
  pub vehicle : Option Vehicle
  pub state : DriverState
  pub rating : ℤ
  pub trips_completed : ℕ
  pub created_at : ℕ
  pub updated_at : ℕ

pub record DriverRow : Type 0 where
  pub id : String
  pub name : String
  pub email : String
  pub state : String
  pub rating : ℤ
  pub trips_completed : ℕ

-- What leaves the service: the calls of `db` whose error is dropped, and driver-status events.
pub data Effect : Type 0 where
  insert_driver : String → String → String → String → Float → Float → Vehicle → Effect
  update_driver_state : String → String → Effect
  driver_status : String → String → String → Effect

pub record Service (R : Redis) : Type 0 where
  pub hot : R.Db
  pub drivers : String → Option Driver
  pub has_db : Bool
  pub has_producer : Bool
  pub sent : List Effect  -- the latest first

pub record RegisterRequest : Type 0 where
  pub name : String
  pub email : String
  pub vehicle : Option Vehicle
  pub initial_lat : Float
  pub initial_lng : Float

abbrev pub is_zero : Float → Bool
is_zero (micro (pos zero)) = true
is_zero _ = false

-- 4.8
abbrev pub first_rating : ℤ
first_rating = pos 4800000

module _ (R : Redis) where
  abbrev pub send : Effect → Service R → Service R
  send e s = record s { sent = e ∷ s.sent }

  abbrev pub send_if : Bool → Effect → Service R → Service R
  send_if b e s = if b then send e s else s

  -- `emitDriverStatus`
  unfoldable pub emit_driver_status : String → String → String → Service R → Service R
  emit_driver_status id state reason s = send_if s.has_producer (driver_status id state reason) s

  registered : String → RegisterRequest → ℕ → Driver
  registered id req now = record {
    id = id;
    name = req.name;
    email = req.email;
    vehicle = req.vehicle;
    state = available;
    rating = first_rating;
    trips_completed = 0;
    created_at = now;
    updated_at = now;
  }

  -- The part of `RegisterDriver` behind the durable insert.
  seed_driver :
      Geodesy → Link → ℕ → String → String → RegisterRequest → Service R → Service R × Reply Driver
  unfolding emit_driver_status registered
  seed_driver G l now id state req s =
      let (hot', res) =
        (init_driver R G l id req.name state first_rating req.initial_lat req.initial_lng now
          s.hot) in
      let s' = record s { hot = hot' } in
      let d = registered id req now in
      elim res [
        | ok _ ↦ (
          emit_driver_status id state "registered"
              (record s' { drivers = update id (some d) s'.drivers }),
          reply (record d { updated_at = 0 }),
        )
        | err _ ↦ (s', status internal)
        | panic ↦ (s', crash)
      ]

  -- `RegisterDriver`. With a pool, a request without a vehicle is a nil dereference.
  unfoldable pub register_driver :
      Geodesy → Link → ℕ → RegisterRequest → Service R → Service R × Reply Driver
  unfolding seed_driver
  register_driver G l now req s =
      let id = "drv-" <> req.email in
      let state =
        if is_zero req.initial_lat && is_zero req.initial_lng
        then state_offline
        else state_available in
      if req.name == "" || req.email == ""
      then (s, status invalid_argument)
      else if not s.has_db
      then seed_driver G l now id state req s
      else elim req.vehicle [
        | none ↦ (s, crash)
        | some v ↦
            seed_driver G l now id state req
              (send (insert_driver id req.name req.email state req.initial_lat req.initial_lng v) s)
      ]

  driver_of_row : DriverRow → Driver
  driver_of_row row = record {
    id = row.id;
    name = row.name;
    email = row.email;
    vehicle = none;
    state = state_to_proto row.state;
    rating = row.rating;
    trips_completed = row.trips_completed;
    created_at = 0;
    updated_at = 0;
  }

  driver_of_state : String → String → Driver
  driver_of_state id state = record {
    id = id;
    name = "";
    email = "";
    vehicle = none;
    state = state_to_proto state;
    rating = pos 0;
    trips_completed = 0;
    created_at = 0;
    updated_at = 0;
  }

  durable_driver : (String → Outcome (Option DriverRow)) → String → Service R → Reply Driver
  unfolding driver_of_row
  durable_driver find id s = if not s.has_db then status not_found else elim (find id) [
    | ok none ↦ status not_found
    | ok (some row) ↦ reply (driver_of_row row)
    | err _ ↦ status internal
    | panic ↦ crash
  ]

  -- `GetDriver`
  unfoldable pub get_driver :
      Link → (String → Outcome (Option DriverRow)) → String → Service R → Reply Driver
  unfolding durable_driver driver_of_state
  get_driver l find id s = elim (s.drivers id) [
    | some d ↦ reply d
    | none ↦ elim (get_state R l id s.hot) [
      | ok state ↦
          if state == "" then durable_driver find id s else reply (driver_of_state id state)
      | _ ↦ durable_driver find id s
    ]
  ]

  abbrev touch : DriverState → ℕ → Option Driver → Option Driver
  touch state now none = none
  touch state now (some d) = some (record d { state = state; updated_at = now })

  -- The writes of `UpdateDriverStatus`, its guards passed.
  unfoldable pub change_state :
      Link
      → ℕ
      → String
      → DriverState
      → String
      → String
      → Service R
      → Service R × Reply (DriverState × DriverState)
  unfolding emit_driver_status
  change_state l now id wanted from to s =
      let (hot', res) = set_state R l id to s.hot in
      let s' = record s { hot = hot' } in
      elim res [
        | ok _ ↦ (
          emit_driver_status id to "manual"
              (record (send_if s'.has_db (update_driver_state id to) s') {
                drivers = update id (touch wanted now (s'.drivers id)) s'.drivers;
              }),
          reply (state_to_proto from, state_to_proto to),
        )
        | err _ ↦ (s', status internal)
        | panic ↦ (s', crash)
      ]

  -- `UpdateDriverStatus`: the reply is the previous state and the current one.
  unfoldable pub update_driver_status :
      Link
      → Link
      → ℕ
      → String
      → DriverState
      → Service R
      → Service R × Reply (DriverState × DriverState)
  update_driver_status l₁ l₂ now id wanted s =
      let to = proto_to_state wanted in
      if not (validate_state to)
      then (s, status invalid_argument)
      else elim (get_state R l₁ id s.hot) [
        | ok from ↦
            if from == ""
            then (s, status not_found)
            else if not (assert_transition from to)
            then (s, status failed_precondition)
            else change_state l₂ now id wanted from to s
        | err _ ↦ (s, status internal)
        | panic ↦ (s, crash)
      ]

  -- `AssignDriver`; the error of the write is dropped
  unfoldable pub assign_driver :
      Link → Link → String → String → Service R → Service R × Reply DriverState
  assign_driver l₁ l₂ id ride s = elim (get_state R l₁ id s.hot) [
    | ok state ↦ if not (state == state_reserved) then (s, status failed_precondition) else (
      record s {
        hot =
            (call {A = Unit {0}} l₂
              (λ d. (R.hset (driver_key id) "assigned_ride" (text ride) d, some tt)) s.hot).0;
      },
      reply (state_to_proto state),
    )
    | err _ ↦ (s, status internal)
    | panic ↦ (s, crash)
  ]

  -- `ReleaseDriver`; the error of the first read is dropped
  unfoldable pub release_driver :
      Link → Link → String → String → Service R → Service R × Reply DriverState
  unfolding emit_driver_status
  release_driver l₁ l₂ id reason s =
      let state = or_zero "" (get_state R l₁ id s.hot) in
      let (hot', res) = set_state R l₂ id state_available s.hot in
      let s' = record s { hot = hot' } in
      if not (state == state_reserved) && not (state == state_on_trip)
      then (s, status failed_precondition)
      else elim res [
        | ok _ ↦ (
          emit_driver_status id state_available reason
              (send_if s'.has_db (update_driver_state id state_available) s'),
          reply (state_to_proto state_available),
        )
        | err _ ↦ (s', status internal)
        | panic ↦ (s', crash)
      ]
