-- ===== src/Postgres/Statements.antt =====
-- The statements that internal/postgres/repo.go sends, on the tables of migrations/001_init.sql.
use nexus_dispatch.Prelude.{
  ℕ, Bool, not, ◌&&◌, ◌||◌, Option, none, some, ◌∷◌, String, ◌==◌, leb, if◌then◌else◌,
}
use nexus_dispatch.Prelude.Int.{pos, ltb_ℤ}
use nexus_dispatch.Redis.{Float, micro, update}
use nexus_dispatch.Postgres.{
  VehicleRow, PointRow, Tables, one_of, driver_states, ride_states, dispatch_states, is_some, any,
  active_for, unchanged, raised, moved_ride, null_if_empty, set_state, index_admits,
}

-- `is_uuid` is the input syntax of the type `uuid`; Postgres refuses any other text for such a column.
module _ (is_uuid : String → Bool) where
  -- The first statement of `InsertDriver`
  unfoldable pub insert_driver_row : String → String → String → String → Tables → Tables × Option ℕ
  insert_driver_row id name email state db =
      if not (is_uuid id)
      then raised db
      else if is_some (db.drivers id)
      then unchanged db
      else if one_of email db.emails || not (one_of state driver_states)
      then raised db
      else (
        record db {
          drivers =
              update id
                (some (record {
                  name = name;
                  email = email;
                  state = state;
                  rating = micro (pos 5000000);
                  trips_completed = 0;
                }))
                db.drivers;
          emails = email ∷ db.emails;
        },
        some 1,
      )

  -- The second statement of `InsertDriver`
  unfoldable pub insert_vehicle : VehicleRow → Tables → Tables × Option ℕ
  insert_vehicle v db =
      if not (is_uuid v.driver_id)
      then raised db
      else if any (λ x. x.plate == v.plate) db.vehicles
      then unchanged db
      else if is_some (db.drivers v.driver_id) && ltb_ℤ (pos 0) v.seats && ltb_ℤ v.seats (pos 13)
      then (record db { vehicles = v ∷ db.vehicles }, some 1)
      else raised db

  -- The statement of `UpdateDriverState`
  unfoldable pub update_driver_row : String → String → Tables → Tables × Option ℕ
  update_driver_row id state db = if not (is_uuid id) then raised db else elim (db.drivers id) [
    | none ↦ unchanged db
    | some row ↦
        if one_of state driver_states
        then (
          record db { drivers = update id (some (record row { state = state })) db.drivers },
          some 1,
        )
        else raised db
  ]

  -- The statement of `InsertRide`
  unfoldable pub insert_ride_row : String → String → Tables → Tables × Option ℕ
  insert_ride_row id user db =
      if not (is_uuid id && is_uuid user)
      then raised db
      else if is_some (db.rides id)
      then unchanged db
      else if db.users user
      then (
        record db {
          rides =
              update id
                (some (record {
                  user_id = user;
                  driver_id = none;
                  state = "REQUESTED";
                  cancel_reason = none;
                  matched_at = none;
                  completed_at = none;
                  updated_at = none;
                }))
                db.rides;
        },
        some 1,
      )
      else raised db

  -- The statement of `UpdateRideState`
  unfoldable pub update_ride_row :
      String → String → String → String → ℕ → Tables → Tables × Option ℕ
  update_ride_row id state driver reason now db =
      if not (is_uuid id && is_uuid driver) then raised db else elim (db.rides id) [
        | none ↦ unchanged db
        | some row ↦
            if one_of state ride_states && is_some (db.drivers driver)
            then (
              record db {
                rides = update id (some (moved_ride state driver reason now row)) db.rides;
              },
              some 1,
            )
            else raised db
      ]

  -- The statement of `InsertRideEvent`
  unfoldable pub insert_ride_event_row :
      String → String → String → String → String → Tables → Tables × Option ℕ
  insert_ride_event_row ride state driver reason event db =
      if not (is_uuid ride && (driver == "" || is_uuid driver))
      then raised db
      else if any (λ e. e.ride_id == ride && e.event_id == event) db.ride_events
      then unchanged db
      else if is_some (db.rides ride)
      then (
        record db {
          ride_events =
              record {
                ride_id = ride;
                state = state;
                driver_id = null_if_empty driver;
                reason = reason;
                event_id = event;
              }
              ∷ db.ride_events;
        },
        some 1,
      )
      else raised db

  -- The statement of `InsertDispatch`: the conflict that it names, and then the other constraints.
  unfoldable pub insert_dispatch_row :
      String → String → String → Float → Float → Tables → Tables × Option ℕ
  insert_dispatch_row id ride driver distance score db =
      if not (is_uuid id && is_uuid ride && is_uuid driver)
      then raised db
      else if any (λ x. x.ride_id == ride && x.driver_id == driver) db.dispatches
      then unchanged db
      else if any (λ x. x.id == id) db.dispatches || any (active_for driver) db.dispatches
      then raised db
      else if is_some (db.rides ride) && is_some (db.drivers driver)
      then (
        record db {
          dispatches =
              record {
                id = id;
                ride_id = ride;
                driver_id = driver;
                state = "RESERVED";
                distance_m = distance;
                score = score;
              }
              ∷ db.dispatches;
        },
        some 1,
      )
      else raised db

  -- The statement of `UpdateDispatchState`
  unfoldable pub update_dispatch_row : String → String → Tables → Tables × Option ℕ
  update_dispatch_row id state db =
      let rows = set_state id state db.dispatches in
      if not (is_uuid id)
      then raised db
      else if any (λ x. x.id == id) db.dispatches
      then if one_of state dispatch_states && index_admits rows rows
        then (record db { dispatches = rows }, some 1)
        else raised db
      else unchanged db

  -- The statement of `InsertDriverHistory`
  unfoldable pub insert_point : PointRow → Tables → Tables × Option ℕ
  insert_point x db =
      if not (is_uuid x.driver_id)
      then raised db
      else if any (λ y. y.driver_id == x.driver_id && leb y.ts x.ts && leb x.ts y.ts)
          db.driver_history
      then unchanged db
      else if is_some (db.drivers x.driver_id)
      then (record db { driver_history = x ∷ db.driver_history }, some 1)
      else raised db
