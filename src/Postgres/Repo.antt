-- ===== src/Postgres/Repo.antt =====
-- The methods of `Pool` in internal/postgres/repo.go, with what becomes of each statement on its way.
use nexus_dispatch.Prelude.{ℕ, Bool, Option, String, ◌==◌, eqb, if◌then◌else◌}
use nexus_dispatch.Prelude.Int.{ℤ}
use nexus_dispatch.Redis.{Float}
use nexus_dispatch.Outcome.{Link, Outcome, ok, err, panic, ◌>>=◌, call, ask}
use nexus_dispatch.Postgres.{DriverRow, VehicleRow, RideRow, PointRow, Tables, count_active}
use nexus_dispatch.Postgres.Statements.{
  insert_driver_row, insert_vehicle, update_driver_row, insert_ride_row, update_ride_row,
  insert_ride_event_row, insert_dispatch_row, update_dispatch_row, insert_point,
}

-- `tag.RowsAffected() == 1`
abbrev one_row : ℕ → Outcome Bool
one_row n = ok (eqb n 1)

-- A method that answers only the error of its statement.
abbrev pub exec : Link → (Tables → Tables × Option ℕ) → Tables → Tables × Outcome (Unit {0})
exec l f db = let (db', res) = call l f db in (db', res >>= λ n. ok tt)

module _ (is_uuid : String → Bool) where
  -- `InsertDriver`, with a link for each of its two statements
  unfoldable pub insert_driver :
      Link
      → Link
      → String
      → String
      → String
      → String
      → String
      → String
      → String
      → ℤ
      → Tables
      → Tables × Outcome Bool
  insert_driver l k id name email state make model plate seats db =
      let (db', res) = call l (insert_driver_row is_uuid id name email state) db in
      let v : VehicleRow = record {
        driver_id = id;
        make = make;
        model = model;
        plate = plate;
        seats = seats;
      } in
      elim res [
        | ok n ↦ (if plate == "" then db' else (call k (insert_vehicle is_uuid v) db').0, one_row n)
        | err e ↦ (db', err e)
        | panic ↦ (db', panic)
      ]

  -- `UpdateDriverState`
  unfoldable pub update_driver_state : Link → String → String → Tables → Tables × Outcome (Unit {0})
  update_driver_state l id state = exec l (update_driver_row is_uuid id state)

  -- `InsertRide`
  unfoldable pub insert_ride : Link → String → String → Tables → Tables × Outcome Bool
  insert_ride l id user db =
      let (db', res) = call l (insert_ride_row is_uuid id user) db in (db', res >>= one_row)

  -- `UpdateRideState`
  unfoldable pub update_ride_state :
      Link → String → String → String → String → ℕ → Tables → Tables × Outcome (Unit {0})
  update_ride_state l id state driver reason now =
      exec l (update_ride_row is_uuid id state driver reason now)

  -- `InsertRideEvent`
  unfoldable pub insert_ride_event :
      Link → String → String → String → String → String → Tables → Tables × Outcome Bool
  insert_ride_event l ride state driver reason event db =
      let (db', res) = call l (insert_ride_event_row is_uuid ride state driver reason event) db in
      (db', res >>= one_row)

  -- `InsertDispatch`
  unfoldable pub insert_dispatch :
      Link → String → String → String → Float → Float → Tables → Tables × Outcome (Unit {0})
  insert_dispatch l id ride driver distance score =
      exec l (insert_dispatch_row is_uuid id ride driver distance score)

  -- `UpdateDispatchState`
  unfoldable pub update_dispatch_state :
      Link → String → String → Tables → Tables × Outcome (Unit {0})
  update_dispatch_state l id state = exec l (update_dispatch_row is_uuid id state)

  -- `InsertDriverHistory`
  unfoldable pub insert_driver_history : Link → PointRow → Tables → Tables × Outcome (Unit {0})
  insert_driver_history l x = exec l (insert_point is_uuid x)

-- `GetDriver` and `GetRide`; a missing row is not an error
unfoldable pub get_driver : Link → String → Tables → Outcome (Option DriverRow)
get_driver l id db = ask l (db.drivers id)

unfoldable pub get_ride : Link → String → Tables → Outcome (Option RideRow)
get_ride l id db = ask l (db.rides id)

-- `ActiveDispatchCount`
unfoldable pub active_dispatch_count : Link → String → Tables → Outcome ℕ
active_dispatch_count l driver db = ask l (count_active driver db.dispatches)
