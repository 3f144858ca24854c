-- ===== src/Postgres/Writes.antt =====
-- Runs of the methods of internal/postgres/repo.go that write, and which of them leave the dispatches.
use nexus_dispatch.Prelude.{ℕ, ◌≡◌, refl, Bool, true, false, Option, List, [], ◌∷◌, String, arith}
use nexus_dispatch.Prelude.Int.{ℤ}
use nexus_dispatch.Redis.{Float}
use nexus_dispatch.Outcome.{Link, call, call-cases}
use nexus_dispatch.Postgres.{PointRow, Tables}
use nexus_dispatch.Postgres.Statements.{
  insert_driver_row, insert_vehicle, update_driver_row, insert_ride_row, update_ride_row,
  insert_ride_event_row, insert_point,
}
use nexus_dispatch.Postgres.Repo.{
  insert_driver, update_driver_state, insert_ride, update_ride_state, insert_ride_event,
  insert_dispatch, update_dispatch_state, insert_driver_history,
}

-- A method that writes, with its arguments and what becomes of its statements.
pub data Write : Type 0 where
  new_driver : (l k : Link) (id name email state make model plate : String) (seats : ℤ) → Write
  set_driver : (l : Link) (id state : String) → Write
  new_ride : (l : Link) (id user : String) → Write
  set_ride : (l : Link) (id state driver reason : String) (now : ℕ) → Write
  new_event : (l : Link) (ride state driver reason event : String) → Write
  new_dispatch : (l : Link) (id ride driver : String) (distance score : Float) → Write
  set_dispatch : (l : Link) (id state : String) → Write
  new_point : (l : Link) (x : PointRow) → Write

-- Whether a method writes to the table of dispatches.
abbrev pub on_dispatches : Write → Bool
on_dispatches (new_dispatch l id ride driver distance score) = true
on_dispatches (set_dispatch l id state) = true
on_dispatches _ = false

module _ (is_uuid : String → Bool) where
  unfoldable pub perform : Write → Tables → Tables
  perform (new_driver l k id name email state make model plate seats) db =
      (insert_driver is_uuid l k id name email state make model plate seats db).0
  perform (set_driver l id state) db = (update_driver_state is_uuid l id state db).0
  perform (new_ride l id user) db = (insert_ride is_uuid l id user db).0
  perform (set_ride l id state driver reason now) db =
      (update_ride_state is_uuid l id state driver reason now db).0
  perform (new_event l ride state driver reason event) db =
      (insert_ride_event is_uuid l ride state driver reason event db).0
  perform (new_dispatch l id ride driver distance score) db =
      (insert_dispatch is_uuid l id ride driver distance score db).0
  perform (set_dispatch l id state) db = (update_dispatch_state is_uuid l id state db).0
  perform (new_point l x) db = (insert_driver_history is_uuid l x db).0

  unfoldable pub perform_all : List Write → Tables → Tables
  perform_all [] db = db
  perform_all (w ∷ ws) db = perform_all ws (perform w db)

  -- A statement on another table leaves the dispatches.
  dispatches-call :
      (l : Link) (f : Tables → Tables × Option ℕ) (db : Tables)
      → (f db).0.dispatches ≡ db.dispatches
      → (call l f db).0.dispatches ≡ db.dispatches
  dispatches-call l f db e = call-cases (λ (t : Tables). t.dispatches ≡ db.dispatches) l f db refl e

  insert_driver-dispatches :
      (l k : Link) (id name email state make model plate : String) (seats : ℤ) (db : Tables)
      → (insert_driver is_uuid l k id name email state make model plate seats db).0.dispatches
        ≡ db.dispatches
  unfolding insert_driver call insert_driver_row insert_vehicle
  insert_driver-dispatches l k id name email state make model plate seats db = ground arith

  pub perform-dispatches :
      (w : Write) (db : Tables)
      → on_dispatches w ≡ false
      → (perform w db).dispatches ≡ db.dispatches
  unfolding perform update_driver_state insert_ride update_ride_state insert_ride_event
      insert_driver_history
  perform-dispatches (new_driver l k id name email state make model plate seats) db e =
      insert_driver-dispatches l k id name email state make model plate seats db
  perform-dispatches (set_driver l id state) db e =
      dispatches-call l (update_driver_row is_uuid id state) db
        (unfold update_driver_row in ground arith)
  perform-dispatches (new_ride l id user) db e =
      dispatches-call l (insert_ride_row is_uuid id user) db
        (unfold insert_ride_row in ground arith)
  perform-dispatches (set_ride l id state driver reason now) db e =
      dispatches-call l (update_ride_row is_uuid id state driver reason now) db
        (unfold update_ride_row in ground arith)
  perform-dispatches (new_event l ride state driver reason event) db e =
      dispatches-call l (insert_ride_event_row is_uuid ride state driver reason event) db
        (unfold insert_ride_event_row in ground arith)
  perform-dispatches (new_dispatch l id ride driver distance score) db e = absurd (cc e)
  perform-dispatches (set_dispatch l id state) db e = absurd (cc e)
  perform-dispatches (new_point l x) db e =
      dispatches-call l (insert_point is_uuid x) db (unfold insert_point in ground arith)
