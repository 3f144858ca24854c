-- ===== src/Postgres.antt =====
-- internal/postgres/repo.go on the tables of migrations/001_init.sql. Each statement is a function of the
-- tables that answers the number of rows, or none where Postgres raises an error. A table that is looked
-- up by its key is a function, any other one a list with the newest row first. Left out are the columns
-- `created_at`, `updated_at` but that of a ride, `location` of a driver and the numbers that no statement reads.
pub mod Pool
pub mod Statements
pub mod Repo
pub mod Writes
pub mod Active
use nexus_dispatch.Prelude.{
  ℕ, suc, Bool, true, false, not, ◌&&◌, ◌||◌, Option, none, some, List, [], ◌∷◌, String, ◌==◌, leb,
  if◌then◌else◌,
}
use nexus_dispatch.Prelude.Int.{ℤ, pos, ltb_ℤ}
use nexus_dispatch.Redis.{Float, micro, update}
use nexus_dispatch.Outcome.{Link, Outcome, ◌>>=◌, ok, call, ask}

pub record DriverRow : Type 0 where
  pub name : String
  pub email : String
  pub state : String
  pub rating : Float
  pub trips_completed : ℕ

pub record VehicleRow : Type 0 where
  pub driver_id : String
  pub make : String
  pub model : String
  pub plate : String
  pub seats : ℤ

pub record RideRow : Type 0 where
  pub user_id : String
  pub driver_id : Option String
  pub state : String
  pub cancel_reason : Option String
  pub matched_at : Option ℕ
  pub completed_at : Option ℕ
  -- none until the first update; the time of the insert is left out
  pub updated_at : Option ℕ

pub record RideEventRow : Type 0 where
  pub ride_id : String
  pub state : String
  pub driver_id : Option String
  pub reason : String
  pub event_id : String

pub record DispatchRow : Type 0 where
  pub id : String
  pub ride_id : String
  pub driver_id : String
  pub state : String
  pub distance_m : Float
  pub score : Float

pub record PointRow : Type 0 where
  pub driver_id : String
  pub ts : ℕ
  pub lat : Float
  pub lng : Float
  pub seq : ℤ

pub record Tables : Type 0 where
  pub users : String → Bool
  pub drivers : String → Option DriverRow
  pub emails : List String
  pub vehicles : List VehicleRow
  pub rides : String → Option RideRow
  pub ride_events : List RideEventRow
  pub dispatches : List DispatchRow
  pub driver_history : List PointRow

abbrev pub one_of : String → List String → Bool
one_of s [] = false
one_of s (x ∷ xs) = s == x || one_of s xs

-- The states that the checks of the tables let pass, and those that `uq_active_dispatch` is about.
abbrev pub driver_states : List String
driver_states = "OFFLINE" ∷ "AVAILABLE" ∷ "RESERVED" ∷ "ON_TRIP" ∷ "PAUSED" ∷ []

abbrev pub ride_states : List String
ride_states =
    "REQUESTED" ∷ "MATCHED" ∷ "DRIVER_EN_ROUTE" ∷ "ARRIVED" ∷ "IN_PROGRESS" ∷ "COMPLETED"
    ∷ "CANCELLED" ∷ "EXPIRED" ∷ []

abbrev pub dispatch_states : List String
dispatch_states = "RESERVED" ∷ "ASSIGNED" ∷ "ON_TRIP" ∷ "COMPLETED" ∷ "CANCELLED" ∷ "EXPIRED" ∷ []

abbrev pub active_states : List String
active_states = "RESERVED" ∷ "ASSIGNED" ∷ "ON_TRIP" ∷ []

abbrev pub is_some {ℓ} : {A : Type ℓ} → Option A → Bool
is_some none = false
is_some (some a) = true

abbrev pub any {ℓ} : {A : Type ℓ} → (A → Bool) → List A → Bool
any p [] = false
any p (x ∷ xs) = p x || any p xs

abbrev pub active_for : String → DispatchRow → Bool
active_for driver row = row.driver_id == driver && one_of row.state active_states

-- A statement that changes nothing.
abbrev pub unchanged : Tables → Tables × Option ℕ
unchanged db = (db, some 0)

abbrev pub raised : Tables → Tables × Option ℕ
raised db = (db, none)

abbrev pub first_time : Option ℕ → ℕ → Option ℕ
first_time none now = some now
first_time (some t) now = some t

-- What the statement of `UpdateRideState` makes of a row; its texts are never null.
unfoldable pub moved_ride : String → String → String → ℕ → RideRow → RideRow
moved_ride state driver reason now row = record row {
  state = state;
  driver_id = some driver;
  cancel_reason = some reason;
  matched_at =
      if one_of state ("MATCHED" ∷ "DRIVER_EN_ROUTE" ∷ [])
      then first_time row.matched_at now
      else row.matched_at;
  completed_at = if state == "COMPLETED" then some now else row.completed_at;
  updated_at = some now;
}

abbrev pub null_if_empty : String → Option String
null_if_empty s = if s == "" then none else some s

-- The row of an id, with the state that is set.
unfoldable pub set_state : String → String → List DispatchRow → List DispatchRow
set_state id state [] = []
set_state id state (x ∷ xs) =
    let rest = set_state id state xs in
    if x.id == id then record x { state = state } ∷ rest else x ∷ rest

-- The states that `ActiveDispatchCount` asks for.
abbrev pub counted_states : List String
counted_states = "RESERVED" ∷ "ASSIGNED" ∷ "ON_TRIP" ∷ []

-- The query of `ActiveDispatchCount`
unfoldable pub count_active : String → List DispatchRow → ℕ
count_active driver [] = 0
count_active driver (x ∷ xs) =
    let rest = count_active driver xs in
    if x.driver_id == driver && one_of x.state counted_states then suc rest else rest

-- How many rows of a driver are in `uq_active_dispatch`.
unfoldable pub index_count : String → List DispatchRow → ℕ
index_count driver [] = 0
index_count driver (x ∷ xs) =
    let rest = index_count driver xs in if active_for driver x then suc rest else rest

-- No driver of the rows has two that are active: what `uq_active_dispatch` admits.
abbrev pub index_admits : List DispatchRow → List DispatchRow → Bool
index_admits all [] = true
index_admits all (x ∷ xs) = leb (index_count x.driver_id all) 1 && index_admits all xs
