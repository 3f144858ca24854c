-- ===== src/Processor.antt =====
-- cmd/event-processor/main.go: the handlers that write events to Postgres. Decoding is a parameter. A
-- handler answers none for nil and its error otherwise, as the consumer of internal/kafka reads it.
pub mod History
pub mod Again
pub mod Refused
pub mod Backstop
use nexus_dispatch.Prelude.{
  ℕ, ◌+◌, Bool, true, false, Option, none, some, List, [], ◌∷◌, String, ◌==◌, ◌<>◌, ltb,
  if◌then◌else◌,
}
use nexus_dispatch.Prelude.Int.{ℤ}
use nexus_dispatch.Redis.{Float, update}
use nexus_dispatch.Outcome.{Error, Link, Outcome, ok, err, panic}
use nexus_dispatch.Postgres.{PointRow, Tables}
use nexus_dispatch.Postgres.Repo.{
  insert_dispatch, update_ride_state, insert_ride_event, update_driver_state, insert_driver_history,
}

-- The events of internal/events that are persisted, with the fields that the handlers read.
pub record DispatchCreated : Type 0 where
  pub dispatch_id : String
  pub ride_id : String
  pub driver_id : String
  pub distance_m : Float
  pub score : Float

pub record RideStatus : Type 0 where
  pub event_id : String
  pub ride_id : String
  pub state : String
  pub driver_id : String
  pub reason : String

pub record DriverStatus : Type 0 where
  pub driver_id : String
  pub state : String

pub record LocationUpdate : Type 0 where
  pub driver_id : String
  pub latitude : Float
  pub longitude : Float
  pub sequence : ℤ

-- The decoders of internal/events.
pub record Decoder : Type 0 where
  pub dispatch_created : String → Option DispatchCreated
  pub ride_status : String → Option RideStatus
  pub driver_status : String → Option DriverStatus
  pub location_update : String → Option LocationUpdate

-- `Processor`, with the tables behind it.
pub record Processor : Type 0 where
  pub db : Tables
  pub last_history_ts : String → Option ℕ

-- The error of a result; the methods of the pool do not panic.
abbrev pub error_of {ℓ} : {A : Type ℓ} → Outcome A → Option Error
error_of (ok a) = none
error_of (err e) = some e
error_of panic = none

abbrev pub event_id_of : RideStatus → String
event_id_of ev = if ev.event_id == "" then "rs-" <> ev.ride_id <> "-" <> ev.state else ev.event_id

-- Whether a point comes too early behind the last one.
abbrev pub too_early : Option ℕ → ℕ → Bool
too_early none now = false
too_early (some last) now = ltb now (last + 5000)

module _ (is_uuid : String → Bool) (D : Decoder) where
  -- `handleDispatchCreated`
  unfoldable pub handle_dispatch_created : Link → String → Processor → Processor × Option Error
  handle_dispatch_created l msg p = elim (D.dispatch_created msg) [
    | none ↦ (p, none)
    | some ev ↦
        let (db', res) =
          insert_dispatch is_uuid l ev.dispatch_id ev.ride_id ev.driver_id ev.distance_m ev.score
            p.db in
        (record p { db = db' }, error_of res)
  ]

  -- `handleRideStatus` on an event, with the links of its two statements
  unfoldable pub persist_ride_status :
      Link → Link → ℕ → RideStatus → Processor → Processor × Option Error
  persist_ride_status l k now ev p =
      let (db', res) =
        update_ride_state is_uuid l ev.ride_id ev.state ev.driver_id ev.reason now p.db in
      let (db'', res') =
        insert_ride_event is_uuid k ev.ride_id ev.state ev.driver_id ev.reason (event_id_of ev)
          db' in
      elim (error_of res) [
        | some e ↦ (record p { db = db' }, some e)
        | none ↦ (record p { db = db'' }, error_of res')
      ]

  -- `handleRideStatus`
  unfoldable pub handle_ride_status :
      Link → Link → ℕ → String → Processor → Processor × Option Error
  handle_ride_status l k now msg p = elim (D.ride_status msg) [
    | none ↦ (p, none)
    | some ev ↦ persist_ride_status l k now ev p
  ]

  -- `handleDriverStatus`
  unfoldable pub handle_driver_status : Link → String → Processor → Processor × Option Error
  handle_driver_status l msg p = elim (D.driver_status msg) [
    | none ↦ (p, none)
    | some ev ↦
        let (db', res) = update_driver_state is_uuid l ev.driver_id ev.state p.db in
        (record p { db = db' }, error_of res)
  ]

  -- `handleDriverLocation` on an event
  unfoldable pub persist_location : Link → ℕ → LocationUpdate → Processor → Processor × Option Error
  persist_location l now ev p =
      let x : PointRow = record {
        driver_id = ev.driver_id;
        ts = now;
        lat = ev.latitude;
        lng = ev.longitude;
        seq = ev.sequence;
      } in
      let (db', res) = insert_driver_history is_uuid l x p.db in
      if too_early (p.last_history_ts ev.driver_id) now then (p, none) else (
        record { db = db'; last_history_ts = update ev.driver_id (some now) p.last_history_ts },
        error_of res,
      )

  -- `handleDriverLocation`
  unfoldable pub handle_driver_location : Link → ℕ → String → Processor → Processor × Option Error
  handle_driver_location l now msg p = elim (D.location_update msg) [
    | none ↦ (p, none)
    | some ev ↦ persist_location l now ev p
  ]
