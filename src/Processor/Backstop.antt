-- ===== src/Processor/Backstop.antt =====
-- The one dispatch of a driver that is ever stored: cmd/event-processor/main.go inserts dispatches and
-- has no statement that ends one, over `uq_active_dispatch` of migrations/001_init.sql.
use nexus_dispatch.Prelude.{
  ℕ, ◌≡◌, refl, sym, subst, Bool, true, false, ◌&&◌, some, List, inl, inr, Option-cases, [], ◌∷◌,
  String, ◌==◌, arith,
}
use nexus_dispatch.Redis.{Float}
use nexus_dispatch.Outcome.{Error, Link, up, call, call-cases, script_failed}
use nexus_dispatch.Postgres.{DispatchRow, PointRow, Tables, any, active_for}
use nexus_dispatch.Postgres.Statements.{insert_dispatch_row}
use nexus_dispatch.Postgres.Repo.{insert_dispatch, update_ride_state, insert_ride_event}
use nexus_dispatch.Postgres.Writes.{
  Write, set_ride, new_event, set_driver, new_point, on_dispatches, perform, perform-dispatches,
}
use nexus_dispatch.Processor.{
  event_id_of, DispatchCreated, RideStatus, LocationUpdate, Decoder, Processor,
  handle_dispatch_created, persist_ride_status, handle_ride_status, handle_driver_status,
  persist_location, handle_driver_location,
}
use nexus_dispatch.Kafka.{Message, dead_letter, Consumer, exhausted, process}
use nexus_dispatch.Kafka.Retries.{process-stuck}

-- The rows of a ride and a driver.
abbrev pub is_for : String → String → DispatchRow → Bool
is_for ride driver x = x.ride_id == ride && x.driver_id == driver

-- The driver has an active dispatch, and none for the ride.
abbrev pub IsTaken : String → String → List DispatchRow → Type 0
IsTaken ride driver rows =
    (any (active_for driver) rows ≡ true) × (any (is_for ride driver) rows ≡ false)

-- A message that one of the four handlers is given, with what becomes of its statements.
pub data Handling : Type 0 where
  dispatch_message : Link → String → Handling
  ride_message : Link → Link → ℕ → String → Handling
  driver_message : Link → String → Handling
  location_message : Link → ℕ → String → Handling

module _ (is_uuid : String → Bool) (D : Decoder) where
  unfoldable pub handle : Handling → Processor → Processor
  handle (dispatch_message l msg) p = (handle_dispatch_created is_uuid D l msg p).0
  handle (ride_message l k now msg) p = (handle_ride_status is_uuid D l k now msg p).0
  handle (driver_message l msg) p = (handle_driver_status is_uuid D l msg p).0
  handle (location_message l now msg) p = (handle_driver_location is_uuid D l now msg p).0

  unfoldable pub handle_all : List Handling → Processor → Processor
  handle_all [] p = p
  handle_all (h ∷ hs) p = handle_all hs (handle h p)

  -- The consumer of `TopicDispatchCreated` that main starts
  unfoldable pub dispatch_consumer : Bool → Consumer Processor Error
  dispatch_consumer dlq = record {
    handler = λ m p. handle_dispatch_created is_uuid D up m.value p;
    has_dlq = dlq;
    max_retries = 3;
  }

  module _ (ride driver : String) where
    insert_dispatch_row-IsTaken :
        (id r d : String) (distance score : Float) (db : Tables)
        → IsTaken ride driver db.dispatches
        → IsTaken ride driver (insert_dispatch_row is_uuid id r d distance score db).0.dispatches
    unfolding insert_dispatch_row
    insert_dispatch_row-IsTaken id r d distance score db (a, b) =
        (ground (arith, a, b), ground (arith, a, b))

    perform-IsTaken :
        (w : Write) (db : Tables)
        → on_dispatches w ≡ false
        → IsTaken ride driver db.dispatches
        → IsTaken ride driver (perform is_uuid w db).dispatches
    perform-IsTaken w db e h =
        subst (IsTaken ride driver) (sym (perform-dispatches is_uuid w db e)) h

    insert_dispatch-IsTaken :
        (l : Link) (id r d : String) (distance score : Float) (db : Tables)
        → IsTaken ride driver db.dispatches
        → IsTaken ride driver (insert_dispatch is_uuid l id r d distance score db).0.dispatches
    unfolding insert_dispatch
    insert_dispatch-IsTaken l id r d distance score db h =
        call-cases (λ (t : Tables). IsTaken ride driver t.dispatches) l
          (insert_dispatch_row is_uuid id r d distance score) db h
          (insert_dispatch_row-IsTaken id r d distance score db h)

    update_ride_state-dispatches :
        (l : Link) (now : ℕ) (ev : RideStatus) (db : Tables)
        → (update_ride_state is_uuid l ev.ride_id ev.state ev.driver_id ev.reason now
            db).0.dispatches
          ≡ db.dispatches
    unfolding perform
    update_ride_state-dispatches l now ev db =
        perform-dispatches is_uuid (set_ride l ev.ride_id ev.state ev.driver_id ev.reason now) db
          refl

    insert_ride_event-dispatches :
        (k : Link) (event : String) (ev : RideStatus) (db : Tables)
        → (insert_ride_event is_uuid k ev.ride_id ev.state ev.driver_id ev.reason event
            db).0.dispatches
          ≡ db.dispatches
    unfolding perform
    insert_ride_event-dispatches k event ev db =
        perform-dispatches is_uuid (new_event k ev.ride_id ev.state ev.driver_id ev.reason event) db
          refl

    persist_ride_status-dispatches :
        (l k : Link) (now : ℕ) (ev : RideStatus) (p : Processor)
        → (persist_ride_status is_uuid D l k now ev p).0.db.dispatches ≡ p.db.dispatches
    unfolding persist_ride_status
    persist_ride_status-dispatches l k now ev p =
        let f = update_ride_state-dispatches l now ev p.db in
        let g =
          insert_ride_event-dispatches k (event_id_of ev) ev
            (update_ride_state is_uuid l ev.ride_id ev.state ev.driver_id ev.reason now p.db).0 in
        ground (arith, f, g)

    persist_location-dispatches :
        (l : Link) (now : ℕ) (ev : LocationUpdate) (p : Processor)
        → (persist_location is_uuid D l now ev p).0.db.dispatches ≡ p.db.dispatches
    unfolding persist_location perform
    persist_location-dispatches l now ev p =
        let x : PointRow = record {
          driver_id = ev.driver_id;
          ts = now;
          lat = ev.latitude;
          lng = ev.longitude;
          seq = ev.sequence;
        } in
        let f = perform-dispatches is_uuid (new_point l x) p.db refl in ground (arith, f)

    handle_driver_status-dispatches :
        (l : Link) (msg : String) (p : Processor)
        → (handle_driver_status is_uuid D l msg p).0.db.dispatches ≡ p.db.dispatches
    unfolding handle_driver_status perform
    handle_driver_status-dispatches l msg p = elim (Option-cases (D.driver_status msg)) [
      | inl n ↦ rw (handle_driver_status, n) refl
      | inr (ev, e) ↦
          rw (handle_driver_status, e)
            (perform-dispatches is_uuid (set_driver l ev.driver_id ev.state) p.db refl)
    ]

    handle-IsTaken :
        (h : Handling) (p : Processor)
        → IsTaken ride driver p.db.dispatches
        → IsTaken ride driver (handle h p).db.dispatches
    unfolding handle handle_dispatch_created handle_ride_status handle_driver_location
    handle-IsTaken (dispatch_message l msg) p t = elim (Option-cases (D.dispatch_created msg)) [
      | inl n ↦ rw (handle, handle_dispatch_created, n) t
      | inr (ev, e) ↦
          rw (handle, handle_dispatch_created, e)
            (insert_dispatch-IsTaken l ev.dispatch_id ev.ride_id ev.driver_id ev.distance_m ev.score
              p.db t)
    ]
    handle-IsTaken (ride_message l k now msg) p t = elim (Option-cases (D.ride_status msg)) [
      | inl n ↦ rw (handle, handle_ride_status, n) t
      | inr (ev, e) ↦
          rw (handle, handle_ride_status, e, persist_ride_status-dispatches l k now ev p) t
    ]
    handle-IsTaken (driver_message l msg) p t =
        rw (handle, handle_driver_status-dispatches l msg p) t
    handle-IsTaken (location_message l now msg) p t = elim (Option-cases (D.location_update msg)) [
      | inl n ↦ rw (handle, handle_driver_location, n) t
      | inr (ev, e) ↦
          rw (handle, handle_driver_location, e, persist_location-dispatches l now ev p) t
    ]

    handle_all-IsTaken :
        (hs : List Handling) (p : Processor)
        → IsTaken ride driver p.db.dispatches
        → IsTaken ride driver (handle_all hs p).db.dispatches
    unfolding handle_all
    handle_all-IsTaken [] p t = t
    handle_all-IsTaken (h ∷ hs) p t = handle_all-IsTaken hs (handle h p) (handle-IsTaken h p t)

  refused :
      (msg : String) (ev : DispatchCreated) (p : Processor)
      → D.dispatch_created msg ≡ some ev
      → IsTaken ev.ride_id ev.driver_id p.db.dispatches
      → handle_dispatch_created is_uuid D up msg p ≡ (p, some script_failed)
  unfolding handle_dispatch_created insert_dispatch insert_dispatch_row call
  refused msg ev p e (a, b) = rw (handle_dispatch_created, e) (ground (arith, a, b))

  -- Once a driver has an active dispatch in the tables, then whatever messages the event processor
  -- has handled since, over any links, the dispatch of that driver to a ride that had none with it
  -- is never stored, even if Postgres answers: each attempt fails, the tables stay and the message
  -- goes to the dead letters.
  pub handle_all-refuses :
      (hs : List Handling) (msg : Message) (ev : DispatchCreated) (p : Processor)
      → D.dispatch_created msg.value ≡ some ev
      → any (active_for ev.driver_id) p.db.dispatches ≡ true
      → any (is_for ev.ride_id ev.driver_id) p.db.dispatches ≡ false
      → process (dispatch_consumer true) (λ i. false) msg (handle_all hs p)
        ≡ (handle_all hs p, exhausted script_failed, dead_letter msg.key msg.value ∷ [])
  unfolding dispatch_consumer
  handle_all-refuses hs msg ev p e a b =
      process-stuck (dispatch_consumer true) msg (handle_all hs p) script_failed
        (refused msg.value ev (handle_all hs p) e
          (handle_all-IsTaken ev.ride_id ev.driver_id hs p (a, b)))
        (λ i. false) (λ i. refl)
