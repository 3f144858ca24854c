-- ===== src/Processor/Again.antt =====
-- An event that is handled twice (`handleRideStatus` of
-- cmd/event-processor/main.go, over `UpdateRideState` and `InsertRideEvent` of internal/postgres/repo.go).
use mathlib.Core.Path.{fun_ext}
use nexus_dispatch.Prelude.{
  ℕ, ◌≡◌, ◌≢◌, refl, sym, ap, ◌∙◌, Bool, true, ◌&&◌, Option, none, some, String, ==-refl, arith,
}
use nexus_dispatch.Redis.{update}
use nexus_dispatch.Outcome.{up, call}
use nexus_dispatch.Postgres.{RideRow, Tables, one_of, is_some, moved_ride, ride_states}
use nexus_dispatch.Postgres.Statements.{update_ride_row, insert_ride_event_row}
use nexus_dispatch.Postgres.Repo.{update_ride_state, insert_ride_event}
use nexus_dispatch.Processor.{RideStatus, Decoder, Processor, event_id_of, persist_ride_status}

-- A row with the time of its last update, and the table with such a row under an id.
abbrev stamped : ℕ → Option RideRow → Option RideRow
stamped t none = none
stamped t (some row) = some (record row { updated_at = some t })

abbrev pub touched : ℕ → String → (String → Option RideRow) → String → Option RideRow
touched t id rides = update id (stamped t (rides id)) rides

module _ (is_uuid : String → Bool) (D : Decoder) where
  moved_ride-again :
      (state driver reason : String) (now later : ℕ) (row : RideRow)
      → state ≢ "COMPLETED"
      → moved_ride state driver reason later (moved_ride state driver reason now row)
        ≡ record (moved_ride state driver reason now row) { updated_at = some later }
  unfolding moved_ride
  moved_ride-again state driver reason now later row n = ground arith

  insert_ride_event_row-again :
      (ride state driver reason event : String) (db db' db2 : Tables) (n : ℕ)
      → insert_ride_event_row is_uuid ride state driver reason event db ≡ (db', some n)
      → db2.ride_events ≡ db'.ride_events
      → insert_ride_event_row is_uuid ride state driver reason event db2 ≡ (db2, some 0)
  unfolding insert_ride_event_row
  insert_ride_event_row-again ride state driver reason event db db' db2 n e f = ground arith

  insert_ride_event_row-rides :
      (ride state driver reason event : String) (db : Tables)
      → ((insert_ride_event_row is_uuid ride state driver reason event db).0.rides ≡ db.rides)
        × ((insert_ride_event_row is_uuid ride state driver reason event db).0.drivers ≡ db.drivers)
  unfolding insert_ride_event_row
  insert_ride_event_row-rides ride state driver reason event db = (ground arith, ground arith)

  touched-none :
      (t : ℕ) (id : String) (rides : String → Option RideRow)
      → rides id ≡ none
      → touched t id rides ≡ rides
  touched-none t id rides e = fun_ext (λ j. ground arith)

  same_table :
      (db : Tables) (rides : String → Option RideRow)
      → rides ≡ db.rides
      → record db { rides = rides } ≡ db
  same_table db rides e = rw e refl

  own :
      (id : String) (o : Option RideRow) (rides : String → Option RideRow)
      → update id o rides id ≡ o
  own id o rides = rw (==-refl id) refl

  abbrev Guards : String → String → String → Tables → Type 0
  Guards id state driver db =
      (is_uuid id && is_uuid driver ≡ true)
      × (one_of state ride_states && is_some (db.drivers driver) ≡ true)

  row-Guards :
      (id state driver reason : String) (now n : ℕ) (db db' : Tables) (row : RideRow)
      → update_ride_row is_uuid id state driver reason now db ≡ (db', some n)
      → db.rides id ≡ some row
      → Guards id state driver db
  unfolding update_ride_row
  row-Guards id state driver reason now n db db' row e q = (ground arith, ground arith)

  row_written :
      (id state driver reason : String) (now : ℕ) (db : Tables) (row : RideRow)
      → Guards id state driver db
      → db.rides id ≡ some row
      → update_ride_row is_uuid id state driver reason now db ≡ (
        record db { rides = update id (some (moved_ride state driver reason now row)) db.rides },
        some 1,
      )
  unfolding update_ride_row
  row_written id state driver reason now db row (g, h) q = rw (update_ride_row, g, q, h) refl

  -- What the statement left is what it leaves the next time, but for the time of the update.
  update_ride_row-again :
      (id state driver reason : String) (now later n : ℕ) (db db' db2 : Tables)
      → update_ride_row is_uuid id state driver reason now db ≡ (db', some n)
      → state ≢ "COMPLETED"
      → db2.rides ≡ db'.rides
      → db2.drivers ≡ db'.drivers
      → update_ride_row is_uuid id state driver reason later db2
        ≡ (record db2 { rides = touched later id db2.rides }, some n)
  unfolding update_ride_row
  update_ride_row-again id state driver reason now later n db db' db2 e c r d =
      at (db.rides id) refl
    where
      at :
          (o : Option RideRow)
          → db.rides id ≡ o
          → update_ride_row is_uuid id state driver reason later db2
            ≡ (record db2 { rides = touched later id db2.rides }, some n)
      at none q =
          let same : update_ride_row is_uuid id state driver reason later db2 ≡ (db2, some n) =
            ground arith in
          let there : db2.rides id ≡ none = ground arith in
          same
          ∙ ap (λ (f : String → Option RideRow). (record db2 { rides = f }, some n))
              (sym (touched-none later id db2.rides there))
      at (some row) q =
          let g = row-Guards id state driver reason now n db db' row e q in
          let done = row_written id state driver reason now db row g q in
          let m : RideRow = moved_ride state driver reason now row in
          let there : db2.rides id ≡ some m =
            ap (λ f. f id) (r ∙ sym (ap (λ (x : Tables × Option ℕ). x.0.rides) (sym done ∙ e)))
            ∙ own id (some m) db.rides in
          let drivers : db2.drivers ≡ db.drivers =
            d ∙ sym (ap (λ (x : Tables × Option ℕ). x.0.drivers) (sym done ∙ e)) in
          row_written id state driver reason later db2 m (g.0, rw drivers g.1) there
          ∙ ap (λ (f : String → Option RideRow). (record db2 { rides = f }, some 1))
              (ap (λ x. update id (some x) db2.rides)
                  (moved_ride-again state driver reason now later row c)
                ∙ ap (λ o. update id (stamped later o) db2.rides) (sym there))
          ∙ ap (λ (o : Option ℕ). (record db2 { rides = touched later id db2.rides }, o))
              (ap (λ (x : Tables × Option ℕ). x.1) (sym done ∙ e))

  persisted :
      (now : ℕ) (ev : RideStatus) (p p' : Processor)
      → persist_ride_status is_uuid D up up now ev p ≡ (p', none)
      → (db' : Tables) × (n : ℕ) × (m : ℕ) × (update_ride_row is_uuid ev.ride_id ev.state
            ev.driver_id ev.reason now p.db
          ≡ (db', some n))
        × (insert_ride_event_row is_uuid ev.ride_id ev.state ev.driver_id ev.reason
              (event_id_of ev)
              db'
            ≡ (p'.db, some m))
  unfolding persist_ride_status update_ride_state insert_ride_event call
  persisted now ev p p' h =
      by_results (update_ride_row is_uuid ev.ride_id ev.state ev.driver_id ev.reason now p.db) refl
    where
      Steps : Type 0
      Steps =
          (db' : Tables) × (n : ℕ) × (m : ℕ) × (update_ride_row is_uuid ev.ride_id ev.state
              ev.driver_id ev.reason now p.db
            ≡ (db', some n))
          × (insert_ride_event_row is_uuid ev.ride_id ev.state ev.driver_id ev.reason
                (event_id_of ev) db'
              ≡ (p'.db, some m))

      by_second :
          (db' : Tables) (n : ℕ)
          → update_ride_row is_uuid ev.ride_id ev.state ev.driver_id ev.reason now p.db
            ≡ (db', some n)
          → (r : Tables × Option ℕ)
          → insert_ride_event_row is_uuid ev.ride_id ev.state ev.driver_id ev.reason
              (event_id_of ev)
              db'
            ≡ r
          → Steps
      by_second db' n e (db'', none) f = ground arith
      by_second db' n e (db'', some m) f = (db', n, m, e, ground arith)

      by_results :
          (r : Tables × Option ℕ)
          → update_ride_row is_uuid ev.ride_id ev.state ev.driver_id ev.reason now p.db ≡ r
          → Steps
      by_results (db', none) e = ground arith
      by_results (db', some n) e = by_second db' n e _ refl

  -- A ride status that was persisted, other than COMPLETED, is persisted again with success at any
  -- later time and changes nothing but the time of the last update of its ride.
  pub persist_ride_status-again :
      (now later : ℕ) (ev : RideStatus) (p p' : Processor)
      → persist_ride_status is_uuid D up up now ev p ≡ (p', none)
      → ev.state ≢ "COMPLETED"
      → persist_ride_status is_uuid D up up later ev p'
        ≡ (record p' { db = record p'.db { rides = touched later ev.ride_id p'.db.rides } }, none)
  unfolding persist_ride_status update_ride_state insert_ride_event call
  persist_ride_status-again now later ev p p' h n =
      let (db', k, m, u, i) = persisted now ev p p' h in
      let (r, d) =
        insert_ride_event_row-rides ev.ride_id ev.state ev.driver_id ev.reason (event_id_of ev)
          db' in
      let again =
        update_ride_row-again ev.ride_id ev.state ev.driver_id ev.reason now later k p.db db' p'.db
          u n (ap (λ (q : Tables × Option ℕ). q.0.rides) (sym i) ∙ r)
          (ap (λ (q : Tables × Option ℕ). q.0.drivers) (sym i) ∙ d) in
      let logged =
        insert_ride_event_row-again ev.ride_id ev.state ev.driver_id ev.reason (event_id_of ev) db'
          p'.db (record p'.db { rides = touched later ev.ride_id p'.db.rides }) m i refl in
      ground (arith, again, logged)
