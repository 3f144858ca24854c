-- ===== src/Dispatch/Booking.antt =====
-- A dispatch up to the tables: `DispatchForRide` of internal/dispatch/engine.go, and behind it
-- `handleDispatchCreated` of cmd/event-processor/main.go.
use nexus_dispatch.Prelude.{
  ℕ, suc, ◌+◌, ◌*◌, ◌≡◌, refl, Bool, true, false, none, some, List, [], ◌∷◌, All, String, arith,
}
use nexus_dispatch.Redis.{Redis, IsRedis, micro}
use nexus_dispatch.Outcome.{Outcome, ok, up, call, script_failed}
use nexus_dispatch.Geospatial.{Geodesy}
use nexus_dispatch.Hot.LeaseValue.{lease_string}
use nexus_dispatch.Hot.Slot.{Slot}
use nexus_dispatch.Hot.Slot.Held.{Held}
use nexus_dispatch.Hot.Store.Search.{DriverPos, search_nearby}
use nexus_dispatch.Reservation.{Manager}
use nexus_dispatch.Dispatch.{
  Config, Candidate, RideRequested, Result, Surroundings, Message, dispatch_created, Attempts, won,
  lost, crashed, ranked, try_candidates, conclude, assign, dispatch_for_ride, Stamp, new_id,
  search_radius, request_age, publish_dispatch_created,
}
use nexus_dispatch.Dispatch.Choice.{Ready, choose, Chose, try_candidates-choose}
use nexus_dispatch.Postgres.Statements.{insert_dispatch_row}
use nexus_dispatch.Postgres.Repo.{insert_dispatch}
use nexus_dispatch.Processor.{DispatchCreated, Decoder, Processor, handle_dispatch_created}
use nexus_dispatch.Processor.Backstop.{dispatch_consumer}
use nexus_dispatch.Kafka.{dead_letter, exhausted, process}
use nexus_dispatch.Kafka
use nexus_dispatch.Kafka.Retries.{process-stuck}

-- The event of a candidate, as the processor reads it.
abbrev pub event_of : String → String → Candidate → DispatchCreated
event_of id ride c = record {
  dispatch_id = id;
  ride_id = ride;
  driver_id = c.driver_id;
  distance_m = micro c.distance;
  score = micro c.score;
}

module _ (is_uuid : String → Bool) (D : Decoder) where
  refused :
      (msg : String) (ev : DispatchCreated) (p : Processor)
      → D.dispatch_created msg ≡ some ev
      → is_uuid ev.dispatch_id ≡ false
      → handle_dispatch_created is_uuid D up msg p ≡ (p, some script_failed)
  unfolding handle_dispatch_created insert_dispatch insert_dispatch_row call
  refused msg ev p e f = rw (handle_dispatch_created, e) (ground (arith, f))

  module _ (R : Redis) (world : Surroundings) (wrap : Message → Kafka.Message) where
    -- The first message that is sent, as it is read from the topic, leaves the tables and is given up.
    abbrev pub IsGivenUp : Processor → List Message → Type 0
    IsGivenUp p [] = ⊥
    IsGivenUp p (x ∷ xs) =
        process (dispatch_consumer is_uuid D true) (λ i. false) (wrap x) p
        ≡ (p, exhausted script_failed, dead_letter (wrap x).key (wrap x).value ∷ [])

    -- The dispatch reserved the candidate for a whole term, and what it sent is given up.
    abbrev pub LeasedOnly : ℕ → Candidate → Processor → (Manager × R.Db) × Outcome Result → Type 0
    LeasedOnly ttl c p ((m, db'), ok r) =
        (r.success ≡ true)
        × ((lease : String) × Held R c.driver_id lease (R.now db' + ttl * 1000) db')
        × IsGivenUp p r.sent
    LeasedOnly ttl c p _ = ⊥

    conclude-LeasedOnly :
        (ev : RideRequested) (id : String) (cells total ttl : ℕ) (db : R.Db) (c : Candidate)
        (p : Processor) (done : (Manager × R.Db) × Attempts)
        → world.producer ≡ true
        → IsGivenUp p (publish_dispatch_created true ev c id)
        → Chose R ev.ride_id ttl db (some c) done
        → LeasedOnly ttl c p (done.0, conclude R world ev id cells total done.1)
    unfolding conclude
    conclude-LeasedOnly ev id cells total ttl db c p ((m, db'), won c' r) w s (e, f, g, h) =
        (refl, (lease_string r.lease, rw f at h), rw (w, e) s)
    conclude-LeasedOnly ev id cells total ttl db c p ((m, db'), lost x) w s e = elim e [ ]
    conclude-LeasedOnly ev id cells total ttl db c p ((m, db'), crashed) w s e = elim e [ ]

    -- From the engine to the tables: if the search finds drivers, Redis answers for each candidate
    -- that the ranking leaves, and their slots call for one of them, then the dispatch leases it for
    -- a whole term; but if the id that newID draws for it is no uuid, the event that it sends with
    -- its producer is never stored, though the processor reads it as what was sent and Postgres
    -- answers: each attempt fails, the tables stay and the message goes to the dead letters.
    pub dispatch_for_ride-unstored :
        (G : Geodesy) (cfg : Config) (L : IsRedis R) (slots : String → Slot) (now : ℕ)
        (ev : RideRequested) (id : Stamp) (d : DriverPos) (ds : List DriverPos) (cells t : ℕ)
        (m : Manager) (db : R.Db) (c : Candidate) (p : Processor)
        → let order = ranked cfg world.sort (d ∷ ds) (request_age R world G cfg now ev) in
          let drawn = new_id "disp" id in
          m.ttl ≡ suc t
          → search_nearby R G world.search ev.pickup_lat ev.pickup_lng
              (search_radius R world G cfg ev)
              db
            ≡ ok (d ∷ ds, cells)
          → All (Ready R world slots ev.ride_id db) order
          → choose slots order ≡ some c
          → world.producer ≡ true
          → D.dispatch_created
              (wrap
                (dispatch_created ev.ride_id drawn ev.ride_id c.driver_id c.distance c.score)).value
            ≡ some (event_of drawn ev.ride_id c)
          → is_uuid drawn ≡ false
          → LeasedOnly m.ttl c p (dispatch_for_ride R world G cfg now ev id m db)
    unfolding dispatch_for_ride assign publish_dispatch_created dispatch_consumer
    dispatch_for_ride-unstored G cfg L slots now ev id d ds cells t m db c p e f h k w r u =
        let order = ranked cfg world.sort (d ∷ ds) (request_age R world G cfg now ev) in
        let drawn = new_id "disp" id in
        let msg =
          wrap (dispatch_created ev.ride_id drawn ev.ride_id c.driver_id c.distance c.score) in
        rw f (
          conclude-LeasedOnly ev drawn cells _ m.ttl db c p
            (try_candidates R world ev.ride_id order none m db) w
            (process-stuck (dispatch_consumer is_uuid D true) msg p script_failed
              (refused msg.value (event_of drawn ev.ride_id c) p r u) (λ i. false) (λ i. refl))
            (rw k at (try_candidates-choose R L world ev.ride_id slots order none m t db e h)))
