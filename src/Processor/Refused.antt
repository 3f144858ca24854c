-- ===== src/Processor/Refused.antt =====
-- A ride status that Postgres never takes (`handleRideStatus` of cmd/event-processor/main.go, over
-- `UpdateRideState` of internal/postgres/repo.go).
use nexus_dispatch.Prelude.{ℕ, ◌≡◌, refl, Bool, true, false, none, some, [], ◌∷◌, String, arith}
use nexus_dispatch.Outcome.{Error, Link, up, call, err, script_failed}
use nexus_dispatch.Postgres.{Tables}
use nexus_dispatch.Postgres.Statements.{update_ride_row}
use nexus_dispatch.Postgres.Repo.{update_ride_state}
use nexus_dispatch.Processor.{
  RideStatus, Decoder, Processor, persist_ride_status, handle_ride_status,
}
use nexus_dispatch.Kafka.{Message, dead_letter, Consumer, exhausted, process}
use nexus_dispatch.Kafka.Retries.{process-stuck}

module _ (is_uuid : String → Bool) (D : Decoder) where
  row-refused :
      (id state reason : String) (now : ℕ) (db : Tables)
      → is_uuid "" ≡ false
      → update_ride_row is_uuid id state "" reason now db ≡ (db, none)
  unfolding update_ride_row
  row-refused id state reason now db e = ground arith

  state-refused :
      (id state driver reason : String) (now : ℕ) (db : Tables)
      → is_uuid "" ≡ false
      → driver ≡ ""
      → update_ride_state is_uuid up id state driver reason now db ≡ (db, err script_failed)
  unfolding update_ride_state call
  state-refused id state driver reason now db e f =
      ground (arith, row-refused id state reason now db e)

  -- The text "" is no driver's id, and the statement fails.
  persist-refused :
      (k : Link) (now : ℕ) (ev : RideStatus) (p : Processor)
      → is_uuid "" ≡ false
      → ev.driver_id ≡ ""
      → persist_ride_status is_uuid D up k now ev p ≡ (p, some script_failed)
  unfolding persist_ride_status
  persist-refused k now ev p e f =
      ground (arith, state-refused ev.ride_id ev.state ev.driver_id ev.reason now p.db e f)

  handle-refused :
      (k : Link) (now : ℕ) (msg : String) (ev : RideStatus) (p : Processor)
      → is_uuid "" ≡ false
      → D.ride_status msg ≡ some ev
      → ev.driver_id ≡ ""
      → handle_ride_status is_uuid D up k now msg p ≡ (p, some script_failed)
  unfolding handle_ride_status
  handle-refused k now msg ev p e d f = rw (handle_ride_status, d) (persist-refused k now ev p e f)

  -- The consumer of `TopicRideStatus` that main starts, with the time of its attempts
  unfoldable pub ride_status_consumer : ℕ → Bool → Consumer Processor Error
  ride_status_consumer now dlq = record {
    handler = λ m p. handle_ride_status is_uuid D up up now m.value p;
    has_dlq = dlq;
    max_retries = 3;
  }

  -- Where the empty text is no uuid, a ride status without a driver fails at every attempt even if
  -- Postgres answers each statement: the consumer leaves the tables as they were and sends the
  -- message to the dead letters.
  pub handle_ride_status-dead :
      (now : ℕ) (msg : Message) (ev : RideStatus) (p : Processor)
      → is_uuid "" ≡ false
      → D.ride_status msg.value ≡ some ev
      → ev.driver_id ≡ ""
      → process (ride_status_consumer now true) (λ i. false) msg p
        ≡ (p, exhausted script_failed, dead_letter msg.key msg.value ∷ [])
  unfolding ride_status_consumer
  handle_ride_status-dead now msg ev p e d f =
      process-stuck (ride_status_consumer now true) msg p script_failed
        (handle-refused up now msg.value ev p e d f) (λ i. false) (λ i. refl)
