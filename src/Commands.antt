-- ===== src/Commands.antt =====
-- The main functions of cmd: what a service opens, registers, serves and closes, in order. Whether Redis
-- answers, what package pgx does, and which addresses can be listened on are parameters. Logs are left
-- out, and so is what a consumer does behind its start.
pub mod Counts
pub mod Closes
use nexus_dispatch.Prelude.{
  ℕ, Bool, true, false, List, [], ◌∷◌, ◌++◌, map, Option, none, some, String, if◌then◌else◌,
}
use nexus_dispatch.Config.{Environment, Config, load}
use nexus_dispatch.Connect.{
  producer, dlq, Touch, Clients, no_clients, close, redis, postgres, kafka_producer,
}
use nexus_dispatch.Postgres.Pool.{Pgx}
use nexus_dispatch.Metrics.{Family, Registry, new_registry, new_common, new_dispatch, new_location}
use nexus_dispatch.Bootstrap.{Deps, Action, on_shutdown, Result, run}
use nexus_dispatch.Kafka.Producer.{
  topic_ride_requested, topic_dispatch_created, topic_ride_status, topic_driver_status,
  topic_driver_location,
}

pub data Step : Type 0 where
  touches : Touch → Step
  does : Action → Step
  -- a consumer of a topic in a group is started
  consumes : String → String → Step

-- How a main function ends: by a panic, where something that it needs is not there, as `server.Run`
-- ends, or not at all.
pub data End : Type 0 where
  panicked no_redis no_postgres no_consumer : End
  ran : Result → End
  waits : End

pub record Site : Type 0 where
  pub env : Environment
  pub pings_redis : Bool
  pub pgx : Pgx
  pub decimal : ℕ → String
  pub can_listen : List String → String → Bool
  pub collectors : List Family
  pub def_buckets : List ℕ

abbrev pub after : List Step → List Step × End → List Step × End
after steps p = (steps ++ p.0, p.1)

abbrev pub touching : List Touch → List Step
touching = map touches

-- The steps of `server.Run`, with `clients.Close` as its OnShutdown.
unfoldable pub steps_of : Clients → List Action → List Step
steps_of c [] = []
steps_of c (on_shutdown ∷ acts) = touching (close c) ++ steps_of c acts
steps_of c (a ∷ acts) = does a ∷ steps_of c acts

abbrev pub deps_of : Config → Deps
deps_of cfg = record {
  config = cfg;
  tracer = false;
  register_grpc = true;
  extra_http = false;
  on_shutdown = true;
}

pub data Service : Type 0 where
  driver_service ride_service location_service dispatch_engine : Service

module _ (site : Site) where
  -- `server.Run` at the end of a main function
  unfoldable pub serve : Config → Clients → List Step × End
  serve cfg c =
      let (actions, res) = run site.can_listen (deps_of cfg) in (steps_of c actions, ran res)

  abbrev registry : Registry
  registry = new_registry site.collectors

  -- What follows the registration of metrics, and a Redis that is required.
  abbrev pub registered : Option Registry → List Step × End → List Step × End
  registered none rest = ([], panicked)
  registered (some reg) rest = rest

  abbrev pub with_redis : List Step × End → List Step × End
  with_redis rest =
      let (ts, there) = redis site.pings_redis in
      after (touching ts) (if there then rest else ([], no_redis))

  -- The clients of the driver and the ride service.
  unfoldable pub serve_durable : Config → List Step × End
  serve_durable cfg =
      let (ts, has_db) = postgres site.decimal site.pgx cfg in
      let (us, has_producer) = kafka_producer producer cfg in
      after (touching (ts ++ us)) (
        serve cfg (record {
          has_redis = true;
          has_postgres = has_db;
          has_producer = has_producer;
          has_dlq = false;
        }))

  -- cmd/driver-service
  unfoldable pub main_driver : List Step × End
  main_driver =
      let cfg = load site.env "driver-service" in
      registered (new_common site.def_buckets registry) (with_redis (serve_durable cfg))

  -- cmd/ride-service
  unfoldable pub main_ride : List Step × End
  main_ride =
      let cfg = load site.env "ride-service" in
      registered (new_common site.def_buckets registry) (with_redis (serve_durable cfg))

  -- cmd/location-service
  unfoldable pub main_location : List Step × End
  main_location =
      let cfg = load site.env "location-service" in
      let (us, has_producer) = kafka_producer producer cfg in
      registered (new_location registry) (
        with_redis (
          after (touching us)
            (serve cfg (record no_clients { has_redis = true; has_producer = has_producer }))))

  -- `main` of the engine behind the connections: the consumer is started only with a producer.
  unfoldable pub serve_engine : Config → Bool → Bool → List Step × End
  serve_engine cfg has_producer has_dlq =
      let c : Clients = record no_clients {
        has_redis = true;
        has_producer = has_producer;
        has_dlq = has_dlq;
      } in
      if has_producer
      then elim cfg.kafka_brokers [
        | [] ↦ ([], no_consumer)
        | b ∷ bs ↦ after (consumes topic_ride_requested "dispatch" ∷ []) (serve cfg c)
      ]
      else serve cfg c

  -- cmd/dispatch-engine
  unfoldable pub main_dispatch : List Step × End
  main_dispatch =
      let cfg = load site.env "dispatch-engine" in
      let (us, has_producer) = kafka_producer producer cfg in
      let (vs, has_dlq) = kafka_producer dlq cfg in
      elim (new_common site.def_buckets registry) [
        | none ↦ ([], panicked)
        | some reg ↦
            registered (new_dispatch reg)
              (with_redis (after (touching (us ++ vs)) (serve_engine cfg has_producer has_dlq)))
      ]

  -- The loop over the topics of the event processor: it ends at the first consumer that is refused.
  unfoldable pub consume_all : List String → List String → List Step × End
  consume_all brokers [] = ([], waits)
  consume_all [] (t ∷ ts) = ([], no_consumer)
  consume_all (b ∷ bs) (t ∷ ts) = after (consumes t "persist" ∷ []) (consume_all (b ∷ bs) ts)

  -- cmd/event-processor, which never returns from its `select`
  unfoldable pub main_processor : List Step × End
  main_processor =
      let cfg = load site.env "event-processor" in
      let (ts, has_db) = postgres site.decimal site.pgx cfg in
      let (us, has_dlq) = kafka_producer dlq cfg in
      registered (new_common site.def_buckets registry) (
        after (touching ts) (
          if has_db
          then after (touching us) (
              consume_all cfg.kafka_brokers (
                topic_dispatch_created ∷ topic_ride_status ∷ topic_driver_status
                ∷ topic_driver_location ∷ []))
          else ([], no_postgres)))

  -- The commands that serve until they are stopped.
  unfoldable pub main : Service → List Step × End
  main driver_service = main_driver
  main ride_service = main_ride
  main location_service = main_location
  main dispatch_engine = main_dispatch
