-- ===== src/Commands/Closes.antt =====
-- That a service closes what it opened (the main functions of cmd, with internal/connect/connect.go and
-- internal/server/server.go).
use nexus_dispatch.Prelude.{
  ℕ, ◌+◌, ◌≡◌, refl, inl, inr, true, false, List, [], ◌∷◌, ◌++◌, Option, none, some, String, ◌==◌,
  arith, Bool-cases,
}
use nexus_dispatch.Config.{Config}
use nexus_dispatch.Connect.{
  Part, pool, redis_client, producer, dlq, Touch, no_clients, from_dsn, touched, opens, Clients,
  close, redis, postgres, kafka_producer,
}
use nexus_dispatch.Bootstrap.{stopped}
use nexus_dispatch.Postgres.Pool.{Opening, no_dsn, no_pool, no_ping, ready, new_pool}
use nexus_dispatch.Kafka.Producer.{new_producer, topic_ride_requested}
use nexus_dispatch.Metrics.{Registry, new_dispatch}
use nexus_dispatch.Commands.{
  Step, touches, consumes, End, ran, panicked, Site, touching, after, serve, serve_durable,
  serve_engine, registered, with_redis, Service, driver_service, ride_service, location_service,
  dispatch_engine, main, main_driver, main_ride, main_location, main_dispatch,
}
use nexus_dispatch.Commands.Counts.{
  opened, closed, opened-append, closed-append, serve-closes, held, close-counts, touching-append,
}

module _ (site : Site) (p : Part) where
  -- The steps leave this part open, if it is held, and close what else they open.
  abbrev Keeps : List Step → ℕ → Type 0
  Keeps s n = opened p s ≡ closed p s + n

  Keeps-append : (s t : List Step) (m n : ℕ) → Keeps s m → Keeps t n → Keeps (s ++ t) (m + n)
  Keeps-append s t m n h k = omega (arith, h, k, opened-append p s t, closed-append p s t)

  postgres-Keeps :
      (cfg : Config)
      → let (ts, there) = postgres site.decimal site.pgx cfg in
        Keeps (touching ts) (held there pool p)
  unfolding postgres
  postgres-Keeps cfg = elim (Bool-cases (cfg.postgres_dsn == "")) [
    | inl e ↦ rw e refl
    | inr e ↦ rw e (opening (new_pool site.decimal site.pgx (from_dsn cfg.postgres_dsn)))
  ]
    where
      opening : (o : Opening) → Keeps (touching (touched o).0) (held (touched o).1 pool p)
      opening no_dsn = refl
      opening no_pool = refl
      opening no_ping = ground arith
      opening (ready n) = ground arith

  kafka_producer-Keeps :
      (q : Part) (cfg : Config)
      → let (ts, there) = kafka_producer q cfg in Keeps (touching ts) (held there q p)
  unfolding kafka_producer new_producer
  kafka_producer-Keeps q cfg = by_brokers cfg.kafka_brokers refl
    where
      by_brokers :
          (bs : List String)
          → cfg.kafka_brokers ≡ bs
          → let (ts, there) = kafka_producer q cfg in Keeps (touching ts) (held there q p)
      by_brokers [] e = rw (kafka_producer, e) refl
      by_brokers (b ∷ bs) e = rw (kafka_producer, e) (ground arith)

  -- What was opened for these clients is closed by the run behind it.
  served :
      (cfg : Config) (c : Clients) (s : List Step)
      → Keeps s (closed p (touching (close c)))
      → (serve site cfg c).1 ≡ ran stopped
      → opened p (s ++ (serve site cfg c).0) ≡ closed p (s ++ (serve site cfg c).0)
  served cfg c s k e =
      let h = serve-closes site cfg c p e in
      omega (
        arith,
        k,
        h.0,
        h.1,
        opened-append p s (serve site cfg c).0,
        closed-append p s (serve site cfg c).0,
      )

  -- Redis, and two lists of what was opened behind it.
  opening-Keeps :
      (ts us : List Touch) (m n : ℕ)
      → Keeps (touching ts) m
      → Keeps (touching us) n
      → Keeps
          (touches (opens redis_client) ∷ touching (ts ++ us))
          (held true redis_client p + (m + n))
  opening-Keeps ts us m n h k =
      rw (touching-append ts us) (omega (arith, Keeps-append (touching ts) (touching us) m n h k))

  -- If the service runs until it is stopped, then as much was closed as was opened.
  abbrev ClosesAll : List Step × End → Type 0
  ClosesAll out = out.1 ≡ ran stopped → opened p out.0 ≡ closed p out.0

  registered-ClosesAll :
      (o : Option Registry) (rest : List Step × End)
      → ClosesAll rest
      → ClosesAll (registered site o rest)
  registered-ClosesAll none rest h e = refl
  registered-ClosesAll (some reg) rest h e = h e

  with_redis-ClosesAll :
      (rest : List Step × End)
      → ClosesAll (after (touches (opens redis_client) ∷ []) rest)
      → ClosesAll (with_redis site rest)
  unfolding redis
  with_redis-ClosesAll rest h = elim (Bool-cases site.pings_redis) [
    | inl t ↦ rw t h
    | inr f ↦ rw f (λ e. absurd (cc e))
  ]

  durable-ClosesAll :
      (cfg : Config)
      → ClosesAll (after (touches (opens redis_client) ∷ []) (serve_durable site cfg))
  unfolding serve_durable
  durable-ClosesAll cfg =
      let c : Clients = record {
        has_redis = true;
        has_postgres = (postgres site.decimal site.pgx cfg).1;
        has_producer = (kafka_producer producer cfg).1;
        has_dlq = false;
      } in
      let ts = (postgres site.decimal site.pgx cfg).0 in
      let us = (kafka_producer producer cfg).0 in
      let k : Keeps (touches (opens redis_client) ∷ touching (ts ++ us))
          (closed p (touching (close c))) =
        omega (
          arith,
          close-counts c p,
          opening-Keeps ts us _ _ (postgres-Keeps cfg) (kafka_producer-Keeps producer cfg),
        ) in
      served cfg c (touches (opens redis_client) ∷ touching (ts ++ us)) k

  location-ClosesAll :
      (cfg : Config)
      → let (us, has_producer) = kafka_producer producer cfg in
        ClosesAll (
          after (touches (opens redis_client) ∷ []) (
            after (touching us) (
              serve site cfg
                (record no_clients { has_redis = true; has_producer = has_producer }))))
  location-ClosesAll cfg =
      let c : Clients = record no_clients {
        has_redis = true;
        has_producer = (kafka_producer producer cfg).1;
      } in
      let us = (kafka_producer producer cfg).0 in
      let k : Keeps (touches (opens redis_client) ∷ touching us) (closed p (touching (close c))) =
        omega (arith, close-counts c p, kafka_producer-Keeps producer cfg) in
      served cfg c (touches (opens redis_client) ∷ touching us) k

  producer-none :
      (q : Part) (cfg : Config) → cfg.kafka_brokers ≡ [] → kafka_producer q cfg ≡ ([], false)
  unfolding kafka_producer new_producer
  producer-none q cfg e = rw (kafka_producer, e) refl

  producer-some :
      (q : Part) (cfg : Config) (b : String) (bs : List String)
      → cfg.kafka_brokers ≡ b ∷ bs
      → kafka_producer q cfg ≡ (opens q ∷ [], true)
  unfolding kafka_producer new_producer
  producer-some q cfg b bs e = rw (kafka_producer, e) refl

  serve_engine-idle :
      (cfg : Config)
      → serve_engine site cfg false false ≡ serve site cfg (record no_clients { has_redis = true })
  unfolding serve_engine
  serve_engine-idle cfg = refl

  serve_engine-some :
      (cfg : Config) (b : String) (bs : List String)
      → cfg.kafka_brokers ≡ b ∷ bs
      → serve_engine site cfg true true
        ≡ after (consumes topic_ride_requested "dispatch" ∷ []) (
            serve site cfg
              (record no_clients { has_redis = true; has_producer = true; has_dlq = true }))
  unfolding serve_engine
  serve_engine-some cfg b bs e = simp (serve_engine, e) refl

  engine-ClosesAll :
      (cfg : Config)
      → let (us, has_producer) = kafka_producer producer cfg in
        let (vs, has_dlq) = kafka_producer dlq cfg in
        ClosesAll (
          after
            (touches (opens redis_client) ∷ [])
            (after (touching (us ++ vs)) (serve_engine site cfg has_producer has_dlq)))
  engine-ClosesAll cfg = by_brokers cfg.kafka_brokers refl
    where
      by_brokers :
          (bs : List String)
          → cfg.kafka_brokers ≡ bs
          → let (us, has_producer) = kafka_producer producer cfg in
            let (vs, has_dlq) = kafka_producer dlq cfg in
            ClosesAll (
              after
                (touches (opens redis_client) ∷ [])
                (after (touching (us ++ vs)) (serve_engine site cfg has_producer has_dlq)))
      by_brokers [] e =
          let c : Clients = record no_clients { has_redis = true } in
          rw (producer-none producer cfg e, producer-none dlq cfg e, serve_engine-idle cfg)
            (served cfg c (touches (opens redis_client) ∷ []) (omega (arith, close-counts c p)))
      by_brokers (b ∷ bs) e =
          let c : Clients = record no_clients {
            has_redis = true;
            has_producer = true;
            has_dlq = true;
          } in
          rw
            (
              producer-some producer cfg b bs e,
              producer-some dlq cfg b bs e,
              serve_engine-some cfg b bs e,
            )
            (served cfg c
              (touches (opens redis_client)
                ∷ touches (opens producer)
                ∷ touches (opens dlq)
                ∷ consumes topic_ride_requested "dispatch"
                ∷ [])
              (omega (arith, close-counts c p)))

  both-ClosesAll :
      (o : Option Registry) (rest : List Step × End)
      → ClosesAll rest
      → ClosesAll
          (elim o [ none ↦ ([], panicked) | some reg ↦ registered site (new_dispatch reg) rest ])
  both-ClosesAll none rest h e = refl
  both-ClosesAll (some reg) rest h e = registered-ClosesAll (new_dispatch reg) rest h e

  -- A driver, ride, location or dispatch service that runs until it is stopped has closed each of
  -- its parts (Redis, the pool of Postgres, the producer and the producer of dead letters) as often
  -- as it has opened it, whatever of these was there.
  pub main-closes :
      (s : Service)
      → (main site s).1 ≡ ran stopped
      → opened p (main site s).0 ≡ closed p (main site s).0
  unfolding main main_driver main_ride main_location main_dispatch
  main-closes driver_service =
      registered-ClosesAll _ _ (with_redis-ClosesAll _ (durable-ClosesAll _))
  main-closes ride_service = registered-ClosesAll _ _ (with_redis-ClosesAll _ (durable-ClosesAll _))
  main-closes location_service =
      registered-ClosesAll _ _ (with_redis-ClosesAll _ (location-ClosesAll _))
  main-closes dispatch_engine = both-ClosesAll _ _ (with_redis-ClosesAll _ (engine-ClosesAll _))
