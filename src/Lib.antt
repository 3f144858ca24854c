-- ===== src/Lib.antt =====
-- A model of the dispatch platform: riders ask for a ride, drivers send their positions, an engine
-- finds the drivers near a pickup and leases one of them, and Kafka carries the events between the
-- services. All coordination is in Redis, so the model is built on an interface to it.
--
-- Prelude, Prelude/*: library names, native numbers and strings, tests, integers, lists.
-- Redis: the interface to a Redis server: a database of typed values with deadlines, and what Redis
--   documents of each command. Redis/Memory: a database in memory that meets these laws.
-- Outcome: a Go result (a value, an error or a panic), and the fate of one command (`Link`): it is
--   answered, it never arrives, or it runs and its answer is lost. Grpc: what a method answers.
-- Geospatial: internal/geospatial/h3.go. The H3 library and the distance are parameters.
-- Hot: internal/redis. Hot/Keys and Hot/LeaseValue are keys.go, Hot/Scripts is scripts.go (each Lua
--   script is a function of a database, and none is an error that the server answers), Hot/Store is
--   store.go. Hot/Slot is the abstract view of one driver's lease and state, with its refinement
--   (Refines), what other drivers see (Frame), racing attempts (Exclusive) and a lease in a history
--   of operations (Held). Hot/Guard is about the sequence numbers of positions, Hot/Bucket about the
--   rate limit. Hot/Calls is any call of the store; Hot/Schema is about the types of the values under
--   its keys, Hot/Index about the sets of drivers by cell, through runs of such calls.
--   Hot/Store/Search is SearchNearby, with what it finds in Complete.
-- Reservation: internal/reservation/manager.go. The renewal loop is a list of ticks, each with what
--   happens to the database while the loop waits for it. Reservation/Renewal: what it guarantees.
-- Dispatch: internal/dispatch/engine.go. Dispatch/Choice says which candidate is taken,
--   Dispatch/Ranking and Dispatch/Best are about the score, Dispatch/Whole about a whole
--   dispatch, Dispatch/Match about one that must succeed,
--   Dispatch/Booking about what becomes of its event in the tables.
-- Dispatch/Handler: internal/dispatchsvc/service.go, with Dispatch/Handler/Retry about the requests
--   that are tried again.
-- Location: internal/location/service.go, with what is answered and published in Location/Counts.
-- Driver: internal/driver, with the state machine in Driver/State.
-- Ride: internal/ride/service.go, with the state machine in Ride/State.
-- Kafka: the consumer of internal/kafka/kafka.go, over any handler. Kafka/Producer: its topics and producer.
-- Processor: the handlers of cmd/event-processor/main.go, which write events to Postgres.
--   Processor/History is about the positions that are kept, Processor/Again about an event that is
--   handled twice, Processor/Refused about one that no attempt gets through,
--   Processor/Backstop about the second dispatch of a driver.
-- Postgres: the tables of migrations/001_init.sql; Postgres/Statements has the statements of
--   internal/postgres/repo.go as functions of them, with the constraints, Postgres/Repo its methods,
--   Postgres/Writes runs of them, Postgres/Active the unique index on active dispatches. Postgres/Pool
--   is internal/postgres/pool.go.
-- Gateway: internal/gateway. Gateway/Hub is hub.go: its goroutines are a step relation in
--   Gateway/Hub/Run, over a heap of clients; Fan is the loop over the clients, Invariant, Safety
--   and Order say what holds in every state that is reached. Gateway/Http, Gateway/Api and Gateway/Server are
--   server.go: requests and answers, the handlers, and the chain of middleware, mux and token check
--   around them; Guards, Statuses, Throttle (the limit of an address) and Logins in Gateway/Server
--   are about the whole chain.
-- Auth: internal/auth/auth.go, over an interface to the JWT library. Config: internal/config/config.go.
-- Bootstrap: internal/server/server.go, the order in which a service opens its listeners and stops.
-- Connect: internal/connect/connect.go. Metrics: internal/metrics/metrics.go.
-- Commands: the main functions of cmd as lists of steps, with what they open and
--   close in Commands/Counts and Commands/Closes.
-- Tests: the theorems at concrete inputs.
--
-- Bounds: a version is kept modulo 2 ^ 64; Redis numbers are exact up to 2 ^ 53, beyond which only
-- their order is used; a coordinate, a distance or a score is a number of millionths, or not a number
-- where the code can meet one, so the rounding of doubles is not modelled. Times are milliseconds,
-- the terms of leases whole seconds, and the refill rate of a bucket is a whole number per second.
-- Every loop is a recursion on its list or its retries, and none takes fuel.
--
-- Left out: the H3 library, the trigonometry of a distance, the Kafka broker, package pgx, the
-- Prometheus library, JSON (a decoder is a parameter), the mux of package http, the connection of a
-- WebSocket, logs and tracing, and what is observed by the metrics. The driver and the ride service take
-- the answers of Postgres as parameters and keep what is sent to it in a list; the gateway takes the
-- services behind it as a parameter. A duration or a rate limit that is configured negative is left out
-- of Auth and Gateway.
pub mod Prelude
pub mod Redis
pub mod Outcome
pub mod Auth
pub mod Config
pub mod Postgres
pub mod Processor
pub mod Bootstrap
pub mod Metrics
pub mod Connect
pub mod Commands
pub mod Gateway
pub mod Geospatial
pub mod Hot
pub mod Grpc
pub mod Driver
pub mod Reservation
pub mod Dispatch
pub mod Kafka
pub mod Ride
pub mod Tests
pub mod Location
