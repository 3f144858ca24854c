-- ===== src/Connect.antt =====
-- internal/connect/connect.go: the clients of Redis, Postgres and Kafka that a service opens and closes.
use nexus_dispatch.Prelude.{
  ℕ, Bool, true, false, List, [], ◌∷◌, ◌++◌, none, some, String, ◌==◌, if◌then◌else◌,
}
use nexus_dispatch.Prelude.Int.{pos}
use nexus_dispatch.Config.{Config}
use nexus_dispatch.Kafka.Producer.{new_producer}
use nexus_dispatch.Postgres.Pool.{Settings, Pgx, Opening, no_dsn, no_pool, no_ping, ready, new_pool}

pub data Part : Type 0 where
  redis_client pool producer dlq : Part

pub data Touch : Type 0 where
  opens closes : Part → Touch

-- `Clients`, by which of them are there.
pub record Clients : Type 0 where
  pub has_redis : Bool
  pub has_postgres : Bool
  pub has_producer : Bool
  pub has_dlq : Bool

abbrev pub no_clients : Clients
no_clients = record {
  has_redis = false;
  has_postgres = false;
  has_producer = false;
  has_dlq = false;
}

abbrev only : Bool → Touch → List Touch
only b t = if b then t ∷ [] else []

-- `Clients.Close`
unfoldable pub close : Clients → List Touch
close c =
    only c.has_producer (closes producer)
    ++ only c.has_dlq (closes dlq)
    ++ only c.has_postgres (closes pool)
    ++ only c.has_redis (closes redis_client)

-- `Redis`, by whether the server answers the ping: what it opens, and whether there is a store. A
-- client that got no answer stays open.
unfoldable pub redis : Bool → List Touch × Bool
redis pings = (opens redis_client ∷ [], pings)

abbrev pub from_dsn : String → Settings
from_dsn dsn = record {
  host = "";
  port = 0;
  user = "";
  password = "";
  db = "";
  ssl_mode = "";
  max_conns = pos 0;
  raw_dsn = dsn;
}

abbrev pub touched : Opening → List Touch × Bool
touched no_dsn = ([], false)
touched no_pool = ([], false)
touched no_ping = (opens pool ∷ closes pool ∷ [], false)
touched (ready n) = (opens pool ∷ [], true)

-- `Postgres`
unfoldable pub postgres : (ℕ → String) → Pgx → Config → List Touch × Bool
postgres decimal x cfg =
    if cfg.postgres_dsn == ""
    then ([], false)
    else touched (new_pool decimal x (from_dsn cfg.postgres_dsn))

-- `KafkaProducer`, for one of the two producers of `Clients`
unfoldable pub kafka_producer : Part → Config → List Touch × Bool
kafka_producer p cfg = elim (new_producer cfg.kafka_brokers) [
  | none ↦ ([], false)
  | some w ↦ (opens p ∷ [], true)
]
