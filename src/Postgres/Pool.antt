-- ===== src/Postgres/Pool.antt =====
-- internal/postgres/pool.go: the connection string, and how a pool is opened. Package pgx is a parameter.
use nexus_dispatch.Prelude.{ℕ, Bool, String, ◌==◌, ◌<>◌, eqb, if◌then◌else◌}
use nexus_dispatch.Prelude.Int.{ℤ, pos, ltb_ℤ}

-- `Config`
pub record Settings : Type 0 where
  pub host : String
  pub port : ℕ
  pub user : String
  pub password : String
  pub db : String
  pub ssl_mode : String
  pub max_conns : ℤ
  pub raw_dsn : String

abbrev or_text : String → String → String
or_text d s = if s == "" then d else s

-- `DSN`, over the decimal text of a number
unfoldable pub dsn : (ℕ → String) → Settings → String
dsn decimal c =
    if c.raw_dsn == ""
    then "postgres://"
      <> c.user
      <> ":"
      <> c.password
      <> "@"
      <> or_text "localhost" c.host
      <> ":"
      <> decimal (if eqb c.port 0 then 5432 else c.port)
      <> "/"
      <> c.db
      <> "?sslmode="
      <> or_text "disable" c.ssl_mode
    else c.raw_dsn

-- What package pgx makes of a connection string, and whether the pool is made and answers.
pub record Pgx : Type 0 where
  pub parses : String → Bool
  pub makes : ℤ → String → Bool
  pub pings : String → Bool

pub data Opening : Type 0 where
  no_dsn no_pool no_ping : Opening
  -- with the greatest number of connections
  ready : ℤ → Opening

-- `NewPool`: a pool that does not answer is closed again.
unfoldable pub new_pool : (ℕ → String) → Pgx → Settings → Opening
new_pool decimal x c =
    let max = if ltb_ℤ (pos 0) c.max_conns then c.max_conns else pos 20 in
    let text = dsn decimal c in
    if x.parses text
    then if x.makes max text then if x.pings text then ready max else no_ping else no_pool
    else no_dsn
