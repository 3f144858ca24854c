-- ===== src/Postgres/Active.antt =====
-- What `uq_active_dispatch` guarantees (migrations/001_init.sql, internal/postgres/repo.go).
use nexus_dispatch.Prelude.{◌≤◌, ◌≡◌, Bool, false, String}
use nexus_dispatch.Postgres.{Tables, index_count}
use nexus_dispatch.Postgres.Writes.{Write, on_dispatches, perform, perform-dispatches}

-- The index holds no driver twice.
abbrev pub OneIndexed : Tables → Type 0
OneIndexed db = (driver : String) → index_count driver db.dispatches ≤ 1

module _ (is_uuid : String → Bool) where
  kept :
      (w : Write) (db : Tables)
      → on_dispatches w ≡ false
      → OneIndexed db
      → OneIndexed (perform is_uuid w db)
  kept w db e h d = rw (perform-dispatches is_uuid w db e) (h d)
