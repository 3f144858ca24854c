-- ===== src/Hot/Index.antt =====
-- The index of drivers by cell (internal/redis/store.go): a driver with a position is in the set of its
-- cell.
pub mod Frame
pub mod Placed
pub mod Removed
pub mod Kept
use nexus_dispatch.Prelude.{◌≡◌, Bool, true, Option, none, some, String}
use nexus_dispatch.Redis.{Datum, text, field, has_member, Redis}
use nexus_dispatch.Hot.Keys.{driver_loc_key, cell_key}

-- The cell of a driver's position, if it has one, and whether a driver is in the set of a cell.
abbrev pub cell_at : (R : Redis) → R.Db → String → Option Datum
cell_at R db id = field (R.read db (driver_loc_key id)) "cell"

abbrev pub is_in : (R : Redis) → R.Db → String → String → Bool
is_in R db id c = has_member (R.read db (cell_key c)) id

-- The sets have no deadline, as positions have.
pub record Indexed (R : Redis) (db : R.Db) : Type 0 where
  pub found : (id c : String) → cell_at R db id ≡ some (text c) → is_in R db id c ≡ true
  pub lasting : (c : String) → R.deadline db (cell_key c) ≡ none
