-- ===== src/Hot/Slot.antt =====
-- What the reservation scripts of internal/redis/scripts.go promise of one driver, apart from keys
-- and commands: a slot holds the lease, if there is one, and the driver's state.
pub mod Refines
pub mod Frame
pub mod Exclusive
pub mod Held
use nexus_dispatch.Prelude.{
  ℕ, ◌≡◌, Bool, true, false, ◌||◌, Option, none, some, String, ◌==◌, if◌then◌else◌,
}
use nexus_dispatch.Prelude.Int.{ℤ, pos, negsuc}
use nexus_dispatch.Redis.{Datum, text, Value, absent, str, hash, field, Redis}
use nexus_dispatch.Hot.Keys.{driver_key, driver_lease_key}

pub record Slot : Type 0 where
  pub lease : Option String
  pub state : Option String

abbrev is_state : Option String → String → Bool
is_state none t = false
is_state (some s) t = s == t

-- An empty slot is taken if the driver is AVAILABLE, or RESERVED with no lease to show for it.
abbrev pub is_reservable : Option String → Bool
is_reservable s = is_state s "AVAILABLE" || is_state s "RESERVED"

unfoldable pub reserve : String → Slot → Slot × ℤ
reserve l s = elim s.lease [
  | some owner ↦ if owner == l then (s, pos 1) else (s, pos 0)
  | none ↦
      if is_reservable s.state
      then (record { lease = some l; state = some "RESERVED" }, pos 1)
      else (s, negsuc 0)
]

unfoldable pub release : String → String → Slot → Slot × ℤ
release l target s = elim s.lease [
  | some owner ↦
      if owner == l then (record { lease = none; state = some target }, pos 1) else (s, pos 0)
  | none ↦ (s, pos 0)
]

abbrev pub is_hash : Value → Bool
is_hash (hash m) = true
is_hash _ = false

abbrev pub lease_value : Option String → Value
lease_value none = absent
lease_value (some l) = str (text l)

abbrev pub state_datum : Option String → Option Datum
state_datum none = none
state_datum (some s) = some (text s)

-- The keys of a driver hold this slot: the lease key a text or nothing, and the driver's own key a
-- hash with this state.
pub record Represents (R : Redis) (db : R.Db) (id : String) (s : Slot) : Type 0 where
  pub lease_key : R.read db (driver_lease_key id) ≡ lease_value s.lease
  pub driver_hash : is_hash (R.read db (driver_key id)) ≡ true
  pub state_field : field (R.read db (driver_key id)) "state" ≡ state_datum s.state
