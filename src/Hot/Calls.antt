-- ===== src/Hot/Calls.antt =====
-- Runs of the calls of internal/redis/store.go that write to Redis, on plain ids.
use nexus_dispatch.Prelude.{ℕ, List, [], ◌∷◌, String}
use nexus_dispatch.Prelude.Int.{ℤ}
use nexus_dispatch.Redis.{Float, Datum, Redis}
use nexus_dispatch.Outcome.{Link, call}
use nexus_dispatch.Geospatial.{Geodesy}
use nexus_dispatch.Hot.Keys.{IsPlain, driver_loc_key, driver_seq_key, cell_key, geo_key}
use nexus_dispatch.Hot.LeaseValue.{LeaseValue}
use nexus_dispatch.Hot.Scripts.{apply_location_script}
use nexus_dispatch.Hot.Store

-- A call of the store, with what becomes of its commands. `applies` is the script of ApplyLocation with
-- a cell that was read as the old one at any time before.
pub data Call : Type 0 where
  registers : Link → String → String → String → ℤ → Float → Float → ℕ → Call
  locates : Link → Link → String → Float → Float → ℕ → ℕ → Call
  applies : Link → String → String → String → Float → Float → ℕ → ℕ → Call
  removes : Link → Link → String → Call
  sets_state : Link → String → String → Call
  reserves : Link → String → String → LeaseValue → ℕ → Call
  releases : Link → String → LeaseValue → String → Call
  limits : Link → String → String → ℕ → ℕ → ℕ → ℕ → Call
  writes_ride : Link → String → List (String × Datum) → ℕ → Call
  waits : ℕ → Call

-- The ids of drivers are plain.
abbrev pub IsPlainCall : Call → Type 0
IsPlainCall (registers l id nm state rating lat lng now) = IsPlain id
IsPlainCall (locates l₁ l₂ id lat lng seq ts) = IsPlain id
IsPlainCall (applies l id old new lat lng seq ts) = IsPlain id
IsPlainCall (removes l₁ l₂ id) = IsPlain id
IsPlainCall (sets_state l id state) = IsPlain id
IsPlainCall (reserves l id for_ride lv ttl) = IsPlain id
IsPlainCall (releases l id lv target) = IsPlain id
IsPlainCall (limits l scope id capacity refill requested now) = Unit
IsPlainCall (writes_ride l id fields ttl) = Unit
IsPlainCall (waits t) = Unit

module _ (R : Redis) (G : Geodesy) where
  unfoldable pub perform : Call → R.Db → R.Db
  perform (registers l id nm state rating lat lng now) db =
      (Store.init_driver R G l id nm state rating lat lng now db).0
  perform (locates l₁ l₂ id lat lng seq ts) db =
      (Store.apply_location R G l₁ l₂ id lat lng seq ts db).0
  perform (applies l id old new lat lng seq ts) db =
      (call l
        (apply_location_script R (driver_seq_key id) (driver_loc_key id) (cell_key old)
          (cell_key new) geo_key seq lat lng new ts 120 id)
        db).0
  perform (removes l₁ l₂ id) db = (Store.remove_driver R l₁ l₂ id db).0
  perform (sets_state l id state) db = (Store.set_state R l id state db).0
  perform (reserves l id for_ride lv ttl) db = (Store.reserve R l id for_ride lv ttl db).0
  perform (releases l id lv target) db = (Store.release R l id lv target db).0
  perform (limits l scope id capacity refill requested now) db =
      (Store.rate_allow R l scope id capacity refill requested now db).0
  perform (writes_ride l id fields ttl) db = (Store.set_ride R l id fields ttl db).0
  perform (waits t) db = R.wait t db

  unfoldable pub perform_all : List Call → R.Db → R.Db
  perform_all [] db = db
  perform_all (c ∷ cs) db = perform_all cs (perform c db)
