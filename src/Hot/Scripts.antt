-- ===== src/Hot/Scripts.antt =====
-- internal/redis/scripts.go: the four Lua scripts, each a function from the database to the new one
-- and the script's answer. `none` means that the script raised an error.
use nexus_dispatch.Prelude.{
  ℕ, zero, suc, ◌+◌, ◌-◌, ◌*◌, Bool, true, false, not, Option, none, some, String, ◌==◌, leb, min,
  if◌then◌else◌,
}
use nexus_dispatch.Prelude.Int.{ℤ, pos, negsuc}
use nexus_dispatch.Redis.{Float, Datum, text, int, real, Value, absent, as_str, field, Redis}

-- `x ▷ f ▷ g` runs the commands in the order in which they are written.
infixl 3 ◌▷◌
abbrev pub ◌▷◌ {ℓ κ} : {A : Type ℓ} {B : Type κ} → A → (A → B) → B
x ▷ f = f x

abbrev pub exists_key : Value → Bool
exists_key absent = false
exists_key _ = true

-- Lua's `v == s` for an answer v, which is nil where there is none
abbrev pub is_text : Option Datum → String → Bool
is_text (some (text t)) s = t == s
is_text _ s = false

-- `tonumber`
abbrev pub as_int : Option Datum → Option ℕ
as_int (some (int n)) = some n
as_int _ = none

module _ (R : Redis) where
  unfoldable pub write_location :
      String
      → String
      → String
      → String
      → String
      → ℕ
      → Float
      → Float
      → String
      → ℕ
      → ℕ
      → String
      → R.Db
      → R.Db
  write_location seq_key loc_key old_key new_key geo new_seq lat lng new_cell ts ttl driver db =
      db
      ▷ R.set_ex seq_key (int new_seq) 3600
      ▷ R.hset loc_key "lat" (real lat)
      ▷ R.hset loc_key "lng" (real lng)
      ▷ R.hset loc_key "cell" (text new_cell)
      ▷ R.hset loc_key "seq" (int new_seq)
      ▷ R.hset loc_key "ts" (int ts)
      ▷ R.expire loc_key (ttl * 1000)
      ▷ (λ d. if old_key == new_key then d else R.srem old_key driver d)
      ▷ R.sadd new_key driver
      ▷ R.geo_add geo (lng, lat) driver

  -- `applyLocationScript`. A guard that holds no number would raise an error in the comparison, and a
  -- position that GEOADD refuses raises one behind the other writes.
  unfoldable pub apply_location_script :
      String
      → String
      → String
      → String
      → String
      → ℕ
      → Float
      → Float
      → String
      → ℕ
      → ℕ
      → String
      → R.Db
      → R.Db × Option ℤ
  unfolding write_location
  apply_location_script seq_key loc_key old_key new_key geo new_seq lat lng new_cell ts ttl driver
        db =
      let written =
        (write_location seq_key loc_key old_key new_key geo new_seq lat lng new_cell ts ttl driver
          db) in
      let applied = if R.geo_takes (lng, lat) then some (pos 1) else none in
      elim (as_str (R.read db seq_key)) [
        | none ↦ (written, applied)
        | some (int last) ↦
            if leb (R.lua_number new_seq) (R.lua_number last)
            then (db, some (pos 0))
            else (written, applied)
        | some _ ↦ (db, none)
      ]

  -- SET key lease EX ttl; Redis refuses a term of 0.
  set_lease : String → String → ℕ → R.Db → Option R.Db
  set_lease key lease zero db = none
  set_lease key lease (suc t) db = some (R.set_ex key (text lease) (suc t) db)

  -- The part of `reserveScript` behind the test of the lease.
  reserve_free : String → String → String → String → ℕ → R.Db → R.Db × Option ℤ
  unfolding set_lease
  reserve_free lease_key driver_key ride lease ttl db =
      let found = field (R.read db driver_key) "state" in
      let state = if is_text found "RESERVED" then some (text "AVAILABLE") else found in
      if not (is_text state "AVAILABLE")
      then (db, some (negsuc 0))
      else elim (set_lease lease_key lease ttl db) [
        | none ↦ (db, none)
        | some d ↦ (
          d
              ▷ R.hset driver_key "state" (text "RESERVED")
              ▷ R.hset driver_key "reserved_ride" (text ride),
          some (pos 1),
        )
      ]

  -- `reserveScript`
  unfoldable pub reserve_script : String → String → String → String → ℕ → R.Db → R.Db × Option ℤ
  unfolding set_lease reserve_free
  reserve_script lease_key driver_key ride lease ttl db =
      if exists_key (R.read db lease_key)
      then if is_text (as_str (R.read db lease_key)) lease
        then elim (set_lease lease_key lease ttl db) [
          | none ↦ (db, none)
          | some d ↦ (d, some (pos 1))
        ]
        else (db, some (pos 0))
      else reserve_free lease_key driver_key ride lease ttl db

  -- `releaseScript`
  unfoldable pub release_script : String → String → String → String → R.Db → R.Db × Option ℤ
  release_script lease_key driver_key expected target db =
      if is_text (as_str (R.read db lease_key)) expected
      then (db ▷ R.del lease_key ▷ R.hset driver_key "state" (text target), some (pos 1))
      else (db, some (pos 0))

  -- What a bucket holds at `now`, before the request: thousandths of a token. A bucket that is not
  -- there is full.
  unfoldable pub refilled : ℕ → ℕ → ℕ → Option ℕ → Option ℕ → Option ℕ
  refilled capacity refill now none ts = some (capacity * 1000)
  refilled capacity refill now (some tokens) none = none
  refilled capacity refill now (some tokens) (some ts) =
      some (min (capacity * 1000) (tokens + (now - ts) * refill))

  -- `tokenBucketScript`, with tokens counted in thousandths: at a whole refill rate per second, each
  -- millisecond adds a whole number of them.
  unfoldable pub token_bucket_script : String → ℕ → ℕ → ℕ → ℕ → ℕ → R.Db → R.Db × Option ℤ
  unfolding refilled
  token_bucket_script key capacity refill now requested ttl db =
      let b = R.read db key in
      let store = λ (t : ℕ).
        (db ▷ R.hset key "tokens" (int t) ▷ R.hset key "ts" (int now) ▷ R.expire key ttl) in
      elim (refilled capacity refill now (as_int (field b "tokens")) (as_int (field b "ts"))) [
        | none ↦ (db, none)
        | some tokens ↦
            if leb (requested * 1000) tokens
            then (store (tokens - requested * 1000), some (pos 1))
            else (store tokens, some (pos 0))
      ]
